-- ===== src/Net/Sending.antt =====
-- The two loops called `send_all`, of src/osc-ws.cpp and src/osc-query-http.cpp, over a kernel that
-- takes of each offer as many bytes as it likes.
use obs_osc.Base.{
  ℕ, zero, suc, ◌+◌, ◌%◌, ◌^◌, ◌≤◌, ◌<◌, Bool, true, false, [], ◌∷◌, ◌++◌, Option, none, some,
  Bytes, length, take, if◌then◌else◌, if_known, drop, ◌≡◌, ◌≢◌, refl, sym, ap, ◌∙◌, arith,
  append-nil, append_assoc, length-drop,
}
use obs_osc.Base.Int.{ℤ, pos, pos_part, leb_ℤ, signed32}

-- `send` on the bytes from some place on, behind those already taken, with the count it is given: how
-- many it takes, or a number that is not positive.
abbrev pub Kernel : Type 0
Kernel = Bytes → Bytes → ℤ → ℤ

-- `(int)(size - sent)`
abbrev pub offered : Bytes → ℤ
offered rest = signed32 (length rest % 2 ^ 32)

signed32_small : (n : ℕ) → n < 2 ^ 31 → signed32 (n % 2 ^ 32) ≡ pos n
signed32_small n h = ground arith

offered_small : (rest : Bytes) → length rest < 2 ^ 31 → offered rest ≡ pos (length rest)
offered_small rest h = signed32_small (length rest) h

take_zero : (k : ℕ) (bytes : Bytes) → take k bytes ≡ take (0 + k) bytes
take_zero k bytes = ap (λ m. take m bytes) (omega arith)

take-suc : (n k : ℕ) (bytes : Bytes) → take (suc (n + k)) bytes ≡ take (suc n + k) bytes
take-suc n k bytes = ap (λ m. take m bytes) {x = suc (n + k)} (omega arith)

take_none : (k : ℕ) → take {A = ℕ} k [] ≡ []
take_none zero = refl
take_none (suc k) = refl

take_more : (n k : ℕ) (bytes : Bytes) → take n bytes ++ take k (drop n bytes) ≡ take (n + k) bytes
take_more zero k bytes = take_zero k bytes
take_more (suc n) k [] = take_none k ∙ sym (take_none (suc n + k))
take_more (suc n) k (c ∷ bytes) = ap (◌∷◌ c) (take_more n k bytes) ∙ take-suc n k (c ∷ bytes)

take-drop : (n : ℕ) (bytes : Bytes) → take n bytes ++ drop n bytes ≡ bytes
take-drop zero bytes = refl
take-drop (suc n) [] = refl
take-drop (suc n) (c ∷ bytes) = ap (◌∷◌ c) (take-drop n bytes)

module _ (send : Kernel) where
  -- The bytes taken, and whether they are all. Every round that goes on takes one byte at least.
  unfoldable pub send_loop : ℕ → Bytes → Bytes → Option (Bytes × Bool)
  send_loop fuel taken [] = some (taken, true)
  send_loop zero taken (c ∷ bytes) = none
  send_loop (suc fuel) taken (c ∷ bytes) =
      let n = send taken (c ∷ bytes) (offered (c ∷ bytes)) in
      let rest =
        send_loop fuel (taken ++ take (pos_part n) (c ∷ bytes)) (drop (pos_part n) (c ∷ bytes)) in
      if leb_ℤ n (pos 0) then some (taken, false) else rest

  unfoldable pub send_all : Bytes → Bytes → Option (Bytes × Bool)
  unfolding send_loop
  send_all taken bytes = send_loop (length bytes) taken bytes

  -- The loop ends; true is said of all the bytes, and false where a proper beginning of them was taken.
  pub Sent : Bytes → Bytes → Option (Bytes × Bool) → Type 0
  Sent taken bytes none = ⊥
  Sent taken bytes (some (all, true)) = all ≡ taken ++ bytes
  Sent taken bytes (some (all, false)) =
      (k : ℕ) × (k < length bytes) × (all ≡ taken ++ take k bytes)

  -- A kernel takes no more than it is offered.
  abbrev pub TakesOffer : Type 0
  TakesOffer =
      (taken offer : Bytes) → pos_part (send taken offer (pos (length offer))) ≤ length offer

  takes_offered :
      (taken bytes : Bytes)
      → TakesOffer
      → length bytes < 2 ^ 31
      → pos_part (send taken bytes (offered bytes)) ≤ length bytes
  takes_offered taken bytes offer small = rw (offered_small bytes small) (offer taken bytes)

  take_on :
      (n k : ℕ) (taken bytes : Bytes)
      → (taken ++ take n bytes) ++ take k (drop n bytes) ≡ taken ++ take (n + k) bytes
  take_on n k taken bytes =
      append_assoc taken (take n bytes) (take k (drop n bytes))
      ∙ ap (◌++◌ taken) (take_more n k bytes)

  Sent-later :
      (n : ℕ) (taken bytes : Bytes) (r : Option (Bytes × Bool))
      → n ≤ length bytes
      → Sent (taken ++ take n bytes) (drop n bytes) r
      → Sent taken bytes r
  unfolding Sent
  Sent-later n taken bytes none h s = s
  Sent-later n taken bytes (some (all, true)) h s =
      s ∙ append_assoc taken (take n bytes) (drop n bytes) ∙ ap (◌++◌ taken) (take-drop n bytes)
  Sent-later n taken bytes (some (all, false)) h (k, less, e) =
      (n + k, omega (arith, length-drop n bytes), e ∙ take_on n k taken bytes)

  send_loop-Sent :
      (fuel : ℕ) (taken bytes : Bytes)
      → TakesOffer
      → length bytes < 2 ^ 31
      → length bytes ≤ fuel
      → Sent taken bytes (send_loop fuel taken bytes)
  unfolding send_loop Sent
  send_loop-Sent fuel taken [] offer small h = sym (append-nil taken)
  send_loop-Sent zero taken (c ∷ bytes) offer small h = omega arith
  send_loop-Sent (suc fuel) taken (c ∷ bytes) offer small h =
      let n = pos_part (send taken (c ∷ bytes) (offered (c ∷ bytes))) in
      if_known (Sent taken (c ∷ bytes))
        (leb_ℤ (send taken (c ∷ bytes) (offered (c ∷ bytes))) (pos 0)) _ _
        (λ e. (0, omega arith, sym (append-nil taken)))
        (λ e. Sent-later n taken (c ∷ bytes) _ (takes_offered taken (c ∷ bytes) offer small) (
          send_loop-Sent fuel (taken ++ take n (c ∷ bytes)) (drop n (c ∷ bytes)) offer
            (ground (arith, length-drop n (c ∷ bytes)))
            (ground (arith, length-drop n (c ∷ bytes)))))

  -- Of less than 2^31 bytes, and whatever parts of them the kernel takes in each call, the loop ends,
  -- within as many rounds as there are bytes; it says true only if it handed over all of them, each
  -- once and in order, and else handed over a proper beginning of them.
  pub send_all-Sent :
      (taken bytes : Bytes)
      → TakesOffer
      → length bytes < 2 ^ 31
      → Sent taken bytes (send_all taken bytes)
  unfolding send_all
  send_all-Sent taken bytes offer small =
      send_loop-Sent (length bytes) taken bytes offer small (omega arith)

  -- The connection stands: some of an offer is taken.
  abbrev pub TakesSome : Type 0
  TakesSome =
      (taken offer : Bytes) (c : ℕ)
      → leb_ℤ (send taken (c ∷ offer) (pos (length (c ∷ offer)))) (pos 0) ≡ false

  takes_some :
      (taken bytes : Bytes) (c : ℕ)
      → TakesSome
      → length (c ∷ bytes) < 2 ^ 31
      → leb_ℤ (send taken (c ∷ bytes) (offered (c ∷ bytes))) (pos 0) ≡ false
  takes_some taken bytes c some_taken small =
      rw (offered_small (c ∷ bytes) small) (some_taken taken bytes c)

  all_sent :
      (taken bytes : Bytes) (r : Option (Bytes × Bool))
      → Sent taken bytes r
      → ((all : Bytes) → r ≢ some (all, false))
      → r ≡ some (taken ++ bytes, true)
  unfolding Sent
  all_sent taken bytes none s never = absurd s
  all_sent taken bytes (some (all, true)) s never = ap (λ a. some (a, true)) s
  all_sent taken bytes (some (all, false)) s never = absurd (never all refl)

  send_loop-never :
      (fuel : ℕ) (taken bytes all : Bytes)
      → TakesSome
      → length bytes < 2 ^ 31
      → send_loop fuel taken bytes ≢ some (all, false)
  unfolding send_loop
  send_loop-never fuel taken [] all some_taken small e = ground (arith, e)
  send_loop-never zero taken (c ∷ bytes) all some_taken small e = ground (arith, e)
  send_loop-never (suc fuel) taken (c ∷ bytes) all some_taken small e =
      let n = pos_part (send taken (c ∷ bytes) (offered (c ∷ bytes))) in
      send_loop-never fuel (taken ++ take n (c ∷ bytes)) (drop n (c ∷ bytes)) all some_taken
        (ground (arith, length-drop n (c ∷ bytes)))
        (ground (arith, takes_some taken bytes c some_taken small, e))

  -- While the connection stands, all of less than 2^31 bytes are taken.
  pub send_all-all :
      (taken bytes : Bytes)
      → TakesOffer
      → TakesSome
      → length bytes < 2 ^ 31
      → send_all taken bytes ≡ some (taken ++ bytes, true)
  unfolding send_all
  send_all-all taken bytes offer some_taken small =
      all_sent taken bytes _ (send_loop-Sent (length bytes) taken bytes offer small (omega arith))
        (λ all. send_loop-never (length bytes) taken bytes all some_taken small)
