-- ===== src/Util/Matches.antt =====
-- What a glob means, with no search in it: `*` stands for any run of bytes, `?` for one byte, any
-- other byte for itself.
use obs_osc.Base.{ℕ, true, [], ◌∷◌, ◌≡◌, ◌≢◌, ◌⊎◌, inl, inr, refl, arith, Bytes, All}
use obs_osc.Util.Glob.{only_stars}

pub data Matches : Bytes → Bytes → Type 0 where
  empty : Matches [] []
  any : {d c : ℕ} {p s : Bytes} → d ≡ b'?' → Matches p s → Matches (d ∷ p) (c ∷ s)
  same : {d c : ℕ} {p s : Bytes} → d ≡ c → Matches p s → Matches (d ∷ p) (c ∷ s)
  leave : {d : ℕ} {p s : Bytes} → d ≡ b'*' → Matches p s → Matches (d ∷ p) s
  take : {d c : ℕ} {p s : Bytes} → d ≡ b'*' → Matches (d ∷ p) s → Matches (d ∷ p) (c ∷ s)

-- No byte of the text is a star.
abbrev pub StarFree : Bytes → Type 0
StarFree = All (λ c. c ≢ b'*')

-- A byte of the pattern other than `*` has to take the next byte of the text.
pub plain_inv :
    {d c : ℕ} {p s : Bytes}
    → Matches (d ∷ p) (c ∷ s)
    → d ≢ b'*'
    → ((d ≡ b'?') ⊎ (d ≡ c)) × Matches p s
plain_inv (any e m) h = (inl e, m)
plain_inv (same e m) h = (inr e, m)
plain_inv (leave e m) h = absurd (h e)
plain_inv (take e m) h = absurd (h e)

module _ {p : Bytes} where
  -- A star before a text with no star at its head either gives way or takes the head.
  pub star_cases :
      {d c : ℕ} {s : Bytes}
      → d ≡ b'*'
      → Matches (d ∷ p) (c ∷ s)
      → c ≢ b'*'
      → Matches p (c ∷ s) ⊎ Matches (d ∷ p) s
  star_cases e (any q m) h = absurd (omega arith)
  star_cases e (same q m) h = absurd (omega arith)
  star_cases e (leave q m) h = inl m
  star_cases e (take q m) h = inr m

  -- Where giving way has failed, the star takes the head.
  pub star_takes :
      {d c : ℕ} {s : Bytes}
      → d ≡ b'*'
      → Matches (d ∷ p) (c ∷ s)
      → c ≢ b'*'
      → ¬ Matches p (c ∷ s)
      → Matches (d ∷ p) s
  star_takes e m h miss = elim (star_cases e m h) [ inl x ↦ absurd (miss x) | inr x ↦ x ]

  pub star_at_end : {d : ℕ} → d ≡ b'*' → Matches (d ∷ p) [] → Matches p []
  star_at_end e (leave q m) = m

  pub two_stars :
      {d e : ℕ} {s : Bytes}
      → d ≡ b'*'
      → e ≡ b'*'
      → Matches (d ∷ e ∷ p) s
      → StarFree s
      → Matches (e ∷ p) s
  two_stars hd he (leave q m) f = m
  two_stars hd he (take q m) f = take he (two_stars hd he m f.1)
  two_stars hd he (any q m) f = absurd (omega arith)
  two_stars hd he (same q m) f = absurd (f.0 (omega arith))

  -- The greedy choice loses nothing: where a plain byte follows a star, `p` begins behind the head.
  pub star_past :
      {d e c : ℕ} (s : Bytes)
      → d ≡ b'*'
      → e ≢ b'*'
      → Matches (d ∷ e ∷ p) (c ∷ s)
      → StarFree (c ∷ s)
      → Matches (d ∷ p) s
  star_past s hd he (leave q m) f = leave hd (plain_inv m he).1
  star_past [] hd he (take q (leave r (leave t m))) f = absurd (he t)
  star_past (c ∷ s) hd he (take q m) f = take hd (star_past s hd he m f.1)
  star_past s hd he (any q m) f = absurd (omega arith)
  star_past s hd he (same q m) f = absurd (f.0 (omega arith))

pub only_stars→Matches : (p : Bytes) → only_stars p ≡ true → Matches p []
unfolding only_stars
only_stars→Matches [] h = empty
only_stars→Matches (d ∷ p) h = leave (ground arith) (only_stars→Matches p (ground arith))

pub Matches→only_stars : {p : Bytes} → Matches p [] → only_stars p ≡ true
unfolding only_stars
Matches→only_stars empty = refl
Matches→only_stars (leave e m) = ground (arith, Matches→only_stars m)
