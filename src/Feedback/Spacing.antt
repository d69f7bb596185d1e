-- ===== src/Feedback/Spacing.antt =====
-- The spacing that `throttled` keeps between two sends of a key.
use obs_osc.Base.{
  ◌&&◌, if_known, ℕ, ◌+◌, ◌<◌, ◌≤◌, ◌≡◌, Bool, true, false, List, [], ◌∷◌, Option, none, some, leb,
  ltb, if◌then◌else◌, length, Bytes, str_eq, str_eq_iff, str_eq_refl, All, if_both, subst, sym, ap,
  ◌∙◌, Bool-cases, inl, inr, arith,
}
use obs_osc.Feedback.Throttle.{
  LastSent, prune_at, stale_after, milliseconds, find, prune, assign, prune_full, attempt,
  throttled,
}

find-assign : (key : Bytes) (now : ℕ) (m : LastSent) → find key (assign key now m) ≡ some now
unfolding find assign
find-assign key now [] = rw (str_eq_refl key)
find-assign key now ((k, time) ∷ m) = elim (Bool-cases (str_eq k key)) [
  | inl e ↦ rw (e, e)
  | inr e ↦ rw (e, e) (find-assign key now m)
]

find-assign_other :
    (key other : Bytes) (now : ℕ) (m : LastSent)
    → str_eq other key ≡ false
    → find key (assign other now m) ≡ find key m
unfolding find assign
find-assign_other key other now [] h = rw h
find-assign_other key other now ((k, time) ∷ m) h =
    let rest = find-assign_other key other now m h in
    let same : str_eq k other ≡ true → str_eq k key ≡ false =
      λ e. rw ((str_eq_iff k other).0 e) h in
    ground (arith, rest, same)

-- The first entry of a key stays when it is not stale.
find-prune :
    (key : Bytes) (now sent : ℕ) (m : LastSent)
    → now ≤ sent + stale_after
    → find key m ≡ some sent
    → find key (prune now m) ≡ some sent
unfolding find prune
find-prune key now sent [] fresh h = ground arith
find-prune key now sent ((k, time) ∷ m) fresh h =
    let rest = find-prune key now sent m fresh in ground (arith, rest)

-- A call on the map: its time, its key and its interval in milliseconds.
abbrev pub Attempt : Type 0
Attempt = ℕ × Bytes × ℕ

-- The results of the calls with the key and at least the interval, on the map that the calls before
-- leave, each with its own interval.
unfoldable pub results : ℕ → Bytes → LastSent → List Attempt → List Bool
unfolding throttled
results ms key m [] = []
results ms key m ((now, k, own) ∷ calls) =
    let (next, held) = throttled now m k own in
    let rest = results ms key next calls in if str_eq k key && leb ms own then held ∷ rest else rest

-- The key is in the map, with a time not before `low`.
Has : Bytes → ℕ → LastSent → Type 0
Has key low m = (sent : ℕ) × (find key m ≡ some sent) × (low ≤ sent)

attempt-hit :
    (now sent ms : ℕ) (m : LastSent) (key : Bytes)
    → now < sent + milliseconds ms
    → attempt now m key ms (some sent) ≡ (m, true)
unfolding attempt
attempt-hit now sent ms m key soon =
    let early : ltb now (sent + milliseconds ms) ≡ true = ground arith in rw early

assign-Has :
    (now low : ℕ) (m : LastSent) (key k : Bytes)
    → low ≤ now
    → Has key low m
    → Has key low (assign k now m)
unfolding Has
assign-Has now low m key k later (sent, h, below) = elim (Bool-cases (str_eq k key)) [
  | inl e ↦ (
    now,
    subst (λ k'. find key (assign k' now m) ≡ some now) (sym ((str_eq_iff k key).0 e))
        (find-assign key now m),
    later,
  )
  | inr e ↦ (sent, find-assign_other key k now m e ∙ h, below)
]

attempt-Has :
    (now low own : ℕ) (m : LastSent) (key k : Bytes) (found : Option ℕ)
    → low ≤ now
    → Has key low m
    → Has key low (attempt now m k own found).0
unfolding attempt
attempt-Has now low own m key k none later h = assign-Has now low m key k later h
attempt-Has now low own m key k (some time) later h =
    if_both (λ (out : LastSent × Bool). Has key low out.0) (ltb now (time + milliseconds own)) _ _ h
      (assign-Has now low m key k later h)

-- A key sent within the five seconds stays in the map behind the pruning.
prune_full-Has :
    (now low : ℕ) (m : LastSent) (key : Bytes)
    → now ≤ low + stale_after
    → Has key low m
    → Has key low (prune_full now m)
unfolding prune_full Has
prune_full-Has now low m key fresh (sent, h, below) = (
  sent,
  if_both (λ m'. find key m' ≡ some sent) (leb prune_at (length m)) _ _
      (find-prune key now sent m (omega arith) h) h,
  below,
)

throttled-Has :
    (now low own : ℕ) (m : LastSent) (key k : Bytes)
    → low ≤ now
    → now ≤ low + stale_after
    → Has key low m
    → Has key low (throttled now m k own).0
unfolding throttled
throttled-Has now low own m key k later fresh h =
    attempt-Has now low own (prune_full now m) key k _ later (prune_full-Has now low m key fresh h)

throttled-holds :
    (now low own : ℕ) (m : LastSent) (key : Bytes)
    → now ≤ low + stale_after
    → now < low + milliseconds own
    → Has key low m
    → (throttled now m key own).1 ≡ true
unfolding throttled Has
throttled-holds now low own m key fresh soon h =
    let (sent, found, below) = prune_full-Has now low m key fresh h in
    ap (λ f. (attempt now (prune_full now m) key own f).1) found
    ∙ ap (λ out. out.1) (attempt-hit now sent own (prune_full now m) key (omega arith))

results-held :
    (low ms : ℕ) (m : LastSent) (key : Bytes) (calls : List Attempt)
    → milliseconds ms ≤ stale_after
    → Has key low m
    → All (λ call. (low ≤ call.0) × (call.0 < low + milliseconds ms)) calls
    → All (λ held. held ≡ true) (results ms key m calls)
unfolding results
results-held low ms m key [] short h soon = tt
results-held low ms m key ((now, k, own) ∷ calls) short h ((later, early), soon) =
    let keeps = throttled-Has now low own m key k later (omega arith) h in
    let rest = results-held low ms (throttled now m k own).0 key calls short keeps soon in
    if_known (All (λ held. held ≡ true)) (str_eq k key && leb ms own) _ _
      (λ e.
        let (same, longer) = named_longer k key ms own e in
        (
          ap (λ k'. (throttled now m k' own).1) same
              ∙ throttled-holds now low own m key (omega arith) (omega arith) h,
          rest,
        ))
      (λ _. rest)
  where
    named_longer :
        (k key : Bytes) (ms own : ℕ) → (str_eq k key && leb ms own) ≡ true → (k ≡ key) × (ms ≤ own)
    named_longer k key ms own e = ground (arith, str_eq_iff k key)

-- A call that lets a key pass leaves its time in the map.
attempt-pass :
    (now ms : ℕ) (m : LastSent) (key : Bytes) (found : Option ℕ)
    → (attempt now m key ms found).1 ≡ false
    → find key (attempt now m key ms found).0 ≡ some now
unfolding attempt
attempt-pass now ms m key none passed = find-assign key now m
attempt-pass now ms m key (some time) passed =
    elim (Bool-cases (ltb now (time + milliseconds ms))) [
      | inl e ↦ ground (arith, e)
      | inr e ↦ rw e (find-assign key now m)
    ]

-- After a call that lets a key pass, every call with that key and at least that call's interval is held
-- back while the interval lasts, whatever calls, of whatever keys and intervals, and prunings of the
-- map come between. This is on a clock that does not go back, where the interval is at most the five
-- seconds after which the map forgets.
pub throttled_spacing :
    (now ms : ℕ) (m : LastSent) (key : Bytes) (calls : List Attempt)
    → milliseconds ms ≤ stale_after
    → (throttled now m key ms).1 ≡ false
    → All (λ call. (now ≤ call.0) × (call.0 < now + milliseconds ms)) calls
    → All (λ held. held ≡ true) (results ms key (throttled now m key ms).0 calls)
unfolding throttled Has
throttled_spacing now ms m key calls short passed soon =
    results-held now ms (throttled now m key ms).0 key calls short
      (now, attempt-pass now ms (prune_full now m) key _ passed, omega arith) soon
