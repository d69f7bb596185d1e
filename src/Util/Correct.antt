-- ===== src/Util/Correct.antt =====
-- The loop of `osc_glob_match` against `Matches`.
use obs_osc.Base.{
  ℕ, zero, suc, ◌+◌, ◌*◌, ◌≤◌, ◌<◌, Bool, true, false, ◌||◌, [], ◌∷◌, none, some, ◌≡◌, ◌≢◌, ◌⊎◌,
  inl, inr, refl, arith, ◌==◌, Bool-cases, length, Bytes, str_eq, str_eq_iff, sym, ap, subst, ◌∙◌,
}
use obs_osc.Base.Run.{Run, ok, reject, fault, out_of_fuel}
use mathlib.Core.Path.{ap₂}
use obs_osc.Util.Glob.{
  Restart, Round, retry, only_stars, glob_loop, osc_glob_match, contains, osc_has_wildcard,
}
use obs_osc.Util.Matches.{
  Matches, empty, any, same, leave, take, StarFree, plain_inv, star_takes, star_at_end, two_stars,
  star_past, only_stars→Matches, Matches→only_stars,
}

-- `G` is the question at the start; `F` says that its text has no star.
module _ (G F : Type 0) (k : ℕ) where
  abbrev Answers : Run Bool → Type 0
  Answers (ok true) = G
  Answers (ok false) = F → ¬ G
  Answers _ = ⊥

  -- What the saved position is worth; `m` bounds the text that is left to retry.
  abbrev Saved : ℕ → Bytes → Bytes → Restart → Type 0
  Saved m p s none = F → G → Matches p s
  Saved m p s (some (rp, rs)) =
      (Matches (b'*' ∷ rp) rs → G)
      × (F → G → Matches (b'*' ∷ rp) rs)
      × (F → Matches rp rs → Matches p s)
      × (F → StarFree rs)
      × (length s ≤ length rs)
      × (length rs ≤ m)
      × (length rp < k)

  record Inv (fuel m : ℕ) (p s : Bytes) (restart : Restart) : Type 0 where
    now : Matches p s → G
    later : F → G → Matches (b'*' ∷ p) s
    clean : F → StarFree s
    saved : Saved m p s restart
    text : length s ≤ m
    pattern_size : length p < k
    enough : m * k + length p < fuel

  -- At a star, or after a retry: the question is whether `*` and then `p` match what is left.
  Inv-at_star :
      {fuel m : ℕ} {p s : Bytes}
      → (Matches (b'*' ∷ p) s → G)
      → (F → G → Matches (b'*' ∷ p) s)
      → (F → StarFree s)
      → length s ≤ m
      → length p < k
      → m * k + length p < fuel
      → Inv fuel m p s (some (p, s))
  Inv-at_star {p} {s} sound complete clean hs hp hf = record {
    now = λ x. sound (leave refl x);
    later = complete;
    clean = clean;
    saved = (sound, complete, λ _ x. x, clean, omega arith, hs, hp);
    text = hs;
    pattern_size = hp;
    enough = hf;
  }

  Saved-onward :
      (m d c : ℕ) (p s : Bytes) (restart : Restart)
      → (F → d ≢ b'*')
      → Saved m (d ∷ p) (c ∷ s) restart
      → Saved m p s restart
  Saved-onward m d c p s none plain h = λ f g. (plain_inv (h f g) (plain f)).1
  Saved-onward m d c p s (some (rp, rs)) plain (sound, complete, down, clean, hs, hm, hp) =
      (sound, complete, λ f x. (plain_inv (down f x) (plain f)).1, clean, omega arith, hm, hp)

  Inv-onward :
      {fuel m d c : ℕ} {p s : Bytes} {restart : Restart}
      → Inv (suc fuel) m (d ∷ p) (c ∷ s) restart
      → (Matches p s → Matches (d ∷ p) (c ∷ s))
      → (F → d ≢ b'*')
      → Inv fuel m p s restart
  Inv-onward {m} {d} {c} {p} {s} {restart} i step plain = record {
    now = λ x. i.now (step x);
    later = λ f g. star_past s refl (plain f) (i.later f g) (i.clean f);
    clean = λ f. (i.clean f).1;
    saved = Saved-onward m d c p s restart plain i.saved;
    text = omega arith;
    pattern_size = omega arith;
    enough = omega arith;
  }

  retry-Answers :
      {fuel c : ℕ} {p s : Bytes} (m : ℕ) (restart : Restart) (next : Round)
      → ((m' : ℕ) (p' s' : Bytes) (r : Restart) → Inv fuel m' p' s' r → Answers (next p' s' r))
      → Inv (suc fuel) m p (c ∷ s) restart
      → (F → ¬ Matches p (c ∷ s))
      → Answers (retry restart next)
  unfolding retry
  retry-Answers m none next ih i miss = λ f g. miss f (i.saved f g)
  retry-Answers m (some (rp, [])) next ih i miss = absurd (omega arith)
  retry-Answers zero (some (rp, x ∷ rs)) next ih i miss = absurd (omega arith)
  retry-Answers (suc m) (some (rp, x ∷ rs)) next ih i miss =
      let (sound, complete, down, clean, hs, hm, hp) = i.saved in
      ih m rp rs (some (rp, rs)) (
        Inv-at_star (λ y. sound (take refl y))
          (λ f g. star_takes refl (complete f g) (clean f).0 (λ y. miss f (down f y)))
          (λ f. (clean f).1) (omega arith) (omega arith) (omega arith))

  glob_loop-Answers :
      (fuel m : ℕ) (p s : Bytes) (restart : Restart)
      → Inv fuel m p s restart
      → Answers (glob_loop fuel p s restart)
  unfolding glob_loop
  glob_loop-Answers zero m p s restart i = absurd (omega arith)
  glob_loop-Answers (suc fuel) m p [] restart i = at_end (only_stars p) refl
    where
      at_end : (b : Bool) → only_stars p ≡ b → Answers (ok b)
      at_end true e = i.now (only_stars→Matches p e)
      at_end false e = λ f g. cc (e, Matches→only_stars (star_at_end refl (i.later f g)))
  glob_loop-Answers (suc fuel) m [] (c ∷ s) restart i =
      retry-Answers m restart (glob_loop fuel) (glob_loop-Answers fuel) i λ f x. elim x [ ]
  glob_loop-Answers (suc fuel) m (d ∷ p) (c ∷ s) restart i =
      elim (Bool-cases (d == b'?' || d == c)) [
        | inl hit ↦
            let either : (d ≡ b'?') ⊎ (d ≡ c) = ground arith in
            rw hit (
              glob_loop-Answers fuel m p s restart (
                Inv-onward i (λ x. elim either [ inl e ↦ any e x | inr e ↦ same e x ])
                  (λ f e. (i.clean f).0 (ground arith))))
        | inr miss ↦ elim (Bool-cases (d == b'*')) [
          | inl star ↦
              let e : d ≡ b'*' = ground arith in
              rw (miss, star)
                (glob_loop-Answers fuel m p (c ∷ s) (some (p, c ∷ s)) (
                  Inv-at_star (λ x. i.now (rw e x))
                    (λ f g. rw e at (two_stars refl e (i.later f g) (i.clean f))) i.clean i.text
                    (omega arith) (omega arith)))
          | inr plain ↦
              rw (miss, plain)
                (retry-Answers m restart (glob_loop fuel) (glob_loop-Answers fuel) i
                  (λ f x. ground (arith, plain_inv x (ground arith))))
        ]
      ]

-- The matcher stops within its fuel and never reads past a terminator. It answers true only where
-- the pattern matches; on a text with no star it answers false only where it does not.
pub osc_glob_match-Matches :
    (p s : Bytes)
    → (b : Bool) × (osc_glob_match p s ≡ ok b)
      × (b ≡ true → Matches p s)
      × (b ≡ false → StarFree s → ¬ Matches p s)
unfolding osc_glob_match
osc_glob_match-Matches p s = go (osc_glob_match p s) refl answers
  where
    answers : Answers (Matches p s) (StarFree s) (length p + 1) (osc_glob_match p s)
    answers =
        glob_loop-Answers (Matches p s) (StarFree s) (length p + 1) _ (length s) p s none (record {
          now = λ x. x;
          later = λ f x. leave refl x;
          clean = λ f. f;
          saved = λ f x. x;
          text = omega arith;
          pattern_size = omega arith;
          enough = grind arith;
        })

    go :
        (r : Run Bool)
        → osc_glob_match p s ≡ r
        → Answers (Matches p s) (StarFree s) (length p + 1) r
        → (b : Bool) × (osc_glob_match p s ≡ ok b)
          × (b ≡ true → Matches p s)
          × (b ≡ false → StarFree s → ¬ Matches p s)
    go (ok true) e h = (true, e, λ _. h, λ no_way. cc)
    go (ok false) e h = (false, e, λ no_way. cc, λ _. h)
    go reject e h = absurd h
    go fault e h = absurd h
    go out_of_fuel e h = absurd h

no_star : (p : Bytes) → osc_has_wildcard p ≡ false → StarFree p
unfolding osc_has_wildcard contains
no_star [] h = tt
no_star (d ∷ p) h = (ground arith, no_star p (ground arith))

Matches_self : (p : Bytes) → Matches p p
Matches_self [] = empty
Matches_self (d ∷ p) = same refl (Matches_self p)

Matches→eq : {p s : Bytes} → osc_has_wildcard p ≡ false → Matches p s → p ≡ s
unfolding osc_has_wildcard contains
Matches→eq h empty = refl
Matches→eq h (any e m) = absurd (ground arith)
Matches→eq h (same e m) = ap₂ ◌∷◌ e (Matches→eq (ground arith) m)
Matches→eq h (leave e m) = absurd (ground arith)
Matches→eq h (take e m) = absurd (ground arith)

-- A pattern with no wildcard matches exactly its own text, whatever bytes that has: a lookup by
-- name may stand for the matcher there.
pub osc_glob_match_exact :
    (p s : Bytes) → osc_has_wildcard p ≡ false → osc_glob_match p s ≡ ok (str_eq p s)
osc_glob_match_exact p s h = go (osc_glob_match-Matches p s)
  where
    go :
        (b : Bool) × (osc_glob_match p s ≡ ok b)
          × (b ≡ true → Matches p s)
          × (b ≡ false → StarFree s → ¬ Matches p s)
        → osc_glob_match p s ≡ ok (str_eq p s)
    go (true, e, sound, complete) = e ∙ ap ok (sym ((str_eq_iff p s).1 (Matches→eq h (sound refl))))
    go (false, e, sound, complete) = e ∙ ap ok (sym (different (str_eq p s) refl))
      where
        different : (b : Bool) → str_eq p s ≡ b → b ≡ false
        different false q = refl
        different true q =
            let same_text = (str_eq_iff p s).0 q in
            absurd (
              complete refl (subst StarFree same_text (no_star p h))
                (subst (Matches p) same_text (Matches_self p)))

-- `*` matches every text, but on one that begins with a star and goes on the matcher says false: it
-- takes the star of the text for a literal.
pub osc_glob_match_star_text :
    (c : ℕ) (s : Bytes)
    → (osc_glob_match (b'*' ∷ []) (b'*' ∷ c ∷ s) ≡ ok false) × Matches (b'*' ∷ []) (b'*' ∷ c ∷ s)
unfolding osc_glob_match
osc_glob_match_star_text c s = (rw rounds refl, take refl (take refl (swallow s)))
  where
    rounds : (suc (suc (length s)) + 1) * (1 + 1) ≡ suc (suc (2 * length s + 4))
    rounds = omega arith

    swallow : (s : Bytes) → Matches (b'*' ∷ []) s
    swallow [] = leave refl empty
    swallow (c ∷ s) = take refl (swallow s)
