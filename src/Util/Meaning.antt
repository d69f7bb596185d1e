-- ===== src/Util/Meaning.antt =====
-- What `osc_glob_match` answers, in terms of the relation that a glob means.
use obs_osc.Base.{true, false, ◌≡◌, ◌↔◌, ◌⊎◌, inl, inr, refl, Bytes, Bool, arith}
use obs_osc.Base.Run.{ok}
use obs_osc.Util.Glob.{osc_glob_match}
use obs_osc.Util.Matches.{Matches, StarFree}
use obs_osc.Util.Correct.{osc_glob_match-Matches}

-- The matcher always stops within its fuel, never reads past a terminator, and says true only where
-- the pattern matches.
pub osc_glob_match_sound :
    (p s : Bytes) → ((osc_glob_match p s ≡ ok true) × Matches p s) ⊎ (osc_glob_match p s ≡ ok false)
osc_glob_match_sound p s = go (osc_glob_match-Matches p s)
  where
    go :
        (b : Bool) × (osc_glob_match p s ≡ ok b)
          × (b ≡ true → Matches p s)
          × (b ≡ false → StarFree s → ¬ Matches p s)
        → ((osc_glob_match p s ≡ ok true) × Matches p s) ⊎ (osc_glob_match p s ≡ ok false)
    go (true, e, sound, complete) = inl (e, sound refl)
    go (false, e, sound, complete) = inr e

-- On a text with no star the matcher answers, and says true exactly where the pattern matches.
pub osc_glob_match_iff :
    (p s : Bytes)
    → StarFree s
    → (b : Bool) × (osc_glob_match p s ≡ ok b) × ((b ≡ true) ↔ Matches p s)
osc_glob_match_iff p s free = go (osc_glob_match-Matches p s)
  where
    go :
        (b : Bool) × (osc_glob_match p s ≡ ok b)
          × (b ≡ true → Matches p s)
          × (b ≡ false → StarFree s → ¬ Matches p s)
        → (b : Bool) × (osc_glob_match p s ≡ ok b) × ((b ≡ true) ↔ Matches p s)
    go (true, e, sound, complete) = (true, e, (sound, λ m. refl))
    go (false, e, sound, complete) =
        (false, e, (λ h. ground arith, λ m. absurd (complete refl free m)))
