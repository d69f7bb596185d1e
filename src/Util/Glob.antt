-- ===== src/Util/Glob.antt =====
-- `osc_glob_match` and the selector helpers. C strings are lists of their bytes before the NUL; the
-- terminator is the end of the list. The loop runs on fuel, which Correct proves to be enough.
use obs_osc.Base.{
  ℕ, zero, suc, ◌+◌, ◌*◌, Bool, true, false, ◌||◌, ◌&&◌, not, [], ◌∷◌, Option, none, some, ◌==◌,
  ltb, if◌then◌else◌, length, Bytes,
}
use obs_osc.Base.Run.{Run, ok, fault, out_of_fuel}

-- `restart_pattern` and `restart_str`, which are set together.
abbrev pub Restart : Type 0
Restart = Option (Bytes × Bytes)

abbrev pub Round : Type 0
Round = Bytes → Bytes → Restart → Run Bool

-- The last two branches of the loop: `str = ++restart_str`, or `return false`.
unfoldable pub retry : Restart → Round → Run Bool
retry none next = ok false
retry (some (rp, [])) next = fault
retry (some (rp, _ ∷ rs)) next = next rp rs (some (rp, rs))

-- `while (*pattern == '*') pattern++; return !*pattern;`
unfoldable pub only_stars : Bytes → Bool
only_stars [] = true
only_stars (d ∷ p) = d == b'*' && only_stars p

unfoldable pub glob_loop : ℕ → Round
glob_loop zero p s restart = out_of_fuel
glob_loop (suc fuel) p [] restart = ok (only_stars p)
glob_loop (suc fuel) [] (c ∷ s) restart = retry restart (glob_loop fuel)
glob_loop (suc fuel) (d ∷ p) (c ∷ s) restart =
    let onward = glob_loop fuel p s restart in
    let star = glob_loop fuel p (c ∷ s) (some (p, c ∷ s)) in
    if d == b'?' || d == c
    then onward
    else if d == b'*'
    then star
    else retry restart (glob_loop fuel)

unfoldable pub osc_glob_match : Bytes → Bytes → Run Bool
unfolding glob_loop retry only_stars
osc_glob_match pattern str = glob_loop ((length str + 1) * (length pattern + 1)) pattern str none

-- `strchr(s, c)` finds something.
unfoldable pub contains : Bytes → ℕ → Bool
contains [] c = false
contains (d ∷ s) c = d == c || contains s c

unfoldable pub osc_has_wildcard : Bytes → Bool
unfolding contains
osc_has_wildcard pattern = contains pattern b'*' || contains pattern b'?'

unfoldable pub all_digits : Bytes → Bool
all_digits [] = true
all_digits (c ∷ s) = not (ltb c b'0' || ltb b'9' c) && all_digits s

unfoldable pub osc_index_segment : Bytes → Bool
unfolding all_digits
osc_index_segment [] = false
osc_index_segment (c ∷ s) = all_digits (c ∷ s)

-- `osc_selector_matches`, over the C library's `atoi` of a digits-only text, as a `size_t`.
unfoldable pub osc_selector_matches : (Bytes → ℕ) → Bytes → Bytes → ℕ → Run Bool
unfolding osc_index_segment osc_glob_match
osc_selector_matches atoi selector name index =
    if osc_index_segment selector then ok (atoi selector == index) else osc_glob_match selector name
