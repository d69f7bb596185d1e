-- ===== src/Base/Text.antt =====
-- Byte strings: `std::string` and `const char *` are lists of bytes, NUL-free where a C string is.
use Prim.Native.Nat.{ℕ}
use Prim.Native.Char.{code}
use Prim.Native.String.{String}
use mathlib.Core.Path.{◌≡◌, refl}
use mathlib.Core.Bool.{Bool, true, false, ◌&&◌}
use mathlib.Core.Logic.{◌≢◌, ◌↔◌}
use mathlib.Core.List.{List, [], ◌∷◌, ◌++◌}
use native.Mathlib.Omega.{arith}
use obs_osc.Base.Tests.{◌==◌, if◌then◌else◌}
use obs_osc.Base.Lists.{All}

abbrev pub Bytes : Type 0
Bytes = List ℕ

-- The code points of a text: its bytes, since the program's own texts are ASCII.
abbrev pub codes : String → Bytes
codes String.[] = []
codes (String.◌∷◌ c s) = code c ∷ codes s

-- No byte is NUL, so the text is the same seen as a C string.
abbrev pub NulFree : Bytes → Type 0
NulFree = All (λ c. c ≢ 0)

-- `c_str()` read as a C string: the bytes before the first NUL.
unfoldable pub c_str : Bytes → Bytes
c_str [] = []
c_str (c ∷ s) = if c == 0 then [] else c ∷ c_str s

-- `==` of two strings.
unfoldable pub str_eq : Bytes → Bytes → Bool
str_eq [] [] = true
str_eq [] (_ ∷ _) = false
str_eq (_ ∷ _) [] = false
str_eq (c ∷ s) (d ∷ t) = c == d && str_eq s t

-- `compare(0, strlen(prefix), prefix) == 0` and `memcmp`: the second list begins with the first.
unfoldable pub starts_with : Bytes → Bytes → Bool
starts_with [] s = true
starts_with (_ ∷ _) [] = false
starts_with (c ∷ p) (d ∷ s) = c == d && starts_with p s

pub c_str-NulFree : (s : Bytes) → NulFree s → c_str s ≡ s
unfolding c_str
c_str-NulFree [] h = refl
c_str-NulFree (c ∷ s) h = ground (arith, c_str-NulFree s h.1, h.0)

pub str_eq_refl : (s : Bytes) → str_eq s s ≡ true
unfolding str_eq
str_eq_refl [] = refl
str_eq_refl (c ∷ s) = ground (arith, str_eq_refl s)

pub str_eq→eq : (s t : Bytes) → str_eq s t ≡ true → s ≡ t
unfolding str_eq
str_eq→eq [] [] h = refl
str_eq→eq [] (_ ∷ _) h = ground arith
str_eq→eq (_ ∷ _) [] h = ground arith
str_eq→eq (c ∷ s) (d ∷ t) h = ground (arith, str_eq→eq s t)

-- The test decides equality of texts.
pub str_eq_iff : (s t : Bytes) → (str_eq s t ≡ true) ↔ (s ≡ t)
str_eq_iff s t = (str_eq→eq s t, λ e. rw e (str_eq_refl t))

pub starts_with_append : (p s : Bytes) → starts_with p (p ++ s) ≡ true
unfolding starts_with
starts_with_append [] s = refl
starts_with_append (c ∷ p) s = ground (arith, starts_with_append p s)

pub starts_with→append : (p s : Bytes) → starts_with p s ≡ true → (t : Bytes) × (s ≡ p ++ t)
unfolding starts_with
starts_with→append [] s h = (s, refl)
starts_with→append (_ ∷ _) [] h = ground arith
starts_with→append (c ∷ p) (d ∷ s) h =
    let (t, e) = starts_with→append p s (ground arith) in (t, ground arith)
