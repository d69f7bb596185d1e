-- ===== src/Base/Decimal.antt =====
-- `std::to_string` of an `int`, and what its text stands for.
use Prim.Native.Nat.{ℕ, ◌+◌, ◌-◌, ◌*◌, ◌/◌, ◌%◌, ◌<◌, ◌≤◌}
use mathlib.Core.Path.{◌≡◌, refl, ◌∙◌}
use mathlib.Core.Bool.{◌&&◌}
use mathlib.Core.List.{[], ◌∷◌, ◌++◌}
use native.Mathlib.Omega.{arith}
use obs_osc.Base.Tests.{ltb, leb, ltb→lt, if_known, if◌then◌else◌}
use obs_osc.Base.Lists.{All, All-append}
use obs_osc.Base.Text.{Bytes}
use obs_osc.Base.Int.{ℤ, pos, negsuc}

-- `fuel` bounds the digits; a number has no more digits than its value, plus one.
unfoldable pub digits : ℕ → ℕ → Bytes
digits ℕ.zero n = []
digits (ℕ.suc fuel) n =
    let before = digits fuel (n / 10) in
    if ltb n 10 then (48 + n) ∷ [] else before ++ ((48 + n % 10) ∷ [])

unfoldable pub to_string : ℤ → Bytes
unfolding digits
to_string (pos n) = digits (ℕ.suc n) n
to_string (negsuc n) = 45 ∷ digits (ℕ.suc (ℕ.suc n)) (ℕ.suc n)

-- The number that decimal digits stand for, behind `n`.
unfoldable pub number : ℕ → Bytes → ℕ
number n [] = n
number n (c ∷ s) = number (n * 10 + (c - 48)) s

number-append : (n : ℕ) (s t : Bytes) → number n (s ++ t) ≡ number (number n s) t
unfolding number
number-append n [] t = refl
number-append n (c ∷ s) t = number-append (n * 10 + (c - 48)) s t

number-digits : (fuel n : ℕ) → n < fuel → number 0 (digits fuel n) ≡ n
unfolding digits number
number-digits ℕ.zero n h = ground arith
number-digits (ℕ.suc fuel) n h = ground (
  arith,
  number-digits fuel (n / 10),
  number-append 0 (digits fuel (n / 10)) ((48 + n % 10) ∷ []),
)

-- The number that a text begins with, as a client reads it.
unfoldable pub read_number : ℕ → Bytes → ℕ
read_number n [] = n
read_number n (c ∷ s) =
    let rest = read_number (n * 10 + (c - 48)) s in if leb 48 c && leb c 57 then rest else n

abbrev pub IsDigit : ℕ → Type 0
IsDigit c = (48 ≤ c) × (c ≤ 57)

digits-IsDigit : (fuel n : ℕ) → All IsDigit (digits fuel n)
unfolding digits
digits-IsDigit ℕ.zero n = tt
digits-IsDigit (ℕ.suc fuel) n =
    if_known (All IsDigit) (ltb n 10) _ _ (λ e. (ground (arith, ltb→lt n 10 e), tt))
      (λ _. All-append IsDigit _ _ (digits-IsDigit fuel (n / 10)) (ground arith, tt))

read_number_stops :
    (n : ℕ) (s : Bytes) (c : ℕ) (t : Bytes)
    → All IsDigit s
    → c < 48
    → read_number n (s ++ (c ∷ t)) ≡ number n s
unfolding read_number number
read_number_stops n [] c t h low = ground arith
read_number_stops n (d ∷ s) c t (h, hs) low =
    ground (arith, read_number_stops (n * 10 + (d - 48)) s c t hs low)

-- The text of a number that is not negative is read back as that number, up to a byte below the digits.
pub read_number-to_string :
    (n c : ℕ) (t : Bytes) → c < 48 → read_number 0 (to_string (pos n) ++ (c ∷ t)) ≡ n
unfolding to_string
read_number-to_string n c t low =
    read_number_stops 0 (digits (ℕ.suc n) n) c t (digits-IsDigit (ℕ.suc n) n) low
    ∙ number-digits (ℕ.suc n) n (omega arith)

pub to_string-IsDigit : (n : ℕ) → All IsDigit (to_string (pos n))
unfolding to_string
to_string-IsDigit n = digits-IsDigit (ℕ.suc n) n
