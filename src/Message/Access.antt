-- ===== src/Message/Access.antt =====
-- The accessors of `osc_message`, with their defaults. The two conversions between `int32_t` and
-- `float` are the hardware's, a parameter; comparisons with 0.0f and -1.0f are exact on IEEE bits.
use obs_osc.Base.{
  ℕ, ◌-◌, ◌^◌, Bool, true, false, not, ◌||◌, [], ◌∷◌, none, some, ◌==◌, if◌then◌else◌, get_elem?,
  Bytes,
}
use obs_osc.Message.Types.{OscArgument, OscMessage}

-- `(int32_t)f` and `(float)i`, on bit patterns.
pub record Conversions : Type 0 where
  pub int_of_float : ℕ → ℕ
  pub float_of_int : ℕ → ℕ

-- `f != 0.0f`: both zeros are equal to 0, and a NaN is not.
abbrev pub float_nonzero : ℕ → Bool
float_nonzero f = not (f == 0 || f == 2 ^ 31)

abbrev pub bool_of : OscArgument → Bool → Bool
bool_of a def =
    if a.type == b'T'
    then true
    else if a.type == b'F'
    then false
    else if a.type == b'i'
    then not (a.i == 0)
    else if a.type == b'f'
    then float_nonzero a.f
    else def

unfoldable pub arg_bool : OscMessage → ℕ → Bool → Bool
arg_bool msg index def = elim (get_elem? msg.args index) [ none ↦ def | some a ↦ bool_of a def ]

abbrev pub int_of : Conversions → OscArgument → ℕ → ℕ
int_of conv a def =
    if a.type == b'i' || a.type == b'T' || a.type == b'F'
    then a.i
    else if a.type == b'f'
    then conv.int_of_float a.f
    else def

unfoldable pub arg_int : Conversions → OscMessage → ℕ → ℕ → ℕ
arg_int conv msg index def = elim (get_elem? msg.args index) [
  | none ↦ def
  | some a ↦ int_of conv a def
]

abbrev pub float_of : Conversions → OscArgument → ℕ → ℕ
float_of conv a def =
    if a.type == b'f' then a.f else if a.type == b'i' then conv.float_of_int a.i else def

unfoldable pub arg_float : Conversions → OscMessage → ℕ → ℕ → ℕ
arg_float conv msg index def = elim (get_elem? msg.args index) [
  | none ↦ def
  | some a ↦ float_of conv a def
]

unfoldable pub arg_string : OscMessage → ℕ → Bytes → Bytes
arg_string msg index def = elim (get_elem? msg.args index) [
  | none ↦ def
  | some a ↦ if a.type == b's' then a.s else def
]

abbrev toggles : OscArgument → Bool
toggles a =
    if a.type == b'i'
    then a.i == (2 ^ 32 - 1)
    else if a.type == b'f'
    then a.f == 0xbf80_0000
    else false

-- `arg_is_toggle` of src/osc-controls.cpp: the first argument is -1 or -1.0f.
unfoldable pub arg_is_toggle : OscMessage → Bool
arg_is_toggle msg = elim msg.args [ [] ↦ false | a ∷ _ ↦ toggles a ]
