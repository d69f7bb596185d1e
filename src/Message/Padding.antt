-- ===== src/Message/Padding.antt =====
-- Lengths of what src/osc-message.cpp writes: every piece is padded to a multiple of four bytes.
use obs_osc.Base.{
  ℕ, zero, suc, ◌+◌, ◌-◌, ◌*◌, ◌/◌, ◌%◌, ◌^◌, ◌<◌, ◌∷◌, ◌≡◌, refl, ap, arith, length, length-append,
  Bytes, NulFree, c_str,
}
use obs_osc.Message.Types.{OscArgument, osc_int, osc_flt, osc_str, osc_blob}
use obs_osc.Message.Read.{pad, write_be32, write_padded_string}
use obs_osc.Message.Build.{zeros, write_blob, write_argument}

-- What the four factories of src/osc-message.h build from values in range: the only arguments that
-- the program ever sends.
pub data IsSendable (a : OscArgument) : Type 0 where
  int : (v : ℕ) → v < 2 ^ 32 → a ≡ osc_int v → IsSendable a
  flt : (v : ℕ) → v < 2 ^ 32 → a ≡ osc_flt v → IsSendable a
  str : (s : Bytes) → NulFree s → length s + 4 < 2 ^ 32 → a ≡ osc_str s → IsSendable a
  blob : (b : Bytes) → length b + 4 < 2 ^ 32 → a ≡ osc_blob b → IsSendable a

pub length-write_be32 : (v : ℕ) → length (write_be32 v) ≡ 4
unfolding write_be32
length-write_be32 v = refl

-- The loop of `write_padded_string` ends by its test: it needs at most three rounds.
pub length-pad : (len : ℕ) → length (pad 4 len) ≡ (4 - len % 4) % 4
unfolding pad
length-pad len = ground arith

pub length-zeros : (n : ℕ) → length (zeros n) ≡ n
length-zeros zero = refl
length-zeros (suc n) = ap suc (length-zeros n)

pub length-write_padded_string :
    (s : Bytes) → length (write_padded_string s) ≡ (length (c_str s) + 4) / 4 * 4
unfolding write_padded_string
length-write_padded_string s = omega (
  arith,
  length-append (c_str s) (0 ∷ pad 4 (length (c_str s) + 1)),
  length-pad (length (c_str s) + 1),
)

pub length-write_blob :
    (b : Bytes) → length b + 4 < 2 ^ 32 → length (write_blob b) ≡ 4 + (length b + 3) / 4 * 4
unfolding write_blob write_be32
length-write_blob b h = omega (
  arith,
  length-append b (zeros ((4 - length b % 2 ^ 32 % 4) % 4)),
  length-zeros ((4 - length b % 2 ^ 32 % 4) % 4),
)

pub length-write_argument : (a : OscArgument) → IsSendable a → length (write_argument a) % 4 ≡ 0
unfolding write_argument write_be32
length-write_argument a (int v h e) = rw e refl
length-write_argument a (flt v h e) = rw e refl
length-write_argument a (str s n h e) = rw e (omega (arith, length-write_padded_string s))
length-write_argument a (blob b h e) = rw e (omega (arith, length-write_blob b h))
