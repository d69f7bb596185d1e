-- ===== src/Message/Types.antt =====
-- The data of src/osc-message.h. `i` and `f` are 32-bit patterns: an `int32_t` in two's complement
-- and an IEEE binary32, which the codec only ever copies bit by bit.
use obs_osc.Base.{ℕ, List, [], Bytes}

pub record OscArgument : Type 0 where
  pub type : ℕ
  pub i : ℕ
  pub f : ℕ
  pub s : Bytes
  pub b : Bytes

pub record OscMessage : Type 0 where
  pub address : Bytes
  pub args : List OscArgument

-- An argument as its field initialisers leave it.
abbrev pub blank : OscArgument
blank = record { type = 0; i = 0; f = 0; s = []; b = [] }

abbrev pub osc_int : ℕ → OscArgument
osc_int v = record blank { type = b'i'; i = v }

abbrev pub osc_flt : ℕ → OscArgument
osc_flt v = record blank { type = b'f'; f = v }

abbrev pub osc_str : Bytes → OscArgument
osc_str v = record blank { type = b's'; s = v }

abbrev pub osc_blob : Bytes → OscArgument
osc_blob v = record blank { type = b'b'; b = v }
