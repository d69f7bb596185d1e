-- ===== src/Message/Typed.antt =====
-- Arguments that hold a value of their type, and the words and texts that they are read from.
use obs_osc.Base.{
  ℕ, zero, suc, ◌+◌, ◌^◌, ◌≤◌, ◌<◌, true, [], ◌∷◌, ◌≡◌, ◌≢◌, arith, leb, leb→le, length,
  length-drop, length-take, take, drop, Bytes, NulFree, All, Option, none, some,
}
use obs_osc.Base.Run.{Run, Settles}
use obs_osc.Message.Types.{OscArgument, blank, osc_int, osc_flt, osc_str, osc_blob}
use obs_osc.Message.Read.{read_be32, until_nul, read_string}

abbrev pub IsByte : ℕ → Type 0
IsByte c = c < 256

-- A packet of bytes, of at most `n` of them.
abbrev pub IsPacket : ℕ → Bytes → Type 0
IsPacket n buf = All IsByte buf × (length buf ≤ n)

-- An argument holds a value in its tag's own field and nothing else; the eight-byte types and the
-- other four-byte types are skipped and hold nothing.
pub data IsTyped (n : ℕ) (a : OscArgument) : Type 0 where
  int : (v : ℕ) → v < 2 ^ 32 → a ≡ osc_int v → IsTyped n a
  flt : (v : ℕ) → v < 2 ^ 32 → a ≡ osc_flt v → IsTyped n a
  str : (s : Bytes) → NulFree s → length s ≤ n → a ≡ osc_str s → IsTyped n a
  blob : (b : Bytes) → length b ≤ n → a ≡ osc_blob b → IsTyped n a
  truth : a ≡ record blank { type = b'T'; i = 1 } → IsTyped n a
  falsity : a ≡ record blank { type = b'F'; i = 0 } → IsTyped n a
  skipped :
      (tag : ℕ)
      → All (λ c. c ≢ tag) (b'i' ∷ b'f' ∷ b's' ∷ b'b' ∷ b'T' ∷ b'F' ∷ [])
      → a ≡ record blank { type = tag }
      → IsTyped n a

pub drop-All : (P : ℕ → Type 0) (k : ℕ) (s : Bytes) → All P s → All P (drop k s)
drop-All P zero s h = h
drop-All P (suc k) [] h = tt
drop-All P (suc k) (c ∷ s) (h, hs) = drop-All P k s hs

pub take-All : (P : ℕ → Type 0) (k : ℕ) (s : Bytes) → All P s → All P (take k s)
take-All P zero s h = tt
take-All P (suc k) [] h = tt
take-All P (suc k) (c ∷ s) (h, hs) = (h, take-All P k s hs)

pub sliced : (n : ℕ) (buf : Bytes) (pos k : ℕ) → IsPacket n buf → IsPacket n (take k (drop pos buf))
sliced n buf pos k (bytes, small) = (
  take-All IsByte k (drop pos buf) (drop-All IsByte pos buf bytes),
  omega (arith, small, length-take k (drop pos buf), length-drop pos buf),
)

-- Four bytes make a word.
pub be32-word :
    (buf : Bytes) (pos : ℕ)
    → All IsByte buf
    → leb (pos + 4) (length buf) ≡ true
    → Settles (λ v. v < 2 ^ 32) (read_be32 buf pos)
unfolding read_be32
be32-word buf pos bytes h =
    go (drop pos buf) (drop-All IsByte pos buf bytes)
      (omega (arith, leb→le _ _ h, length-drop pos buf))
  where
    go : (s : Bytes) → All IsByte s → 4 ≤ length s → Settles (λ v. v < 2 ^ 32) (read_be32 s 0)
    go (a ∷ b ∷ c ∷ d ∷ s) (ha, (hb, (hc, (hd, _)))) k = omega (arith, ha, hb, hc, hd)
    go [] h k = absurd (omega arith)
    go (a ∷ []) h k = absurd (omega arith)
    go (a ∷ b ∷ []) h k = absurd (omega arith)
    go (a ∷ b ∷ c ∷ []) h k = absurd (omega arith)

-- A string has no NUL, and is shorter than what it is read from.
abbrev pub IsText : ℕ → Bytes → Type 0
IsText n s = NulFree s × (length s < n)

abbrev pub Found : ℕ → Option Bytes → Type 0
Found n none = Unit {0}
Found n (some s) = IsText n s

pub until_nul-Found : (s : Bytes) → Found (length s) (until_nul s)
unfolding until_nul
until_nul-Found [] = tt
until_nul-Found (c ∷ s) = ground (arith, until_nul-Found s)

pub read_string-IsText :
    (buf : Bytes) (pos : ℕ) → Settles (λ out. IsText (length buf) out.0) (read_string buf pos)
unfolding read_string
read_string-IsText buf pos = ground (arith, until_nul-Found (drop pos buf), length-drop pos buf)

-- The argument of a result.
abbrev pub Makes : ℕ → Run (OscArgument × ℕ) → Type 0
Makes n = Settles (λ out. IsTyped n out.0)
