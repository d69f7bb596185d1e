-- ===== src/Message/Reads.antt =====
-- The readers of src/osc-message.cpp on every input.
use obs_osc.Base.{
  ℕ, ◌+◌, ◌≤◌, true, [], ◌∷◌, ◌≡◌, arith, leb, leb→le, length, drop, length-drop, Bytes,
}
use obs_osc.Base.Run.{Run, Settles}
use obs_osc.Message.Read.{read_be32, read_string, slice}
use obs_osc.Message.Parse.{read_argument}

-- Any value, but no bad read and no lack of fuel.
abbrev pub Fine {ℓ} : {A : Type ℓ} → Run A → Type 0
Fine = Settles (λ _. Unit {0})

pub be32-Fine :
    (buf : Bytes) (pos : ℕ) → leb (pos + 4) (length buf) ≡ true → Fine (read_be32 buf pos)
unfolding read_be32
be32-Fine buf pos h = go (drop pos buf) (omega (arith, leb→le _ _ h, length-drop pos buf))
  where
    go : (s : Bytes) → 4 ≤ length s → Fine (read_be32 s 0)
    go (a ∷ b ∷ c ∷ d ∷ s) k = tt
    go [] k = absurd (omega arith)
    go (a ∷ []) k = absurd (omega arith)
    go (a ∷ b ∷ []) k = absurd (omega arith)
    go (a ∷ b ∷ c ∷ []) k = absurd (omega arith)

pub read_string-Fine : (buf : Bytes) (pos : ℕ) → Fine (read_string buf pos)
unfolding read_string
read_string-Fine buf pos = ground arith

pub read_argument-Fine : (buf : Bytes) (tag pos : ℕ) → Fine (read_argument buf tag pos)
unfolding read_argument slice
read_argument-Fine buf tag pos = ground (arith, be32-Fine buf pos, read_string-Fine buf pos)

-- Nothing in particular.
abbrev pub Anything {ℓ} : {A : Type ℓ} → A → Type 0
Anything _ = Unit {0}
