-- ===== src/Message/Read.antt =====
-- The readers and writers at the top of src/osc-message.cpp. A buffer is the list of its bytes, and
-- `data + pos` is `drop pos buf`.
use obs_osc.Base.{
  ℕ, zero, suc, ◌+◌, ◌*◌, ◌/◌, ◌%◌, ◌^◌, [], ◌∷◌, ◌++◌, Option, none, some, ◌==◌, leb,
  if◌then◌else◌, length, take, drop, Bytes, c_str,
}
use obs_osc.Base.Run.{Run, ok, reject, fault}

be32_of : Bytes → Run ℕ
be32_of (a ∷ b ∷ c ∷ d ∷ _) = ok (a * 2 ^ 24 + b * 2 ^ 16 + c * 2 ^ 8 + d)
be32_of _ = fault

-- `read_be32(data + pos)`; the four shifted bytes do not overlap, so `|` is `+`.
unfoldable pub read_be32 : Bytes → ℕ → Run ℕ
unfolding be32_of
read_be32 buf pos = be32_of (drop pos buf)

unfoldable pub write_be32 : ℕ → Bytes
write_be32 v = v / 2 ^ 24 % 256 ∷ v / 2 ^ 16 % 256 ∷ v / 2 ^ 8 % 256 ∷ v % 256 ∷ []

-- `n & ~3u`: the mask is 32 bits wide.
abbrev pub mask4 : ℕ → ℕ
mask4 n = n % 2 ^ 32 / 4 * 4

-- `memchr` for NUL, and the bytes before it.
unfoldable pub until_nul : Bytes → Option Bytes
until_nul [] = none
until_nul (c ∷ s) =
    if c == 0 then some [] else elim (until_nul s) [ none ↦ none | some t ↦ some (c ∷ t) ]

-- The string, and the position behind its padding.
unfoldable pub read_string : Bytes → ℕ → Run (Bytes × ℕ)
unfolding until_nul
read_string buf pos = if leb (length buf) pos then reject else elim (until_nul (drop pos buf)) [
  | none ↦ reject
  | some s ↦ ok (s, pos + mask4 (length s + 4))
]

-- `assign(data + pos, data + pos + n)`
unfoldable pub slice : Bytes → ℕ → ℕ → Run Bytes
slice buf pos n = if leb (pos + n) (length buf) then ok (take n (drop pos buf)) else fault

-- `while (len++ & 3) push_back(0)`; the loop ends within three rounds, see `length-pad`.
unfoldable pub pad : ℕ → ℕ → Bytes
pad zero len = []
pad (suc n) len = let more = 0 ∷ pad n (len + 1) in if len % 4 == 0 then [] else more

-- The bytes that `write_padded_string` appends.
unfoldable pub write_padded_string : Bytes → Bytes
unfolding pad c_str
write_padded_string str = c_str str ++ (0 ∷ pad 4 (length (c_str str) + 1))
