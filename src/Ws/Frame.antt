-- ===== src/Ws/Frame.antt =====
-- The frame layer. What the peer will send before it closes or fails is a list of bytes, so
-- `recv_exact` takes from it, and fails where it is too short. The 64-bit shifts of a length below
-- 2^64 are written as products and quotients.
use Prim.Native.Nat.{bit_xor}
use obs_osc.Base.{
  ℕ, ◌+◌, ◌*◌, ◌/◌, ◌%◌, ◌^◌, Bool, [], ◌∷◌, ◌++◌, Option, none, some, ◌==◌, leb, ltb,
  if◌then◌else◌, length, take, drop, Bytes,
}

abbrev pub max_message : ℕ
max_message = 8192

abbrev pub op_continuation : ℕ
op_continuation = 0x0

abbrev pub op_text : ℕ
op_text = 0x1

abbrev pub op_binary : ℕ
op_binary = 0x2

abbrev pub op_close : ℕ
op_close = 0x8

abbrev pub op_ping : ℕ
op_ping = 0x9

abbrev pub op_pong : ℕ
op_pong = 0xa

infixl 5 ◌>>=◌
abbrev pub ◌>>=◌ {ℓ κ} : {A : Type ℓ} {B : Type κ} → Option A → (A → Option B) → Option B
none >>= f = none
some a >>= f = f a

-- The eight length bytes of a long frame, from shift 56 down.
abbrev pub long_length : ℕ → Bytes
long_length n =
    n / 2 ^ 56 % 256
    ∷ n / 2 ^ 48 % 256
    ∷ n / 2 ^ 40 % 256
    ∷ n / 2 ^ 32 % 256
    ∷ n / 2 ^ 24 % 256
    ∷ n / 2 ^ 16 % 256
    ∷ n / 2 ^ 8 % 256
    ∷ n % 256
    ∷ []

abbrev pub length_field : ℕ → Bytes
length_field n =
    if ltb n 126
    then n % 256 ∷ []
    else if leb n 0xffff
    then 126 ∷ n / 2 ^ 8 % 256 ∷ n % 256 ∷ []
    else 127 ∷ long_length n

-- `(uint8_t)(0x80 | opcode)` is 128 and the low seven bits.
unfoldable pub build_frame : ℕ → Bytes → Bytes
build_frame opcode payload = (128 + opcode % 128) ∷ (length_field (length payload) ++ payload)

unfoldable pub recv_exact : Bytes → ℕ → Option (Bytes × Bytes)
recv_exact stream n = if leb n (length stream) then some (take n stream, drop n stream) else none

pub record FrameHeader : Type 0 where
  pub opcode : ℕ
  pub fin : Bool
  pub masked : Bool
  pub length : ℕ

-- `hdr->length = (hdr->length << 8) | byte`, byte by byte.
abbrev pub big_endian : ℕ → Bytes → ℕ
big_endian acc [] = acc
big_endian acc (b ∷ bs) = big_endian (acc * 256 + b) bs

-- The length that the second byte announces, with its extension.
abbrev pub read_length : ℕ → Bytes → Option (ℕ × Bytes)
read_length short stream =
    if short == 126
    then recv_exact stream 2 >>= (λ (ext, rest). some (big_endian 0 ext, rest))
    else if short == 127
    then recv_exact stream 8 >>= (λ (ext, rest). some (big_endian 0 ext, rest))
    else some (short, stream)

abbrev pub head_byte : Bytes → ℕ
head_byte [] = 0
head_byte (b ∷ _) = b

unfoldable pub read_header : Bytes → Option (FrameHeader × Bytes)
unfolding recv_exact
read_header stream = do
  (head, rest) ← recv_exact stream 2
  (size, rest') ← read_length (head_byte (drop 1 head) % 128) rest
  if leb size max_message
      then some (
        record {
          opcode = head_byte head % 16;
          fin = leb 128 (head_byte head);
          masked = leb 128 (head_byte (drop 1 head));
          length = size;
        },
        rest',
      )
      else none

-- `(*out)[i] ^= mask[i % 4]`, with the mask turned as the loop goes on.
unfoldable pub unmask : Bytes → Bytes → Bytes
unmask mask [] = []
unmask [] (b ∷ bs) = b ∷ bs
unmask (m ∷ mask) (b ∷ bs) = bit_xor b m ∷ unmask (mask ++ (m ∷ [])) bs

unfoldable pub read_masked_payload : Bytes → FrameHeader → Option (Bytes × Bytes)
unfolding recv_exact unmask
read_masked_payload stream hdr =
    if hdr.masked
    then recv_exact stream 4 >>= (λ (mask, rest).
      recv_exact rest hdr.length >>= (λ (body, rest'). some (unmask mask body, rest')))
    else recv_exact stream hdr.length

-- One round of the reading at the top of `serve`'s loop.
unfoldable pub read_frame : Bytes → Option (FrameHeader × Bytes × Bytes)
unfolding read_header read_masked_payload
read_frame stream = do
  (hdr, rest) ← read_header stream
  (payload, rest') ← read_masked_payload rest hdr
  some (hdr, payload, rest')
