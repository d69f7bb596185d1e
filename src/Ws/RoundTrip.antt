-- ===== src/Ws/RoundTrip.antt =====
-- A frame of the server, read back by the same source's reader.
use obs_osc.Base.{
  ℕ, ◌+◌, ◌/◌, ◌%◌, ◌^◌, ◌≤◌, ◌<◌, ◌≡◌, sym, subst, inl, inr, true, false, [], ◌∷◌, ◌++◌, some, leb,
  ltb, Bool-cases, length, Bytes, length-append, take-length, drop-length, append_assoc, arith,
}
use obs_osc.Ws.Frame.{
  max_message, length_field, build_frame, recv_exact, read_length, read_header, read_masked_payload,
  read_frame,
}

recv_exact-append : (xs ys : Bytes) → recv_exact (xs ++ ys) (length xs) ≡ some (xs, ys)
unfolding recv_exact
recv_exact-append xs ys =
    let fits : leb (length xs) (length (xs ++ ys)) ≡ true = ground (arith, length-append xs ys) in
    rw (fits, take-length xs ys, drop-length xs ys)

-- The length byte and its extension give back a length of a message the server accepts.
read_length-length_field :
    (n : ℕ) (rest : Bytes)
    → n ≤ max_message
    → (c : ℕ) × (ext : Bytes) × (length_field n ≡ c ∷ ext)
      × (c < 128)
      × (read_length c (ext ++ rest) ≡ some (n, rest))
unfolding recv_exact
read_length-length_field n rest h = elim (Bool-cases (ltb n 126)) [
  | inl e ↦ let small : n < 126 = ground arith in (n, [], ground arith, omega arith, ground arith)
  | inr e ↦
      let big : 126 ≤ n = ground arith in
      (126, n / 2 ^ 8 % 256 ∷ n % 256 ∷ [], ground arith, omega arith, ground arith)
]

header_length : (c : ℕ) → c < 128 → (c % 128 ≡ c) × (leb 128 c ≡ false)
header_length c h = (omega arith, ground arith)

-- A header whose length bytes are read as `n`.
read_header-cons :
    (b c n : ℕ) (ext tail : Bytes)
    → c < 128
    → n ≤ max_message
    → read_length c (ext ++ tail) ≡ some (n, tail)
    → read_header (b ∷ c ∷ ext ++ tail)
      ≡ some (record { opcode = b % 16; fin = leb 128 b; masked = false; length = n }, tail)
unfolding read_header
read_header-cons b c n ext tail small h reads =
    let same : c % 128 ≡ c = omega arith in
    let plain : leb 128 c ≡ false = ground arith in
    let fits : leb n max_message ≡ true = ground arith in
    rw (recv_exact-append (b ∷ c ∷ []) (ext ++ tail), same, plain, reads, fits)

-- A frame that the server builds, with an opcode and a payload that its reader accepts, is read
-- back as a final unmasked frame with that opcode and payload, and what follows it is left.
pub read_frame-build_frame :
    (opcode : ℕ) (payload rest : Bytes)
    → opcode < 16
    → length payload ≤ max_message
    → read_frame (build_frame opcode payload ++ rest)
      ≡ some (
        record { opcode = opcode; fin = true; masked = false; length = length payload },
        payload,
        rest,
      )
unfolding read_frame read_masked_payload build_frame
read_frame-build_frame opcode payload rest ho hp =
    let n = length payload in
    let (c, ext, field, small, reads) = read_length-length_field n (payload ++ rest) hp in
    let first = 128 + opcode % 128 in
    let op : first % 16 ≡ opcode = omega arith in
    let final : leb 128 first ≡ true = ground arith in
    let header = read_header-cons first c n ext (payload ++ rest) small hp reads in
    let body = recv_exact-append payload rest in
    let joined : (length_field n ++ payload) ++ rest ≡ c ∷ ext ++ (payload ++ rest) =
      rw field (append_assoc (c ∷ ext) payload rest) in
    subst
      (λ bytes.
        read_frame (first ∷ bytes)
        ≡ some (record { opcode = opcode; fin = true; masked = false; length = n }, payload, rest))
      (sym joined) (rw (header, op, final, body))
