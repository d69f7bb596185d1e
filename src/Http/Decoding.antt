-- ===== src/Http/Decoding.antt =====
-- What the request reader keeps, and the decoder against an encoder.
use Prim.Native.Nat.{bit_or}
use obs_osc.Base.{
  ℕ, zero, suc, ◌+◌, ◌*◌, ◌/◌, ◌%◌, ◌-◌, ◌≤◌, ◌<◌, ◌≡◌, ◌≢◌, refl, ap, sym, ◌∙◌, true, false, not,
  ◌&&◌, List, [], ◌∷◌, ◌++◌, ltb, if◌then◌else◌, is_empty, length, length-append, Bytes, All, arith,
  Bool-cases, inl, inr, if_both,
}
use obs_osc.Http.Request.{isxdigit, hex, url_decode, has_blank_line, read_request}

-- A hexadecimal digit.
unfoldable pub digit : ℕ → ℕ
digit n = if ltb n 10 then n + b'0' else n + 55

-- A text for a path in a request line: each byte stands for itself or as an escape. Blanks, question
-- marks and percent signs, and only they, must be escaped.
pub data Encodes : Bytes → Bytes → Type 0 where
  end : Encodes [] []
  literal :
      (c : ℕ) (s path : Bytes)
      → c ≢ b'%'
      → c ≢ b' '
      → c ≢ b'?'
      → Encodes s path
      → Encodes (c ∷ s) (c ∷ path)
  escape :
      (c : ℕ) (s path : Bytes)
      → c < 256
      → Encodes s path
      → Encodes (b'%' ∷ digit (c / 16) ∷ digit (c % 16) ∷ s) (c ∷ path)

digit-isxdigit : (n : ℕ) → n < 16 → isxdigit (digit n) ≡ true
unfolding digit
digit-isxdigit n h = ground arith

-- Setting the bit for lower case in `A` to `F`.
letter_cases : (k : ℕ) → k < 6 → bit_or (k + 65) 0x20 ≡ k + 97
letter_cases zero h = refl
letter_cases (suc zero) h = refl
letter_cases (suc (suc zero)) h = refl
letter_cases (suc (suc (suc zero))) h = refl
letter_cases (suc (suc (suc (suc zero)))) h = refl
letter_cases (suc (suc (suc (suc (suc zero))))) h = refl
letter_cases (suc (suc (suc (suc (suc (suc k)))))) h = absurd (omega arith)

letters : (n : ℕ) → n < 16 → ltb n 10 ≡ false → bit_or (n + 55) 0x20 ≡ n + 87
letters n h big =
    let least : 10 ≤ n = ground arith in
    let up : n - 10 + 65 ≡ n + 55 = omega arith in
    let down : n - 10 + 97 ≡ n + 87 = omega arith in
    let known : bit_or (n - 10 + 65) 0x20 ≡ n - 10 + 97 = letter_cases (n - 10) (omega arith) in
    ap (λ c. bit_or c 0x20) (sym up) ∙ known ∙ down

hex-digit : (n : ℕ) → n < 16 → hex (digit n) ≡ n
unfolding digit
hex-digit n h = ground (arith, letters n h)

url_decode-literal : (c : ℕ) (s : Bytes) → c ≢ b'%' → url_decode (c ∷ s) ≡ c ∷ url_decode s
unfolding url_decode
url_decode-literal c [] h = refl
url_decode-literal c (d ∷ []) h = refl
url_decode-literal c (d ∷ e ∷ s) h = ground arith

url_decode-escape :
    (c : ℕ) (s : Bytes)
    → c < 256
    → url_decode (b'%' ∷ digit (c / 16) ∷ digit (c % 16) ∷ s) ≡ c ∷ url_decode s
unfolding url_decode
url_decode-escape c s h =
    let high : c / 16 < 16 = omega arith in
    let low : c % 16 < 16 = omega arith in
    let joined : c / 16 * 16 + c % 16 ≡ c = omega arith in
    rw
      (
        digit-isxdigit (c / 16) high,
        digit-isxdigit (c % 16) low,
        hex-digit (c / 16) high,
        hex-digit (c % 16) low,
        joined,
      )
      refl

-- A text for a path is decoded to that path.
pub url_decode-Encodes : (s path : Bytes) → Encodes s path → url_decode s ≡ path
unfolding url_decode
url_decode-Encodes _ _ end = refl
url_decode-Encodes _ _ (literal c s path plain _ _ rest) =
    url_decode-literal c s plain ∙ ap (◌∷◌ c) (url_decode-Encodes s path rest)
url_decode-Encodes _ _ (escape c s path byte rest) =
    url_decode-escape c s byte ∙ ap (◌∷◌ c) (url_decode-Encodes s path rest)

-- However the client's bytes are cut into chunks of a buffer's size, the request that is read has
-- fewer than 8192 + 2048 bytes.
pub read_request_bound :
    (chunks : List Bytes) (request : Bytes)
    → All (λ chunk. length chunk ≤ 2048) chunks
    → length request < 8192 + 2048
    → length (read_request chunks request) < 8192 + 2048
unfolding read_request
read_request_bound [] request hs h = h
read_request_bound (chunk ∷ chunks) request (fits, hs) h =
    let Short : Bytes → Type 0 = λ read. length read < 8192 + 2048 in
    elim (Bool-cases (ltb (length request) 8192)) [
      | inl e ↦
          let grown : length (request ++ chunk) < 8192 + 2048 =
            ground (arith, length-append request chunk) in
          let more = read_request_bound chunks (request ++ chunk) hs grown in
          if_both Short (not (has_blank_line request) && ltb (length request) 8192) _ _
            (if_both Short (is_empty chunk) _ _ h more) h
      | inr e ↦
          let closed : (not (has_blank_line request) && ltb (length request) 8192) ≡ false =
            ground (arith, e) in
          rw closed h
    ]
