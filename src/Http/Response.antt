-- ===== src/Http/Response.antt =====
-- `respond` of src/osc-query-http.cpp: the text of a response, and how a client reads it.
use obs_osc.Base.{
  ℕ, zero, suc, ◌+◌, ◌/◌, ◌%◌, ◌^◌, ◌≤◌, ◌<◌, length-append, Bool, true, false, [], ◌∷◌, ◌++◌,
  Option, none, some, Bytes, codes, length, take, drop, starts_with, All, if◌then◌else◌, ◌≡◌, refl,
  ap, ◌∙◌, arith, append_assoc,
}
use obs_osc.Net.Sending.{Kernel, send_all, TakesOffer, TakesSome, send_all-all}
use obs_osc.Base.Int.{pos}
use obs_osc.Base.Decimal.{
  digits, to_string, read_number, IsDigit, read_number-to_string, to_string-IsDigit,
}

abbrev pub blank_line : Bytes
blank_line = codes "\r\n\r\n"

abbrev pub status_line : Bool → Bytes
status_line true = codes "HTTP/1.1 200 OK\r\n"
status_line false = codes "HTTP/1.1 404 Not Found\r\n"

abbrev pub fields : Bytes
fields =
    codes
      "Content-Type: application/json\r\nAccess-Control-Allow-Origin: *\r\nConnection: close\r\nContent-Length: "

-- `header`
unfoldable pub header : Bytes → Bool → Bytes
unfolding to_string
header body ok = status_line ok ++ (fields ++ (to_string (pos (length body)) ++ blank_line))

-- What is on the wire behind the second `send_all`, which follows whatever the first one did.
unfoldable pub respond_body : Kernel → Bytes → Option (Bytes × Bool) → Option Bytes
unfolding send_all
respond_body send body none = none
respond_body send body (some (taken, _)) = elim (send_all send taken body) [
  | none ↦ none
  | some (all, _) ↦ some all
]

unfoldable pub respond : Kernel → Bytes → Bool → Option Bytes
unfolding header respond_body
respond send body ok = respond_body send body (send_all send [] (header body ok))

-- A client: the text behind the first place where `mark` stands.
unfoldable pub behind : Bytes → Bytes → Option Bytes
behind mark [] = none
behind mark (c ∷ s) =
    let rest = behind mark s in
    if starts_with mark (c ∷ s) then some (drop (length mark) (c ∷ s)) else rest

-- Whether the status is 200, and as many bytes behind the blank line as the length field says.
unfoldable pub read_response : Bytes → Option (Bool × Bytes)
unfolding behind read_number
read_response text = elim (behind (codes "Content-Length: ") text) [
  | none ↦ none
  | some field ↦ elim (behind blank_line text) [
    | none ↦ none
    | some rest ↦ some (starts_with (codes "HTTP/1.1 200 ") text, take (read_number 0 field) rest)
  ]
]

behind_digits :
    (digits body : Bytes)
    → All IsDigit digits
    → behind blank_line (digits ++ (blank_line ++ body)) ≡ some body
unfolding behind starts_with
behind_digits [] body h = refl
behind_digits (c ∷ digits) body (h, hs) = ground (arith, behind_digits digits body hs)

take_all : (s : Bytes) → take (length s) s ≡ s
take_all [] = refl
take_all (c ∷ s) = ap (◌∷◌ c) (take_all s)

-- What a client sees of a length and what follows it.
behind-fields :
    (ok : Bool) (rest : Bytes)
    → (behind (codes "Content-Length: ") (status_line ok ++ (fields ++ rest)) ≡ some rest)
      × (starts_with (codes "HTTP/1.1 200 ") (status_line ok ++ (fields ++ rest)) ≡ ok)
unfolding behind starts_with
behind-fields true rest = (refl, refl)
behind-fields false rest = (refl, refl)

behind_head :
    (ok : Bool) (n : ℕ) (body : Bytes)
    → behind blank_line (status_line ok ++ (fields ++ (to_string (pos n) ++ (blank_line ++ body))))
      ≡ some body
unfolding behind starts_with
behind_head true n body = behind_digits (to_string (pos n)) body (to_string-IsDigit n)
behind_head false n body = behind_digits (to_string (pos n)) body (to_string-IsDigit n)

read_parts :
    (text field rest : Bytes) (ok : Bool)
    → behind (codes "Content-Length: ") text ≡ some field
    → behind blank_line text ≡ some rest
    → starts_with (codes "HTTP/1.1 200 ") text ≡ ok
    → read_response text ≡ some (ok, take (read_number 0 field) rest)
unfolding read_response
read_parts text field rest ok e f g = rw (read_response, e, f, g) refl

header-body :
    (body : Bytes) (ok : Bool)
    → header body ok ++ body
      ≡ status_line ok ++ (fields ++ (to_string (pos (length body)) ++ (blank_line ++ body)))
unfolding header
header-body body true =
    ap (λ t. status_line true ++ (fields ++ t))
      (append_assoc (to_string (pos (length body))) blank_line body)
header-body body false =
    ap (λ t. status_line false ++ (fields ++ t))
      (append_assoc (to_string (pos (length body))) blank_line body)

read_response-header :
    (body : Bytes) (ok : Bool) → read_response (header body ok ++ body) ≡ some (ok, body)
read_response-header body ok =
    let n = length body in
    let (field, status) = behind-fields ok (to_string (pos n) ++ (blank_line ++ body)) in
    ap read_response (header-body body ok)
    ∙ read_parts _ _ body ok field (behind_head ok n body) status
    ∙ ap (λ k. some (ok, take k body))
        (read_number-to_string n 13 (codes "\n\r\n" ++ body) (omega arith))
    ∙ ap (λ b. some (ok, b)) (take_all body)

length-digits : (fuel n : ℕ) → length (digits fuel n) ≤ n / 10 + 1
unfolding digits
length-digits zero n = omega arith
length-digits (suc fuel) n =
    ground (
      arith,
      length-digits fuel (n / 10),
      length-append (digits fuel (n / 10)) ((48 + n % 10) ∷ []),
    )

length-header : (body : Bytes) (ok : Bool) → length (header body ok) ≤ length body / 10 + 200
unfolding header to_string
length-header body ok = ground (
  arith,
  length-digits (suc (length body)) (length body),
  length-append (to_string (pos (length body))) blank_line,
  length-append fields (to_string (pos (length body)) ++ blank_line),
  length-append (status_line ok) (fields ++ (to_string (pos (length body)) ++ blank_line)),
)

-- While the connection stands, and whatever parts of its offers the kernel takes, a response with a body
-- of less than 2^31 bytes ends, and a client that takes from it the status, and behind the blank line
-- as many bytes as the length field says, has the status and the body that were sent.
pub respond_read :
    (send : Kernel) (body : Bytes) (ok : Bool)
    → TakesOffer send
    → TakesSome send
    → length body < 2 ^ 31
    → (wire : Bytes) × (respond send body ok ≡ some wire) × (read_response wire ≡ some (ok, body))
unfolding respond respond_body
respond_read send body ok offer some_taken small = (
  header body ok ++ body,
  ap (respond_body send body) (
        send_all-all send [] (header body ok) offer some_taken
          (omega (arith, length-header body ok)))
      ∙ rw (respond_body, send_all-all send (header body ok) body offer some_taken small) refl,
  read_response-header body ok,
)
