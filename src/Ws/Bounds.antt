-- ===== src/Ws/Bounds.antt =====
-- The bound on the messages that `serve` hands over.
use obs_osc.Base.{
  ℕ, zero, suc, ◌+◌, ◌%◌, ◌≤◌, ◌≡◌, refl, inl, inr, Bool, true, false, not, [], ◌∷◌, ◌++◌, Option,
  none, some, ◌==◌, leb, ltb, if◌then◌else◌, Bool-cases, leb→le, length, drop, length-take,
  length-append, if_both, ◌||◌, ap, Bytes, All, All-append, arith,
}
use obs_osc.Ws.Frame.{
  max_message, op_continuation, op_text, op_binary, op_close, op_ping, op_pong, ◌>>=◌, FrameHeader,
  recv_exact, unmask, head_byte, read_length, read_header, read_masked_payload, read_frame,
}
use obs_osc.Ws.Session.{
  Session, idle, Effect, send, text, Next, finish_text, serve_frame, serve_loop, serve,
}

-- A message handed over is no longer than the limit.
abbrev pub IsBounded : Effect → Type 0
IsBounded (send _ _ _) = Unit {0}
IsBounded (text message) = length message ≤ max_message

abbrev SessionBounded : Option Session → Type 0
SessionBounded none = Unit {0}
SessionBounded (some s) = length s.assembled ≤ max_message

abbrev NextBounded : Next → Type 0
NextBounded (next, effects) = SessionBounded next × All IsBounded effects

finish_text-NextBounded :
    (fin : Bool) (message : Bytes)
    → length message ≤ max_message
    → NextBounded (finish_text fin message)
unfolding finish_text
finish_text-NextBounded true message h = (omega arith, (h, tt))
finish_text-NextBounded false message h = (h, tt)

pinged :
    (sent : Bool) (s : Session) (payload : Bytes)
    → length s.assembled ≤ max_message
    → NextBounded (if sent then some s else none, send sent op_pong payload ∷ [])
pinged true s payload hs = (hs, (tt, tt))
pinged false s payload hs = (tt, (tt, tt))

continued :
    (s : Session) (hdr : FrameHeader) (payload : Bytes)
    → NextBounded (
        if ltb max_message (length s.assembled + length payload)
        then (none, [])
        else finish_text hdr.fin (s.assembled ++ payload))
continued s hdr payload =
    elim (Bool-cases (ltb max_message (length s.assembled + length payload))) [
      | inl e ↦ rw e (tt, tt)
      | inr e ↦
          let fits : length (s.assembled ++ payload) ≤ max_message =
            ground (arith, length-append s.assembled payload) in
          rw e (finish_text-NextBounded hdr.fin (s.assembled ++ payload) fits)
    ]

serve_frame-NextBounded :
    (sent : Bool) (s : Session) (hdr : FrameHeader) (payload : Bytes)
    → length s.assembled ≤ max_message
    → length payload ≤ max_message
    → NextBounded (serve_frame sent s hdr payload)
unfolding serve_frame
serve_frame-NextBounded sent s hdr payload hs hp =
    if_both NextBounded (hdr.opcode == op_close) _ _ (tt, (tt, tt))
      (if_both NextBounded (hdr.opcode == op_ping) _ _ (pinged sent s payload hs) (
        if_both NextBounded (hdr.opcode == op_pong || hdr.opcode == op_binary) _ _ (hs, tt)
          (if_both NextBounded (hdr.opcode == op_text) _ _
            (finish_text-NextBounded hdr.fin payload hp)
            (if_both NextBounded (not (hdr.opcode == op_continuation)) _ _ (tt, tt)
              (if_both NextBounded (not s.assembling) _ _ (tt, tt) (continued s hdr payload))))))

-- What is read, if anything is, satisfies `P`.
abbrev Reads {ℓ} : {A : Type ℓ} → (A → Type 0) → Option A → Type 0
Reads P none = Unit {0}
Reads P (some a) = P a

Reads-bind {ℓ κ} :
    {A : Type ℓ} {B : Type κ} (P : A → Type 0) (Q : B → Type 0) (m : Option A) (f : A → Option B)
    → Reads P m
    → ((a : A) → P a → Reads Q (f a))
    → Reads Q (m >>= f)
Reads-bind P Q none f h k = tt
Reads-bind P Q (some a) f h k = k a h

Reads-any {ℓ} : {A : Type ℓ} (m : Option A) → Reads (λ _. Unit {0}) m
Reads-any none = tt
Reads-any (some a) = tt

recv_exact-length : (stream : Bytes) (n : ℕ) → Reads (λ got. length got.0 ≤ n) (recv_exact stream n)
unfolding recv_exact
recv_exact-length stream n = elim (Bool-cases (leb n (length stream))) [
  | inl e ↦ rw e (omega (arith, length-take n stream))
  | inr e ↦ rw e tt
]

length-unmask : (mask bs : Bytes) → length (unmask mask bs) ≡ length bs
unfolding unmask
length-unmask mask [] = refl
length-unmask [] (b ∷ bs) = refl
length-unmask (m ∷ mask) (b ∷ bs) = ap suc (length-unmask (mask ++ (m ∷ [])) bs)

-- The test at the end of `read_header`.
sized :
    (size opcode : ℕ) (fin masked : Bool) (rest : Bytes)
    → Reads {A = FrameHeader × Bytes}
        (λ read. (read.0).length ≤ max_message)
        (if leb size max_message
          then some (record { opcode = opcode; fin = fin; masked = masked; length = size }, rest)
          else none)
sized size opcode fin masked rest = elim (Bool-cases (leb size max_message)) [
  | inl e ↦ rw e (leb→le size max_message e)
  | inr e ↦ rw e tt
]

read_header-length :
    (stream : Bytes) → Reads (λ read. (read.0).length ≤ max_message) (read_header stream)
unfolding read_header
read_header-length stream =
    let Q : FrameHeader × Bytes → Type 0 = λ read. (read.0).length ≤ max_message in
    Reads-bind (λ _. Unit {0}) Q (recv_exact stream 2) _ (Reads-any _)
      (λ (head, rest) _.
        let size = read_length (head_byte (drop 1 head) % 128) rest in
        Reads-bind (λ _. Unit {0}) Q size _ (Reads-any size)
          (λ (n, rest') _.
            sized n (head_byte head % 16) (leb 128 (head_byte head))
              (leb 128 (head_byte (drop 1 head))) rest'))

read_masked_payload-length :
    (stream : Bytes) (hdr : FrameHeader)
    → Reads (λ got. length got.0 ≤ hdr.length) (read_masked_payload stream hdr)
unfolding read_masked_payload
read_masked_payload-length stream hdr =
    if_both (Reads (λ got. length got.0 ≤ hdr.length)) hdr.masked _ _
      (Reads-bind (λ _. Unit {0}) _ (recv_exact stream 4) _ (Reads-any _)
        (λ (mask, rest) _.
          Reads-bind _ _ (recv_exact rest hdr.length) _ (recv_exact-length rest hdr.length)
            (λ (body, rest') h. omega (arith, length-unmask mask body))))
      (recv_exact-length stream hdr.length)

read_frame-length :
    (stream : Bytes) → Reads (λ read. length read.1 ≤ max_message) (read_frame stream)
unfolding read_frame
read_frame-length stream =
    Reads-bind _ _ (read_header stream) _ (read_header-length stream) (λ (hdr, rest) h.
      Reads-bind _ _ (read_masked_payload rest hdr) _ (read_masked_payload-length rest hdr)
        (λ (payload, rest') k. omega arith))

-- What holds of the rounds that follow.
abbrev Rest : ℕ → (ℕ → Bool) → Type 0
Rest fuel sent =
    (s : Session) (rest : Bytes)
    → length s.assembled ≤ max_message
    → All IsBounded (serve_loop fuel sent s rest)

serve_loop-IsBounded :
    (fuel : ℕ) (sent : ℕ → Bool) (s : Session) (stream : Bytes)
    → length s.assembled ≤ max_message
    → All IsBounded (serve_loop fuel sent s stream)
unfolding serve_loop
serve_loop-IsBounded zero sent s stream hs = tt
serve_loop-IsBounded (suc fuel) sent s stream hs =
    go (λ s' rest h. serve_loop-IsBounded fuel sent s' rest h) (read_frame stream)
      (read_frame-length stream)
  where
    rounds :
        Rest fuel sent
        → (o : Option Session) (rest : Bytes) → SessionBounded o
        → All IsBounded (elim o [ none ↦ [] | some s' ↦ serve_loop fuel sent s' rest ])
    rounds ih none rest h = tt
    rounds ih (some s') rest h = ih s' rest h

    go :
        Rest fuel sent
        → (o : Option (FrameHeader × Bytes × Bytes)) → Reads (λ read. length read.1 ≤ max_message) o
        → All IsBounded (elim o [
          | none ↦ []
          | some (hdr, payload, rest) ↦
              let (next, effects) = serve_frame (sent fuel) s hdr payload in
              effects ++ (elim next [ none ↦ [] | some s' ↦ serve_loop fuel sent s' rest ])
        ])
    go ih none h = tt
    go ih (some (hdr, payload, rest)) h =
        let step = serve_frame-NextBounded (sent fuel) s hdr payload hs h in
        All-append IsBounded _ _ step.1
          (rounds ih (serve_frame (sent fuel) s hdr payload).0 rest step.0)

-- Whatever bytes the client sends, and whatever becomes of the pongs, each text message that
-- `serve` hands to `handle_text` has at most `max_message` bytes, fragmented or not.
pub serve-IsBounded : (sent : ℕ → Bool) (stream : Bytes) → All IsBounded (serve sent stream)
unfolding serve
serve-IsBounded sent stream = serve_loop-IsBounded (length stream) sent idle stream (omega arith)
