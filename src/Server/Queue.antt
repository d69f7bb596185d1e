-- ===== src/Server/Queue.antt =====
-- The outbound queue of src/osc-server.cpp in a burst of datagrams.
use obs_osc.Base.{
  ℕ, zero, suc, ◌-◌, ◌≤◌, ◌<◌, true, List, [], ◌∷◌, ◌++◌, some, ◌≡◌, refl, sym, ap, ◌∙◌, arith, leb,
  if◌then◌else◌, length, length-append, length-drop, drop, drop-drop, append-nil, append_assoc,
  Bytes, All, Bool-cases, inl, inr, leb→le,
}
use obs_osc.Net.{Endpoint}
use obs_osc.Server.State.{max_send_queue, OutPacket, Server, enqueue}

-- The last `n` entries, or all where there are fewer.
abbrev pub latest {ℓ} : {A : Type ℓ} → ℕ → List A → List A
latest n xs = drop (length xs - n) xs

drop-append {ℓ} :
    {A : Type ℓ} (n : ℕ) (xs ys : List A) → n ≤ length xs → drop n (xs ++ ys) ≡ drop n xs ++ ys
drop-append zero xs ys h = refl
drop-append (suc n) [] ys h = absurd (omega arith)
drop-append (suc n) (x ∷ xs) ys h = drop-append n xs ys (omega arith)

-- Cutting before or after more entries come gives the same entries.
latest-append {ℓ} :
    {A : Type ℓ} (n : ℕ) (xs ys : List A) → latest n (latest n xs ++ ys) ≡ latest n (xs ++ ys)
latest-append {A} n xs ys =
    rw (← drop-append cut xs ys (omega arith)) (
      drop-drop cut _ _ (xs ++ ys) (omega (arith, length-drop cut (xs ++ ys), length-append xs ys)))
  where
    cut : ℕ
    cut = length xs - n

-- A socket is open and the sender thread runs, so that datagrams are taken.
pub record IsSending (s : Server) : Type 0 where
  pub open_socket : (fd : ℕ) × (s.fd ≡ some fd)
  pub thread : s.send_running ≡ true

abbrev pub IsDatagram : OutPacket → Type 0
IsDatagram p = (0 < p.target.len) × (0 < length p.bytes)

latest-drop {ℓ} : {A : Type ℓ} (n k : ℕ) (xs : List A) → length xs - n ≡ k → latest n xs ≡ drop k xs
latest-drop n k xs h = ap (λ t. drop t xs) h

latest-id {ℓ} : {A : Type ℓ} (n : ℕ) (xs : List A) → length xs ≤ n → latest n xs ≡ xs
latest-id n xs h = latest-drop n 0 xs (omega arith)

push-latest :
    (q : List OutPacket) (p : OutPacket)
    → length q ≤ max_send_queue
    → (if leb max_send_queue (length q) then drop 1 q else q) ++ (p ∷ [])
      ≡ latest max_send_queue (q ++ (p ∷ []))
push-latest q p h = elim (Bool-cases (leb max_send_queue (length q))) [
  | inl full ↦
      let least = leb→le _ _ full in
      rw full (
        sym (drop-append 1 q (p ∷ []) (omega arith))
        ∙ sym (
            latest-drop max_send_queue 1 (q ++ (p ∷ [])) (omega (arith, length-append q (p ∷ [])))))
  | inr room ↦
      let below : length q < max_send_queue = ground arith in
      rw room
        (sym (latest-id max_send_queue (q ++ (p ∷ [])) (omega (arith, length-append q (p ∷ [])))))
]

enqueue-latest :
    (s : Server) (p : OutPacket)
    → IsSending s
    → IsDatagram p
    → length s.send_queue ≤ max_send_queue
    → enqueue s p.target p.bytes
      ≡ record s { send_queue = latest max_send_queue (s.send_queue ++ (p ∷ [])) }
unfolding enqueue
enqueue-latest s p i d h = ground (arith, i.open_socket.1, push-latest s.send_queue p h)

-- One datagram never takes the queue past its bound, whatever state it meets.
pub enqueue_bound :
    (s : Server) (to : Endpoint) (bytes : Bytes)
    → length s.send_queue ≤ max_send_queue
    → length (enqueue s to bytes).send_queue ≤ max_send_queue
unfolding enqueue
enqueue_bound s to bytes h = ground (
  arith,
  length-append (drop 1 s.send_queue) (record { target = to; bytes = bytes } ∷ []),
  length-append s.send_queue (record { target = to; bytes = bytes } ∷ []),
  length-drop 1 s.send_queue,
)

abbrev pub enqueue_each : Server → List OutPacket → Server
enqueue_each s [] = s
enqueue_each s (p ∷ ps) = enqueue_each (enqueue s p.target p.bytes) ps

latest-le {ℓ} : {A : Type ℓ} (n : ℕ) (xs : List A) → length (latest n xs) ≤ n
latest-le n xs = omega (arith, length-drop (length xs - n) xs)

-- While the sender thread is stalled, the queue after any burst of datagrams is the latest 1024 of
-- what it held and what came, in order: only the oldest are dropped, and nothing else changes.
pub enqueue_each-latest :
    (s : Server) (ps : List OutPacket)
    → IsSending s
    → All IsDatagram ps
    → length s.send_queue ≤ max_send_queue
    → enqueue_each s ps ≡ record s { send_queue = latest max_send_queue (s.send_queue ++ ps) }
enqueue_each-latest s [] i d h = rw (append-nil, latest-id max_send_queue s.send_queue h)
enqueue_each-latest s (p ∷ ps) i (d, ds) h = rw (enqueue-latest s p i d h) (
    enqueue_each-latest (record s { send_queue = latest max_send_queue (s.send_queue ++ (p ∷ [])) })
      ps (record { open_socket = i.open_socket; thread = i.thread }) ds
      (latest-le max_send_queue (s.send_queue ++ (p ∷ [])))
    ∙ ap (λ q. record s { send_queue = q })
        (latest-append max_send_queue (s.send_queue ++ (p ∷ [])) ps
          ∙ ap (latest max_send_queue) (append_assoc s.send_queue (p ∷ []) ps)))
