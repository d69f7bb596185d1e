-- ===== src/Server/Steps.antt =====
-- The threads of src/osc-server.cpp as interleaved steps: any thread offers datagrams, the sender
-- thread transmits, the receiver hands packets over, the UI thread starts, stops and configures.
use mathlib.Core.List.{Sublist, nil-sublist, sublist-append_left}
use mathlib.Core.List.Sublist
use obs_osc.Base.{
  ℕ, ◌≤◌, Bool, true, false, List, [], ◌∷◌, ◌++◌, Option, none, ◌≡◌, refl, arith, length, drop,
  append-nil, append_assoc, Bytes,
}
use obs_osc.Base.Int.{ℤ}
use obs_osc.Net.{Endpoint}
use obs_osc.Server.State.{
  max_send_queue, OutPacket, Server, fresh_server, enqueue, set_feedback_target, start, send_round,
  stop, receive,
}
use obs_osc.Server.Queue.{enqueue_bound}

-- The server, every datagram ever offered to it, and every datagram handed to `sendto`.
pub record World : Type 0 where
  pub server : Server
  pub offered : List OutPacket
  pub sent : List OutPacket

abbrev pub started : World
started = record { server = fresh_server; offered = []; sent = [] }

pub data Step (w : World) : World → Type 0 where
  offer :
      (to : Endpoint) (bytes : Bytes)
      → Step w (record w {
        server = enqueue w.server to bytes;
        offered = w.offered ++ (record { target = to; bytes = bytes } ∷ []);
      })
  transmit :
      Step w
        (record w { server = (send_round w.server).0; sent = w.sent ++ (send_round w.server).1 })
  halt : Step w (record w { server = (stop w.server).0; sent = w.sent ++ (stop w.server).1 })
  launch :
      (init_ok : Bool) (listening : Option ℕ)
      → Step w (record w { server = (start w.server init_ok listening).0 })
  arrive :
      (bytes : Bytes) (sender : Endpoint)
      → Step w (record w { server = (receive w.server bytes sender).0 })
  retarget :
      (resolve : Bytes → ℤ → Option Endpoint) (host : Bytes) (port : ℤ)
      → Step w (record w { server = set_feedback_target resolve w.server host port })

pub data Reach (w : World) : World → Type 0 where
  here : Reach w w
  next : {u v : World} → Reach w u → Step u v → Reach w v

-- What holds of the server between steps.
pub record IsValid (s : Server) : Type 0 where
  pub bounded : length s.send_queue ≤ max_send_queue
  pub threads : s.send_running ≡ s.running
  pub idle : s.running ≡ false → s.send_queue ≡ []
  pub socket : s.running ≡ false → s.fd ≡ none
  pub no_socket : s.fd ≡ none → s.running ≡ false
  pub sender : s.have_sender ≡ true → s.running ≡ true
  pub target : s.have_target ≡ false → s.resolved_target.len ≡ 0

enqueue-IsValid :
    (s : Server) (to : Endpoint) (bytes : Bytes) → IsValid s → IsValid (enqueue s to bytes)
unfolding enqueue
enqueue-IsValid s to bytes i = record {
  bounded = enqueue_bound s to bytes i.bounded;
  threads = ground arith;
  idle = ground arith;
  socket = ground arith;
  no_socket = ground arith;
  sender = ground arith;
  target = ground arith;
}

Step-IsValid : {w v : World} → Step w v → IsValid w.server → IsValid v.server
unfolding send_round stop start receive set_feedback_target
Step-IsValid {w} (offer to bytes) i = enqueue-IsValid w.server to bytes i
Step-IsValid transmit i = ground arith
Step-IsValid halt i = ground arith
Step-IsValid (launch init_ok listening) i = ground arith
Step-IsValid (arrive bytes sender) i = ground arith
Step-IsValid (retarget resolve host port) i = ground arith

drop-sublist {ℓ} : {A : Type ℓ} (xs : List A) → Sublist (drop 1 xs) xs
drop-sublist [] = Sublist.refl []
drop-sublist (x ∷ xs) = Sublist.cons x (Sublist.refl xs)

enqueue-sublist :
    (s : Server) (to : Endpoint) (bytes : Bytes)
    → Sublist
        (enqueue s to bytes).send_queue
        (s.send_queue ++ (record { target = to; bytes = bytes } ∷ []))
unfolding enqueue
enqueue-sublist s to bytes = ground (
  arith,
  sublist-append_left s.send_queue (record { target = to; bytes = bytes } ∷ []),
  Sublist.refl (s.send_queue ++ (record { target = to; bytes = bytes } ∷ [])),
  Sublist.append (drop-sublist s.send_queue)
      (Sublist.refl (record { target = to; bytes = bytes } ∷ [])),
)

-- What has left, and then what waits, came in this order among the datagrams offered.
abbrev pub InOrder : World → Type 0
InOrder w = Sublist (w.sent ++ w.server.send_queue) w.offered

send_round-sublist :
    (s : Server) → Sublist ((send_round s).1 ++ (send_round s).0.send_queue) s.send_queue
unfolding send_round
send_round-sublist s = go s.send_queue refl
  where
    go :
        (q : List OutPacket)
        → s.send_queue ≡ q
        → Sublist ((send_round s).1 ++ (send_round s).0.send_queue) s.send_queue
    go [] e = ground (arith, Sublist.refl s.send_queue)
    go (p ∷ rest) e = ground (arith, Sublist.refl s.send_queue, Sublist.cons p (Sublist.refl rest))

stop-sublist : (s : Server) → Sublist ((stop s).1 ++ (stop s).0.send_queue) s.send_queue
unfolding stop
stop-sublist s =
    ground (arith, Sublist.refl s.send_queue, append-nil s.send_queue, nil-sublist s.send_queue)

after_sent :
    {qs os : List OutPacket} (ss xs ys : List OutPacket)
    → Sublist (xs ++ ys) qs
    → Sublist (ss ++ qs) os
    → Sublist ((ss ++ xs) ++ ys) os
after_sent ss xs ys h i =
    rw (append_assoc ss xs ys) (Sublist.trans (Sublist.append (Sublist.refl ss) h) i)

Step-InOrder : {w v : World} → Step w v → InOrder w → InOrder v
unfolding start receive set_feedback_target
Step-InOrder {w} (offer to bytes) i =
    Sublist.trans (Sublist.append (Sublist.refl w.sent) (enqueue-sublist w.server to bytes)) (
      rw (← append_assoc w.sent w.server.send_queue (record { target = to; bytes = bytes } ∷ []))
        (Sublist.append i (Sublist.refl _)))
Step-InOrder {w} transmit i = after_sent w.sent _ _ (send_round-sublist w.server) i
Step-InOrder {w} halt i = after_sent w.sent _ _ (stop-sublist w.server) i
Step-InOrder (launch init_ok listening) i = ground arith
Step-InOrder (arrive bytes sender) i = ground arith
Step-InOrder (retarget resolve host port) i = ground arith

-- Through any interleaving of the threads, and any number of restarts, from a fresh server: the
-- queue stays within its bound and is empty while stopped, the flags agree with the socket and the
-- addresses, and what has been sent, with what waits, came in this order among what was offered.
pub Reach-IsValid : {w : World} → Reach started w → IsValid w.server × InOrder w
Reach-IsValid here = (
  record {
    bounded = omega arith;
    threads = refl;
    idle = λ _. refl;
    socket = λ _. refl;
    no_socket = λ _. refl;
    sender = λ h. cc;
    target = λ _. refl;
  },
  Sublist.refl [],
)
Reach-IsValid (next r st) =
    let (valid, order) = Reach-IsValid r in (Step-IsValid st valid, Step-InOrder st order)
