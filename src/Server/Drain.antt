-- ===== src/Server/Drain.antt =====
-- The sender thread of src/osc-server.cpp and its queue.
use obs_osc.Base.{ℕ, zero, suc, List, [], ◌∷◌, ◌++◌, some, length, ◌≡◌, refl, ap, subst, sym}
use obs_osc.Server.State.{OutPacket, Server, send_round}

-- Rounds of `send_loop` in a row, and all that goes to `sendto`.
abbrev pub send_rounds : ℕ → Server → Server × List OutPacket
send_rounds zero s = (s, [])
send_rounds (suc n) s =
    let (t, sent) = send_round s in let (u, more) = send_rounds n t in (u, sent ++ more)

drain :
    (fd : ℕ) (queue : List OutPacket) (s : Server)
    → send_rounds (length queue) (record s { fd = some fd; send_queue = queue })
      ≡ (record s { fd = some fd; send_queue = [] }, queue)
unfolding send_round
drain fd [] s = refl
drain fd (pkt ∷ queue) s = ap (λ out. (out.0, pkt ∷ out.1)) (drain fd queue s)

-- While the socket is open, as many rounds as datagrams wait send them all, each once and in their
-- order, and leave the queue empty and all else as it was.
pub send_rounds-drain :
    (s : Server) (fd : ℕ)
    → s.fd ≡ some fd
    → send_rounds (length s.send_queue) s ≡ (record s { send_queue = [] }, s.send_queue)
send_rounds-drain s fd e =
    subst
      (λ o.
        send_rounds (length s.send_queue) (record s { fd = o })
        ≡ (record s { fd = o; send_queue = [] }, s.send_queue))
      (sym e) (drain fd s.send_queue s)
