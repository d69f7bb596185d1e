-- ===== src/Ws/Racing.antt =====
-- The threads of src/osc-ws.cpp as interleaved steps: serving threads that enter the map, act and leave,
-- and the one that shuts down. Each step is one critical section.
use obs_osc.Base.{
  ℕ, ◌+◌, ◌≤◌, Bool, true, false, List, [], ◌∷◌, ◌++◌, Option, none, some, ◌==◌, Bytes, ◌≡◌, refl,
  arith, if_both,
}
use obs_osc.Base.Counts.{count, count-append}
use obs_osc.Subscribe.Registry.{osc_listen_remove_peer}
use obs_osc.Ws.Connection.{Conn, send_frame, close_conn}
use obs_osc.Ws.Peers.{
  Peers, enter, erase_conn, close_shared, close_peer, leave, shut_down_each, shutdown_all,
}
use obs_osc.Ws.Session.{Effect, send, text}
use obs_osc.Ws.Serving.{send_shared, take_effect}

-- The connections, and every socket that entered the map.
pub record Traffic : Type 0 where
  pub peers : Peers
  pub entered : List ℕ

pub data Step (parse : Bytes → Option (Bytes × Bytes)) (w : Traffic) : Traffic → Type 0 where
  comes :
      (token fd : ℕ)
      → Step parse w (record { peers = enter token fd w.peers; entered = w.entered ++ (fd ∷ []) })
  acts :
      (token : ℕ) (effect : Effect)
      → Step parse w (record w { peers = take_effect parse token effect w.peers })
  forgets :
      (token : ℕ)
      → Step parse w (record w {
        peers = record (w.peers) { registry = osc_listen_remove_peer w.peers.registry token };
      })
  goes :
      (token : ℕ)
      → Step parse w
          (record w { peers = record (w.peers) { conns = erase_conn token w.peers.conns } })
  takes_all : Step parse w (record w { peers = record (w.peers) { conns = [] } })
  closes : (token : ℕ) → Step parse w (record w { peers = close_peer token w.peers })

pub data Reach (parse : Bytes → Option (Bytes × Bytes)) (w : Traffic) : Traffic → Type 0 where
  here : Reach parse w w
  next : {u v : Traffic} → Reach parse w u → Step parse u v → Reach parse w v

abbrev pub holds : ℕ → Conn → Bool
holds fd c = elim c.fd [ none ↦ false | some f ↦ f == fd ]

abbrev pub is_socket : ℕ → ℕ → Bool
is_socket fd f = f == fd

-- Of each socket, those closed and those still held by a connection are those that entered.
pub Accounts : Traffic → Type 0
Accounts w =
    (fd : ℕ)
    → count (is_socket fd) w.peers.closed + count (holds fd) w.peers.shared
      ≡ count (is_socket fd) w.entered

close_conn-count :
    (fd : ℕ) (c : Conn)
    → count (is_socket fd) (close_conn c).1 + count (holds fd) ((close_conn c).0 ∷ [])
      ≡ count (holds fd) (c ∷ [])
unfolding close_conn
close_conn-count fd c = ground arith

close_shared-count :
    (fd token : ℕ) (cs : List Conn)
    → count (is_socket fd) (close_shared token cs).1 + count (holds fd) (close_shared token cs).0
      ≡ count (holds fd) cs
unfolding close_shared
close_shared-count fd token [] = omega arith
close_shared-count fd token (c ∷ cs) =
    let (others, fds) = close_shared token cs in
    let later = close_shared-count fd token cs in
    if_both {A = List Conn × List ℕ}
      (λ x. count (is_socket fd) x.1 + count (holds fd) x.0 ≡ count (holds fd) (c ∷ cs))
      (c.token == token) _ _
      (omega
        (arith, later, close_conn-count fd c, count-append (is_socket fd) (close_conn c).1 fds))
      (omega (arith, later))

send_shared-count :
    (fd token : ℕ) (sent : Bool) (opcode : ℕ) (payload : Bytes) (cs : List Conn)
    → count (holds fd) (send_shared token sent opcode payload cs) ≡ count (holds fd) cs
unfolding send_shared send_frame
send_shared-count fd token sent opcode payload [] = refl
send_shared-count fd token sent opcode payload (c ∷ cs) =
    ground (arith, send_shared-count fd token sent opcode payload cs)

Step-Accounts :
    {parse : Bytes → Option (Bytes × Bytes)} {w v : Traffic}
    → Step parse w v
    → Accounts w
    → Accounts v
unfolding Accounts enter take_effect close_peer
Step-Accounts {w} (comes token fd) a other = omega (
  arith,
  a other,
  count-append (holds other) w.peers.shared
      (record { token = token; fd = some fd; is_open = true } ∷ []),
  count-append (is_socket other) w.entered (fd ∷ []),
)
Step-Accounts {w} (acts token (send sent opcode payload)) a other =
    omega (arith, a other, send_shared-count other token sent opcode payload w.peers.shared)
Step-Accounts (acts token (text message)) a other = a other
Step-Accounts (forgets token) a other = a other
Step-Accounts (goes token) a other = a other
Step-Accounts takes_all a other = a other
Step-Accounts {w} (closes token) a other = omega (
  arith,
  a other,
  close_shared-count other token w.peers.shared,
  count-append (is_socket other) w.peers.closed (close_shared token w.peers.shared).1,
)

Reach-Accounts :
    {parse : Bytes → Option (Bytes × Bytes)} {w v : Traffic}
    → Reach parse w v
    → Accounts w
    → Accounts v
Reach-Accounts here a = a
Reach-Accounts (next reach step) a = Step-Accounts step (Reach-Accounts reach a)

-- No connection yet.
pub record IsQuiet (w : Traffic) : Type 0 where
  pub unshared : w.peers.shared ≡ []
  pub unclosed : w.peers.closed ≡ []
  pub unentered : w.entered ≡ []

quiet-Accounts : (w : Traffic) → IsQuiet w → Accounts w
unfolding Accounts
quiet-Accounts w quiet fd = rw (quiet.unshared, quiet.unclosed, quiet.unentered) (omega arith)

Accounts-bound :
    (w : Traffic) (fd : ℕ)
    → Accounts w
    → count (is_socket fd) w.peers.closed ≤ count (is_socket fd) w.entered
unfolding Accounts
Accounts-bound w fd a = omega (arith, a fd)

module _ (parse : Bytes → Option (Bytes × Bytes)) where
  -- The end of `serve` is three of these steps.
  leave-Reach : (token : ℕ) (w : Traffic) → Reach parse w (record w { peers = leave token w.peers })
  unfolding leave
  leave-Reach token w = next (next (next here (forgets token)) (goes token)) (closes token)

  onward : {u v w : Traffic} → Reach parse u v → Reach parse v w → Reach parse u w
  onward r here = r
  onward r (next later step) = next (onward r later) step

  shut_down_each-Reach :
      (dying : List ℕ) (w : Traffic)
      → Reach parse w (record w { peers = shut_down_each dying w.peers })
  unfolding shut_down_each
  shut_down_each-Reach [] w = here
  shut_down_each-Reach (token ∷ dying) w =
      onward (next (next here (forgets token)) (closes token)) (
        shut_down_each-Reach dying (record w {
          peers =
              close_peer token
                (record (w.peers) { registry = osc_listen_remove_peer w.peers.registry token });
        }))

  -- `shutdown_all` is some of these steps.
  shutdown_all-Reach : (w : Traffic) → Reach parse w (record w { peers = shutdown_all w.peers })
  unfolding shutdown_all
  shutdown_all-Reach w =
      onward (next here takes_all)
        (shut_down_each-Reach w.peers.conns (record w { peers = record (w.peers) { conns = [] } }))

  -- Through any interleaving of threads that serve clients, send, leave the map and shut it down, no
  -- socket is closed more often than it entered the map; nor is it by a whole `shutdown_all` that comes
  -- next, nor by the end of a `serve` behind that.
  pub closes_once :
      (before w : Traffic)
      → IsQuiet before
      → Reach parse before w
      → (token fd : ℕ)
      → (count (is_socket fd) w.peers.closed ≤ count (is_socket fd) w.entered)
        × (count (is_socket fd) (shutdown_all w.peers).closed ≤ count (is_socket fd) w.entered)
        × (count (is_socket fd) (leave token (shutdown_all w.peers)).closed
            ≤ count (is_socket fd) w.entered)
  closes_once before w quiet reach token fd =
      let a = Reach-Accounts reach (quiet-Accounts before quiet) in
      let shut : Traffic = record w { peers = shutdown_all w.peers } in
      let b = Reach-Accounts (shutdown_all-Reach w) a in
      let left : Traffic = record w { peers = leave token (shutdown_all w.peers) } in
      let c = Reach-Accounts (leave-Reach token shut) b in
      (Accounts-bound w fd a, Accounts-bound shut fd b, Accounts-bound left fd c)
