-- ===== src/Server/State.antt =====
-- `osc_server::impl` and the operations on it. Each function is one critical section, or several
-- that no other operation can split with an effect on the result.
use obs_osc.Base.{
  ℕ, Bool, true, false, not, ◌||◌, List, [], ◌∷◌, ◌++◌, Option, none, some, ◌==◌, leb,
  if◌then◌else◌, length, drop, is_empty, Bytes,
}
use obs_osc.Base.Int.{ℤ, pos, ltb_ℤ, leb_ℤ}
use obs_osc.Net.{Endpoint, no_endpoint}

abbrev pub max_send_queue : ℕ
max_send_queue = 1024

pub record OutPacket : Type 0 where
  pub target : Endpoint
  pub bytes : Bytes

-- `fd` is `none` for `invalid_socket`; `resolved_target` and `last_sender` hold their lengths.
pub record Server : Type 0 where
  pub running : Bool
  pub fd : Option ℕ
  pub resolved_target : Endpoint
  pub last_sender : Endpoint
  pub have_target : Bool
  pub have_sender : Bool
  pub send_queue : List OutPacket
  pub send_running : Bool

abbrev pub fresh_server : Server
fresh_server = record {
  running = false;
  fd = none;
  resolved_target = no_endpoint;
  last_sender = no_endpoint;
  have_target = false;
  have_sender = false;
  send_queue = [];
  send_running = false;
}

-- The guard and the push under `send_mutex`.
unfoldable pub push_packet : Server → OutPacket → Server
push_packet s pkt = if not s.send_running then s else record s {
  send_queue =
      (if leb max_send_queue (length s.send_queue) then drop 1 s.send_queue else s.send_queue)
      ++ (pkt ∷ []);
}

unfoldable pub enqueue : Server → Endpoint → Bytes → Server
unfolding push_packet
enqueue s target bytes =
    if target.len == 0 || length bytes == 0
    then s
    else elim s.fd [ none ↦ s | some _ ↦ push_packet s (record { target = target; bytes = bytes }) ]

-- `target_len` stays 0 where nothing is resolved, so `enqueue` drops the datagram.
unfoldable pub send_fixed : Server → Bytes → Server
unfolding enqueue
send_fixed s bytes =
    enqueue s (if s.resolved_target.len == 0 then no_endpoint else s.resolved_target) bytes

unfoldable pub send_last : Server → Bytes → Server
unfolding enqueue
send_last s bytes = enqueue s (if s.have_sender then s.last_sender else no_endpoint) bytes

unfoldable pub send_to : Server → Bytes → Endpoint → Server
unfolding enqueue
send_to s bytes target = enqueue s target bytes

-- `resolve` is `osc_net::resolve`, that is `getaddrinfo`: an address, or failure.
unfoldable pub set_feedback_target : (Bytes → ℤ → Option Endpoint) → Server → Bytes → ℤ → Server
set_feedback_target resolve s host port =
    let cleared : Server = record s {
      resolved_target = record (s.resolved_target) { len = 0 };
      have_target = false;
    } in
    if is_empty host || leb_ℤ port (pos 0) || ltb_ℤ (pos 65535) port
    then cleared
    else elim (resolve host port) [
      | none ↦ cleared
      | some ss ↦ record s { resolved_target = ss; have_target = true }
    ]

-- `init_ok` and `listening` are the results of `osc_net::init` and `listen_udp`.
unfoldable pub start : Server → Bool → Option ℕ → Server × Bool
start s init_ok listening =
    if s.running then (s, true) else if not init_ok then (s, false) else elim listening [
      | none ↦ (s, false)
      | some fd ↦ (record s { fd = some fd; running = true; send_running = true }, true)
    ]

-- One round of `send_loop` behind its wait: the state, and what goes to `sendto`.
unfoldable pub send_round : Server → Server × List OutPacket
send_round s = elim s.send_queue [
  | [] ↦ (s, [])
  | pkt ∷ rest ↦ (record s { send_queue = rest }, elim s.fd [ none ↦ [] | some _ ↦ pkt ∷ [] ])
]

-- `stop`: the sender thread drains the queue over the open socket and is joined; then the socket
-- is closed and the run-scoped state dies.
unfoldable pub stop : Server → Server × List OutPacket
stop s = if not s.running then (s, []) else (
  record s {
    running = false;
    send_running = false;
    fd = none;
    last_sender = no_endpoint;
    have_sender = false;
    send_queue = [];
  },
  elim s.fd [ none ↦ [] | some _ ↦ s.send_queue ],
)

-- One round of `recv_loop` that `recvfrom` answers with `n` bytes from `sender`: the new state, and
-- the call of the handler.
unfoldable pub receive : Server → Bytes → Endpoint → Server × Option (Bytes × Endpoint)
receive s bytes sender =
    if not s.running
    then (s, none)
    else if is_empty bytes
    then (s, none)
    else (record s { last_sender = sender; have_sender = true }, some (bytes, sender))
