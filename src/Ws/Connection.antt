-- ===== src/Ws/Connection.antt =====
-- One connection's socket, as `send_frame`, `close_conn` and the registry of connections treat it.
use obs_osc.Base.{
  ℕ, Bool, true, false, not, List, [], ◌∷◌, ◌++◌, Option, none, some, ◌==◌, if◌then◌else◌, Bytes,
}
use obs_osc.Ws.Frame.{build_frame, op_binary}

-- `is_open` is the flag `open`; `fd` is `none` once `close_conn` has reset it.
pub record Conn : Type 0 where
  pub token : ℕ
  pub fd : Option ℕ
  pub is_open : Bool

-- `delivered` is the result of `send_all`. The bytes are those given to the socket.
unfoldable pub send_frame : Bool → Conn → ℕ → Bytes → Conn × Bool × List Bytes
send_frame delivered c opcode payload =
    if not c.is_open
    then (c, false, [])
    else if delivered
    then (c, true, build_frame opcode payload ∷ [])
    else (record c { is_open = false }, false, build_frame opcode payload ∷ [])

-- The sockets that are closed by the call.
unfoldable pub close_conn : Conn → Conn × List ℕ
close_conn c =
    if not c.is_open
    then (c, [])
    else (record c { is_open = false; fd = none }, elim c.fd [ none ↦ [] | some fd ↦ fd ∷ [] ])

abbrev pub find_conn : ℕ → List Conn → Option Conn
find_conn token [] = none
find_conn token (c ∷ cs) = if c.token == token then some c else find_conn token cs

-- The frame that `send_binary` gives to a connection's socket, if the token still names one.
unfoldable pub send_binary : Bool → List Conn → ℕ → Bytes → List Bytes
unfolding send_frame
send_binary delivered conns token bytes = elim (find_conn token conns) [
  | none ↦ []
  | some c ↦ (send_frame delivered c op_binary bytes).2
]

-- Any later calls on a connection: frames to send, and closings. All sockets closed on the way.
pub data Use : Type 0 where
  sends : Bool → ℕ → Bytes → Use
  closes : Use

unfoldable pub use_all : Conn → List Use → List ℕ
unfolding send_frame close_conn
use_all c [] = []
use_all c (sends delivered opcode payload ∷ us) =
    use_all (send_frame delivered c opcode payload).0 us
use_all c (closes ∷ us) = (close_conn c).1 ++ use_all (close_conn c).0 us
