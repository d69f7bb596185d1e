-- ===== src/Ws/Session.antt =====
-- The loop of `serve` over the frames of one connection: what it sends back, and which text messages
-- it hands to `handle_text`.
use obs_osc.Base.{
  ℕ, zero, suc, ◌+◌, Bool, true, false, ◌||◌, not, List, [], ◌∷◌, ◌++◌, Option, none, some, ◌==◌,
  ltb, if◌then◌else◌, length, Bytes, codes, c_str, str_eq, starts_with,
}
use obs_osc.Subscribe.Registry.{Registry, osc_listen_add, osc_listen_remove}
use obs_osc.Ws.Frame.{
  max_message, op_continuation, op_text, op_binary, op_close, op_ping, op_pong, FrameHeader,
  read_frame,
}

-- `assembled` and `assembling == op_text`.
pub record Session : Type 0 where
  pub assembled : Bytes
  pub assembling : Bool

abbrev pub idle : Session
idle = record { assembled = []; assembling = false }

-- A frame is sent with the result that `send_frame` had.
pub data Effect : Type 0 where
  send : Bool → ℕ → Bytes → Effect
  text : Bytes → Effect

-- The next session, or `none` for `goto done`; and what was done.
abbrev pub Next : Type 0
Next = Option Session × List Effect

-- Behind the branches that extend the message: a final frame hands it over.
unfoldable pub finish_text : Bool → Bytes → Next
finish_text fin message =
    if fin
    then (some idle, text message ∷ [])
    else (some (record { assembled = message; assembling = true }), [])

-- The `switch`. `sent` is the result of the round's `send_frame`, of which only a pong's is looked at.
unfoldable pub serve_frame : Bool → Session → FrameHeader → Bytes → Next
unfolding finish_text
serve_frame sent s hdr payload =
    if hdr.opcode == op_close
    then (none, send sent op_close payload ∷ [])
    else if hdr.opcode == op_ping
    then (if sent then some s else none, send sent op_pong payload ∷ [])
    else if hdr.opcode == op_pong || hdr.opcode == op_binary
    then (some s, [])
    else if hdr.opcode == op_text
    then finish_text hdr.fin payload
    else if not (hdr.opcode == op_continuation)
    then (none, [])
    else if not s.assembling
    then (none, [])
    else if ltb max_message (length s.assembled + length payload)
    then (none, [])
    else finish_text hdr.fin (s.assembled ++ payload)

-- The rounds of the loop over the bytes of the connection; every round takes two bytes at least, so
-- the length of the stream is fuel enough. `sent n` is the result of `send_frame` in the
-- round that leaves fuel `n`.
unfoldable pub serve_loop : ℕ → (ℕ → Bool) → Session → Bytes → List Effect
unfolding serve_frame read_frame
serve_loop zero sent s stream = []
serve_loop (suc fuel) sent s stream = elim (read_frame stream) [
  | none ↦ []
  | some (hdr, payload, rest) ↦
      let (next, effects) = serve_frame (sent fuel) s hdr payload in
      effects ++ (elim next [ none ↦ [] | some s' ↦ serve_loop fuel sent s' rest ])
]

unfoldable pub serve : (ℕ → Bool) → Bytes → List Effect
unfolding serve_loop
serve sent stream = serve_loop (length stream) sent idle stream

-- `handle_text`; `parse` is libobs' JSON reader, for the strings COMMAND and DATA.
unfoldable pub handle_text : (Bytes → Option (Bytes × Bytes)) → Registry → ℕ → Bytes → Registry
handle_text parse r peer message = elim (parse (c_str message)) [
  | none ↦ r
  | some (command, path) ↦
      if not (starts_with (codes "/") path)
      then r
      else if str_eq command (codes "LISTEN")
      then osc_listen_add r peer path
      else if str_eq command (codes "IGNORE")
      then osc_listen_remove r peer path
      else r
]
