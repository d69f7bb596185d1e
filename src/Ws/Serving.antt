-- ===== src/Ws/Serving.antt =====
-- The whole of `serve` of src/osc-ws.cpp: the handshake, the connection in the map, its frames, and its
-- end. What Qt makes of a key (SHA-1, in base 64) and libobs of a text (JSON) are parameters.
use obs_osc.Base.{
  ℕ, Bool, true, false, List, [], ◌∷◌, ◌++◌, Option, none, some, ◌==◌, if◌then◌else◌, Bytes, codes,
}
use obs_osc.Net.Sockets.{NetCall, set_recv_timeout}
use obs_osc.Net.Sending.{Kernel, send_all}
use obs_osc.Ws.Connection.{Conn, send_frame}
use obs_osc.Ws.Peers.{Peers, enter, leave}
use obs_osc.Ws.Session.{Effect, send, text, serve, handle_text}

abbrev pub handshake_guid : Bytes
handshake_guid = codes "258EAFA5-E914-47DA-95CA-C5AB0DC85B11"

abbrev pub compute_accept_key : (Bytes → Bytes) → Bytes → Bytes
compute_accept_key sha1_base64 key = sha1_base64 (key ++ handshake_guid)

-- `response`
abbrev pub handshake : (Bytes → Bytes) → Bytes → Bytes
handshake sha1_base64 key =
    codes
      "HTTP/1.1 101 Switching Protocols\r\nUpgrade: websocket\r\nConnection: Upgrade\r\nSec-WebSocket-Accept: "
    ++ (compute_accept_key sha1_base64 key ++ codes "\r\n\r\n")

-- `send_frame` on the connection of that token.
unfoldable pub send_shared : ℕ → Bool → ℕ → Bytes → List Conn → List Conn
unfolding send_frame
send_shared token sent opcode payload [] = []
send_shared token sent opcode payload (c ∷ cs) =
    (if c.token == token then (send_frame sent c opcode payload).0 else c)
    ∷ send_shared token sent opcode payload cs

module _ (parse : Bytes → Option (Bytes × Bytes)) (token : ℕ) where
  unfoldable pub take_effect : Effect → Peers → Peers
  unfolding send_shared handle_text
  take_effect (send sent opcode payload) p = record p {
    shared = send_shared token sent opcode payload p.shared;
  }
  take_effect (text message) p = record p { registry = handle_text parse p.registry token message }

  abbrev pub take_effects : List Effect → Peers → Peers
  take_effects [] p = p
  take_effects (e ∷ es) p = take_effects es (take_effect e p)

  -- Behind the `send_all` of the handshake.
  unfoldable pub serve_from :
      (ℕ → Bool) → ℕ → Bytes → Bool → Peers → List NetCall → Peers × List NetCall
  unfolding take_effect enter leave serve set_recv_timeout
  serve_from sent fd stream false p calls = (record p { closed = p.closed ++ (fd ∷ []) }, calls)
  serve_from sent fd stream true p calls = (
    leave token (take_effects (serve sent stream) (enter token fd p)),
    set_recv_timeout fd 0 calls,
  )

  -- `none` where the handshake would not end.
  unfoldable pub serve_client :
      (Bytes → Bytes)
      → Kernel
      → (ℕ → Bool)
      → ℕ
      → Bytes
      → Bytes
      → Peers
      → List NetCall
      → Option (Peers × List NetCall)
  unfolding serve_from send_all
  serve_client sha1_base64 kernel sent fd key stream p calls =
      elim (send_all kernel [] (handshake sha1_base64 key)) [
        | none ↦ none
        | some (_, greeted) ↦ some (serve_from sent fd stream greeted p calls)
      ]
