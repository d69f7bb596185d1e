-- ===== src/Ws/Leak.antt =====
-- The sockets of connections that fail to send.
use obs_osc.Base.{
  ℕ, ◌≡◌, refl, ap, Bool, true, false, List, [], ◌∷◌, arith, Option, none, some, if◌then◌else◌,
  Bytes,
}
use obs_osc.Ws.Connection.{send_frame, close_conn, Use, sends, closes, use_all}

-- A connection whose flag is down closes nothing.
shut-use_all :
    (token : ℕ) (fd : Option ℕ) (us : List Use)
    → use_all (record { token = token; fd = fd; is_open = false }) us ≡ []
unfolding use_all send_frame close_conn
shut-use_all token fd [] = refl
shut-use_all token fd (sends delivered opcode payload ∷ us) = shut-use_all token fd us
shut-use_all token fd (closes ∷ us) = shut-use_all token fd us

-- Once `send_all` failed on an open connection, no later sequence of sends and closings closes
-- its socket, `close_conn` at the end of `serve` included.
pub failed_send_leaks :
    (token socket opcode : ℕ) (payload : Bytes) (us : List Use)
    → use_all
        (record { token = token; fd = some socket; is_open = true })
        (sends false opcode payload ∷ us)
      ≡ []
unfolding use_all send_frame close_conn
failed_send_leaks token socket opcode payload us = shut-use_all token (some socket) us

-- Every send of the list is delivered.
abbrev pub all_delivered : List Use → Bool
all_delivered [] = true
all_delivered (sends delivered _ _ ∷ us) = if delivered then all_delivered us else false
all_delivered (closes ∷ us) = all_delivered us

-- When the list of uses closes the connection at all.
abbrev pub has_close : List Use → Bool
has_close [] = false
has_close (sends _ _ _ ∷ us) = has_close us
has_close (closes ∷ us) = true

-- An open connection on which every send is delivered and which is closed at least once has its
-- socket closed exactly once, however often the serving thread and `shutdown_all` close it.
pub closed_once :
    (token socket : ℕ) (us : List Use)
    → all_delivered us ≡ true
    → has_close us ≡ true
    → use_all (record { token = token; fd = some socket; is_open = true }) us ≡ socket ∷ []
unfolding use_all send_frame close_conn
closed_once token socket [] d h = ground arith
closed_once token socket (sends true opcode payload ∷ us) d h = closed_once token socket us d h
closed_once token socket (sends false opcode payload ∷ us) d h = ground arith
closed_once token socket (closes ∷ us) d h = ap (◌∷◌ socket) (shut-use_all token none us)
