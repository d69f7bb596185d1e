-- ===== src/Feedback/Send.antt =====
-- `osc_feedback_send`: the message is encoded once, fanned out by `osc_publish`, and sent to the
-- server's fixed target and last sender.
use obs_osc.Base.{Bool, not, ◌&&◌, List, [], ◌∷◌, if◌then◌else◌, Bytes, ℕ}
use obs_osc.Net.{Endpoint}
use obs_osc.Message.Types.{OscArgument}
use obs_osc.Message.Build.{osc_build_message}
use obs_osc.Server.State.{Server, send_fixed, send_last, send_to}
use obs_osc.Subscribe.Registry.{Registry, osc_has_subscribers}
use obs_osc.Subscribe.Fanout.{osc_publish}

-- The loop of `osc_publish` over its UDP targets.
abbrev pub send_each : Server → Bytes → List Endpoint → Server
send_each s bytes [] = s
send_each s bytes (target ∷ targets) = send_each (send_to s bytes target) bytes targets

-- The last two statements: the fixed target always, the last sender while nobody subscribes.
unfoldable pub send_legacy : Bool → Server → Bytes → Server
unfolding send_fixed send_last
send_legacy have_subscribers s bytes =
    let fixed = if s.have_target then send_fixed s bytes else s in
    if not have_subscribers && fixed.have_sender then send_last fixed bytes else fixed

-- The server after the call, and the websocket peers that are given the message.
unfoldable pub osc_feedback_send :
    Bool → Registry → Server → Bytes → List OscArgument → Server × List ℕ
unfolding send_legacy osc_publish osc_has_subscribers
osc_feedback_send feedback_enabled r s address args =
    if not feedback_enabled
    then (s, [])
    else if not (osc_has_subscribers r) && (not s.have_target && not s.have_sender)
    then (s, [])
    else (let buf = osc_build_message [] address args in
        let fan = osc_publish r address in
        (send_legacy (osc_has_subscribers r) (send_each s buf fan.targets) buf, fan.peers))
