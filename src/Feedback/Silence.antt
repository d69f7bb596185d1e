-- ===== src/Feedback/Silence.antt =====
-- LISTEN peers that `osc_feedback_send` passes over.
use obs_osc.Base.{
  ℕ, ◌<◌, ◌≤◌, ◌≡◌, refl, ap, Bool, true, false, not, ◌&&◌, List, [], ◌∷◌, ◌++◌, is_empty, ltb, leb,
  length, Bytes, Bool-cases, if_both, inl, inr, str_eq, str_eq_refl, arith,
}
use obs_osc.Message.Types.{OscArgument}
use obs_osc.Server.State.{Server}
use obs_osc.Subscribe.Registry.{
  Listener, Registry, max_pattern_len, max_listeners, osc_has_subscribers, has_listener,
  osc_listen_add,
}
use obs_osc.Subscribe.Fanout.{peers_of, osc_publish}
use obs_osc.Feedback.Send.{osc_feedback_send}

peers_of-append :
    (ls : List Listener) (peer : ℕ) (path : Bytes)
    → peers_of (ls ++ (record { peer = peer; path = path } ∷ [])) path
      ≡ peers_of ls path ++ (peer ∷ [])
unfolding peers_of
peers_of-append [] peer path = rw (str_eq_refl path)
peers_of-append (l ∷ ls) peer path = elim (Bool-cases (str_eq l.path path)) [
  | inl e ↦ rw e (ap (◌∷◌ l.peer) (peers_of-append ls peer path))
  | inr e ↦ rw e (peers_of-append ls peer path)
]

-- The gate at the top of `osc_feedback_send`.
gate_shut :
    (enabled : Bool) (r : Registry) (s : Server) (address : Bytes) (args : List OscArgument)
    → r.subscriber_count ≡ 0
    → s.have_target ≡ false
    → s.have_sender ≡ false
    → osc_feedback_send enabled r s address args ≡ (s, [])
unfolding osc_feedback_send osc_has_subscribers
gate_shut enabled r s address args none_sub ht hs =
    let shut : (not (osc_has_subscribers r) && (not s.have_target && not s.have_sender)) ≡ true =
      ground (arith, none_sub, ht, hs) in
    if_both (λ out. out ≡ (s, [])) (not enabled) _ _ refl (rw shut)

-- While there is no UDP subscriber, no fixed target and no last sender, a websocket peer that has
-- just listened to an address is among those `osc_publish` serves for it, but `osc_feedback_send`
-- returns before it publishes: nobody is sent an event of that address.
pub listen_only_silent :
    (feedback_enabled : Bool) (r : Registry) (s : Server) (peer : ℕ) (address : Bytes)
    (args : List OscArgument)
    → r.subscriber_count ≡ 0
    → s.have_target ≡ false
    → s.have_sender ≡ false
    → is_empty address ≡ false
    → length address ≤ max_pattern_len
    → length r.listeners < max_listeners
    → has_listener peer address r.listeners ≡ false
    → ((osc_publish (osc_listen_add r peer address) address).peers
        ≡ (osc_publish r address).peers ++ (peer ∷ []))
      × (osc_feedback_send feedback_enabled (osc_listen_add r peer address) s address args
          ≡ (s, []))
unfolding osc_publish osc_listen_add osc_feedback_send osc_has_subscribers
listen_only_silent enabled r s peer address args none_sub ht hs filled short room new =
    let fits : ltb max_pattern_len (length address) ≡ false = ground arith in
    let free : leb max_listeners (length r.listeners) ≡ false = ground arith in
    (
      rw (filled, fits, new, free) (peers_of-append r.listeners peer address),
      gate_shut enabled (osc_listen_add r peer address) s address args
          (rw (filled, fits, new, free) none_sub) ht hs,
    )
