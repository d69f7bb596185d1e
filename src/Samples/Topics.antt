-- ===== src/Samples/Topics.antt =====
-- src/osc-subscribe.cpp and src/osc-feedback.cpp on concrete registries, calls and clocks.
use obs_osc.Base.{
  ◌≡◌, refl, true, false, [], ◌∷◌, ◌++◌, All, codes, c_str, none, arith, if◌then◌else◌,
}
use obs_osc.Net.{Endpoint, inet}
use obs_osc.Message.Types.{OscMessage, osc_int, osc_str}
use obs_osc.Message.Access.{Conversions}
use obs_osc.Server.State.{fresh_server}
use obs_osc.Subscribe.Registry.{
  Registry, no_registrations, has_listener, same_address, endpoint_equal, osc_subscribe_add,
  osc_subscribe_remove, osc_listen_add, redirect, endpoint_set_port,
}
use obs_osc.Subscribe.Fanout.{glob, osc_publish}
use obs_osc.Subscribe.Invariant.{IsValid}
use obs_osc.Subscribe.Histories.{command, listen, disconnect, run, run-IsValid}
use obs_osc.Subscribe.Redirect.{IsUnknown, redirect_stays}
use obs_osc.Subscribe.Delivery.{osc_publish-osc_subscribe_add}
use obs_osc.Feedback.Send.{osc_feedback_send}
use obs_osc.Feedback.Throttle.{throttled}
use obs_osc.Feedback.Silence.{listen_only_silent}
use obs_osc.Feedback.Spacing.{results, throttled_spacing}

abbrev client : Endpoint
client = record {
  family = inet;
  port = 7000;
  address = 127 ∷ 0 ∷ 0 ∷ 1 ∷ [];
  scope = 0;
  rest = [];
  len = 16;
}

abbrev other : Endpoint
other = record client { port = 7001 }

abbrev conv : Conversions
conv = record { int_of_float = λ f. 0; float_of_int = λ i. 0 }

abbrev one : Registry
one = record no_registrations {
  subscribers = record { endpoint = other; patterns = codes "/media/*" ∷ [] } ∷ [];
  subscriber_count = 1;
}

abbrev ask : OscMessage
ask = record { address = codes "/subscribe"; args = osc_str (codes "/mute/*") ∷ osc_int 9001 ∷ [] }

run-IsValid_example : IsValid (
    run conv no_registrations
      (command ask client false ∷ listen 5 (codes "/mute/Mic") ∷ disconnect 5 ∷ []))
run-IsValid_example =
    run-IsValid conv no_registrations
      (command ask client false ∷ listen 5 (codes "/mute/Mic") ∷ disconnect 5 ∷ [])
      (record {
        counted = refl;
        room = omega arith;
        each = tt;
        listener_room = omega arith;
        paths = tt;
        listeners_distinct = tt;
      })

client-IsUnknown : IsUnknown client one.subscribers
unfolding endpoint_equal same_address
client-IsUnknown = (refl, tt)

osc_publish-osc_subscribe_add_example :
    ((osc_publish (osc_subscribe_add one client (codes "/mute/*") 9001) (codes "/mute/Mic")).targets
      ≡ (osc_publish one (codes "/mute/Mic")).targets
        ++ (if glob (c_str (codes "/mute/*")) (codes "/mute/Mic")
            then redirect client 9001 ∷ []
            else []))
    × ((osc_publish (osc_subscribe_add one client (codes "/mute/*") 9001) (codes "/mute/Mic")).peers
        ≡ (osc_publish one (codes "/mute/Mic")).peers)
osc_publish-osc_subscribe_add_example =
    osc_publish-osc_subscribe_add one client (codes "/mute/*") 9001 (codes "/mute/Mic")
      (omega arith, omega arith) client-IsUnknown (omega arith)

redirect_stays_example :
    ((osc_subscribe_remove
        (osc_subscribe_add one client (codes "/mute/*") 9001)
        client
        none).subscribers
      ≡ (osc_subscribe_add one client (codes "/mute/*") 9001).subscribers)
    × ((osc_subscribe_add
          (osc_subscribe_add one client (codes "/mute/*") 9001)
          client
          (codes "/mute/*")
          9001).subscribers
        ≡ one.subscribers
          ++ (record { endpoint = endpoint_set_port client 9001; patterns = codes "/mute/*" ∷ [] }
              ∷ record { endpoint = endpoint_set_port client 9001; patterns = codes "/mute/*" ∷ [] }
              ∷ []))
redirect_stays_example =
    redirect_stays one client (codes "/mute/*") 9001 (omega arith, omega arith) client-IsUnknown
      (omega arith) refl (omega arith) (omega arith) (λ e. omega arith)

listen_only_silent_example :
    ((osc_publish (osc_listen_add no_registrations 5 (codes "/mute/Mic")) (codes "/mute/Mic")).peers
      ≡ (osc_publish no_registrations (codes "/mute/Mic")).peers ++ (5 ∷ []))
    × (osc_feedback_send true
          (osc_listen_add no_registrations 5 (codes "/mute/Mic"))
          fresh_server
          (codes "/mute/Mic")
          (osc_int 1 ∷ [])
        ≡ (fresh_server, []))
unfolding has_listener
listen_only_silent_example =
    listen_only_silent true no_registrations fresh_server 5 (codes "/mute/Mic") (osc_int 1 ∷ [])
      refl refl refl refl (omega arith) (omega arith) refl

throttled_spacing_example :
    All
      (λ held. held ≡ true)
      (results 33 (codes "Mic") (throttled 1000000 [] (codes "Mic") 33).0 (
        (2000000, codes "Cam", 100)
        ∷ (3000000, codes "Mic", 1)
        ∷ (33000000, codes "Mic", 100)
        ∷ []))
unfolding throttled
throttled_spacing_example =
    throttled_spacing 1000000 33 [] (codes "Mic")
      ((2000000, codes "Cam", 100) ∷ (3000000, codes "Mic", 1) ∷ (33000000, codes "Mic", 100) ∷ [])
      (omega arith) refl
      ((omega arith, omega arith), ((omega arith, omega arith), ((omega arith, omega arith), tt)))
