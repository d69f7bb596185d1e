-- ===== src/Controls/Arrivals.antt =====
-- Datagrams that reach `handle_datagram` of src/plugin.cpp, and the tasks that it posts.
use obs_osc.Base.{List, [], ◌∷◌, All, map, Option, none, some, Bytes, ◌≡◌, refl, sym, ap, ◌∙◌}
use obs_osc.Net.{Endpoint}
use obs_osc.Message.Types.{OscMessage}
use obs_osc.Message.RoundTrip.{osc_parse_packet-build}
use obs_osc.Server.Batch.{build_bundle}
use obs_osc.Server.Bundle.{FitsBundle, built, osc_parse_packet-build_bundle}
use obs_osc.Obs.Readings.{Env}
use obs_osc.Controls.Dispatch.{
  Desk, Task, posted, handle_datagram, osc_dispatch_command, dispatch_all, run_task,
}

-- The task that a datagram posts is run before the next datagram comes.
abbrev pub perform : Env → Option Task → Desk → Desk
perform env none d = d
perform env (some task) d = run_task env task d

abbrev pub arrive : Env → Endpoint → Bytes → Desk → Desk
arrive env sender bytes = perform env (handle_datagram bytes sender)

abbrev pub arrive_all : Env → Endpoint → List Bytes → Desk → Desk
arrive_all env sender [] d = d
arrive_all env sender (bytes ∷ datagrams) d =
    arrive_all env sender datagrams (arrive env sender bytes d)

module _ (env : Env) (sender : Endpoint) where
  arrive-built :
      (m : OscMessage) (d : Desk)
      → FitsBundle m
      → arrive env sender (built m) d ≡ osc_dispatch_command env m sender d
  unfolding handle_datagram run_task dispatch_all
  arrive-built m d (h, _) =
      ap (λ run. perform env (posted run sender) d) (osc_parse_packet-build m [] h)

  arrive_all-built :
      (ms : List OscMessage) (d : Desk)
      → All FitsBundle ms
      → arrive_all env sender (map built ms) d ≡ dispatch_all env ms sender d
  unfolding dispatch_all
  arrive_all-built [] d h = refl
  arrive_all-built (m ∷ ms) d (h, hs) =
      ap (arrive_all env sender (map built ms)) (arrive-built m d h)
      ∙ arrive_all-built ms (osc_dispatch_command env m sender d) hs

  arrive-build_bundle :
      (ms : List OscMessage) (d : Desk)
      → All FitsBundle ms
      → arrive env sender (build_bundle (map built ms)) d ≡ dispatch_all env ms sender d
  unfolding handle_datagram run_task
  arrive-build_bundle ms d h =
      ap (λ run. perform env (posted run sender) d) (osc_parse_packet-build_bundle ms [] h)

  -- A bundle of messages does, in OBS, to the clients and to the registry, exactly what its messages
  -- do in datagrams of their own that come in its order.
  pub arrive_bundle_each :
      (ms : List OscMessage) (d : Desk)
      → All FitsBundle ms
      → arrive env sender (build_bundle (map built ms)) d ≡ arrive_all env sender (map built ms) d
  arrive_bundle_each ms d h = arrive-build_bundle ms d h ∙ sym (arrive_all-built ms d h)
