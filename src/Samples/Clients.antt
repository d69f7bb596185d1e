-- ===== src/Samples/Clients.antt =====
-- src/osc-query-http.cpp and src/osc-ws.cpp with a few clients and connections.
use obs_osc.Base.{[], ◌∷◌, ◌≡◌, refl, true, some, codes}
use obs_osc.Subscribe.Registry.{no_registrations}
use obs_osc.Http.Accept.{no_clients, count_client, decide, here, next, accepts, decides}
use obs_osc.Http.Admission.{IsBounded, Reach-IsBounded}
use obs_osc.Ws.Peers.{Peers, shutdown_all}

-- One client is let in and another is counted.
Reach-IsBounded_example :
    IsBounded
      (count_client 8 (decide (record { client = 7; before = 0 }) (count_client 7 no_clients)))
unfolding count_client decide
Reach-IsBounded_example = Reach-IsBounded (
    next (next (next here (accepts 7 refl)) (decides (record { client = 7; before = 0 }) refl))
      (accepts 8 refl))

abbrev peers : Peers
peers = record {
  shared = record { token = 5; fd = some 3; is_open = true } ∷ [];
  conns = 5 ∷ [];
  registry = record no_registrations {
    listeners = record { peer = 5; path = codes "/mute/Mic" } ∷ [];
  };
  closed = [];
}

closes_socket : (shutdown_all peers).closed ≡ 3 ∷ []
unfolding shutdown_all
closes_socket = refl
