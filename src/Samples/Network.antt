-- ===== src/Samples/Network.antt =====
-- src/osc-net.cpp, src/osc-query.cpp and what is sent, over a system that answers every call.
use obs_osc.Base.{
  ℕ, ◌≢◌, ◌+◌, ◌≡◌, refl, true, false, [], ◌∷◌, some, none, Bytes, codes, length, List, arith,
}
use obs_osc.Base.Counts.{count}
use obs_osc.Base.Int.{pos}
use obs_osc.Net.Sockets.{Sockets, listen_udp, listen_tcp, close_wake}
use obs_osc.Net.Sending.{Kernel, TakesOffer, TakesSome}
use obs_osc.Http.Request.{Answer}
use obs_osc.Http.Request
use obs_osc.Http.Response.{respond, read_response, respond_read}
use obs_osc.Plugin.Config.{OscConfig, default_config}
use obs_osc.Plugin.Lifecycle.{Plugin}
use obs_osc.Server.State.{fresh_server}
use obs_osc.Subscribe.Registry.{no_registrations}
use obs_osc.Query.Service.{Query, osc_query_start, osc_query_stop, osc_query_restart}
use obs_osc.Query.Running.{
  World, Event, server_started, query_restarted, server_stopped, happen_all,
}
use obs_osc.Query.Transport.{start_on, stop_on}
use obs_osc.Query.ServerOwing.{server_held}
use obs_osc.Query.QueryHeld.{query_held}
use obs_osc.Query.Owing.{Owes, descriptor, makes, ends, winsock, advert}
use obs_osc.Query.Ledger.{IsBalanced, unload, unload_owes_nothing}
use obs_osc.Query.Refines.{Shows, asked, listens_all, happen_all-Shows}
use obs_osc.Query.Ports.{osc_query_restart-Wraps}

-- Sockets are numbered by the calls before them.
abbrev system : Sockets
system = record {
  startup = λ calls. true;
  socket = λ calls kind. some (length calls);
  bind = λ calls fd port. true;
  listen = λ calls fd backlog. true;
  has_mdns = true;
  host_name = some (codes "studio");
  register = λ calls name port. some (length calls);
}

abbrev quiet : Query
quiet = record {
  query_running = false;
  current_udp_port = pos 0;
  http_server = record {
    http_running = false;
    listen_fd = none;
    peers = record { shared = []; conns = []; registry = no_registrations; closed = [] };
  };
  bonjour_ref = none;
}

abbrev loaded : World
loaded = record { server = fresh_server; query = quiet; net_calls = [] }

loaded-IsBalanced : IsBalanced loaded
unfolding Owes
loaded-IsBalanced = record {
  server_backs = record {
    flag = refl;
    owed = λ r. elim r as (λ s. Owes s [] (server_held s fresh_server + query_held s quiet)) [
      | winsock ↦ omega arith
      | descriptor _ ↦ omega arith
      | advert _ ↦ omega arith
    ];
  };
  query_backs = record {
    http_flag = refl;
    socket_flag = refl;
    unadvertised = λ _. refl;
    owed = λ r. elim r as (λ s. Owes s [] (query_held s quiet + server_held s fresh_server)) [
      | winsock ↦ omega arith
      | descriptor _ ↦ omega arith
      | advert _ ↦ omega arith
    ];
  };
}

-- The server starts, the query server with it, and the server moves to another port.
abbrev history : List Event
history =
    server_started (pos 9000)
    ∷ query_restarted default_config
    ∷ server_stopped
    ∷ server_started (pos 9100)
    ∷ []

unload_owes_nothing_example :
    count (makes (descriptor 1)) (unload system (happen_all system history loaded)).net_calls
    ≡ count (ends (descriptor 1)) (unload system (happen_all system history loaded)).net_calls
unload_owes_nothing_example =
    unload_owes_nothing system history loaded loaded-IsBalanced (descriptor 1)

-- The first socket was opened, once.
opens_one : count (makes (descriptor 1)) (happen_all system history loaded).net_calls ≡ 1
unfolding start_on osc_query_restart stop_on listen_udp close_wake listen_tcp
opens_one = refl

abbrev shown : Plugin
shown = record {
  config = default_config;
  udp = none;
  http = none;
  current_udp_port = pos 0;
  feedback_target = ([], pos 0);
  saved = none;
}

happen_all-Shows_example :
    Shows (happen_all system history loaded) (listens_all (asked system history loaded) shown)
happen_all-Shows_example =
    happen_all-Shows system history loaded shown loaded-IsBalanced
      (record { udp_shown = refl; http_shown = refl; port_shown = refl })

abbrev last_port : OscConfig
last_port = record default_config { port = pos 65535 }

osc_query_restart-Wraps_example :
    osc_query_restart system last_port quiet []
    ≡ osc_query_start system
        (pos 0)
        (pos 65535)
        (osc_query_stop system quiet []).0
        (osc_query_stop system quiet []).1
osc_query_restart-Wraps_example =
    osc_query_restart-Wraps system last_port quiet [] refl (refl, refl)

abbrev on_9000 : Query
on_9000 = record quiet { query_running = true; current_udp_port = pos 9000 }

abbrev no_document : Bytes → Bytes
no_document path = []

-- Bytes that stand for themselves.
abbrev IsPlain : ℕ → Type 0
IsPlain c = (c ≢ b'%') × (c ≢ b' ') × (c ≢ b'?')

-- A kernel that takes two bytes at a time.
abbrev by_two : Kernel
by_two taken [] count = pos 0
by_two taken (c ∷ []) count = pos 1
by_two taken (c ∷ d ∷ offer) count = pos 2

by_two-TakesOffer : TakesOffer by_two
by_two-TakesOffer taken [] = omega arith
by_two-TakesOffer taken (c ∷ []) = omega arith
by_two-TakesOffer taken (c ∷ d ∷ offer) = omega arith

by_two-TakesSome : TakesSome by_two
by_two-TakesSome taken [] c = refl
by_two-TakesSome taken (d ∷ offer) c = refl

respond_read_example :
    (wire : Bytes) × (respond by_two (codes "{}") true ≡ some wire)
    × (read_response wire ≡ some (true, codes "{}"))
respond_read_example =
    respond_read by_two (codes "{}") true by_two-TakesOffer by_two-TakesSome (ground arith)
