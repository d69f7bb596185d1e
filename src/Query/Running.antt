-- ===== src/Query/Running.antt =====
-- The listeners of the plugin together, as a history of their starts and stops leaves them.
use obs_osc.Base.{List, [], ◌∷◌}
use obs_osc.Base.Int.{ℤ}
use obs_osc.Net.Sockets.{NetCall, Sockets}
use obs_osc.Plugin.Config.{OscConfig}
use obs_osc.Query.Service.{Query, osc_query_start, osc_query_stop, osc_query_restart}
use obs_osc.Query.Transport.{start_on, stop_on}
use obs_osc.Server.State.{Server}

pub record World : Type 0 where
  pub server : Server
  pub query : Query
  pub net_calls : List NetCall

pub data Event : Type 0 where
  server_started : ℤ → Event
  server_stopped : Event
  query_started : ℤ → ℤ → Event
  query_stopped : Event
  query_restarted : OscConfig → Event

abbrev pub with_server : World → Server × List NetCall → World
with_server w (s, calls) = record w { server = s; net_calls = calls }

abbrev pub with_query : World → Query × List NetCall → World
with_query w (q, calls) = record w { query = q; net_calls = calls }

module _ (os : Sockets) where
  abbrev pub happen : Event → World → World
  happen (server_started port) w =
      let (s, calls, _) = start_on os port w.server w.net_calls in with_server w (s, calls)
  happen server_stopped w = with_server w (stop_on os w.server w.net_calls)
  happen (query_started http_port osc_udp_port) w =
      let (q, calls, _) = osc_query_start os http_port osc_udp_port w.query w.net_calls in
      with_query w (q, calls)
  happen query_stopped w = with_query w (osc_query_stop os w.query w.net_calls)
  happen (query_restarted g_config) w =
      let (q, calls, _) = osc_query_restart os g_config w.query w.net_calls in
      with_query w (q, calls)

  abbrev pub happen_all : List Event → World → World
  happen_all [] w = w
  happen_all (e ∷ es) w = happen_all es (happen e w)
