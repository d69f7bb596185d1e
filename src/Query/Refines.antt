-- ===== src/Query/Refines.antt =====
-- The servers over the calls of the operating system refine the listeners of obs_osc.Plugin.Lifecycle,
-- which see of the system only whether it grants a port.
use obs_osc.Base.{Bool, true, false, ◌&&◌, ◌||◌, List, [], ◌∷◌, ◌≡◌, arith, if◌then◌else◌, ap, ◌∙◌}
use obs_osc.Base.Int.{ℤ}
use obs_osc.Net.Sockets.{NetCall, Sockets, init, listen_udp, listen_tcp}
use obs_osc.Http.Listening.{http_listening, osc_http_start}
use obs_osc.Plugin.Config.{OscConfig}
use obs_osc.Plugin.Apply.{restart_frame}
use obs_osc.Plugin.Lifecycle.{Ports, Plugin, is_running, server_start, server_stop}
use obs_osc.Plugin.Lifecycle
use obs_osc.Query.Service.{
  Query, query_serving, query_starting, osc_query_start, osc_query_stop, osc_query_restart,
}
use obs_osc.Query.Transport.{udp_listening, udp_starting, start_on}
use obs_osc.Query.Running.{
  World, Event, server_started, server_stopped, query_started, query_stopped, query_restarted,
  happen, happen_all,
}
use obs_osc.Query.ServerOwing.{is_held, stop_on_idle}
use obs_osc.Query.QueryOwing.{stop-QueryBacks}
use obs_osc.Query.Ledger.{IsBalanced, happen-IsBalanced}
use obs_osc.Server.State.{Server, start}

query_start_udp :
    (ports : Ports) (p : Plugin) (http_port osc_udp_port : ℤ)
    → is_running (Lifecycle.osc_query_start ports p http_port osc_udp_port).0.udp ≡ is_running p.udp
unfolding Lifecycle.osc_query_start
query_start_udp ports p http_port osc_udp_port = ground arith

-- What the listeners of the plugin show of the two servers.
pub record Shows (w : World) (p : Plugin) : Type 0 where
  pub udp_shown : is_running p.udp ≡ w.server.running
  pub http_shown : is_running p.http ≡ w.query.query_running
  pub port_shown : p.current_udp_port ≡ w.query.current_udp_port

abbrev pub listens : Ports → Event → Plugin → Plugin
listens ports (server_started port) p = (server_start ports p port).0
listens ports server_stopped p = server_stop p
listens ports (query_started http_port osc_udp_port) p =
    (Lifecycle.osc_query_start ports p http_port osc_udp_port).0
listens ports query_stopped p = Lifecycle.osc_query_stop p
listens ports (query_restarted g_config) p =
    (Lifecycle.osc_query_restart ports (record p { config = g_config })).0

-- The same, of the query server alone.
QueryShows : Query → Plugin → Type 0
QueryShows q p = (is_running p.http ≡ q.query_running) × (p.current_udp_port ≡ q.current_udp_port)

abbrev pub listens_all : List (Ports × Event) → Plugin → Plugin
listens_all [] p = p
listens_all ((ports, e) ∷ es) p = listens_all es (listens ports e p)

module _ (os : Sockets) where
  -- What the system grants after the calls made so far.
  pub granted : List NetCall → Ports
  granted calls = record {
    udp_granted = λ port. (init os calls).1 && is_held (listen_udp os port (init os calls).0).1;
    tcp_granted = λ port. (init os calls).1 && is_held (listen_tcp os port 8 (init os calls).0).1;
  }

  udp_started :
      (port : ℤ) (s : Server) (x : List NetCall × Bool)
      → s.running ≡ false
      → ((udp_starting os port s x).0.running ≡ (x.1 && is_held (listen_udp os port x.0).1))
        × ((udp_starting os port s x).2 ≡ (x.1 && is_held (listen_udp os port x.0).1))
  unfolding udp_starting udp_listening start
  udp_started port s (calls, false) e = ground arith
  udp_started port s (calls, true) e = ground arith

  start_on-granted :
      (port : ℤ) (s : Server) (calls : List NetCall)
      → ((start_on os port s calls).0.running ≡ (s.running || (granted calls).udp_granted port))
        × ((start_on os port s calls).2 ≡ (s.running || (granted calls).udp_granted port))
  unfolding start_on granted
  start_on-granted port s calls = ground (arith, udp_started port s (init os calls))

  query_started_lem :
      (port : ℤ) (q : Query) (x : List NetCall × Bool)
      → q.query_running ≡ false
      → q.http_server.http_running ≡ false
      → ((query_starting os port q x).0.query_running
          ≡ (x.1 && is_held (listen_tcp os port 8 x.0).1))
        × ((query_starting os port q x).0.current_udp_port ≡ q.current_udp_port)
        × ((query_starting os port q x).2 ≡ (x.1 && is_held (listen_tcp os port 8 x.0).1))
  unfolding query_starting query_serving osc_http_start http_listening
  query_started_lem port q (calls, false) e f = ground arith
  query_started_lem port q (calls, true) e f = ground arith

  query_start_granted :
      (http_port osc_udp_port : ℤ) (q : Query) (calls : List NetCall)
      → (q.query_running ≡ q.http_server.http_running)
      → ((osc_query_start os http_port osc_udp_port q calls).0.query_running
          ≡ (q.query_running || (granted calls).tcp_granted http_port))
        × ((osc_query_start os http_port osc_udp_port q calls).0.current_udp_port
            ≡ (if q.query_running then q.current_udp_port else osc_udp_port))
        × ((osc_query_start os http_port osc_udp_port q calls).2
            ≡ (q.query_running || (granted calls).tcp_granted http_port))
  unfolding osc_query_start granted
  query_start_granted http_port osc_udp_port q calls flag = ground (
    arith,
    query_started_lem http_port (record q { current_udp_port = osc_udp_port }) (init os calls),
  )

  query_stopped_lem :
      (q : Query) (calls : List NetCall)
      → ((osc_query_stop os q calls).0.query_running ≡ false)
        × ((osc_query_stop os q calls).0.current_udp_port ≡ q.current_udp_port)
  unfolding osc_query_stop
  query_stopped_lem q calls = ground arith

  -- The calls after which an event asks for its port.
  abbrev pub moment : Event → World → List NetCall
  moment (query_restarted _) w = (osc_query_stop os w.query w.net_calls).1
  moment _ w = w.net_calls

  query_start-QueryShows :
      (http_port osc_udp_port : ℤ) (p : Plugin) (q : Query) (calls : List NetCall)
      → q.query_running ≡ q.http_server.http_running
      → QueryShows q p
      → QueryShows
          (osc_query_start os http_port osc_udp_port q calls).0
          (Lifecycle.osc_query_start (granted calls) p http_port osc_udp_port).0
  unfolding Lifecycle.osc_query_start QueryShows
  query_start-QueryShows http_port osc_udp_port p q calls flag s =
      ground (arith, query_start_granted http_port osc_udp_port q calls flag)

  query_restart-QueryShows :
      (g_config : OscConfig) (p : Plugin) (q : Query) (calls : List NetCall)
      → (osc_query_stop os q calls).0.query_running
        ≡ (osc_query_stop os q calls).0.http_server.http_running
      → QueryShows q p
      → QueryShows
          (osc_query_restart os g_config q calls).0
          (Lifecycle.osc_query_restart
            (granted (osc_query_stop os q calls).1)
            (record p { config = g_config })).0
  unfolding osc_query_restart Lifecycle.osc_query_restart QueryShows
  query_restart-QueryShows g_config p q calls flag s =
      let stopped = query_stopped_lem q calls in
      let started =
        query_start-QueryShows (Lifecycle.query_http_port g_config) g_config.port
          (Lifecycle.osc_query_stop (record p { config = g_config })) (osc_query_stop os q calls).0
          (osc_query_stop os q calls).1 flag (ground (arith, stopped)) in
      ground (arith, stopped, started)

  happen-Shows :
      (e : Event) (w : World) (p : Plugin)
      → IsBalanced w
      → Shows w p
      → Shows (happen os e w) (listens (granted (moment e w)) e p)
  unfolding server_start QueryShows
  happen-Shows (server_started port) w p b s =
      ground (arith, start_on-granted port w.server w.net_calls)
  happen-Shows server_stopped w p b s =
      ground (arith, stop_on_idle os _ w.server w.net_calls b.server_backs)
  happen-Shows (query_started http_port osc_udp_port) w p b s =
      let shown =
        query_start-QueryShows http_port osc_udp_port p w.query w.net_calls b.query_backs.http_flag
          (s.http_shown, s.port_shown) in
      record {
        udp_shown = query_start_udp _ p http_port osc_udp_port ∙ s.udp_shown;
        http_shown = shown.0;
        port_shown = shown.1;
      }
  happen-Shows query_stopped w p b s = ground (arith, query_stopped_lem w.query w.net_calls)
  happen-Shows (query_restarted g_config) w p b s =
      let stopped = stop-QueryBacks os _ w.query w.net_calls b.query_backs in
      let shown =
        query_restart-QueryShows g_config p w.query w.net_calls stopped.http_flag
          (s.http_shown, s.port_shown) in
      record {
        udp_shown =
            ap is_running (restart_frame _ (record p { config = g_config })).1 ∙ s.udp_shown;
        http_shown = shown.0;
        port_shown = shown.1;
      }

  -- What the system grants at each event of a history.
  abbrev pub asked : List Event → World → List (Ports × Event)
  asked [] w = []
  asked (e ∷ es) w = (granted (moment e w), e) ∷ asked es (happen os e w)

  -- Through any history of starts and stops, from balanced calls, the two servers over the calls of the
  -- operating system run, and report the OSC port, as the plugin's listeners do that see only whether
  -- the system grants the port at the moment it is asked for.
  pub happen_all-Shows :
      (es : List Event) (w : World) (p : Plugin)
      → IsBalanced w
      → Shows w p
      → Shows (happen_all os es w) (listens_all (asked es w) p)
  happen_all-Shows [] w p b s = s
  happen_all-Shows (e ∷ es) w p b s =
      happen_all-Shows es (happen os e w) (listens (granted (moment e w)) e p)
        (happen-IsBalanced os e w b) (happen-Shows e w p b s)
