-- ===== src/Query/Service.antt =====
-- src/osc-query.cpp. What the schema answers is a parameter of `handle_request` (it is built in
-- obs_osc.Schema). Locks are the order of the calls.
use obs_osc.Base.{
  Bool, true, false, not, List, Option, ◌++◌, ℕ, if◌then◌else◌, Bytes, codes, str_eq,
}
use obs_osc.Base.Int.{ℤ}
use obs_osc.Net.Sockets.{NetCall, Sockets, init, cleanup}
use obs_osc.Http.Listening.{HttpServer, osc_http_start, osc_http_stop}
use obs_osc.Plugin.Config.{OscConfig}
use obs_osc.Plugin.Lifecycle.{query_http_port}
use obs_osc.Query.Bonjour.{osc_bonjour_register, osc_bonjour_unregister}
use obs_osc.Base.Decimal.{to_string}

pub record Query : Type 0 where
  pub query_running : Bool
  pub current_udp_port : ℤ
  pub http_server : HttpServer
  pub bonjour_ref : Option ℕ

unfoldable pub host_info_json : Query → Bytes
unfolding to_string
host_info_json q =
    codes "{\"NAME\":\"OBS Studio\",\"PORT\":"
    ++ (to_string q.current_udp_port ++ codes ",\"EXTENSIONS\":[\"SERVER\",\"LISTEN\"]}")

unfoldable pub handle_request : (Bytes → Bytes) → Query → Bytes → Bytes
unfolding host_info_json
handle_request osc_query_schema_lookup q path =
    if str_eq path (codes "/HOST_INFO") then host_info_json q else osc_query_schema_lookup path

module _ (os : Sockets) where
  -- Behind `osc_http_start`.
  unfoldable pub query_serving :
      ℤ → Query → HttpServer × List NetCall × Bool → Query × List NetCall × Bool
  unfolding osc_bonjour_register
  query_serving http_port q (server, calls, false) =
      (record q { http_server = server }, cleanup os calls, false)
  query_serving http_port q (server, calls, true) =
      let (bonjour_ref, advertised) = osc_bonjour_register os http_port q.bonjour_ref calls in
      (
        record q { query_running = true; http_server = server; bonjour_ref = bonjour_ref },
        advertised,
        true,
      )

  -- Behind `osc_net::init`.
  unfoldable pub query_starting : ℤ → Query → List NetCall × Bool → Query × List NetCall × Bool
  unfolding query_serving osc_http_start
  query_starting http_port q (calls, false) = (q, calls, false)
  query_starting http_port q (calls, true) =
      query_serving http_port q (osc_http_start os http_port q.http_server calls)

  unfoldable pub osc_query_start : ℤ → ℤ → Query → List NetCall → Query × List NetCall × Bool
  unfolding query_starting init
  osc_query_start http_port osc_udp_port q calls =
      if q.query_running
      then (q, calls, true)
      else query_starting http_port (record q { current_udp_port = osc_udp_port }) (init os calls)

  unfoldable pub osc_query_stop : Query → List NetCall → Query × List NetCall
  unfolding osc_http_stop osc_bonjour_unregister
  osc_query_stop q calls =
      let (server, woken) = osc_http_stop q.http_server calls in
      let (bonjour_ref, withdrawn) = osc_bonjour_unregister q.bonjour_ref woken in
      if not q.query_running then (q, calls) else (
        record q { query_running = false; http_server = server; bonjour_ref = bonjour_ref },
        cleanup os withdrawn,
      )

  unfoldable pub osc_query_restart : OscConfig → Query → List NetCall → Query × List NetCall × Bool
  unfolding osc_query_start osc_query_stop
  osc_query_restart g_config q calls =
      let (stopped, woken) = osc_query_stop q calls in
      if not g_config.query_enabled
      then (stopped, woken, true)
      else osc_query_start (query_http_port g_config) g_config.port stopped woken
