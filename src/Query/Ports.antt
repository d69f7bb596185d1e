-- ===== src/Query/Ports.antt =====
-- On which port the query server listens for a configuration: `osc_query_restart` of
-- src/osc-query.cpp down to the `(uint16_t)port` of src/osc-net.cpp.
use obs_osc.Base.{true, List, ◌≡◌, refl, arith}
use obs_osc.Base.Int.{ℤ, pos}
use obs_osc.Net.Sockets.{NetCall, Sockets, uint16, bind_socket, bind_listen, listen_tcp}
use obs_osc.Http.Listening.{osc_http_start}
use obs_osc.Plugin.Config.{OscConfig, IsConfig}
use obs_osc.Plugin.Lifecycle.{query_http_port}
use obs_osc.Query.Bonjour.{osc_bonjour_register}
use obs_osc.Query.Service.{
  Query, query_serving, query_starting, osc_query_start, osc_query_stop, osc_query_restart,
}

-- Where the port is derived from an OSC port that has no successor.
abbrev pub Wraps : OscConfig → Type 0
Wraps c = (c.query_port ≡ pos 0) × (c.port ≡ pos 65535)

uint16_keeps :
    (c : OscConfig)
    → IsConfig c
    → ((Wraps c → ⊥))
    → pos (uint16 (query_http_port c)) ≡ query_http_port c
unfolding uint16
uint16_keeps c i w = ground arith

start_wraps :
    (os : Sockets) (udp : ℤ) (q : Query) (calls : List NetCall)
    → osc_query_start os (pos 65536) udp q calls ≡ osc_query_start os (pos 0) udp q calls
unfolding osc_query_start query_starting query_serving osc_http_start listen_tcp bind_listen
    bind_socket uint16 osc_bonjour_register
start_wraps os udp q calls = refl

-- With the derived query port, an OSC port of 65535 makes the query server ask for port 65536, which
-- wraps to 0: it does in every respect, its advertisement included, what a start on port 0 does, for
-- which the system picks any free port.
pub osc_query_restart-Wraps :
    (os : Sockets) (c : OscConfig) (q : Query) (calls : List NetCall)
    → c.query_enabled ≡ true
    → Wraps c
    → osc_query_restart os c q calls
      ≡ osc_query_start os
          (pos 0)
          (pos 65535)
          (osc_query_stop os q calls).0
          (osc_query_stop os q calls).1
unfolding osc_query_restart
osc_query_restart-Wraps os c q calls enabled (derived, last) =
    rw (enabled, derived, last)
      (start_wraps os (pos 65535) (osc_query_stop os q calls).0 (osc_query_stop os q calls).1)
