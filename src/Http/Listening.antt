-- ===== src/Http/Listening.antt =====
-- `osc_http_start` and `osc_http_stop` of src/osc-query-http.cpp, over the calls of the operating
-- system. The handler does not change and is left out.
use obs_osc.Base.{Bool, true, false, not, List, Option, none, some, ℕ, if◌then◌else◌}
use obs_osc.Base.Int.{ℤ}
use obs_osc.Net.Sockets.{NetCall, Sockets, listen_tcp, close_wake}
use obs_osc.Ws.Peers.{Peers, shutdown_all}

pub record HttpServer : Type 0 where
  pub http_running : Bool
  pub listen_fd : Option ℕ
  pub peers : Peers

-- Behind `listen_tcp`.
unfoldable pub http_listening :
    HttpServer → List NetCall × Option ℕ → HttpServer × List NetCall × Bool
http_listening s (calls, none) = (s, calls, false)
http_listening s (calls, some fd) =
    (record s { http_running = true; listen_fd = some fd }, calls, true)

unfoldable pub osc_http_start :
    Sockets → ℤ → HttpServer → List NetCall → HttpServer × List NetCall × Bool
unfolding http_listening
osc_http_start os port s calls =
    if s.http_running then (s, calls, true) else http_listening s (listen_tcp os port 8 calls)

unfoldable pub osc_http_stop : HttpServer → List NetCall → HttpServer × List NetCall
osc_http_stop s calls = if not s.http_running then (s, calls) else (
  record s { http_running = false; listen_fd = none; peers = shutdown_all s.peers },
  close_wake s.listen_fd calls,
)
