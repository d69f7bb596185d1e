-- ===== src/Query/Transport.antt =====
-- `osc_server::start` and `stop` of src/osc-server.cpp with their calls of the operating system; the
-- rest of what they do is obs_osc.Server.State's.
use obs_osc.Base.{Bool, true, false, not, List, Option, none, some, ℕ, if◌then◌else◌}
use obs_osc.Base.Int.{ℤ}
use obs_osc.Net.Sockets.{NetCall, Sockets, init, cleanup, listen_udp, close_wake}
use obs_osc.Server.State.{Server, start, stop}

module _ (os : Sockets) where
  -- Behind `listen_udp`.
  unfoldable pub udp_listening : Server → List NetCall × Option ℕ → Server × List NetCall × Bool
  unfolding start
  udp_listening s (calls, none) = ((start s true none).0, cleanup os calls, false)
  udp_listening s (calls, some fd) = ((start s true (some fd)).0, calls, true)

  -- Behind `osc_net::init`.
  unfoldable pub udp_starting : ℤ → Server → List NetCall × Bool → Server × List NetCall × Bool
  unfolding udp_listening
  udp_starting port s (calls, false) = ((start s false none).0, calls, false)
  udp_starting port s (calls, true) = udp_listening s (listen_udp os port calls)

  unfoldable pub start_on : ℤ → Server → List NetCall → Server × List NetCall × Bool
  unfolding udp_starting init
  start_on port s calls =
      if s.running then (s, calls, true) else udp_starting port s (init os calls)

  unfoldable pub stop_on : Server → List NetCall → Server × List NetCall
  unfolding stop
  stop_on s calls =
      if not s.running then (s, calls) else ((stop s).0, cleanup os (close_wake s.fd calls))
