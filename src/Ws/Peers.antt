-- ===== src/Ws/Peers.antt =====
-- The map of connections of src/osc-ws.cpp. A connection is shared by the map and by the thread that
-- serves it: it stands in `shared`, by its token, and the map is a list of tokens.
use obs_osc.Base.{ℕ, true, List, [], ◌∷◌, ◌++◌, some, ◌==◌, if◌then◌else◌}
use obs_osc.Subscribe.Registry.{Registry, osc_listen_remove_peer}
use obs_osc.Ws.Connection.{Conn, close_conn}

pub record Peers : Type 0 where
  pub shared : List Conn
  pub conns : List ℕ
  pub registry : Registry
  pub closed : List ℕ

-- `serve` behind its handshake.
unfoldable pub enter : ℕ → ℕ → Peers → Peers
enter token fd p = record p {
  shared = p.shared ++ (record { token = token; fd = some fd; is_open = true } ∷ []);
  conns = p.conns ++ (token ∷ []);
}

unfoldable pub erase_conn : ℕ → List ℕ → List ℕ
erase_conn token [] = []
erase_conn token (t ∷ ts) = let rest = erase_conn token ts in if t == token then rest else t ∷ rest

-- `close_conn` on the connection of that token: the connections after it, and the sockets closed.
unfoldable pub close_shared : ℕ → List Conn → List Conn × List ℕ
unfolding close_conn
close_shared token [] = ([], [])
close_shared token (c ∷ cs) =
    let (others, fds) = close_shared token cs in
    if c.token == token
    then ((close_conn c).0 ∷ others, (close_conn c).1 ++ fds)
    else (c ∷ others, fds)

unfoldable pub close_peer : ℕ → Peers → Peers
unfolding close_shared
close_peer token p =
    let (shared, fds) = close_shared token p.shared in
    record p { shared = shared; closed = p.closed ++ fds }

-- `serve` from its label `done` on.
unfoldable pub leave : ℕ → Peers → Peers
unfolding osc_listen_remove_peer erase_conn close_peer
leave token p = close_peer token (record p {
  registry = osc_listen_remove_peer p.registry token;
  conns = erase_conn token p.conns;
})

-- The loop of `shutdown_all` over the connections that it took out of the map.
unfoldable pub shut_down_each : List ℕ → Peers → Peers
unfolding osc_listen_remove_peer close_peer
shut_down_each [] p = p
shut_down_each (token ∷ dying) p =
    shut_down_each dying
      (close_peer token (record p { registry = osc_listen_remove_peer p.registry token }))

unfoldable pub shutdown_all : Peers → Peers
unfolding shut_down_each
shutdown_all p = shut_down_each p.conns (record p { conns = [] })
