-- ===== src/Query/Ledger.antt =====
-- Through any history of starts and stops of both servers, what was made of Winsock, sockets and
-- advertisements and not ended is what the running servers hold.
use obs_osc.Base.{List, [], ◌∷◌, ◌≡◌, arith}
use obs_osc.Base.Counts.{count}
use obs_osc.Net.Sockets.{NetCall, Sockets}
use obs_osc.Query.Service.{Query}
use obs_osc.Query.Running.{
  World, Event, server_started, server_stopped, query_started, query_stopped, query_restarted,
  happen, happen_all,
}
use obs_osc.Query.Owing.{Resource, Owes, makes, ends, Owes-equal}
use obs_osc.Query.ServerOwing.{
  server_held, ServerBacks, start_on-ServerBacks, stop_on-ServerBacks, server_idle, stop_on_idle,
}
use obs_osc.Query.QueryHeld.{query_held, QueryBacks, backs-IsIdle, idle_held}
use obs_osc.Query.QueryOwing.{start-QueryBacks, stop-QueryBacks, restart-QueryBacks, stop-IsIdle}
use obs_osc.Server.State.{Server}

-- Each server's flags agree with what it holds, and the calls owe what both hold.
pub record IsBalanced (w : World) : Type 0 where
  pub server_backs : ServerBacks (λ r. query_held r w.query) w.server w.net_calls
  pub query_backs : QueryBacks (λ r. server_held r w.server) w.query w.net_calls

-- The other server's part, after one of them moved.
query_beside :
    (s s' : Server) (q : Query) (calls calls' : List NetCall)
    → QueryBacks (λ r. server_held r s) q calls
    → ServerBacks (λ r. query_held r q) s' calls'
    → QueryBacks (λ r. server_held r s') q calls'
query_beside s s' q calls calls' before after = record {
  http_flag = before.http_flag;
  socket_flag = before.socket_flag;
  unadvertised = before.unadvertised;
  owed = λ r. Owes-equal r calls' _ _ (omega arith) (after.owed r);
}

server_beside :
    (s : Server) (q q' : Query) (calls calls' : List NetCall)
    → ServerBacks (λ r. query_held r q) s calls
    → QueryBacks (λ r. server_held r s) q' calls'
    → ServerBacks (λ r. query_held r q') s calls'
server_beside s q q' calls calls' before after = record {
  flag = before.flag;
  owed = λ r. Owes-equal r calls' _ _ (omega arith) (after.owed r);
}

module _ (os : Sockets) where
  server_moved :
      (w : World) (s : Server) (calls : List NetCall)
      → IsBalanced w
      → ServerBacks (λ r. query_held r w.query) s calls
      → IsBalanced (record w { server = s; net_calls = calls })
  server_moved w s calls b after = record {
    server_backs = after;
    query_backs = query_beside w.server s w.query w.net_calls calls b.query_backs after;
  }

  query_moved :
      (w : World) (q : Query) (calls : List NetCall)
      → IsBalanced w
      → QueryBacks (λ r. server_held r w.server) q calls
      → IsBalanced (record w { query = q; net_calls = calls })
  query_moved w q calls b after = record {
    server_backs = server_beside w.server w.query q w.net_calls calls b.server_backs after;
    query_backs = after;
  }

  pub happen-IsBalanced : (e : Event) (w : World) → IsBalanced w → IsBalanced (happen os e w)
  happen-IsBalanced (server_started port) w b =
      server_moved w _ _ b (start_on-ServerBacks os _ w.server w.net_calls b.server_backs port)
  happen-IsBalanced server_stopped w b =
      server_moved w _ _ b (stop_on-ServerBacks os _ w.server w.net_calls b.server_backs)
  happen-IsBalanced (query_started http_port osc_udp_port) w b =
      query_moved w _ _ b
        (start-QueryBacks os _ w.query w.net_calls b.query_backs http_port osc_udp_port)
  happen-IsBalanced query_stopped w b =
      query_moved w _ _ b (stop-QueryBacks os _ w.query w.net_calls b.query_backs)
  happen-IsBalanced (query_restarted g_config) w b =
      query_moved w _ _ b (restart-QueryBacks os _ g_config w.query w.net_calls b.query_backs)

  -- Through any history of starts and stops of the two servers, whatever the operating system grants,
  -- each server's flags agree with what it holds, and of Winsock, each socket and each advertisement as
  -- much was made and not ended as the running servers hold.
  pub happen_all-IsBalanced :
      (es : List Event) (w : World) → IsBalanced w → IsBalanced (happen_all os es w)
  happen_all-IsBalanced [] w b = b
  happen_all-IsBalanced (e ∷ es) w b =
      happen_all-IsBalanced es (happen os e w) (happen-IsBalanced e w b)

  abbrev pub unload : World → World
  unload w = happen os server_stopped (happen os query_stopped w)

  unload-Owes : (w : World) → IsBalanced w → (r : Resource) → Owes r (unload w).net_calls 0
  unload-Owes w b r =
      let v = happen os query_stopped w in
      let c = happen-IsBalanced query_stopped w b in
      let d = happen-IsBalanced server_stopped v c in
      let query_idle =
        backs-IsIdle _ v.query v.net_calls c.query_backs
          (stop-IsIdle os _ w.query w.net_calls b.query_backs) in
      let server_stops = stop_on_idle os _ v.server v.net_calls c.server_backs in
      Owes-equal r (unload w).net_calls _ 0
        (omega (
          arith,
          idle_held v.query r query_idle,
          server_idle (unload w).server r server_stops d.server_backs.flag,
        ))
        (d.server_backs.owed r)

  -- Once both servers are stopped, as at unload, each socket was closed as often as it was opened,
  -- Winsock cleaned up as often as started, and each advertisement ended as often as it was made,
  -- whatever starts and stops came before.
  pub unload_owes_nothing :
      (es : List Event) (w : World)
      → IsBalanced w
      → (r : Resource)
      → count (makes r) (unload (happen_all os es w)).net_calls
        ≡ count (ends r) (unload (happen_all os es w)).net_calls
  unfolding Owes
  unload_owes_nothing es w b r =
      omega (arith, unload-Owes (happen_all os es w) (happen_all-IsBalanced es w b) r)
