-- ===== src/Query/QueryOwing.antt =====
-- Start and stop of the query server: it owes what it holds, one Winsock startup, one socket and at
-- most one advertisement while it runs, and nothing while it does not.
use obs_osc.Base.{
  Bool, true, false, not, List, Option, none, some, ℕ, ◌+◌, ◌≡◌, refl, arith, if_known, if_both,
}
use obs_osc.Base.Int.{ℤ, pos}
use obs_osc.Net.Sockets.{NetCall, Sockets, stream, init, cleanup, listen_tcp}
use obs_osc.Http.Listening.{http_listening, osc_http_stop}
use obs_osc.Plugin.Config.{OscConfig}
use obs_osc.Plugin.Lifecycle.{query_http_port}
use obs_osc.Query.Bonjour.{osc_bonjour_unregister}
use obs_osc.Query.Service.{
  Query, query_serving, query_starting, osc_query_start, osc_query_stop, osc_query_restart,
}
use obs_osc.Query.Owing.{
  Resource, Owes, held_winsock, held_socket, held_none, held_false, Owes-equal, Owes-init,
  Owes-cleanup, Owes-bind_listen, Owes-close_wake,
}
use obs_osc.Query.QueryHeld.{
  QueryBacks, QueryResult, IsIdle, backs-IsIdle, idle_held, idle-QueryBacks, register-Owes,
  unregister-Owes, http_start_idle, http_stop_idle, unregister_none, running_held,
}

module _ (os : Sockets) (n : Resource → ℕ) where
  module _ (q : Query) (i : IsIdle q) where
    serving-QueryBacks :
        (port : ℤ) (x : List NetCall × Option ℕ)
        → ((r : Resource) → Owes r x.0 (held_socket r x.1 + (held_winsock r true + n r)))
        → QueryResult n (query_serving os port q (http_listening q.http_server x))
    unfolding query_serving http_listening
    serving-QueryBacks port (calls, none) o = idle-QueryBacks n q i (cleanup os calls) (λ r.
        Owes-cleanup os r calls (n r)
          (Owes-equal r calls _ (held_winsock r true + n r) (omega (arith, held_none r)) (o r)))
    serving-QueryBacks port (calls, some fd) o = rw (i.no_ref) (record {
      http_flag = refl;
      socket_flag = refl;
      unadvertised = λ e. ground (arith, e);
      owed = λ r. Owes-equal r _ _ _ (omega arith) (register-Owes os r port calls _ (o r));
    })

    starting-QueryBacks :
        (port : ℤ) (x : List NetCall × Bool)
        → ((r : Resource) → Owes r x.0 (held_winsock r x.1 + n r))
        → QueryResult n (query_starting os port q x)
    unfolding query_starting listen_tcp
    starting-QueryBacks port (calls, false) o =
        idle-QueryBacks n q i calls
          (λ r. Owes-equal r calls _ (n r) (omega (arith, held_false r)) (o r))
    starting-QueryBacks port (calls, true) o =
        rw (http_start_idle os port q.http_server calls i.not_serving) (
          serving-QueryBacks port (listen_tcp os port 8 calls)
            (λ r. Owes-bind_listen os r port stream (pos 8) calls _ (o r)))

  module _ (q : Query) (calls : List NetCall) (backs : QueryBacks n q calls) where
    pub start-QueryBacks :
        (http_port osc_udp_port : ℤ)
        → QueryResult n (osc_query_start os http_port osc_udp_port q calls)
    unfolding osc_query_start
    start-QueryBacks http_port osc_udp_port =
        if_known (QueryResult n) q.query_running _ _ (λ _. backs)
          (λ e.
            let i = backs-IsIdle n q calls backs e in
            starting-QueryBacks (record q { current_udp_port = osc_udp_port }) (ground (arith, i))
              http_port (init os calls)
              (λ r.
                Owes-init os r calls (n r)
                  (Owes-equal r calls _ (n r) (omega (arith, idle_held q r i)) (backs.owed r))))

    stopped-IsIdle :
        q.query_running ≡ true
        → IsIdle (record q {
          query_running = false;
          http_server = (osc_http_stop q.http_server calls).0;
          bonjour_ref =
              (osc_bonjour_unregister q.bonjour_ref (osc_http_stop q.http_server calls).1).0;
        })
    stopped-IsIdle e =
        let (not_serving, no_socket, _) =
          http_stop_idle q.http_server calls (ground (arith, e, backs.http_flag)) in
        record {
          not_running = refl;
          not_serving = not_serving;
          no_socket = no_socket;
          no_ref = unregister_none q.bonjour_ref (osc_http_stop q.http_server calls).1;
        }

    stopped-Owes :
        (r : Resource)
        → q.query_running ≡ true
        → Owes r
            (cleanup os
              (osc_bonjour_unregister q.bonjour_ref (osc_http_stop q.http_server calls).1).1)
            (n r)
    stopped-Owes r e =
        let (_, _, woken) =
          http_stop_idle q.http_server calls (ground (arith, e, backs.http_flag)) in
        Owes-cleanup os r _ (n r) (
          unregister-Owes r q.bonjour_ref _ (held_winsock r true + n r) (
            rw woken (
              Owes-close_wake os r q.http_server.listen_fd calls _
                (Owes-equal r calls _ _ (running_held q r (n r) e) (backs.owed r)))))

    pub stop-QueryBacks : QueryBacks n (osc_query_stop os q calls).0 (osc_query_stop os q calls).1
    unfolding osc_query_stop
    stop-QueryBacks =
        if_known {A = Query × List NetCall} (λ x. QueryBacks n x.0 x.1) (not q.query_running) _ _
          (λ _. backs)
          (λ e.
            let on : q.query_running ≡ true = ground (arith, e) in
            idle-QueryBacks n _ (stopped-IsIdle on) _ (λ r. stopped-Owes r on))

  pub restart-QueryBacks :
      (g_config : OscConfig) (q : Query) (calls : List NetCall)
      → QueryBacks n q calls
      → QueryBacks n
          (osc_query_restart os g_config q calls).0
          (osc_query_restart os g_config q calls).1
  unfolding osc_query_restart
  restart-QueryBacks g_config q calls backs =
      let stopped = stop-QueryBacks q calls backs in
      if_both (QueryResult n) (not g_config.query_enabled) _ _ stopped (
        start-QueryBacks (osc_query_stop os q calls).0 (osc_query_stop os q calls).1 stopped
          (query_http_port g_config) g_config.port)

  -- Behind a stop nothing runs.
  pub stop-IsIdle :
      (q : Query) (calls : List NetCall)
      → QueryBacks n q calls
      → (osc_query_stop os q calls).0.query_running ≡ false
  unfolding osc_query_stop
  stop-IsIdle q calls backs = ground arith
