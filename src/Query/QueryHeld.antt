-- ===== src/Query/QueryHeld.antt =====
-- What the query server holds, and what its parts owe: HTTP, and the advertisement.
use obs_osc.Base.{
  Bool, true, false, List, Option, none, some, ℕ, ◌+◌, ◌≡◌, refl, arith, ap, ◌∷◌, [], Bytes,
  if_both,
}
use obs_osc.Base.Int.{ℤ}
use obs_osc.Net.Sockets.{NetCall, Sockets, listen_tcp, close_wake, registered, deallocated}
use obs_osc.Http.Listening.{HttpServer, http_listening, osc_http_start, osc_http_stop}
use obs_osc.Query.Bonjour.{bonjour_registered, osc_bonjour_register, osc_bonjour_unregister}
use obs_osc.Query.Service.{Query}
use obs_osc.Query.ServerOwing.{is_held}
use obs_osc.Query.Owing.{
  Resource, Owes, held_winsock, held_socket, held_advert, held_none, held_false, no_advert,
  Owes-equal, Owes-append, registered_lem, deallocated_lem,
}

abbrev pub query_held : Resource → Query → ℕ
query_held r q =
    held_winsock r q.query_running
    + (held_socket r q.http_server.listen_fd + held_advert r q.bonjour_ref)

-- The two flags and the socket agree, an idle server advertises nothing, and the calls owe what the
-- server holds beside `n`.
pub record QueryBacks (n : Resource → ℕ) (q : Query) (calls : List NetCall) : Type 0 where
  pub http_flag : q.query_running ≡ q.http_server.http_running
  pub socket_flag : q.query_running ≡ is_held q.http_server.listen_fd
  pub unadvertised : q.query_running ≡ false → q.bonjour_ref ≡ none
  pub owed : (r : Resource) → Owes r calls (query_held r q + n r)

abbrev pub QueryResult : (Resource → ℕ) → Query × List NetCall × Bool → Type 0
QueryResult n (q, calls, _) = QueryBacks n q calls

-- A query server that runs nothing.
pub record IsIdle (q : Query) : Type 0 where
  pub not_running : q.query_running ≡ false
  pub not_serving : q.http_server.http_running ≡ false
  pub no_socket : q.http_server.listen_fd ≡ none
  pub no_ref : q.bonjour_ref ≡ none

pub backs-IsIdle :
    (n : Resource → ℕ) (q : Query) (calls : List NetCall)
    → QueryBacks n q calls
    → q.query_running ≡ false
    → IsIdle q
backs-IsIdle n q calls backs e = record {
  not_running = e;
  not_serving = ground (arith, e, backs.http_flag);
  no_socket = ground (arith, e, backs.socket_flag);
  no_ref = backs.unadvertised e;
}

pub idle_held : (q : Query) (r : Resource) → IsIdle q → query_held r q ≡ 0
idle_held q r i =
    rw (i.not_running, i.no_socket, i.no_ref, held_none r, held_false r, no_advert r) refl

pub idle-QueryBacks :
    (n : Resource → ℕ) (q : Query)
    → IsIdle q
    → (calls : List NetCall) → ((r : Resource) → Owes r calls (n r))
    → QueryBacks n q calls
idle-QueryBacks n q i calls o = record {
  http_flag = ground (arith, i);
  socket_flag = ground (arith, i);
  unadvertised = λ _. i.no_ref;
  owed = λ r. Owes-equal r calls (n r) _ (omega (arith, idle_held q r i)) (o r);
}

abbrev pub AdvertOwes : Resource → ℕ → Option ℕ × List NetCall → Type 0
AdvertOwes r n (ref, calls) = Owes r calls (held_advert r ref + n)

pub registered-Owes :
    (r : Resource) (name : Bytes) (port : ℕ) (calls : List NetCall) (n : ℕ) (o : Option ℕ)
    → Owes r calls n
    → AdvertOwes r n (bonjour_registered name port calls o)
unfolding bonjour_registered
registered-Owes r name port calls n none = Owes-equal r calls n _ (omega (arith, no_advert r))
registered-Owes r name port calls n (some ref) =
    Owes-append r calls (registered ref name port ∷ []) n (held_advert r (some ref) + n)
      (omega (arith, registered_lem r ref name port))

pub register-Owes :
    (os : Sockets) (r : Resource) (http_port : ℤ) (calls : List NetCall) (n : ℕ)
    → Owes r calls n
    → AdvertOwes r n (osc_bonjour_register os http_port none calls)
unfolding osc_bonjour_register
register-Owes os r http_port calls n o =
    if_both (AdvertOwes r n) os.has_mdns _ _ (registered-Owes r _ _ calls n _ o)
      (Owes-equal r calls n _ (omega (arith, no_advert r)) o)

pub unregister-Owes :
    (r : Resource) (ref : Option ℕ) (calls : List NetCall) (n : ℕ)
    → Owes r calls (held_advert r ref + n)
    → Owes r (osc_bonjour_unregister ref calls).1 n
unfolding osc_bonjour_unregister
unregister-Owes r none calls n = Owes-equal r calls _ n (omega (arith, no_advert r))
unregister-Owes r (some ref) calls n =
    Owes-append r calls (deallocated ref ∷ []) (held_advert r (some ref) + n) n
      (omega (arith, deallocated_lem r ref))

pub http_start_idle :
    (os : Sockets) (port : ℤ) (s : HttpServer) (calls : List NetCall)
    → s.http_running ≡ false
    → osc_http_start os port s calls ≡ http_listening s (listen_tcp os port 8 calls)
unfolding osc_http_start
http_start_idle os port s calls e = ground (arith, e)

pub http_stop_idle :
    (s : HttpServer) (calls : List NetCall)
    → s.http_running ≡ true
    → ((osc_http_stop s calls).0.http_running ≡ false)
      × ((osc_http_stop s calls).0.listen_fd ≡ none)
      × ((osc_http_stop s calls).1 ≡ close_wake s.listen_fd calls)
unfolding osc_http_stop
http_stop_idle s calls e = ground arith

pub unregister_none :
    (ref : Option ℕ) (calls : List NetCall) → (osc_bonjour_unregister ref calls).0 ≡ none
unfolding osc_bonjour_unregister
unregister_none none calls = refl
unregister_none (some ref) calls = refl

pub running_held :
    (q : Query) (r : Resource) (n : ℕ)
    → q.query_running ≡ true
    → query_held r q + n
      ≡ held_socket r q.http_server.listen_fd
        + (held_advert r q.bonjour_ref + (held_winsock r true + n))
running_held q r n e = omega (arith, ap (held_winsock r) e)
