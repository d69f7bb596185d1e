-- ===== src/Query/ServerOwing.antt =====
-- Start and stop of the OSC server: it owes what it holds, one Winsock startup and one socket while it
-- runs, and nothing while it does not.
use obs_osc.Base.{
  Bool, true, false, List, Option, none, some, ℕ, ◌+◌, ◌≡◌, refl, arith, if_known, not, ap,
}
use obs_osc.Base.Int.{ℤ, negsuc}
use obs_osc.Net.Sockets.{NetCall, Sockets, dgram, init, cleanup, listen_udp, close_wake}
use obs_osc.Server.State.{Server, start, stop}
use obs_osc.Query.Transport.{udp_listening, udp_starting, start_on, stop_on}
use obs_osc.Query.Owing.{
  Resource, Owes, held_winsock, held_socket, held_none, held_false, Owes-equal, Owes-init,
  Owes-cleanup, Owes-bind_listen, Owes-close_wake,
}

abbrev pub is_held : Option ℕ → Bool
is_held none = false
is_held (some _) = true

abbrev pub server_held : Resource → Server → ℕ
server_held r s = held_winsock r s.running + held_socket r s.fd

-- The flag and the socket agree, and the calls owe what the server holds beside `n`.
pub record ServerBacks (n : Resource → ℕ) (s : Server) (calls : List NetCall) : Type 0 where
  pub flag : s.running ≡ is_held s.fd
  pub owed : (r : Resource) → Owes r calls (server_held r s + n r)

abbrev ServerResult : (Resource → ℕ) → Server × List NetCall × Bool → Type 0
ServerResult n (s, calls, _) = ServerBacks n s calls

nothing_held : (s : Server) → s.running ≡ false → s.running ≡ is_held s.fd → s.fd ≡ none
nothing_held s e flag = ground arith

pub server_idle :
    (s : Server) (r : Resource) → s.running ≡ false → s.running ≡ is_held s.fd → server_held r s ≡ 0
server_idle s r e flag = rw (nothing_held s e flag, e, held_none r, held_false r) refl

start_fails : (s : Server) (ok : Bool) → s.running ≡ false → (start s ok none).0 ≡ s
unfolding start
start_fails s ok e = ground arith

start_works :
    (s : Server) (fd : ℕ)
    → s.running ≡ false
    → (start s true (some fd)).0 ≡ record s { fd = some fd; running = true; send_running = true }
unfolding start
start_works s fd e = ground arith

stop_idle :
    (s : Server)
    → s.running ≡ true
    → ((stop s).0.running ≡ false) × ((stop s).0.running ≡ is_held (stop s).0.fd)
unfolding stop
stop_idle s e = ground arith

-- A server that holds nothing, under calls that owe `n`.
idle-ServerBacks :
    (n : Resource → ℕ) (s : Server)
    → s.running ≡ false
    → s.running ≡ is_held s.fd
    → (calls : List NetCall) → ((r : Resource) → Owes r calls (n r))
    → ServerBacks n s calls
idle-ServerBacks n s idle flag calls o = record {
  flag = flag;
  owed = λ r. Owes-equal r calls (n r) _ (omega (arith, server_idle s r idle flag)) (o r);
}

running_holds :
    (s : Server) (r : Resource) (n : ℕ)
    → s.running ≡ true
    → server_held r s + n ≡ held_socket r s.fd + (held_winsock r true + n)
running_holds s r n e = omega (arith, ap (held_winsock r) e)

module _ (os : Sockets) (n : Resource → ℕ) (s : Server) where
  module _ (idle : s.running ≡ false) (flag : s.running ≡ is_held s.fd) where
    kept : (calls : List NetCall) → ((r : Resource) → Owes r calls (n r)) → ServerBacks n s calls
    kept = idle-ServerBacks n s idle flag

    listening-ServerBacks :
        (x : List NetCall × Option ℕ)
        → ((r : Resource) → Owes r x.0 (held_socket r x.1 + (held_winsock r true + n r)))
        → ServerResult n (udp_listening os s x)
    unfolding udp_listening
    listening-ServerBacks (calls, none) o = rw (start_fails s true idle) (
        kept (cleanup os calls) (λ r.
          Owes-cleanup os r calls (n r)
            (Owes-equal r calls _ (held_winsock r true + n r) (omega (arith, held_none r)) (o r))))
    listening-ServerBacks (calls, some fd) o =
        rw (start_works s fd idle)
          (record { flag = refl; owed = λ r. Owes-equal r calls _ _ (omega arith) (o r) })

    starting-ServerBacks :
        (port : ℤ) (x : List NetCall × Bool)
        → ((r : Resource) → Owes r x.0 (held_winsock r x.1 + n r))
        → ServerResult n (udp_starting os port s x)
    unfolding udp_starting listen_udp
    starting-ServerBacks port (calls, false) o =
        rw (start_fails s false idle)
          (kept calls (λ r. Owes-equal r calls _ (n r) (omega (arith, held_false r)) (o r)))
    starting-ServerBacks port (calls, true) o =
        listening-ServerBacks (listen_udp os port calls)
          (λ r. Owes-bind_listen os r port dgram (negsuc 0) calls _ (o r))

  module _ (calls : List NetCall) (backs : ServerBacks n s calls) where
    idle-Owes : (r : Resource) → s.running ≡ false → Owes r calls (n r)
    idle-Owes r idle =
        Owes-equal r calls _ (n r) (omega (arith, server_idle s r idle backs.flag)) (backs.owed r)

    pub start_on-ServerBacks :
        (port : ℤ) → ServerBacks n (start_on os port s calls).0 (start_on os port s calls).1
    unfolding start_on
    start_on-ServerBacks port =
        if_known (ServerResult n) s.running _ _ (λ _. backs)
          (λ idle.
            starting-ServerBacks idle backs.flag port (init os calls)
              (λ r. Owes-init os r calls (n r) (idle-Owes r idle)))

    stopped-ServerBacks :
        s.running ≡ true → ServerBacks n (stop s).0 (cleanup os (close_wake s.fd calls))
    stopped-ServerBacks e =
        let (idle, flag) = stop_idle s e in
        idle-ServerBacks n (stop s).0 idle flag _ (λ r. Owes-cleanup os r _ (n r) (
          Owes-close_wake os r s.fd calls (held_winsock r true + n r)
            (Owes-equal r calls _ _ (running_holds s r (n r) e) (backs.owed r))))

    pub stop_on-ServerBacks : ServerBacks n (stop_on os s calls).0 (stop_on os s calls).1
    unfolding stop_on
    stop_on-ServerBacks =
        if_known {A = Server × List NetCall} (λ x. ServerBacks n x.0 x.1) (not s.running) _ _
          (λ _. backs) (λ e. stopped-ServerBacks (ground (arith, e)))

    -- Behind a stop nothing runs.
    pub stop_on_idle : (stop_on os s calls).0.running ≡ false
    unfolding stop_on stop
    stop_on_idle = ground arith
