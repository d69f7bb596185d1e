-- ===== src/Net/Sockets.antt =====
-- src/osc-net.cpp over the calls of the operating system: what each answers is a parameter, a function
-- of the calls made so far, and each call that succeeds in making or ending something is kept.
use obs_osc.Base.{
  ℕ, ◌-◌, ◌*◌, ◌/◌, ◌%◌, ◌^◌, Bool, true, false, List, [], ◌∷◌, ◌++◌, Option, none, some,
  if◌then◌else◌, Bytes,
}
use obs_osc.Base.Int.{ℤ, pos, negsuc}

pub data SocketKind : Type 0 where
  dgram stream : SocketKind

-- `close_wake` is a shutdown and a close; the last two are those of mDNS, on a platform that has it.
pub data NetCall : Type 0 where
  wsa_startup wsa_cleanup : NetCall
  opened : ℕ → SocketKind → NetCall
  reuse_address : ℕ → NetCall
  bound : ℕ → ℕ → NetCall
  listening : ℕ → ℕ → NetCall
  receive_timeout : ℕ → ℕ × ℕ → NetCall
  shut closed : ℕ → NetCall
  registered : ℕ → Bytes → ℕ → NetCall
  deallocated : ℕ → NetCall

-- `WSAStartup` is called on Windows; elsewhere it is taken to succeed. `bind` and `listen` say
-- whether they succeed. `register` is `DNSServiceRegister` of a name and a port.
pub record Sockets : Type 0 where
  pub startup : List NetCall → Bool
  pub socket : List NetCall → SocketKind → Option ℕ
  pub bind : List NetCall → ℕ → ℕ → Bool
  pub listen : List NetCall → ℕ → ℕ → Bool
  pub has_mdns : Bool
  pub host_name : Option Bytes
  pub register : List NetCall → Bytes → ℕ → Option ℕ

-- `(uint16_t)port`
unfoldable pub uint16 : ℤ → ℕ
uint16 (pos n) = n % 2 ^ 16
uint16 (negsuc n) = 2 ^ 16 - 1 - n % 2 ^ 16

abbrev pub close_socket : Option ℕ → List NetCall → List NetCall
close_socket none calls = calls
close_socket (some fd) calls = calls ++ (closed fd ∷ [])

unfoldable pub close_wake : Option ℕ → List NetCall → List NetCall
close_wake none calls = calls
close_wake (some fd) calls = close_socket (some fd) (calls ++ (shut fd ∷ []))

-- Seconds and microseconds, as `timeval` has them.
unfoldable pub timeval : ℕ → ℕ × ℕ
timeval milliseconds = (milliseconds / 1000, milliseconds % 1000 * 1000)

unfoldable pub set_recv_timeout : ℕ → ℕ → List NetCall → List NetCall
unfolding timeval
set_recv_timeout fd milliseconds calls = calls ++ (receive_timeout fd (timeval milliseconds) ∷ [])

module _ (os : Sockets) where
  unfoldable pub init : List NetCall → List NetCall × Bool
  init calls = if os.startup calls then (calls ++ (wsa_startup ∷ []), true) else (calls, false)

  abbrev pub cleanup : List NetCall → List NetCall
  cleanup calls = calls ++ (wsa_cleanup ∷ [])

  -- `backlog >= 0 && listen(fd, backlog) != 0`, behind a `bind` that succeeds.
  unfoldable pub listen_if : ℕ → ℤ → List NetCall → List NetCall × Option ℕ
  listen_if fd (negsuc _) calls = (calls, some fd)
  listen_if fd (pos backlog) calls =
      if os.listen calls fd backlog
      then (calls ++ (listening fd backlog ∷ []), some fd)
      else (close_socket (some fd) calls, none)

  -- Behind `socket`.
  unfoldable pub bind_socket : ℕ → ℤ → SocketKind → ℤ → List NetCall → List NetCall × Option ℕ
  unfolding listen_if uint16
  bind_socket fd port kind backlog calls =
      let made = calls ++ (opened fd kind ∷ reuse_address fd ∷ []) in
      if os.bind made fd (uint16 port)
      then listen_if fd backlog (made ++ (bound fd (uint16 port) ∷ []))
      else (close_socket (some fd) made, none)

  unfoldable pub bind_listen : ℤ → SocketKind → ℤ → List NetCall → List NetCall × Option ℕ
  unfolding bind_socket
  bind_listen port kind backlog calls = elim (os.socket calls kind) [
    | none ↦ (calls, none)
    | some fd ↦ bind_socket fd port kind backlog calls
  ]

  unfoldable pub listen_udp : ℤ → List NetCall → List NetCall × Option ℕ
  unfolding bind_listen
  listen_udp port = bind_listen port dgram (negsuc 0)

  unfoldable pub listen_tcp : ℤ → ℕ → List NetCall → List NetCall × Option ℕ
  unfolding bind_listen
  listen_tcp port backlog = bind_listen port stream (pos backlog)
