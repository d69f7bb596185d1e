-- ===== src/Query/Owing.antt =====
-- What the calls of the operating system still owe: a cleanup of Winsock for each startup, a close for
-- each socket, an end for each advertisement.
use obs_osc.Base.{
  Bool, true, false, List, [], ◌∷◌, ◌++◌, Option, none, some, ℕ, ◌+◌, ◌==◌, if◌then◌else◌, ◌≡◌,
  refl, arith, if_both, Option_both, Bytes,
}
use obs_osc.Base.Counts.{count, count-append}
use obs_osc.Base.Int.{ℤ, pos, negsuc}
use obs_osc.Net.Sockets.{
  SocketKind, NetCall, wsa_startup, wsa_cleanup, opened, closed, registered, deallocated,
  reuse_address, bound, listening, shut, Sockets, uint16, init, cleanup, listen_if, bind_socket,
  bind_listen, close_wake,
}

pub data Resource : Type 0 where
  winsock : Resource
  descriptor advert : ℕ → Resource

abbrev pub makes : Resource → NetCall → Bool
makes winsock wsa_startup = true
makes (descriptor fd) (opened f _) = f == fd
makes (advert ref) (registered r _ _) = r == ref
makes _ _ = false

abbrev pub ends : Resource → NetCall → Bool
ends winsock wsa_cleanup = true
ends (descriptor fd) (closed f) = f == fd
ends (advert ref) (deallocated r) = r == ref
ends _ _ = false

-- The resource was made `n` times more than it was ended.
unfoldable pub Owes : Resource → List NetCall → ℕ → Type 0
Owes r calls n = count (makes r) calls ≡ count (ends r) calls + n

abbrev pub tick : Bool → ℕ
tick b = if b then 1 else 0

abbrev pub holds : ℕ → Option ℕ → ℕ
holds fd none = 0
holds fd (some f) = tick (f == fd)

-- What a component holds that keeps Winsock up, a socket, a registration.
abbrev pub held_winsock : Resource → Bool → ℕ
held_winsock winsock b = tick b
held_winsock _ _ = 0

abbrev pub held_socket : Resource → Option ℕ → ℕ
held_socket (descriptor fd) o = holds fd o
held_socket _ _ = 0

abbrev pub held_advert : Resource → Option ℕ → ℕ
held_advert (advert ref) o = holds ref o
held_advert _ _ = 0

pub Owes-append :
    (r : Resource) (calls more : List NetCall) (n m : ℕ)
    → n + count (makes r) more ≡ m + count (ends r) more
    → Owes r calls n
    → Owes r (calls ++ more) m
unfolding Owes
Owes-append r calls more n m h o =
    omega (arith, h, o, count-append (makes r) calls more, count-append (ends r) calls more)

-- Nothing is made or ended by the calls.
Owes-same :
    (r : Resource) (calls more : List NetCall) (n : ℕ)
    → count (makes r) more ≡ count (ends r) more
    → Owes r calls n
    → Owes r (calls ++ more) n
Owes-same r calls more n h = Owes-append r calls more n n (omega (arith, h))

pub Owes-equal :
    (r : Resource) (calls : List NetCall) (n m : ℕ) → n ≡ m → Owes r calls n → Owes r calls m
unfolding Owes
Owes-equal r calls n m h o = omega (arith, h, o)

pub held_none : (r : Resource) → held_socket r none ≡ 0
held_none winsock = refl
held_none (descriptor _) = refl
held_none (advert _) = refl

pub held_false : (r : Resource) → held_winsock r false ≡ 0
held_false winsock = refl
held_false (descriptor _) = refl
held_false (advert _) = refl

pub no_advert : (r : Resource) → held_advert r none ≡ 0
no_advert winsock = refl
no_advert (descriptor _) = refl
no_advert (advert _) = refl

-- What each call makes and ends is what is held after and before it.
startup_lem :
    (r : Resource)
    → count (makes r) (wsa_startup ∷ []) ≡ held_winsock r true + count (ends r) (wsa_startup ∷ [])
startup_lem winsock = omega arith
startup_lem (descriptor _) = omega arith
startup_lem (advert _) = omega arith

cleanup_lem :
    (r : Resource)
    → held_winsock r true + count (makes r) (wsa_cleanup ∷ []) ≡ count (ends r) (wsa_cleanup ∷ [])
cleanup_lem winsock = omega arith
cleanup_lem (descriptor _) = omega arith
cleanup_lem (advert _) = omega arith

opened_lem :
    (r : Resource) (fd : ℕ) (kind : SocketKind)
    → count (makes r) (opened fd kind ∷ reuse_address fd ∷ [])
      ≡ held_socket r (some fd) + count (ends r) (opened fd kind ∷ reuse_address fd ∷ [])
opened_lem winsock fd kind = omega arith
opened_lem (descriptor _) fd kind = omega arith
opened_lem (advert _) fd kind = omega arith

closed_lem :
    (r : Resource) (fd : ℕ)
    → held_socket r (some fd) + count (makes r) (closed fd ∷ []) ≡ count (ends r) (closed fd ∷ [])
closed_lem winsock fd = omega arith
closed_lem (descriptor _) fd = omega arith
closed_lem (advert _) fd = omega arith

shut_lem : (r : Resource) (fd : ℕ) → count (makes r) (shut fd ∷ []) ≡ count (ends r) (shut fd ∷ [])
shut_lem winsock fd = omega arith
shut_lem (descriptor _) fd = omega arith
shut_lem (advert _) fd = omega arith

bound_lem :
    (r : Resource) (fd : ℕ) (port : ℕ)
    → count (makes r) (bound fd port ∷ []) ≡ count (ends r) (bound fd port ∷ [])
bound_lem winsock fd port = omega arith
bound_lem (descriptor _) fd port = omega arith
bound_lem (advert _) fd port = omega arith

listening_lem :
    (r : Resource) (fd : ℕ) (backlog : ℕ)
    → count (makes r) (listening fd backlog ∷ []) ≡ count (ends r) (listening fd backlog ∷ [])
listening_lem winsock fd backlog = omega arith
listening_lem (descriptor _) fd backlog = omega arith
listening_lem (advert _) fd backlog = omega arith

pub registered_lem :
    (r : Resource) (ref : ℕ) (name : Bytes) (port : ℕ)
    → count (makes r) (registered ref name port ∷ [])
      ≡ held_advert r (some ref) + count (ends r) (registered ref name port ∷ [])
registered_lem winsock ref name port = omega arith
registered_lem (descriptor _) ref name port = omega arith
registered_lem (advert _) ref name port = omega arith

pub deallocated_lem :
    (r : Resource) (ref : ℕ)
    → held_advert r (some ref) + count (makes r) (deallocated ref ∷ [])
      ≡ count (ends r) (deallocated ref ∷ [])
deallocated_lem winsock ref = omega arith
deallocated_lem (descriptor _) ref = omega arith
deallocated_lem (advert _) ref = omega arith

module _ (os : Sockets) (r : Resource) where
  pub Owes-init :
      (calls : List NetCall) (n : ℕ)
      → Owes r calls n
      → Owes r (init os calls).0 (held_winsock r (init os calls).1 + n)
  unfolding init
  Owes-init calls n o =
      if_both {A = List NetCall × Bool} (λ x. Owes r x.0 (held_winsock r x.1 + n))
        (os.startup calls) _ _
        (Owes-append r calls (wsa_startup ∷ []) n (held_winsock r true + n)
          (omega (arith, startup_lem r)) o)
        (Owes-equal r calls n _ (omega (arith, held_false r)) o)

  pub Owes-cleanup :
      (calls : List NetCall) (n : ℕ)
      → Owes r calls (held_winsock r true + n)
      → Owes r (cleanup os calls) n
  Owes-cleanup calls n =
      Owes-append r calls (wsa_cleanup ∷ []) (held_winsock r true + n) n
        (omega (arith, cleanup_lem r))

  Owes-closed :
      (calls : List NetCall) (fd n : ℕ)
      → Owes r calls (held_socket r (some fd) + n)
      → Owes r (calls ++ (closed fd ∷ [])) n
  Owes-closed calls fd n =
      Owes-append r calls (closed fd ∷ []) (held_socket r (some fd) + n) n
        (omega (arith, closed_lem r fd))

  pub Owes-close_wake :
      (fd : Option ℕ) (calls : List NetCall) (n : ℕ)
      → Owes r calls (held_socket r fd + n)
      → Owes r (close_wake fd calls) n
  unfolding close_wake
  Owes-close_wake none calls n o = Owes-equal r calls _ n (omega (arith, held_none r)) o
  Owes-close_wake (some fd) calls n o =
      Owes-closed (calls ++ (shut fd ∷ [])) fd n
        (Owes-same r calls (shut fd ∷ []) (held_socket r (some fd) + n) (shut_lem r fd) o)

  OwesWith : ℕ → List NetCall × Option ℕ → Type 0
  OwesWith n x = Owes r x.0 (held_socket r x.1 + n)

  OwesWith-none : (calls : List NetCall) (n : ℕ) → Owes r calls n → OwesWith n (calls, none)
  unfolding OwesWith
  OwesWith-none calls n = Owes-equal r calls n _ (omega (arith, held_none r))

  Owes-listen_if :
      (fd : ℕ) (backlog : ℤ) (calls : List NetCall) (n : ℕ)
      → Owes r calls (held_socket r (some fd) + n)
      → OwesWith n (listen_if os fd backlog calls)
  unfolding listen_if OwesWith
  Owes-listen_if fd (negsuc _) calls n o = o
  Owes-listen_if fd (pos backlog) calls n o =
      if_both (OwesWith n) (os.listen calls fd backlog) _ _
        (Owes-same r calls (listening fd backlog ∷ []) _ (listening_lem r fd backlog) o)
        (OwesWith-none _ n (Owes-closed calls fd n o))

  Owes-bind_socket :
      (fd : ℕ) (port : ℤ) (kind : SocketKind) (backlog : ℤ) (calls : List NetCall) (n : ℕ)
      → Owes r calls n
      → OwesWith n (bind_socket os fd port kind backlog calls)
  unfolding bind_socket
  Owes-bind_socket fd port kind backlog calls n o =
      let owed =
        Owes-append r calls (opened fd kind ∷ reuse_address fd ∷ []) n (held_socket r (some fd) + n)
          (omega (arith, opened_lem r fd kind)) o in
      if_both (OwesWith n) _ _ _
        (Owes-listen_if fd backlog _ n
          (Owes-same r _ (bound fd (uint16 port) ∷ []) _ (bound_lem r fd (uint16 port)) owed))
        (OwesWith-none _ n (Owes-closed _ fd n owed))

  pub Owes-bind_listen :
      (port : ℤ) (kind : SocketKind) (backlog : ℤ) (calls : List NetCall) (n : ℕ)
      → Owes r calls n
      → Owes r
          (bind_listen os port kind backlog calls).0
          (held_socket r (bind_listen os port kind backlog calls).1 + n)
  unfolding bind_listen OwesWith
  Owes-bind_listen port kind backlog calls n o =
      Option_both (OwesWith n) (os.socket calls kind) _ _ (OwesWith-none calls n o)
        (λ fd. Owes-bind_socket fd port kind backlog calls n o)
