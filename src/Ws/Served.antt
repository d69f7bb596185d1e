-- ===== src/Ws/Served.antt =====
-- What one websocket client leaves behind when `serve` has returned.
use obs_osc.Base.{
  ℕ, Bool, true, false, not, ◌&&◌, ◌||◌, List, [], ◌∷◌, ◌++◌, All, Option, some, if◌then◌else◌,
  Option_both, c_str, Bytes, ◌≡◌, ◌≢◌, refl, ap, subst, ◌∙◌, arith,
}
use obs_osc.Subscribe.Registry.{
  Registry, Listener, erase_listener, erase_peer, osc_listen_add, osc_listen_remove,
  osc_listen_remove_peer,
}
use obs_osc.Net.Sockets.{NetCall}
use obs_osc.Ws.Connection.{Conn, send_frame, close_conn}
use obs_osc.Ws.Peers.{Peers, enter, erase_conn, close_shared, close_peer, leave}
use obs_osc.Ws.Session.{Effect, send, text, serve, handle_text}
use obs_osc.Ws.Serving.{send_shared, take_effect, take_effects, serve_from}

-- A pointer to a new connection: nothing bears it yet.
pub record IsFresh (token : ℕ) (p : Peers) : Type 0 where
  pub unnamed : All (λ t. t ≢ token) p.conns
  pub unheard : All (λ l. l.peer ≢ token) p.registry.listeners
  pub unshared : All (λ c. c.token ≢ token) p.shared

erase_peer-snoc :
    (peer : ℕ) (path : Bytes) (ls : List Listener)
    → erase_peer peer (ls ++ (record { peer = peer; path = path } ∷ [])) ≡ erase_peer peer ls
unfolding erase_peer
erase_peer-snoc peer path [] = ground arith
erase_peer-snoc peer path (l ∷ ls) = ground (arith, erase_peer-snoc peer path ls)

erase_peer-erase_listener :
    (peer : ℕ) (path : Bytes) (ls : List Listener)
    → erase_peer peer (erase_listener peer path ls) ≡ erase_peer peer ls
unfolding erase_peer erase_listener
erase_peer-erase_listener peer path [] = refl
erase_peer-erase_listener peer path (l ∷ ls) =
    ground (arith, erase_peer-erase_listener peer path ls)

erase_peer-fresh :
    (peer : ℕ) (ls : List Listener) → All (λ l. l.peer ≢ peer) ls → erase_peer peer ls ≡ ls
unfolding erase_peer
erase_peer-fresh peer [] h = refl
erase_peer-fresh peer (l ∷ ls) (h, hs) = ground (arith, erase_peer-fresh peer ls hs)

erase_conn-enter :
    (token : ℕ) (ts : List ℕ) → All (λ t. t ≢ token) ts → erase_conn token (ts ++ (token ∷ [])) ≡ ts
unfolding erase_conn
erase_conn-enter token [] h = ground arith
erase_conn-enter token (t ∷ ts) (h, hs) = ground (arith, erase_conn-enter token ts hs)

osc_listen_add_forgotten :
    (r : Registry) (peer : ℕ) (path : Bytes)
    → osc_listen_remove_peer (osc_listen_add r peer path) peer ≡ osc_listen_remove_peer r peer
unfolding osc_listen_remove_peer osc_listen_add
osc_listen_add_forgotten r peer path = ground (arith, erase_peer-snoc peer path r.listeners)

osc_listen_remove_forgotten :
    (r : Registry) (peer : ℕ) (path : Bytes)
    → osc_listen_remove_peer (osc_listen_remove r peer path) peer ≡ osc_listen_remove_peer r peer
unfolding osc_listen_remove_peer osc_listen_remove
osc_listen_remove_forgotten r peer path =
    ap (λ ls. record r { listeners = ls }) (erase_peer-erase_listener peer path r.listeners)

-- Every frame of the list was sent.
abbrev pub all_sent : List Effect → Bool
all_sent [] = true
all_sent (send sent _ _ ∷ es) = sent && all_sent es
all_sent (text _ ∷ es) = all_sent es

-- The registry and the map are as before, and the socket is closed if `up`.
abbrev pub Leaves : Peers → ℕ → Bool → Peers → Type 0
Leaves p fd up q =
    (q.registry ≡ p.registry)
    × (q.conns ≡ p.conns)
    × (q.closed ≡ p.closed ++ (if up then fd ∷ [] else []))

module _ (parse : Bytes → Option (Bytes × Bytes)) (token : ℕ) where
  handle_text_forgotten :
      (r : Registry) (message : Bytes)
      → osc_listen_remove_peer (handle_text parse r token message) token
        ≡ osc_listen_remove_peer r token
  unfolding handle_text
  handle_text_forgotten r message =
      Option_both (λ q. osc_listen_remove_peer q token ≡ osc_listen_remove_peer r token)
        (parse (c_str message)) _ _ refl
        (λ (command, path).
          ground (
            arith,
            osc_listen_add_forgotten r token path,
            osc_listen_remove_forgotten r token path,
          ))

  -- The connection that is being served, behind those before it.
  abbrev served : ℕ → Bool → Conn
  served fd up = record { token = token; fd = some fd; is_open = up }

  send_shared-served :
      (sent : Bool) (opcode : ℕ) (payload : Bytes) (cs : List Conn) (fd : ℕ) (up : Bool)
      → All (λ c. c.token ≢ token) cs
      → send_shared token sent opcode payload (cs ++ (served fd up ∷ []))
        ≡ cs ++ (served fd (up && sent) ∷ [])
  unfolding send_shared send_frame
  send_shared-served sent opcode payload [] fd up h = ground arith
  send_shared-served sent opcode payload (c ∷ cs) fd up (h, hs) =
      ground (arith, send_shared-served sent opcode payload cs fd up hs)

  close_shared-served :
      (cs : List Conn) (fd : ℕ) (up : Bool)
      → All (λ c. c.token ≢ token) cs
      → (close_shared token (cs ++ (served fd up ∷ []))).1 ≡ (if up then fd ∷ [] else [])
  unfolding close_shared close_conn
  close_shared-served [] fd true h = ground arith
  close_shared-served [] fd false h = ground arith
  close_shared-served (c ∷ cs) fd up (h, hs) = ground (arith, close_shared-served cs fd up hs)

  -- Between the handshake and the end, only this client's own entries differ from `p`.
  record Serving (p : Peers) (fd : ℕ) (up : Bool) (q : Peers) : Type 0 where
    heard : osc_listen_remove_peer q.registry token ≡ osc_listen_remove_peer p.registry token
    mapped : q.conns ≡ p.conns ++ (token ∷ [])
    kept : q.closed ≡ p.closed
    connected : q.shared ≡ p.shared ++ (served fd up ∷ [])

  module _ (p : Peers) (fresh : IsFresh token p) (fd : ℕ) where
    Serving-flag : (up up' : Bool) (q : Peers) → up ≡ up' → Serving p fd up q → Serving p fd up' q
    Serving-flag up up' q e = subst (λ b. Serving p fd b q) e

    take_effects-Serving :
        (es : List Effect) (up : Bool) (q : Peers)
        → Serving p fd up q
        → Serving p fd (up && all_sent es) (take_effects parse token es q)
    unfolding take_effect
    take_effects-Serving [] up q s = Serving-flag up (up && true) q (ground arith) s
    take_effects-Serving (send sent opcode payload ∷ es) up q s =
        Serving-flag _ _ _ (ground arith) (
          take_effects-Serving es (up && sent)
            (record q { shared = send_shared token sent opcode payload q.shared })
            (record {
              heard = s.heard;
              mapped = s.mapped;
              kept = s.kept;
              connected =
                  ap (send_shared token sent opcode payload) s.connected
                  ∙ send_shared-served sent opcode payload p.shared fd up fresh.unshared;
            }))
    take_effects-Serving (text message ∷ es) up q s =
        take_effects-Serving es up
          (record q { registry = handle_text parse q.registry token message })
          (record {
            heard = handle_text_forgotten q.registry message ∙ s.heard;
            mapped = s.mapped;
            kept = s.kept;
            connected = s.connected;
          })

    entered : Serving p fd true (enter token fd p)
    unfolding enter
    entered = record { heard = refl; mapped = refl; kept = refl; connected = refl }

    forgotten : osc_listen_remove_peer p.registry token ≡ p.registry
    unfolding osc_listen_remove_peer
    forgotten =
        ap (λ ls. record (p.registry) { listeners = ls })
          (erase_peer-fresh token p.registry.listeners fresh.unheard)

    leave-Leaves : (up : Bool) (q : Peers) → Serving p fd up q → Leaves p fd up (leave token q)
    unfolding leave close_peer
    leave-Leaves up q s = (
      s.heard ∙ forgotten,
      ap (erase_conn token) s.mapped ∙ erase_conn-enter token p.conns fresh.unnamed,
      rw (s.kept, s.connected)
          (ap (◌++◌ p.closed) (close_shared-served p.shared fd up fresh.unshared)),
    )

    -- However a client's handshake is answered and whatever it sends, once `serve` returns the registry
    -- of listeners and the map of connections are as before it came, and its socket has been closed
    -- once, unless the sending of a frame failed, when it stays open. This is of a connection whose
    -- token nothing bears yet.
    pub serve_from-Leaves :
        (sent : ℕ → Bool) (stream : Bytes) (greeted : Bool) (calls : List NetCall)
        → Leaves p fd
            (not greeted || all_sent (serve sent stream))
            (serve_from parse token sent fd stream greeted p calls).0
    unfolding serve_from
    serve_from-Leaves sent stream false calls = (refl, refl, refl)
    serve_from-Leaves sent stream true calls =
        leave-Leaves (all_sent (serve sent stream)) _
          (take_effects-Serving (serve sent stream) true (enter token fd p) entered)
