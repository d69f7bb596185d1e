-- ===== src/Ws/Shutdown.antt =====
-- What `shutdown_all` of src/osc-ws.cpp leaves.
use obs_osc.Base.{
  ℕ, ◌≡◌, ◌≢◌, refl, false, List, [], ◌∷◌, All, ◌==◌, Bool-cases, if_both, inl, inr, arith, ◌⊎◌,
}
use obs_osc.Subscribe.Registry.{Listener, erase_peer, osc_listen_remove_peer}
use obs_osc.Subscribe.Histories.{erase_peer-gone}
use obs_osc.Ws.Connection.{Conn, close_conn}
use obs_osc.Ws.Peers.{Peers, close_shared, close_peer, shut_down_each, shutdown_all}

-- No listener of this peer is registered, and its connection is not open.
abbrev pub IsGone : Peers → ℕ → Type 0
IsGone p token =
    All (λ l. l.peer ≢ token) p.registry.listeners
    × All (λ c. (c.token ≢ token) ⊎ (c.is_open ≡ false)) p.shared

erase_peer-All :
    (P : Listener → Type 0) (peer : ℕ) (ls : List Listener) → All P ls → All P (erase_peer peer ls)
unfolding erase_peer
erase_peer-All P peer [] h = tt
erase_peer-All P peer (l ∷ ls) (h, hs) =
    if_both (All P) (l.peer == peer) _ _ (erase_peer-All P peer ls hs)
      (h, erase_peer-All P peer ls hs)

shut : (c : Conn) → (close_conn c).0.is_open ≡ false
unfolding close_conn
shut c = elim (Bool-cases c.is_open) [ inl e ↦ rw e refl | inr e ↦ rw e refl ]

-- Closing shuts the connections of this token, and opens none.
close_shared-shuts :
    (token : ℕ) (cs : List Conn)
    → All (λ c. (c.token ≢ token) ⊎ (c.is_open ≡ false)) (close_shared token cs).0
unfolding close_shared
close_shared-shuts token [] = tt
close_shared-shuts token (c ∷ cs) = elim (Bool-cases (c.token == token)) [
  | inl e ↦ rw e (inr (shut c), close_shared-shuts token cs)
  | inr e ↦ rw e (inl (ground (arith, e)), close_shared-shuts token cs)
]

close_shared-keeps :
    (token other : ℕ) (cs : List Conn)
    → All (λ c. (c.token ≢ other) ⊎ (c.is_open ≡ false)) cs
    → All (λ c. (c.token ≢ other) ⊎ (c.is_open ≡ false)) (close_shared token cs).0
unfolding close_shared
close_shared-keeps token other [] h = tt
close_shared-keeps token other (c ∷ cs) (h, hs) = elim (Bool-cases (c.token == token)) [
  | inl e ↦ rw e (inr (shut c), close_shared-keeps token other cs hs)
  | inr e ↦ rw e (h, close_shared-keeps token other cs hs)
]

shut_down_each-keeps :
    (dying : List ℕ) (p : Peers) (other : ℕ)
    → IsGone p other
    → IsGone (shut_down_each dying p) other
unfolding shut_down_each close_peer osc_listen_remove_peer
shut_down_each-keeps [] p other h = h
shut_down_each-keeps (token ∷ dying) p other (unheard, h) = shut_down_each-keeps dying _ other (
  erase_peer-All (λ l. l.peer ≢ other) token p.registry.listeners unheard,
  close_shared-keeps token other p.shared h,
)

shut_down_each-IsGone : (dying : List ℕ) (p : Peers) → All (IsGone (shut_down_each dying p)) dying
unfolding shut_down_each close_peer osc_listen_remove_peer
shut_down_each-IsGone [] p = tt
shut_down_each-IsGone (token ∷ dying) p = (
  shut_down_each-keeps dying _ token
      (erase_peer-gone token p.registry.listeners, close_shared-shuts token p.shared),
  shut_down_each-IsGone dying _,
)

shut_down_each-conns : (dying : List ℕ) (p : Peers) → (shut_down_each dying p).conns ≡ p.conns
unfolding shut_down_each close_peer
shut_down_each-conns [] p = refl
shut_down_each-conns (token ∷ dying) p = shut_down_each-conns dying _

-- After `shutdown_all` the map is empty, and every connection that was in it is shut and listens to
-- nothing.
pub shutdown_all-IsGone :
    (p : Peers) → ((shutdown_all p).conns ≡ []) × All (IsGone (shutdown_all p)) p.conns
unfolding shutdown_all
shutdown_all-IsGone p = (
  shut_down_each-conns p.conns (record p { conns = [] }),
  shut_down_each-IsGone p.conns (record p { conns = [] }),
)
