-- ===== src/Server/Target.antt =====
-- The fixed feedback target, from the settings down to `getaddrinfo`.
use obs_osc.Base.{
  ℕ, ◌<◌, ◌≤◌, true, false, List, [], ◌∷◌, Option, some, Bytes, c_str, length, is_empty, ◌≡◌, refl,
  ap, arith, ◌||◌,
}
use obs_osc.Base.Int.{ℤ, pos, leb_ℤ, ltb_ℤ}
use obs_osc.Base.Decimal.{to_string}
use obs_osc.Net.{Endpoint}
use obs_osc.Net.Resolve.{resolve, first_address}
use obs_osc.Server.State.{Server, set_feedback_target}

in_range :
    (host : Bytes) (port : ℕ)
    → 0 < length host
    → 0 < port
    → port ≤ 65535
    → (is_empty host || leb_ℤ (pos port) (pos 0) || ltb_ℤ (pos 65535) (pos port)) ≡ false
in_range [] port named positive fits = absurd (omega arith)
in_range (c ∷ host) port named positive fits = ground arith

module _ (getaddrinfo : Bytes → Bytes → Option (List Endpoint)) where
  resolve_found :
      (host : Bytes) (port : ℤ) (address : Endpoint) (others : List Endpoint)
      → getaddrinfo (c_str host) (to_string port) ≡ some (address ∷ others)
      → resolve getaddrinfo host port ≡ some address
  unfolding resolve
  resolve_found host port address others found = ap first_address found

  -- The settings name a host and a port in range: the first address found for them is the target.
  pub set_feedback_target-found :
      (s : Server) (host : Bytes) (port : ℕ) (address : Endpoint) (others : List Endpoint)
      → 0 < length host
      → 0 < port
      → port ≤ 65535
      → getaddrinfo (c_str host) (to_string (pos port)) ≡ some (address ∷ others)
      → set_feedback_target (resolve getaddrinfo) s host (pos port)
        ≡ record s { resolved_target = address; have_target = true }
  unfolding set_feedback_target
  set_feedback_target-found s host port address others named positive fits found =
      rw
        (in_range host port named positive fits, resolve_found host (pos port) address others found)
        refl
