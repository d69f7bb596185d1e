-- ===== src/Subscribe/Fanout.antt =====
-- `osc_publish`, and the commands `/subscribe` and `/unsubscribe`.
use obs_osc.Base.{
  ℕ, Bool, false, ◌||◌, ◌&&◌, not, List, [], ◌∷◌, none, some, ◌==◌, leb, ltb, if◌then◌else◌, length,
  is_empty, Bytes, c_str, str_eq,
}
use obs_osc.Base.Int.{ℤ, pos, negsuc, signed32}
use obs_osc.Base.Run.{ok}
use obs_osc.Net.{Endpoint}
use obs_osc.Message.Types.{OscMessage}
use obs_osc.Message.Access.{Conversions, arg_int}
use obs_osc.Util.Glob.{osc_glob_match}
use obs_osc.Subscribe.Registry.{
  Subscriber, Listener, Registry, osc_subscribe_add, osc_subscribe_remove,
}

-- The matcher always answers (Util.Correct.osc_glob_match-Matches).
unfoldable pub glob : Bytes → Bytes → Bool
glob pattern address = elim (osc_glob_match pattern address) [ ok b ↦ b | _ ↦ false ]

unfoldable pub any_pattern : List Bytes → Bytes → Bool
any_pattern [] address = false
any_pattern (p ∷ ps) address = glob (c_str p) address || any_pattern ps address

-- The two snapshots taken under the lock.
unfoldable pub targets_of : List Subscriber → Bytes → List Endpoint
unfolding any_pattern glob
targets_of [] address = []
targets_of (sub ∷ subs) address =
    let rest = targets_of subs address in
    if any_pattern sub.patterns address then sub.endpoint ∷ rest else rest

unfoldable pub peers_of : List Listener → Bytes → List ℕ
peers_of [] address = []
peers_of (l ∷ ls) address =
    let rest = peers_of ls address in if str_eq l.path address then l.peer ∷ rest else rest

-- Where one encoded message goes: UDP datagrams, websocket frames, and the count returned.
pub record Deliveries : Type 0 where
  pub targets : List Endpoint
  pub peers : List ℕ
  pub served : ℕ

unfoldable pub osc_publish : Registry → Bytes → Deliveries
unfolding targets_of peers_of
osc_publish r address = record {
  targets = targets_of r.subscribers address;
  peers = peers_of r.listeners address;
  served = length (targets_of r.subscribers address);
}

-- A delivery port in [1, 65535], or 0.
abbrev pub valid_port : ℤ → ℕ
valid_port (pos p) = if ltb 0 p && leb p 65535 then p else 0
valid_port (negsuc _) = 0

unfoldable pub osc_handle_subscription :
    Conversions → Registry → OscMessage → Endpoint → Bool → Registry
unfolding arg_int osc_subscribe_add osc_subscribe_remove
osc_handle_subscription conv r msg who unsubscribe = elim msg.args [
  | [] ↦ if unsubscribe then osc_subscribe_remove r who none else r
  | a ∷ more ↦
      if unsubscribe
      then osc_subscribe_remove r who (if a.type == b's' then some (c_str a.s) else none)
      else if not (a.type == b's') || is_empty a.s
      then r
      else osc_subscribe_add r who a.s
          (if is_empty more then 0 else valid_port (signed32 (arg_int conv msg 1 0)))
]
