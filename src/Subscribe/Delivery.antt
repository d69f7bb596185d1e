-- ===== src/Subscribe/Delivery.antt =====
-- What a client that subscribes from its own port is sent, and its `/unsubscribe`.
use obs_osc.Base.{
  ℕ, ◌<◌, true, ◌||◌, List, [], ◌∷◌, ◌++◌, none, ◌≡◌, refl, ap, ◌∙◌, arith, if◌then◌else◌, length,
  Bytes, c_str, str_eq_refl,
}
use obs_osc.Net.{inet, Endpoint}
use obs_osc.Subscribe.Registry.{
  max_subscribers, Subscriber, Registry, endpoint_equal, redirect, osc_subscribe_add, remove_first,
  remaining, osc_subscribe_remove,
}
use obs_osc.Subscribe.Fanout.{any_pattern, glob, targets_of, osc_publish}
use obs_osc.Subscribe.Invariant.{IsText}
use obs_osc.Subscribe.Redirect.{IsUnknown, add-IsUnknown}

endpoint_equal_refl :
    (who : Endpoint) → who.family ≡ inet → 0 < who.len → endpoint_equal who who ≡ true
unfolding endpoint_equal
endpoint_equal_refl who f h = ground (arith, str_eq_refl who.address)

any_pattern-append :
    (ps qs : List Bytes) (address : Bytes)
    → any_pattern (ps ++ qs) address ≡ (any_pattern ps address || any_pattern qs address)
unfolding any_pattern
any_pattern-append [] qs address = refl
any_pattern-append (p ∷ ps) qs address = ground (arith, any_pattern-append ps qs address)

targets_of-append :
    (xs ys : List Subscriber) (address : Bytes)
    → targets_of (xs ++ ys) address ≡ targets_of xs address ++ targets_of ys address
unfolding targets_of
targets_of-append [] ys address = refl
targets_of-append (x ∷ xs) ys address = ground (arith, targets_of-append xs ys address)

-- A new subscription adds the client, at its delivery port, to the targets of exactly the addresses
-- that its pattern matches; every other delivery stays.
pub osc_publish-osc_subscribe_add :
    (r : Registry) (who : Endpoint) (pattern : Bytes) (port : ℕ) (address : Bytes)
    → IsText pattern
    → IsUnknown who r.subscribers
    → length r.subscribers < max_subscribers
    → ((osc_publish (osc_subscribe_add r who pattern port) address).targets
        ≡ (osc_publish r address).targets
          ++ (if glob (c_str pattern) address then redirect who port ∷ [] else []))
      × ((osc_publish (osc_subscribe_add r who pattern port) address).peers
          ≡ (osc_publish r address).peers)
unfolding osc_publish any_pattern
osc_publish-osc_subscribe_add r who pattern port address t u free =
    rw (add-IsUnknown r who pattern port t u free) (
      targets_of-append r.subscribers new address
          ∙ ap (◌++◌ (targets_of r.subscribers address)) (ground arith),
      refl,
    )
  where
    new : List Subscriber
    new = record { endpoint = redirect who port; patterns = pattern ∷ [] } ∷ []

remove_first-append :
    (who : Endpoint) (subs : List Subscriber) (last : Subscriber)
    → IsUnknown who subs
    → endpoint_equal last.endpoint who ≡ true
    → remove_first who none (subs ++ (last ∷ [])) ≡ (subs, true)
unfolding remove_first remaining
remove_first-append who [] last u h = ground arith
remove_first-append who (sub ∷ subs) last (u, us) h =
    ground (arith, remove_first-append who subs last us h)

-- From its own port a client undoes its subscription by `/unsubscribe`: the registry is as before.
pub osc_subscribe_remove-add :
    (r : Registry) (who : Endpoint) (pattern : Bytes)
    → IsText pattern
    → IsUnknown who r.subscribers
    → length r.subscribers < max_subscribers
    → r.subscriber_count < max_subscribers
    → who.family ≡ inet
    → 0 < who.len
    → osc_subscribe_remove (osc_subscribe_add r who pattern 0) who none ≡ r
unfolding osc_subscribe_remove
osc_subscribe_remove-add r who pattern t u free count f len =
    rw
      (
        add-IsUnknown r who pattern 0 t u free,
        remove_first-append who r.subscribers (record { endpoint = who; patterns = pattern ∷ [] }) u
            (endpoint_equal_refl who f len),
      )
      (ground arith)
