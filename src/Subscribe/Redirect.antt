-- ===== src/Subscribe/Redirect.antt =====
-- Subscribing with a delivery port, and the next `/subscribe` or `/unsubscribe`.
use obs_osc.Base.{
  ℕ, ◌+◌, ◌%◌, ◌^◌, ◌<◌, false, List, [], ◌∷◌, ◌++◌, Option, none, ◌≡◌, ◌≢◌, refl, ap, ◌∙◌, arith,
  length, length-append, append_assoc, Bytes, All, All-append,
}
use obs_osc.Net.{inet, Endpoint}
use obs_osc.Subscribe.Registry.{
  max_subscribers, Subscriber, Registry, endpoint_equal, endpoint_set_port, redirect, extend_first,
  new_subscriber, osc_subscribe_add, remove_first, osc_subscribe_remove,
}
use obs_osc.Subscribe.Invariant.{IsText}

-- No registered subscriber answers to this endpoint.
abbrev pub IsUnknown : Endpoint → List Subscriber → Type 0
IsUnknown who = All (λ sub. endpoint_equal sub.endpoint who ≡ false)

pub extend_first-IsUnknown :
    (who : Endpoint) (pattern : Bytes) (port : ℕ) (subs : List Subscriber)
    → IsUnknown who subs
    → extend_first who pattern port subs ≡ none
unfolding extend_first
extend_first-IsUnknown who pattern port [] h = refl
extend_first-IsUnknown who pattern port (sub ∷ subs) (h, hs) =
    ground (arith, extend_first-IsUnknown who pattern port subs hs)

pub remove_first-IsUnknown :
    (who : Endpoint) (pattern : Option Bytes) (subs : List Subscriber)
    → IsUnknown who subs
    → remove_first who pattern subs ≡ (subs, false)
unfolding remove_first
remove_first-IsUnknown who pattern [] h = refl
remove_first-IsUnknown who pattern (sub ∷ subs) (h, hs) =
    ground (arith, remove_first-IsUnknown who pattern subs hs)

-- A pattern that is accepted, from a client not registered yet, with room for one more.
pub add-IsUnknown :
    (r : Registry) (who : Endpoint) (pattern : Bytes) (port : ℕ)
    → IsText pattern
    → IsUnknown who r.subscribers
    → length r.subscribers < max_subscribers
    → osc_subscribe_add r who pattern port ≡ record r {
      subscribers =
          r.subscribers ++ (record { endpoint = redirect who port; patterns = pattern ∷ [] } ∷ []);
      subscriber_count = (r.subscriber_count + 1) % 2 ^ 64;
    }
unfolding osc_subscribe_add new_subscriber
add-IsUnknown r who [] port t u free = absurd (omega arith)
add-IsUnknown r who (c ∷ s) port t u free =
    ground (arith, extend_first-IsUnknown who (c ∷ s) port r.subscribers u)

redirected-unknown :
    (who : Endpoint) (port : ℕ)
    → who.family ≡ inet
    → 0 < port
    → port < 2 ^ 16
    → port ≢ who.port
    → endpoint_equal (redirect who port) who ≡ false
unfolding endpoint_equal endpoint_set_port
redirected-unknown who port f p q h = ground arith

-- A client that asks for another delivery port cannot take its subscription back: its own
-- `/unsubscribe` changes nothing. Asking again registers it a second time.
pub redirect_stays :
    (r : Registry) (who : Endpoint) (pattern : Bytes) (port : ℕ)
    → IsText pattern
    → IsUnknown who r.subscribers
    → length r.subscribers + 1 < max_subscribers
    → who.family ≡ inet
    → 0 < port
    → port < 2 ^ 16
    → port ≢ who.port
    → ((osc_subscribe_remove (osc_subscribe_add r who pattern port) who none).subscribers
        ≡ (osc_subscribe_add r who pattern port).subscribers)
      × ((osc_subscribe_add (osc_subscribe_add r who pattern port) who pattern port).subscribers
          ≡ r.subscribers
            ++ (record { endpoint = endpoint_set_port who port; patterns = pattern ∷ [] }
                ∷ record { endpoint = endpoint_set_port who port; patterns = pattern ∷ [] }
                ∷ []))
unfolding osc_subscribe_remove
redirect_stays r who pattern port t u free f p q h =
    rw (add-IsUnknown r who pattern port t u (omega arith)) (
      ap (λ x. x.0) (remove_first-IsUnknown who none _ still),
      ap (λ x. x.subscribers)
            (add-IsUnknown _ who pattern port t still
              (omega (arith, length-append r.subscribers (new ∷ []))))
          ∙ append_assoc r.subscribers (new ∷ []) (new ∷ [])
          ∙ ap
              (λ e.
                r.subscribers
                ++ (record { endpoint = e; patterns = pattern ∷ [] }
                    ∷ record { endpoint = e; patterns = pattern ∷ [] }
                    ∷ []))
              moved,
    )
  where
    new : Subscriber
    new = record { endpoint = redirect who port; patterns = pattern ∷ [] }

    still : IsUnknown who (r.subscribers ++ (new ∷ []))
    still = All-append _ r.subscribers (new ∷ []) u (redirected-unknown who port f p q h, tt)

    moved : redirect who port ≡ endpoint_set_port who port
    moved = ground arith
