-- ===== src/Subscribe/Invariant.antt =====
-- What every operation of src/osc-subscribe.cpp keeps.
use obs_osc.Base.{
  ℕ, ◌+◌, ◌≤◌, ◌<◌, false, ◌||◌, List, [], ◌∷◌, Option, none, some, ◌≡◌, ◌≢◌, inl, inr, arith, leb,
  ltb, if◌then◌else◌, length, length-append, is_empty, Bool-cases, Option-cases, Bytes, str_eq,
  str_eq_iff, All, All-append, is_empty-false,
}
use obs_osc.Net.{Endpoint}
use obs_osc.Subscribe.Registry.{
  max_subscribers, max_patterns, max_listeners, max_pattern_len, Subscriber, Listener, Registry,
  has_text, redirect, extend_subscriber, extend_first, new_subscriber, osc_subscribe_add,
  erase_text, remaining, remove_first, osc_subscribe_remove,
}
use obs_osc.Subscribe.Distinct.{Distinct, Distinct-snoc}

-- A pattern or a path that may be registered.
abbrev pub IsText : Bytes → Type 0
IsText p = (0 < length p) × (length p ≤ max_pattern_len)

-- A subscriber holds between one and 64 patterns, none twice.
pub record IsSubscriber (sub : Subscriber) : Type 0 where
  pub some_pattern : 0 < length sub.patterns
  pub bounded : length sub.patterns ≤ max_patterns
  pub texts : All IsText sub.patterns
  pub distinct : Distinct sub.patterns

pub record IsValid (r : Registry) : Type 0 where
  pub counted : r.subscriber_count ≡ length r.subscribers
  pub room : length r.subscribers ≤ max_subscribers
  pub each : All IsSubscriber r.subscribers
  pub listener_room : length r.listeners ≤ max_listeners
  pub paths : All (λ (l : Listener). IsText l.path) r.listeners
  pub listeners_distinct : Distinct r.listeners

has_text-false : (p : Bytes) (ps : List Bytes) → has_text p ps ≡ false → All (λ q. q ≢ p) ps
unfolding has_text
has_text-false p [] h = tt
has_text-false p (q ∷ ps) h =
    ((λ e. cc ((str_eq_iff q p).1 e, first)), has_text-false p ps (ground arith))
  where
    first : str_eq q p ≡ false
    first = ground arith

extend_subscriber-IsSubscriber :
    (sub : Subscriber) (pattern : Bytes) (port : ℕ)
    → IsText pattern
    → IsSubscriber sub
    → IsSubscriber (extend_subscriber sub pattern port)
unfolding extend_subscriber
extend_subscriber-IsSubscriber sub pattern port t i =
    elim (Bool-cases (has_text pattern sub.patterns || leb max_patterns (length sub.patterns))) [
      | inl kept ↦ rw kept (record {
        some_pattern = i.some_pattern;
        bounded = i.bounded;
        texts = i.texts;
        distinct = i.distinct;
      })
      | inr new ↦ rw new (record {
        some_pattern = omega (arith, length-append sub.patterns (pattern ∷ []));
        bounded = ground (arith, length-append sub.patterns (pattern ∷ []));
        texts = All-append IsText sub.patterns (pattern ∷ []) i.texts (t, tt);
        distinct =
            Distinct-snoc sub.patterns pattern i.distinct
              (has_text-false pattern sub.patterns (ground arith));
      })
    ]

-- What the loop of `osc_subscribe_add` does to the list.
extend_first-keeps :
    (who : Endpoint) (pattern : Bytes) (port : ℕ) (subs ss : List Subscriber)
    → IsText pattern
    → All IsSubscriber subs
    → extend_first who pattern port subs ≡ some ss
    → All IsSubscriber ss × (length ss ≡ length subs)
unfolding extend_first
extend_first-keeps who pattern port [] ss t i e = cc
extend_first-keeps who pattern port (sub ∷ subs) ss t (i, is) e =
    elim (Option-cases (extend_first who pattern port subs)) [
      | inl n ↦ ground (arith, extend_subscriber-IsSubscriber sub pattern port t i)
      | inr (rest, q) ↦ ground (
        arith,
        extend_subscriber-IsSubscriber sub pattern port t i,
        extend_first-keeps who pattern port subs rest t is q,
      )
    ]

new_subscriber-IsValid :
    (r : Registry) (who : Endpoint) (pattern : Bytes) (port : ℕ)
    → IsText pattern
    → IsValid r
    → IsValid (new_subscriber r who pattern port)
unfolding new_subscriber
new_subscriber-IsValid r who pattern port t i =
    elim (Bool-cases (leb max_subscribers (length r.subscribers))) [
      | inl full ↦ rw full i
      | inr free ↦
          let fewer : length r.subscribers < max_subscribers = ground arith in
          rw free (record {
            counted = omega (arith, length-append r.subscribers (new ∷ []), i.counted);
            room = omega (arith, length-append r.subscribers (new ∷ []));
            each = All-append IsSubscriber r.subscribers (new ∷ []) i.each (one, tt);
            listener_room = i.listener_room;
            paths = i.paths;
            listeners_distinct = i.listeners_distinct;
          })
    ]
  where
    new : Subscriber
    new = record { endpoint = redirect who port; patterns = pattern ∷ [] }

    one : IsSubscriber new
    one = record {
      some_pattern = omega arith;
      bounded = omega arith;
      texts = (t, tt);
      distinct = (tt, tt);
    }

-- A registry with other subscribers, as many as before.
with_subscribers :
    (r : Registry) (ss : List Subscriber)
    → IsValid r
    → All IsSubscriber ss × (length ss ≡ length r.subscribers)
    → IsValid (record r { subscribers = ss })
with_subscribers r ss i (each, e) = record {
  counted = omega (arith, i.counted);
  room = omega (arith, i.room);
  each = each;
  listener_room = i.listener_room;
  paths = i.paths;
  listeners_distinct = i.listeners_distinct;
}

pub IsText-of : (p : Bytes) → (is_empty p || ltb max_pattern_len (length p)) ≡ false → IsText p
IsText-of p h = (is_empty-false p (ground arith), ground arith)

pub osc_subscribe_add-IsValid :
    (r : Registry) (who : Endpoint) (pattern : Bytes) (port : ℕ)
    → IsValid r
    → IsValid (osc_subscribe_add r who pattern port)
unfolding osc_subscribe_add
osc_subscribe_add-IsValid r who pattern port i =
    elim (Bool-cases (is_empty pattern || ltb max_pattern_len (length pattern))) [
      | inl refused ↦ rw refused i
      | inr taken ↦
          let t = IsText-of pattern taken in
          elim (Option-cases (extend_first who pattern port r.subscribers)) [
            | inl e ↦ rw (taken, e) (new_subscriber-IsValid r who pattern port t i)
            | inr (ss, e) ↦
                rw (taken, e)
                  (with_subscribers r ss i
                    (extend_first-keeps who pattern port r.subscribers ss t i.each e))
          ]
    ]

erase_text-All {κ} :
    (P : Bytes → Type κ) (p : Bytes) (ps : List Bytes) → All P ps → All P (erase_text p ps)
unfolding erase_text
erase_text-All P p [] h = tt
erase_text-All P p (q ∷ ps) (h, hs) = elim (Bool-cases (str_eq q p)) [
  | inl e ↦ rw e hs
  | inr e ↦ rw e (h, erase_text-All P p ps hs)
]

erase_text-Distinct : (p : Bytes) (ps : List Bytes) → Distinct ps → Distinct (erase_text p ps)
unfolding erase_text
erase_text-Distinct p [] h = tt
erase_text-Distinct p (q ∷ ps) (h, hs) = elim (Bool-cases (str_eq q p)) [
  | inl e ↦ rw e hs
  | inr e ↦ rw e (erase_text-All (λ y. q ≢ y) p ps h, erase_text-Distinct p ps hs)
]

length-erase_text : (p : Bytes) (ps : List Bytes) → length (erase_text p ps) ≤ length ps
unfolding erase_text
length-erase_text p [] = omega arith
length-erase_text p (q ∷ ps) = ground (arith, length-erase_text p ps)

remaining-IsSubscriber :
    (sub : Subscriber) (pattern : Option Bytes)
    → is_empty (remaining pattern sub.patterns) ≡ false
    → IsSubscriber sub
    → IsSubscriber (record sub { patterns = remaining pattern sub.patterns })
unfolding remaining
remaining-IsSubscriber sub none h i = cc
remaining-IsSubscriber sub (some p) h i = record {
  some_pattern = is_empty-false (erase_text p sub.patterns) h;
  bounded = omega (arith, length-erase_text p sub.patterns, i.bounded);
  texts = erase_text-All IsText p sub.patterns i.texts;
  distinct = erase_text-Distinct p sub.patterns i.distinct;
}

-- The loop keeps the subscribers well formed, and is one shorter exactly where it says so.
remove_first-keeps :
    (who : Endpoint) (pattern : Option Bytes) (subs : List Subscriber)
    → All IsSubscriber subs
    → All IsSubscriber (remove_first who pattern subs).0
      × (length (remove_first who pattern subs).0
            + (if (remove_first who pattern subs).1 then 1 else 0)
          ≡ length subs)
unfolding remove_first
remove_first-keeps who pattern [] h = (tt, omega arith)
remove_first-keeps who pattern (sub ∷ subs) (h, hs) =
    ground (arith, remove_first-keeps who pattern subs hs, remaining-IsSubscriber sub pattern)

pub osc_subscribe_remove-IsValid :
    (r : Registry) (who : Endpoint) (pattern : Option Bytes)
    → IsValid r
    → IsValid (osc_subscribe_remove r who pattern)
unfolding osc_subscribe_remove
osc_subscribe_remove-IsValid r who pattern i =
    let (each, count) = remove_first-keeps who pattern r.subscribers i.each in
    record {
      counted = ground arith;
      room = ground arith;
      each = each;
      listener_room = i.listener_room;
      paths = i.paths;
      listeners_distinct = i.listeners_distinct;
    }
