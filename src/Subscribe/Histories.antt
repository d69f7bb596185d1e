-- ===== src/Subscribe/Histories.antt =====
-- The listeners' part of the invariant, and the whole of it over any history of operations.
use obs_osc.Base.{
  ℕ, ◌≤◌, ◌<◌, Bool, false, ◌||◌, not, List, [], ◌∷◌, none, ◌≡◌, ◌≢◌, inl, inr, refl, arith, ◌==◌,
  leb, ltb, length, length-append, is_empty, Bool-cases, Bytes, str_eq_iff, All, All-append,
  if_both,
}
use obs_osc.Net.{Endpoint}
use obs_osc.Message.Types.{OscArgument, OscMessage}
use obs_osc.Message.Access.{Conversions}
use obs_osc.Subscribe.Registry.{
  max_listeners, max_pattern_len, Listener, Registry, is_listener, has_listener, osc_listen_add,
  erase_listener, osc_listen_remove, erase_peer, osc_listen_remove_peer,
}
use obs_osc.Subscribe.Fanout.{osc_handle_subscription}
use obs_osc.Subscribe.Invariant.{
  IsValid, IsText-of, osc_subscribe_add-IsValid, osc_subscribe_remove-IsValid,
}
use obs_osc.Subscribe.Distinct.{Distinct, Distinct-snoc}

has_listener-false :
    (peer : ℕ) (path : Bytes) (ls : List Listener)
    → has_listener peer path ls ≡ false
    → All (λ l. l ≢ record { peer = peer; path = path }) ls
unfolding has_listener
has_listener-false peer path [] h = tt
has_listener-false peer path (l ∷ ls) h = (
  λ e. ground (arith, (str_eq_iff l.path path).1),
  has_listener-false peer path ls (ground arith),
)

osc_listen_add-IsValid :
    (r : Registry) (peer : ℕ) (path : Bytes) → IsValid r → IsValid (osc_listen_add r peer path)
unfolding osc_listen_add
osc_listen_add-IsValid r peer path i =
    elim (Bool-cases (is_empty path || ltb max_pattern_len (length path))) [
      | inl refused ↦ rw refused i
      | inr taken ↦ elim (Bool-cases (has_listener peer path r.listeners)) [
        | inl known ↦ rw (taken, known) i
        | inr new ↦ elim (Bool-cases (leb max_listeners (length r.listeners))) [
          | inl full ↦ rw (taken, new, full) i
          | inr free ↦
              let fewer : length r.listeners < max_listeners = ground arith in
              rw (taken, new, free)
                (record {
                  counted = i.counted;
                  room = i.room;
                  each = i.each;
                  listener_room = omega (arith, length-append r.listeners (entry ∷ []));
                  paths = All-append _ r.listeners (entry ∷ []) i.paths (IsText-of path taken, tt);
                  listeners_distinct =
                      Distinct-snoc r.listeners entry i.listeners_distinct
                        (has_listener-false peer path r.listeners new);
                })
        ]
      ]
    ]
  where
    entry : Listener
    entry = record { peer = peer; path = path }

-- A sublist made by leaving entries out.
data Kept : List Listener → List Listener → Type 0 where
  done : Kept [] []
  drop_one : {l : Listener} {xs ys : List Listener} → Kept xs ys → Kept xs (l ∷ ys)
  keep_one : {l : Listener} {xs ys : List Listener} → Kept xs ys → Kept (l ∷ xs) (l ∷ ys)

Kept-refl : (ls : List Listener) → Kept ls ls
Kept-refl [] = done
Kept-refl (l ∷ ls) = keep_one (Kept-refl ls)

Kept-All {κ} : (P : Listener → Type κ) {xs ys : List Listener} → Kept xs ys → All P ys → All P xs
Kept-All P done h = tt
Kept-All P (drop_one k) h = Kept-All P k h.1
Kept-All P (keep_one k) h = (h.0, Kept-All P k h.1)

Kept-Distinct : {xs ys : List Listener} → Kept xs ys → Distinct ys → Distinct xs
Kept-Distinct done h = tt
Kept-Distinct (drop_one k) h = Kept-Distinct k h.1
Kept-Distinct (keep_one {l} k) h = (Kept-All (λ y. l ≢ y) k h.0, Kept-Distinct k h.1)

length-Kept : {xs ys : List Listener} → Kept xs ys → length xs ≤ length ys
length-Kept done = omega arith
length-Kept (drop_one k) = omega (arith, length-Kept k)
length-Kept (keep_one k) = omega (arith, length-Kept k)

with_listeners :
    (r : Registry) (ls : List Listener)
    → Kept ls r.listeners
    → IsValid r
    → IsValid (record r { listeners = ls })
with_listeners r ls k i = record {
  counted = i.counted;
  room = i.room;
  each = i.each;
  listener_room = omega (arith, length-Kept k, i.listener_room);
  paths = Kept-All _ k i.paths;
  listeners_distinct = Kept-Distinct k i.listeners_distinct;
}

erase_listener-Kept :
    (peer : ℕ) (path : Bytes) (ls : List Listener) → Kept (erase_listener peer path ls) ls
unfolding erase_listener
erase_listener-Kept peer path [] = done
erase_listener-Kept peer path (l ∷ ls) = elim (Bool-cases (is_listener peer path l)) [
  | inl e ↦ rw e (drop_one (Kept-refl ls))
  | inr e ↦ rw e (keep_one (erase_listener-Kept peer path ls))
]

erase_peer-Kept : (peer : ℕ) (ls : List Listener) → Kept (erase_peer peer ls) ls
unfolding erase_peer
erase_peer-Kept peer [] = done
erase_peer-Kept peer (l ∷ ls) = elim (Bool-cases (l.peer == peer)) [
  | inl e ↦ rw e (drop_one (erase_peer-Kept peer ls))
  | inr e ↦ rw e (keep_one (erase_peer-Kept peer ls))
]

-- After a peer is dropped, no registration names it.
pub erase_peer-gone :
    (peer : ℕ) (ls : List Listener) → All (λ l. l.peer ≢ peer) (erase_peer peer ls)
unfolding erase_peer
erase_peer-gone peer [] = tt
erase_peer-gone peer (l ∷ ls) = elim (Bool-cases (l.peer == peer)) [
  | inl e ↦ rw e (erase_peer-gone peer ls)
  | inr e ↦ rw e ((ground arith), erase_peer-gone peer ls)
]

-- One call of the module's interface.
pub data Call : Type 0 where
  command : OscMessage → Endpoint → Bool → Call
  listen : ℕ → Bytes → Call
  ignore : ℕ → Bytes → Call
  disconnect : ℕ → Call

unfoldable pub call : Conversions → Registry → Call → Registry
call conv r (command msg who unsubscribe) = osc_handle_subscription conv r msg who unsubscribe
call conv r (listen peer path) = osc_listen_add r peer path
call conv r (ignore peer path) = osc_listen_remove r peer path
call conv r (disconnect peer) = osc_listen_remove_peer r peer

pub run : Conversions → Registry → List Call → Registry
run conv r [] = r
run conv r (c ∷ cs) = run conv (call conv r c) cs

osc_handle_subscription-IsValid :
    (conv : Conversions) (r : Registry) (msg : OscMessage) (who : Endpoint) (unsubscribe : Bool)
    → IsValid r
    → IsValid (osc_handle_subscription conv r msg who unsubscribe)
unfolding osc_handle_subscription
osc_handle_subscription-IsValid conv r msg who unsubscribe i = go msg.args refl
  where
    go :
        (args : List OscArgument)
        → msg.args ≡ args
        → IsValid (osc_handle_subscription conv r msg who unsubscribe)
    go [] e =
        rw (e, osc_handle_subscription)
          (if_both IsValid unsubscribe _ _ (osc_subscribe_remove-IsValid r who none i) i)
    go (a ∷ more) e =
        rw (e, osc_handle_subscription)
          (if_both IsValid unsubscribe _ _ (osc_subscribe_remove-IsValid r who _ i) (
            if_both IsValid (not (a.type == b's') || is_empty a.s) _ _ i
              (osc_subscribe_add-IsValid r who a.s _ i)))

call-IsValid : (conv : Conversions) (r : Registry) (c : Call) → IsValid r → IsValid (call conv r c)
unfolding call osc_listen_remove osc_listen_remove_peer
call-IsValid conv r (command msg who unsubscribe) i =
    osc_handle_subscription-IsValid conv r msg who unsubscribe i
call-IsValid conv r (listen peer path) i = osc_listen_add-IsValid r peer path i
call-IsValid conv r (ignore peer path) i =
    with_listeners r _ (erase_listener-Kept peer path r.listeners) i
call-IsValid conv r (disconnect peer) i = with_listeners r _ (erase_peer-Kept peer r.listeners) i

-- Every history of calls keeps the registries well formed: the published count is the number of
-- subscribers, all limits hold, no subscriber is without a pattern, no pattern of a subscriber and
-- no registration of a listener stands twice, and no text is empty or longer than 256 bytes.
pub run-IsValid :
    (conv : Conversions) (r : Registry) (cs : List Call) → IsValid r → IsValid (run conv r cs)
unfolding run
run-IsValid conv r [] i = i
run-IsValid conv r (c ∷ cs) i = run-IsValid conv (call conv r c) cs (call-IsValid conv r c i)
