-- ===== src/Subscribe/Registry.antt =====
-- The state and its operations. A peer token is a number; log lines are left out.
use obs_osc.Base.{
  ℕ, ◌+◌, ◌-◌, ◌%◌, ◌^◌, Bool, true, false, ◌||◌, ◌&&◌, not, List, [], ◌∷◌, ◌++◌, Option, none,
  some, ◌==◌, leb, ltb, if◌then◌else◌, length, is_empty, Bytes, str_eq,
}
use obs_osc.Net.{Family, inet, inet6, other, family_eq, Endpoint}

abbrev pub max_subscribers : ℕ
max_subscribers = 32

abbrev pub max_patterns : ℕ
max_patterns = 64

abbrev pub max_listeners : ℕ
max_listeners = 256

abbrev pub max_pattern_len : ℕ
max_pattern_len = 256

pub record Subscriber : Type 0 where
  pub endpoint : Endpoint
  pub patterns : List Bytes

pub record Listener : Type 0 where
  pub peer : ℕ
  pub path : Bytes

pub record Registry : Type 0 where
  pub subscribers : List Subscriber
  pub subscriber_count : ℕ
  pub listeners : List Listener

abbrev pub no_registrations : Registry
no_registrations = record { subscribers = []; subscriber_count = 0; listeners = [] }

-- The comparison for two endpoints of one family.
unfoldable pub same_address : Family → Endpoint → Endpoint → Bool
same_address inet a b = a.port == b.port && str_eq a.address b.address
same_address inet6 a b = a.port == b.port && (a.scope == b.scope && str_eq a.address b.address)
same_address other a b = false

unfoldable pub endpoint_equal : Endpoint → Endpoint → Bool
unfolding same_address
endpoint_equal a b =
    if a.len == 0 || b.len == 0
    then false
    else if not (family_eq a.family b.family)
    then false
    else same_address a.family a b

-- `htons((uint16_t)port)`; the field is kept in host order here.
unfoldable pub endpoint_set_port : Endpoint → ℕ → Endpoint
endpoint_set_port ep port = elim ep.family [
  | inet ↦ record ep { port = port % 2 ^ 16 }
  | inet6 ↦ record ep { port = port % 2 ^ 16 }
  | other ↦ ep
]

-- `std::find(…) != end()`
unfoldable pub has_text : Bytes → List Bytes → Bool
has_text pattern [] = false
has_text pattern (p ∷ ps) = str_eq p pattern || has_text pattern ps

abbrev pub redirect : Endpoint → ℕ → Endpoint
redirect ep port = if ltb 0 port then endpoint_set_port ep port else ep

-- The body of the loop for the subscriber that is found.
unfoldable pub extend_subscriber : Subscriber → Bytes → ℕ → Subscriber
unfolding has_text
extend_subscriber sub pattern port =
    let moved = record sub { endpoint = redirect sub.endpoint port } in
    if has_text pattern sub.patterns || leb max_patterns (length sub.patterns)
    then moved
    else record moved { patterns = sub.patterns ++ (pattern ∷ []) }

-- The loop over the subscribers: `none` if it runs to its end.
unfoldable pub extend_first : Endpoint → Bytes → ℕ → List Subscriber → Option (List Subscriber)
extend_first who pattern port [] = none
extend_first who pattern port (sub ∷ subs) =
    let rest : Option (List Subscriber) = elim (extend_first who pattern port subs) [
      | none ↦ none
      | some ss ↦ some (sub ∷ ss)
    ] in
    if endpoint_equal sub.endpoint who
    then some (extend_subscriber sub pattern port ∷ subs)
    else rest

-- A new subscriber, where there is room for one.
unfoldable pub new_subscriber : Registry → Endpoint → Bytes → ℕ → Registry
new_subscriber r who pattern port =
    if leb max_subscribers (length r.subscribers) then r else record r {
      subscribers =
          r.subscribers ++ (record { endpoint = redirect who port; patterns = pattern ∷ [] } ∷ []);
      subscriber_count = (r.subscriber_count + 1) % 2 ^ 64;
    }

unfoldable pub osc_subscribe_add : Registry → Endpoint → Bytes → ℕ → Registry
unfolding extend_first extend_subscriber new_subscriber endpoint_equal endpoint_set_port
osc_subscribe_add r who pattern port =
    if is_empty pattern || ltb max_pattern_len (length pattern)
    then r
    else elim (extend_first who pattern port r.subscribers) [
      | some subs ↦ record r { subscribers = subs }
      | none ↦ new_subscriber r who pattern port
    ]

unfoldable pub erase_text : Bytes → List Bytes → List Bytes
erase_text pattern [] = []
erase_text pattern (p ∷ ps) = if str_eq p pattern then ps else p ∷ erase_text pattern ps

-- The patterns that are left: less the one named, or none.
unfoldable pub remaining : Option Bytes → List Bytes → List Bytes
unfolding erase_text
remaining none ps = []
remaining (some pattern) ps = erase_text pattern ps

-- The loop, and whether it erased a subscriber. It stops at the first that is found.
unfoldable pub remove_first : Endpoint → Option Bytes → List Subscriber → List Subscriber × Bool
unfolding remaining
remove_first who pattern [] = ([], false)
remove_first who pattern (sub ∷ subs) =
    let later : List Subscriber × Bool =
      (sub ∷ (remove_first who pattern subs).0, (remove_first who pattern subs).1) in
    let left = remaining pattern sub.patterns in
    if not (endpoint_equal sub.endpoint who)
    then later
    else if is_empty left
    then (subs, true)
    else (record sub { patterns = left } ∷ subs, false)

-- `fetch_sub(1)` on a `size_t` wraps.
unfoldable pub osc_subscribe_remove : Registry → Endpoint → Option Bytes → Registry
unfolding remove_first endpoint_equal
osc_subscribe_remove r who pattern =
    let (subs, erased) = remove_first who pattern r.subscribers in
    record r {
      subscribers = subs;
      subscriber_count =
          if erased then (r.subscriber_count + 2 ^ 64 - 1) % 2 ^ 64 else r.subscriber_count;
    }

unfoldable pub osc_has_subscribers : Registry → Bool
osc_has_subscribers r = not (r.subscriber_count == 0)

abbrev pub is_listener : ℕ → Bytes → Listener → Bool
is_listener peer path l = l.peer == peer && str_eq l.path path

unfoldable pub has_listener : ℕ → Bytes → List Listener → Bool
has_listener peer path [] = false
has_listener peer path (l ∷ ls) = is_listener peer path l || has_listener peer path ls

unfoldable pub osc_listen_add : Registry → ℕ → Bytes → Registry
unfolding has_listener
osc_listen_add r peer path =
    if is_empty path || ltb max_pattern_len (length path)
    then r
    else if has_listener peer path r.listeners
    then r
    else if leb max_listeners (length r.listeners)
    then r
    else record r { listeners = r.listeners ++ (record { peer = peer; path = path } ∷ []) }

unfoldable pub erase_listener : ℕ → Bytes → List Listener → List Listener
erase_listener peer path [] = []
erase_listener peer path (l ∷ ls) =
    if is_listener peer path l then ls else l ∷ erase_listener peer path ls

unfoldable pub osc_listen_remove : Registry → ℕ → Bytes → Registry
unfolding erase_listener
osc_listen_remove r peer path = record r { listeners = erase_listener peer path r.listeners }

unfoldable pub erase_peer : ℕ → List Listener → List Listener
erase_peer peer [] = []
erase_peer peer (l ∷ ls) =
    let rest = erase_peer peer ls in if l.peer == peer then rest else l ∷ rest

unfoldable pub osc_listen_remove_peer : Registry → ℕ → Registry
unfolding erase_peer
osc_listen_remove_peer r peer = record r { listeners = erase_peer peer r.listeners }
