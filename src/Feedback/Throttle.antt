-- ===== src/Feedback/Throttle.antt =====
-- `throttled`. The clock is `steady_clock`, in nanoseconds; `last_sent` is a list of keys and times.
use obs_osc.Base.{
  ℕ, ◌+◌, ◌*◌, Bool, true, false, List, [], ◌∷◌, Option, none, some, leb, ltb, if◌then◌else◌,
  length, Bytes, str_eq,
}

abbrev pub LastSent : Type 0
LastSent = List (Bytes × ℕ)

abbrev pub prune_at : ℕ
prune_at = 256

abbrev pub stale_after : ℕ
stale_after = 5000000000

abbrev pub milliseconds : ℕ → ℕ
milliseconds ms = ms * 1000000

unfoldable pub find : Bytes → LastSent → Option ℕ
find key [] = none
find key ((k, time) ∷ entries) = if str_eq k key then some time else find key entries

-- `now - it->second > stale_after`, on a clock that does not go back.
unfoldable pub prune : ℕ → LastSent → LastSent
prune now [] = []
prune now ((k, time) ∷ entries) =
    let rest = prune now entries in if ltb (time + stale_after) now then rest else (k, time) ∷ rest

-- `last_sent[key] = now`
unfoldable pub assign : Bytes → ℕ → LastSent → LastSent
assign key now [] = (key, now) ∷ []
assign key now ((k, time) ∷ entries) =
    let rest = assign key now entries in
    if str_eq k key then (k, now) ∷ entries else (k, time) ∷ rest

unfoldable pub prune_full : ℕ → LastSent → LastSent
unfolding prune
prune_full now last_sent =
    if leb prune_at (length last_sent) then prune now last_sent else last_sent

-- From `last_sent.find(key)` on, with what it found.
unfoldable pub attempt : ℕ → LastSent → Bytes → ℕ → Option ℕ → LastSent × Bool
unfolding assign
attempt now last_sent key ms none = (assign key now last_sent, false)
attempt now last_sent key ms (some time) =
    if ltb now (time + milliseconds ms)
    then (last_sent, true)
    else (assign key now last_sent, false)

-- The map after the call, and its result.
unfoldable pub throttled : ℕ → LastSent → Bytes → ℕ → LastSent × Bool
unfolding find prune_full attempt
throttled now last_sent key ms =
    attempt now (prune_full now last_sent) key ms (find key (prune_full now last_sent))
