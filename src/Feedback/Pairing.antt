-- ===== src/Feedback/Pairing.antt =====
-- Calls in pairs: what a hooked filter begins and what ends it, over the operations of the hooks.
use obs_osc.Base.{
  ◌+◌, Bool, true, false, not, ◌&&◌, List, [], ◌∷◌, ◌++◌, if◌then◌else◌, ◌==◌, ◌≡◌, refl, if_both,
  arith,
}
use obs_osc.Feedback.Histories.{IsKept}
use obs_osc.Obs.Actions.{Handle}
use obs_osc.Obs.Readings.{Reads}
use obs_osc.Base.Counts.{count, count-append}
use obs_osc.Feedback.Hooks.{
  Callback, filter_enable, SignalHook, FilterHook, HookCall, connect, disconnect, take_ref, release,
  Hooks, is_entry, is_hooked, hook_filter, drop_calls, unhook_loop, unhook_filter,
  unhook_parent_loop, unhook_filters_of_parent, table_calls, start_calls, stop_calls, input_hooks,
  scene_hooks, connect_hook_table, enable_hook,
}

-- The calls that begin and end a connection of the "enable" callback, or hold and let go a filter.
abbrev pub is_enabled : Callback → Bool
is_enabled filter_enable = true
is_enabled _ = false

abbrev pub connects : Handle → Handle → HookCall → Bool
connects parent filter (connect source hook param) =
    is_enabled hook.callback && (param == parent && source == filter)
connects parent filter _ = false

abbrev pub disconnects : Handle → Handle → HookCall → Bool
disconnects parent filter (disconnect source hook param) =
    is_enabled hook.callback && (param == parent && source == filter)
disconnects parent filter _ = false

abbrev pub takes : Handle → HookCall → Bool
takes filter (take_ref source) = source == filter
takes filter _ = false

abbrev pub releases : Handle → HookCall → Bool
releases filter (release source) = source == filter
releases filter _ = false

-- None of these calls connects or disconnects a signal of the tables.
abbrev pub Silent : (HookCall → Bool) → Type 0
Silent p =
    (source : Handle)
    → (count p (table_calls source input_hooks true) ≡ 0)
      × (count p (table_calls source input_hooks false) ≡ 0)
      × (count p (table_calls source scene_hooks true) ≡ 0)
      × (count p (table_calls source scene_hooks false) ≡ 0)

-- A kind of call that begins something for a hooked filter, and the kind that ends it.
pub record Pairing : Type 0 where
  pub starts : HookCall → Bool
  pub ends : HookCall → Bool
  pub held : FilterHook → Bool
  pub hook_starts :
      (entry : FilterHook)
      → count starts (take_ref entry.filter ∷ connect entry.filter enable_hook entry.parent ∷ [])
        ≡ (if held entry then 1 else 0)
  pub hook_ends :
      (entry : FilterHook)
      → count ends (take_ref entry.filter ∷ connect entry.filter enable_hook entry.parent ∷ []) ≡ 0
  pub drop_starts : (entry : FilterHook) → count starts (drop_calls entry) ≡ 0
  pub drop_ends :
      (entry : FilterHook) → count ends (drop_calls entry) ≡ (if held entry then 1 else 0)
  pub starting : (count starts start_calls ≡ 0) × (count ends start_calls ≡ 0)
  pub stopping : (count starts stop_calls ≡ 0) × (count ends stop_calls ≡ 0)
  pub table_starts : Silent starts
  pub table_ends : Silent ends

unfoldable pub references : Handle → Pairing
unfolding table_calls
references f = record {
  starts = takes f;
  ends = releases f;
  held = λ entry. entry.filter == f;
  hook_starts = λ entry. omega arith;
  hook_ends = λ entry. refl;
  drop_starts = λ entry. refl;
  drop_ends = λ entry. omega arith;
  starting = (refl, refl);
  stopping = (refl, refl);
  table_starts = λ source. (refl, refl, refl, refl);
  table_ends = λ source. (refl, refl, refl, refl);
}

unfoldable pub connections : Handle → Handle → Pairing
unfolding table_calls
connections p f = record {
  starts = connects p f;
  ends = disconnects p f;
  held = is_entry p f;
  hook_starts = λ entry. omega arith;
  hook_ends = λ entry. refl;
  drop_starts = λ entry. refl;
  drop_ends = λ entry. omega arith;
  starting = (refl, refl);
  stopping = (refl, refl);
  table_starts = λ source. (refl, refl, refl, refl);
  table_ends = λ source. (refl, refl, refl, refl);
}

-- As many have begun as have ended or are hooked.
module _ (pair : Pairing) where
  unfoldable pub Balanced : Hooks → Type 0
  Balanced h = count pair.starts h.calls ≡ count pair.ends h.calls + count pair.held h.entries

  hook_filter-Balanced :
      (r : Reads) (parent filter : Handle) (h : Hooks)
      → Balanced h
      → Balanced (hook_filter r parent filter h)
  unfolding Balanced hook_filter
  hook_filter-Balanced r parent filter h b =
      let entry : FilterHook = record { parent = parent; filter = filter } in
      if_both Balanced (is_hooked parent filter h.entries) _ _ b (
        if_both Balanced (not (r.get_ref filter)) _ _ b (
          omega (
            arith,
            b,
            pair.hook_starts entry,
            pair.hook_ends entry,
            count-append pair.starts h.calls
                (take_ref filter ∷ connect filter enable_hook parent ∷ []),
            count-append pair.ends h.calls
                (take_ref filter ∷ connect filter enable_hook parent ∷ []),
            count-append pair.held h.entries (entry ∷ []),
          )))

  -- What a loop that drops entries leaves, and its calls.
  unfoldable pub Drops : List FilterHook → List FilterHook × List HookCall → Type 0
  Drops entries out =
      (count pair.starts out.1 ≡ 0)
      × (count pair.ends out.1 + count pair.held out.0 ≡ count pair.held entries)

  pub unhook_loop-Drops :
      (parent filter : Handle) (entries : List FilterHook)
      → Drops entries (unhook_loop parent filter entries)
  unfolding Drops unhook_loop
  unhook_loop-Drops parent filter [] = (refl, refl)
  unhook_loop-Drops parent filter (entry ∷ entries) =
      let (none_started, kept) = unhook_loop-Drops parent filter entries in
      if_both (Drops (entry ∷ entries)) (is_entry parent filter entry) _ _
        (pair.drop_starts entry, omega (arith, pair.drop_ends entry))
        (none_started, omega (arith, kept))

  pub unhook_parent_loop-Drops :
      (parent : Handle) (entries : List FilterHook)
      → Drops entries (unhook_parent_loop parent entries)
  unfolding Drops unhook_parent_loop
  unhook_parent_loop-Drops parent [] = (refl, refl)
  unhook_parent_loop-Drops parent (entry ∷ entries) =
      let (none_started, kept) = unhook_parent_loop-Drops parent entries in
      let calls = (unhook_parent_loop parent entries).1 in
      if_both (Drops (entry ∷ entries)) (entry.parent == parent) _ _
        (
          omega (
            arith,
            none_started,
            pair.drop_starts entry,
            count-append pair.starts calls (drop_calls entry),
          ),
          omega
              (arith, kept, pair.drop_ends entry, count-append pair.ends calls (drop_calls entry)),
        )
        (none_started, omega (arith, kept))

  drop-Balanced :
      (h : Hooks) (out : List FilterHook × List HookCall)
      → Balanced h
      → Drops h.entries out
      → Balanced (record { entries = out.0; calls = h.calls ++ out.1 })
  unfolding Balanced Drops
  drop-Balanced h out b (none_started, kept) = omega (
    arith,
    b,
    none_started,
    kept,
    count-append pair.starts h.calls out.1,
    count-append pair.ends h.calls out.1,
  )

  unhook_filter-Balanced :
      (parent filter : Handle) (h : Hooks) → Balanced h → Balanced (unhook_filter parent filter h)
  unfolding unhook_filter
  unhook_filter-Balanced parent filter h b =
      drop-Balanced h _ b (unhook_loop-Drops parent filter h.entries)

  unhook_filters_of_parent-Balanced :
      (parent : Handle) (h : Hooks) → Balanced h → Balanced (unhook_filters_of_parent parent h)
  unfolding unhook_filters_of_parent
  unhook_filters_of_parent-Balanced parent h b =
      drop-Balanced h _ b (unhook_parent_loop-Drops parent h.entries)

  silent_calls-Balanced :
      (calls : List HookCall) (h : Hooks)
      → Balanced h
      → count pair.starts calls ≡ 0
      → count pair.ends calls ≡ 0
      → Balanced (record h { calls = h.calls ++ calls })
  unfolding Balanced
  silent_calls-Balanced calls h b quiet silent = omega (
    arith,
    b,
    quiet,
    silent,
    count-append pair.starts h.calls calls,
    count-append pair.ends h.calls calls,
  )

  connect_hook_table-Balanced :
      (source : Handle) (hooks : List SignalHook) (connecting : Bool) (h : Hooks)
      → Balanced h
      → count pair.starts (table_calls source hooks connecting) ≡ 0
      → count pair.ends (table_calls source hooks connecting) ≡ 0
      → Balanced (connect_hook_table source hooks connecting h)
  unfolding connect_hook_table
  connect_hook_table-Balanced source hooks connecting h =
      silent_calls-Balanced (table_calls source hooks connecting) h

  pub Balanced-IsKept : IsKept Balanced
  Balanced-IsKept = record {
    hook = hook_filter-Balanced;
    unhook = unhook_filter-Balanced;
    unhook_parent = unhook_filters_of_parent-Balanced;
    tables = λ source connecting h b. tables source h b connecting;
    starting = λ h b. silent_calls-Balanced start_calls h b pair.starting.0 pair.starting.1;
    stopping = λ h b. silent_calls-Balanced stop_calls h b pair.stopping.0 pair.stopping.1;
  }
    where
      tables :
          (source : Handle) (h : Hooks)
          → Balanced h
          → (connecting : Bool)
          → Balanced (connect_hook_table source input_hooks connecting h)
            × Balanced (connect_hook_table source scene_hooks connecting h)
      tables source h b true =
          let (s, _, t, _) = pair.table_starts source in
          let (e, _, f, _) = pair.table_ends source in
          (
            connect_hook_table-Balanced source input_hooks true h b s e,
            connect_hook_table-Balanced source scene_hooks true h b t f,
          )
      tables source h b false =
          let (_, s, _, t) = pair.table_starts source in
          let (_, e, _, f) = pair.table_ends source in
          (
            connect_hook_table-Balanced source input_hooks false h b s e,
            connect_hook_table-Balanced source scene_hooks false h b t f,
          )
