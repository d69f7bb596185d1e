-- ===== src/Feedback/Balance.antt =====
-- The filter hooks of src/osc-feedback.cpp through a history of signals.
use obs_osc.Base.{
  ◌+◌, ◌≤◌, true, false, not, List, [], ◌∷◌, ◌++◌, ◌==◌, ◌≡◌, refl, subst, ◌⊎◌, inl, inr,
  Bool-cases, if_both, arith,
}
use obs_osc.Feedback.Histories.{HookSignal, unhooked, run_signals, IsKept, run_signals-Keeps}
use obs_osc.Obs.Actions.{Handle}
use obs_osc.Obs.Readings.{Reads}
use obs_osc.Feedback.Hooks.{
  FilterHook, Hooks, is_entry, is_hooked, hook_filter, unhook_filter, unhook_filters_of_parent,
  connect_hook_table,
}
use obs_osc.Base.Counts.{count, count-append}
use obs_osc.Feedback.Pairing.{
  connects, disconnects, takes, releases, references, connections, Balanced, Drops,
  unhook_loop-Drops, unhook_parent_loop-Drops, Balanced-IsKept,
}

-- No hook is there twice.
Single : Hooks → Type 0
Single h = (parent filter : Handle) → count (is_entry parent filter) h.entries ≤ 1

count-is_hooked :
    (parent filter : Handle) (entries : List FilterHook)
    → is_hooked parent filter entries ≡ false
    → count (is_entry parent filter) entries ≡ 0
unfolding is_hooked
count-is_hooked parent filter [] h = refl
count-is_hooked parent filter (entry ∷ entries) h =
    ground (arith, h, count-is_hooked parent filter entries)

hook_filter-Single :
    (r : Reads) (parent filter : Handle) (h : Hooks)
    → Single h
    → Single (hook_filter r parent filter h)
unfolding hook_filter Single
hook_filter-Single r parent filter h b = elim (Bool-cases (is_hooked parent filter h.entries)) [
  | inl e ↦ rw e b
  | inr e ↦ rw e (
      if_both Single (not (r.get_ref filter)) _ _ b
        (λ p f. added p f (Bool-cases (is_entry p f entry)) e))
]
  where
    entry : FilterHook
    entry = record { parent = parent; filter = filter }

    added :
        (p f : Handle)
        → (is_entry p f entry ≡ true) ⊎ (is_entry p f entry ≡ false)
        → is_hooked parent filter h.entries ≡ false
        → count (is_entry p f) (h.entries ++ (entry ∷ [])) ≤ 1
    added p f (inl same) e =
        let (pp, ff) : (parent ≡ p) × (filter ≡ f) = ground (arith, same) in
        let one : count (is_entry p f) (entry ∷ []) ≡ 1 = rw same refl in
        omega (
          arith,
          one,
          count-append (is_entry p f) h.entries (entry ∷ []),
          subst (λ q. count (is_entry q f) h.entries ≡ 0) pp
              (subst (λ g. count (is_entry parent g) h.entries ≡ 0) ff
                (count-is_hooked parent filter h.entries e)),
        )
    added p f (inr other) e =
        let alone : count (is_entry p f) (entry ∷ []) ≡ 0 = rw other refl in
        omega (arith, alone, b p f, count-append (is_entry p f) h.entries (entry ∷ []))

Single-IsKept : IsKept Single
unfolding Single unhook_filter unhook_filters_of_parent Drops connections connect_hook_table
Single-IsKept = record {
  hook = hook_filter-Single;
  unhook = λ parent filter h b p f.
      omega (arith, b p f, (unhook_loop-Drops (connections p f) parent filter h.entries).1);
  unhook_parent = λ parent h b p f.
      omega (arith, b p f, (unhook_parent_loop-Drops (connections p f) parent h.entries).1);
  tables = λ source connecting h b. (b, b);
  starting = λ h b. b;
  stopping = λ h b. b;
}

-- Whatever signals come, from the start of the plugin: a filter has been taken as often as it has
-- been released, and once more for each parent it is hooked for; the "enable" callback of a parent
-- has been connected to a filter as often as it has been disconnected, and once more while the pair
-- is hooked; and no pair is hooked twice.
pub run-IsBalanced :
    (signals : List HookSignal) (parent filter : Handle)
    → (count (takes filter) (run_signals signals unhooked).calls
        ≡ count (releases filter) (run_signals signals unhooked).calls
          + count (λ entry. entry.filter == filter) (run_signals signals unhooked).entries)
      × (count (connects parent filter) (run_signals signals unhooked).calls
          ≡ count (disconnects parent filter) (run_signals signals unhooked).calls
            + count (is_entry parent filter) (run_signals signals unhooked).entries)
      × (count (is_entry parent filter) (run_signals signals unhooked).entries ≤ 1)
unfolding Balanced Single references connections
run-IsBalanced signals parent filter = (
  run_signals-Keeps (Balanced-IsKept (references filter)) signals unhooked refl,
  run_signals-Keeps (Balanced-IsKept (connections parent filter)) signals unhooked refl,
  run_signals-Keeps Single-IsKept signals unhooked (λ p f. omega arith) parent filter,
)
