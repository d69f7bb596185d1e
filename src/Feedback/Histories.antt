-- ===== src/Feedback/Histories.antt =====
-- Histories of the signals that connect and disconnect the hooks of src/osc-feedback.cpp, and what
-- holds through each of them.
use obs_osc.Base.{Bool, true, false, List, [], ◌∷◌, ◌++◌, Option, none, some, if_both}
use obs_osc.Obs.Actions.{Handle}
use obs_osc.Obs.Readings.{Reads}
use obs_osc.Util.Visit.{osc_is_input}
use obs_osc.Feedback.Hooks.{
  Hooks, hook_filter, unhook_filter, unhook_filters_of_parent, filter_add_signal_cb,
  filter_remove_signal_cb, hook_each, hook_existing_filters, input_hooks, scene_hooks,
  connect_hook_table, change_filter_hooks, change_hook_connections, source_create_cb,
  source_destroy_cb, change_each, osc_feedback_init, osc_feedback_shutdown, osc_is_scene,
  start_calls, stop_calls,
}

-- A signal, with what OBS answers while it is handled.
pub data HookSignal : Type 0 where
  initialised shut_down : Reads → HookSignal
  created destroyed : Reads → Option Handle → HookSignal
  filter_added : Reads → Handle → Option Handle → HookSignal
  filter_removed : Handle → Option Handle → HookSignal

abbrev pub unhooked : Hooks
unhooked = record { entries = []; calls = [] }

unfoldable pub handle_signal : HookSignal → Hooks → Hooks
unfolding osc_feedback_init osc_feedback_shutdown source_create_cb source_destroy_cb
    filter_add_signal_cb filter_remove_signal_cb
handle_signal (initialised r) = osc_feedback_init r
handle_signal (shut_down r) = osc_feedback_shutdown r
handle_signal (created r source) = source_create_cb r source
handle_signal (destroyed r source) = source_destroy_cb r source
handle_signal (filter_added r parent filter) = filter_add_signal_cb r parent filter
handle_signal (filter_removed parent filter) = filter_remove_signal_cb parent filter

unfoldable pub run_signals : List HookSignal → Hooks → Hooks
unfolding handle_signal
run_signals [] h = h
run_signals (signal ∷ signals) h = run_signals signals (handle_signal signal h)

-- The steps that all operations are made of keep `P`.
pub record IsKept (P : Hooks → Type 0) : Type 0 where
  pub hook :
      (r : Reads) (parent filter : Handle) (h : Hooks) → P h → P (hook_filter r parent filter h)
  pub unhook : (parent filter : Handle) (h : Hooks) → P h → P (unhook_filter parent filter h)
  pub unhook_parent : (parent : Handle) (h : Hooks) → P h → P (unhook_filters_of_parent parent h)
  pub tables :
      (source : Handle) (connecting : Bool) (h : Hooks)
      → P h
      → P (connect_hook_table source input_hooks connecting h)
        × P (connect_hook_table source scene_hooks connecting h)
  pub starting : (h : Hooks) → P h → P (record h { calls = h.calls ++ start_calls })
  pub stopping : (h : Hooks) → P h → P (record h { calls = h.calls ++ stop_calls })

module _ {P : Hooks → Type 0} (kept : IsKept P) where
  hook_each-Keeps :
      (r : Reads) (source : Handle) (filters : List Handle) (h : Hooks)
      → P h
      → P (hook_each r source filters h)
  unfolding hook_each
  hook_each-Keeps r source [] h p = p
  hook_each-Keeps r source (filter ∷ filters) h p =
      hook_each-Keeps r source filters _ (kept.hook r source filter h p)

  change_filter_hooks-Keeps :
      (r : Reads) (source : Handle) (connecting : Bool) (h : Hooks)
      → P h
      → P (change_filter_hooks r source connecting h)
  unfolding change_filter_hooks hook_existing_filters
  change_filter_hooks-Keeps r source connecting h p =
      if_both P connecting _ _ (hook_each-Keeps r source (r.filters source) h p)
        (kept.unhook_parent source h p)

  change_hook_connections-Keeps :
      (r : Reads) (source : Handle) (connecting : Bool) (h : Hooks)
      → P h
      → P (change_hook_connections r source connecting h)
  unfolding change_hook_connections
  change_hook_connections-Keeps r source connecting h p =
      let (inputs, scenes) = kept.tables source connecting h p in
      if_both P (osc_is_input r source) _ _ (change_filter_hooks-Keeps r source connecting _ inputs)
        (if_both P (osc_is_scene r source) _ _
          (change_filter_hooks-Keeps r source connecting _ scenes) p)

  change_each-Keeps :
      (r : Reads) (connecting : Bool) (sources : List Handle) (h : Hooks)
      → P h
      → P (change_each r connecting sources h)
  unfolding change_each
  change_each-Keeps r connecting [] h p = p
  change_each-Keeps r connecting (source ∷ sources) h p =
      change_each-Keeps r connecting sources _
        (change_hook_connections-Keeps r source connecting h p)

  handle_signal-Keeps : (signal : HookSignal) (h : Hooks) → P h → P (handle_signal signal h)
  unfolding handle_signal osc_feedback_init osc_feedback_shutdown source_create_cb source_destroy_cb
      filter_add_signal_cb filter_remove_signal_cb
  handle_signal-Keeps (initialised r) h p = kept.starting _ (change_each-Keeps r true r.sources h p)
  handle_signal-Keeps (shut_down r) h p = change_each-Keeps r false r.sources _ (kept.stopping h p)
  handle_signal-Keeps (created r none) h p = p
  handle_signal-Keeps (created r (some source)) h p =
      change_hook_connections-Keeps r source true h p
  handle_signal-Keeps (destroyed r none) h p = p
  handle_signal-Keeps (destroyed r (some source)) h p =
      change_hook_connections-Keeps r source false h p
  handle_signal-Keeps (filter_added r parent none) h p = p
  handle_signal-Keeps (filter_added r parent (some filter)) h p = kept.hook r parent filter h p
  handle_signal-Keeps (filter_removed parent none) h p = p
  handle_signal-Keeps (filter_removed parent (some filter)) h p = kept.unhook parent filter h p

  pub run_signals-Keeps : (signals : List HookSignal) (h : Hooks) → P h → P (run_signals signals h)
  unfolding run_signals
  run_signals-Keeps [] h p = p
  run_signals-Keeps (signal ∷ signals) h p =
      run_signals-Keeps signals _ (handle_signal-Keeps signal h p)
