-- ===== src/Feedback/Hooks.antt =====
-- The connections that src/osc-feedback.cpp makes to the signals of sources and of their filters,
-- from `osc_feedback_init` to `osc_feedback_shutdown`.
use obs_osc.Base.{
  Bool, true, false, not, ◌&&◌, ◌||◌, List, [], ◌∷◌, ◌++◌, Option, none, some, ◌==◌, if◌then◌else◌,
  Bytes, codes,
}
use obs_osc.Obs.Actions.{Handle}
use obs_osc.Obs.Readings.{Reads, scene, type_eq}
use obs_osc.Util.Visit.{osc_is_input}

-- The functions that are connected, named without their `_signal_cb`.
pub data Callback : Type 0 where
  mute volume media activate deactivate show hide filter_add filter_remove : Callback
  item_visible item_locked scene_reorder item_transform filter_enable : Callback

pub record SignalHook : Type 0 where
  pub signal : Bytes
  pub callback : Callback

-- `filter_hook_entry`
pub record FilterHook : Type 0 where
  pub parent : Handle
  pub filter : Handle

-- The calls of libobs; a connection has the signal handler of a source, a hook and its `param`.
pub data HookCall : Type 0 where
  connect disconnect : Handle → SignalHook → Handle → HookCall
  take_ref release : Handle → HookCall
  connect_global disconnect_global : Bytes → HookCall
  add_event_callback remove_event_callback : HookCall

-- `s_filter_hooks`, and the calls made so far.
pub record Hooks : Type 0 where
  pub entries : List FilterHook
  pub calls : List HookCall

abbrev pub enable_hook : SignalHook
enable_hook = record { signal = codes "enable"; callback = filter_enable }

abbrev pub is_entry : Handle → Handle → FilterHook → Bool
is_entry parent filter entry = entry.parent == parent && entry.filter == filter

unfoldable pub is_hooked : Handle → Handle → List FilterHook → Bool
is_hooked parent filter [] = false
is_hooked parent filter (entry ∷ entries) =
    is_entry parent filter entry || is_hooked parent filter entries

-- `hook_filter` with a filter that is not null; `r.get_ref` says whether it can still be held.
unfoldable pub hook_filter : Reads → Handle → Handle → Hooks → Hooks
unfolding is_hooked
hook_filter r parent filter h =
    if is_hooked parent filter h.entries then h else if not (r.get_ref filter) then h else record {
      entries = h.entries ++ (record { parent = parent; filter = filter } ∷ []);
      calls = h.calls ++ (take_ref filter ∷ connect filter enable_hook parent ∷ []);
    }

-- The calls of `drop_hook_at`.
abbrev pub drop_calls : FilterHook → List HookCall
drop_calls entry = disconnect entry.filter enable_hook entry.parent ∷ release entry.filter ∷ []

-- The loop of `unhook_filter`: what stays, and the calls.
unfoldable pub unhook_loop : Handle → Handle → List FilterHook → List FilterHook × List HookCall
unhook_loop parent filter [] = ([], [])
unhook_loop parent filter (entry ∷ entries) =
    let (left, calls) = unhook_loop parent filter entries in
    if is_entry parent filter entry then (entries, drop_calls entry) else (entry ∷ left, calls)

unfoldable pub unhook_filter : Handle → Handle → Hooks → Hooks
unfolding unhook_loop
unhook_filter parent filter h =
    let (left, calls) = unhook_loop parent filter h.entries in
    record { entries = left; calls = h.calls ++ calls }

-- The loop of `unhook_filters_of_parent`, which runs from the last entry to the first.
unfoldable pub unhook_parent_loop : Handle → List FilterHook → List FilterHook × List HookCall
unhook_parent_loop parent [] = ([], [])
unhook_parent_loop parent (entry ∷ entries) =
    let (left, calls) = unhook_parent_loop parent entries in
    if entry.parent == parent then (left, calls ++ drop_calls entry) else (entry ∷ left, calls)

unfoldable pub unhook_filters_of_parent : Handle → Hooks → Hooks
unfolding unhook_parent_loop
unhook_filters_of_parent parent h =
    let (left, calls) = unhook_parent_loop parent h.entries in
    record { entries = left; calls = h.calls ++ calls }

unfoldable pub filter_add_signal_cb : Reads → Handle → Option Handle → Hooks → Hooks
unfolding hook_filter
filter_add_signal_cb r parent none h = h
filter_add_signal_cb r parent (some filter) h = hook_filter r parent filter h

unfoldable pub filter_remove_signal_cb : Handle → Option Handle → Hooks → Hooks
unfolding unhook_filter
filter_remove_signal_cb parent none h = h
filter_remove_signal_cb parent (some filter) h = unhook_filter parent filter h

unfoldable pub hook_each : Reads → Handle → List Handle → Hooks → Hooks
unfolding hook_filter
hook_each r source [] h = h
hook_each r source (filter ∷ filters) h = hook_each r source filters (hook_filter r source filter h)

unfoldable pub hook_existing_filters : Reads → Handle → Hooks → Hooks
unfolding hook_each
hook_existing_filters r source = hook_each r source (r.filters source)

abbrev pub osc_is_scene : Reads → Handle → Bool
osc_is_scene r source = type_eq (r.source_type source) scene

abbrev pub hook_of : Bytes → Callback → SignalHook
hook_of signal callback = record { signal = signal; callback = callback }

abbrev pub input_hooks : List SignalHook
input_hooks =
    hook_of (codes "mute") mute
    ∷ hook_of (codes "volume") volume
    ∷ hook_of (codes "media_play") media
    ∷ hook_of (codes "media_pause") media
    ∷ hook_of (codes "media_restart") media
    ∷ hook_of (codes "media_stopped") media
    ∷ hook_of (codes "media_next") media
    ∷ hook_of (codes "media_previous") media
    ∷ hook_of (codes "activate") activate
    ∷ hook_of (codes "deactivate") deactivate
    ∷ hook_of (codes "show") show
    ∷ hook_of (codes "hide") hide
    ∷ hook_of (codes "filter_add") filter_add
    ∷ hook_of (codes "filter_remove") filter_remove
    ∷ []

abbrev pub scene_hooks : List SignalHook
scene_hooks =
    hook_of (codes "item_visible") item_visible
    ∷ hook_of (codes "item_locked") item_locked
    ∷ hook_of (codes "reorder") scene_reorder
    ∷ hook_of (codes "item_transform") item_transform
    ∷ []

unfoldable pub table_calls : Handle → List SignalHook → Bool → List HookCall
table_calls source [] connecting = []
table_calls source (hook ∷ hooks) connecting =
    (if connecting then connect source hook source else disconnect source hook source)
    ∷ table_calls source hooks connecting

unfoldable pub connect_hook_table : Handle → List SignalHook → Bool → Hooks → Hooks
unfolding table_calls
connect_hook_table source hooks connecting h = record h {
  calls = h.calls ++ table_calls source hooks connecting;
}

-- The last statement of `change_hook_connections`.
unfoldable pub change_filter_hooks : Reads → Handle → Bool → Hooks → Hooks
unfolding hook_existing_filters unhook_filters_of_parent
change_filter_hooks r source connecting h =
    if connecting then hook_existing_filters r source h else unhook_filters_of_parent source h

unfoldable pub change_hook_connections : Reads → Handle → Bool → Hooks → Hooks
unfolding osc_is_input connect_hook_table change_filter_hooks
change_hook_connections r source connecting h =
    if osc_is_input r source
    then change_filter_hooks r source connecting
        (connect_hook_table source input_hooks connecting h)
    else if osc_is_scene r source
    then change_filter_hooks r source connecting
        (connect_hook_table source scene_hooks connecting h)
    else h

unfoldable pub source_create_cb : Reads → Option Handle → Hooks → Hooks
unfolding change_hook_connections
source_create_cb r none h = h
source_create_cb r (some source) h = change_hook_connections r source true h

unfoldable pub source_destroy_cb : Reads → Option Handle → Hooks → Hooks
unfolding change_hook_connections
source_destroy_cb r none h = h
source_destroy_cb r (some source) h = change_hook_connections r source false h

-- `obs_enum_sources` with `enum_connect_cb` or `enum_disconnect_cb`.
unfoldable pub change_each : Reads → Bool → List Handle → Hooks → Hooks
unfolding change_hook_connections
change_each r connecting [] h = h
change_each r connecting (source ∷ sources) h =
    change_each r connecting sources (change_hook_connections r source connecting h)

-- The connections to libobs' own signal handler and to the frontend.
abbrev pub start_calls : List HookCall
start_calls =
    connect_global (codes "source_create")
    ∷ connect_global (codes "source_destroy")
    ∷ add_event_callback
    ∷ []

abbrev pub stop_calls : List HookCall
stop_calls =
    remove_event_callback
    ∷ disconnect_global (codes "source_create")
    ∷ disconnect_global (codes "source_destroy")
    ∷ []

unfoldable pub osc_feedback_init : Reads → Hooks → Hooks
unfolding change_each
osc_feedback_init r h =
    let connected = change_each r true r.sources h in
    record connected { calls = connected.calls ++ start_calls }

unfoldable pub osc_feedback_shutdown : Reads → Hooks → Hooks
unfolding change_each
osc_feedback_shutdown r h =
    change_each r false r.sources (record h { calls = h.calls ++ stop_calls })
