-- ===== src/Controls/Sources.antt =====
-- Scenes, transitions, and the sources' mute, volume and media playback.
use obs_osc.Base.{
  ℕ, zero, suc, Bool, true, false, not, List, [], ◌∷◌, Option, none, some, ◌==◌, if◌then◌else◌,
  is_empty, Bytes, str_eq,
}
use obs_osc.Base.Int.{ℤ, pos, negsuc}
use obs_osc.Net.{Endpoint}
use obs_osc.Message.Types.{osc_int}
use obs_osc.Addresses.Names.{
  MediaAction, play, pause, toggle, stop, restart, next, prev, media_verbs,
}
use obs_osc.Addresses.Routes.{mute_for, media_state_for}
use obs_osc.Util.Visit.{osc_source_of_type, osc_visit_sources, input_kind}
use obs_osc.Obs.Actions.{
  Handle, set_current_scene, set_current_preview_scene, set_current_transition, set_muted,
  set_volume, media_play_pause, media_stop, media_restart, media_next, media_previous,
}
use obs_osc.Obs.Readings.{input, scene, Reads, Env, Ui, request, reads}
use obs_osc.Objects.Items.{reply, osc_bool, target}

module _ (env : Env) where
  -- `get_input_by_name` and `get_scene_by_name`
  abbrev pub get_input_by_name : Ui → Bytes → Option Handle
  get_input_by_name u name = osc_source_of_type (reads env u) name input

  abbrev pub get_scene_by_name : Ui → Bytes → Option Handle
  get_scene_by_name u name = osc_source_of_type (reads env u) name scene

  unfoldable pub switch_program_scene : Bytes → Ui → Ui
  unfolding osc_source_of_type
  switch_program_scene name u = elim (get_scene_by_name u name) [
    | none ↦ u
    | some source ↦ request (set_current_scene source) u
  ]

  -- `scene_index_enum` counts from 1; `found_name` is empty where nothing is found.
  unfoldable pub nth_scene_name : Reads → ℕ → List Handle → Bytes
  nth_scene_name r want [] = []
  nth_scene_name r zero (s ∷ scenes) = []
  nth_scene_name r (suc zero) (s ∷ scenes) = r.source_name s
  nth_scene_name r (suc (suc want)) (s ∷ scenes) = nth_scene_name r (suc want) scenes

  unfoldable pub switch_program_scene_index : ℤ → Ui → Ui
  unfolding nth_scene_name switch_program_scene
  switch_program_scene_index (negsuc _) u = u
  switch_program_scene_index (pos index) u =
      let found_name = nth_scene_name (reads env u) index (reads env u).scenes in
      if not (is_empty found_name) then switch_program_scene found_name u else u

  unfoldable pub switch_preview_scene : Bytes → Ui → Ui
  unfolding osc_source_of_type
  switch_preview_scene name u = elim (get_scene_by_name u name) [
    | none ↦ u
    | some source ↦ request (set_current_preview_scene source) u
  ]

  -- `transition_enum_cb` under `osc_enum_transitions`: the first of that name.
  unfoldable pub find_transition : Reads → Bytes → List Handle → Option Handle
  find_transition r want [] = none
  find_transition r want (t ∷ transitions) =
      if str_eq (r.source_name t) want then some t else find_transition r want transitions

  unfoldable pub select_transition : Bytes → Ui → Ui
  unfolding find_transition
  select_transition name u = elim (find_transition (reads env u) name (reads env u).transitions) [
    | none ↦ u
    | some found ↦ request (set_current_transition found) u
  ]

  unfoldable pub mute_visit : Option Bool → Handle → Ui → Ui × Bool
  mute_visit value source u =
      (request (set_muted source (target value ((reads env u).muted source))) u, true)

  unfoldable pub mute_inputs : Bytes → Option Bool → Ui → Ui
  unfolding mute_visit osc_visit_sources
  mute_inputs pattern value = osc_visit_sources (reads env) pattern input_kind (mute_visit value)

  unfoldable pub set_input_volume : Bytes → ℕ → Ui → Ui
  unfolding osc_source_of_type
  set_input_volume name multiplier u = elim (get_input_by_name u name) [
    | none ↦ u
    | some source ↦ request (set_volume source multiplier) u
  ]

  unfoldable pub run_media : MediaAction → Handle → Ui → Ui
  run_media play source u = request (media_play_pause source false) u
  run_media pause source u = request (media_play_pause source true) u
  run_media toggle source u =
      request
        (media_play_pause source ((reads env u).media_state source == env.media_state_playing)) u
  run_media stop source u = request (media_stop source) u
  run_media restart source u = request (media_restart source) u
  run_media next source u = request (media_next source) u
  run_media prev source u = request (media_previous source) u

  unfoldable pub find_verb : Bytes → List (Bytes × MediaAction) → Option MediaAction
  find_verb verb [] = none
  find_verb verb ((name, action) ∷ verbs) =
      if str_eq verb name then some action else find_verb verb verbs

  unfoldable pub media_command : Bytes → Bytes → Ui → Ui
  unfolding osc_source_of_type find_verb run_media
  media_command name verb u = elim (get_input_by_name u name) [
    | none ↦ u
    | some source ↦ elim (find_verb verb media_verbs) [
      | none ↦ u
      | some action ↦ run_media action source u
    ]
  ]

  unfoldable pub poll_mute_visit : Endpoint → Handle → Ui → Ui × Bool
  unfolding reply
  poll_mute_visit to source u =
      let r = reads env u in
      (reply to (mute_for (r.source_name source)) (osc_bool (r.muted source)) u, true)

  unfoldable pub poll_mute_inputs : Endpoint → Bytes → Ui → Ui
  unfolding poll_mute_visit osc_visit_sources
  poll_mute_inputs to pattern =
      osc_visit_sources (reads env) pattern input_kind (poll_mute_visit to)

  unfoldable pub poll_media_state : Endpoint → Bytes → Ui → Ui
  unfolding osc_source_of_type reply
  poll_media_state to name u = elim (get_input_by_name u name) [
    | none ↦ u
    | some source ↦
        reply to (media_state_for name) (osc_int ((reads env u).media_state source) ∷ []) u
  ]
