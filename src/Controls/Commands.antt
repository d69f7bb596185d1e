-- ===== src/Controls/Commands.antt =====
-- Predicates that requests keep, through `run_command`.
use obs_osc.Base.{ℕ, Bool, not, ◌&&◌, Option, if_both, Option_both, Bytes, str_eq, is_empty}
use obs_osc.Base.Int.{ℤ, pos, negsuc}
use obs_osc.Message.Types.{OscMessage}
use obs_osc.Addresses.Names
use obs_osc.Addresses.Names.{
  outputs, OutputId, MediaAction, play, pause, toggle, stop, restart, next, prev, media_verbs,
  sub_save, sub_pause,
}
use obs_osc.Util.Visit.{input_kind}
use obs_osc.Util.Visiting.{osc_visit_sources-Keeps}
use obs_osc.Obs.Actions.{Handle, trigger_transition, set_current_scene_collection}
use obs_osc.Obs.Readings.{Env, Ui, request, reads}
use obs_osc.Obs.Keeps.{Keeps, RequestKeeps}
use obs_osc.Objects.Items.{ItemProp, visible, locked}
use obs_osc.Objects.Writing.{
  set_item_flag-Keeps, set_item_order-Keeps, write_transform-Keeps, set_filter_enabled-Keeps,
  write_filter_param-Keeps, trigger_hotkey-Keeps,
}
use obs_osc.Controls.Branch.{done, refused, miss, split_else}
use obs_osc.Controls.Chains.{
  Answers, Answers-orelse, Answers-exactly, Answers-under, Answers-under_output, split_else_both,
}
use obs_osc.Controls.Outputs.{can_save, can_pause, drive, run_output_command}
use obs_osc.Controls.Sources.{
  get_input_by_name, get_scene_by_name, switch_program_scene, nth_scene_name,
  switch_program_scene_index, switch_preview_scene, find_transition, select_transition, mute_visit,
  mute_inputs, set_input_volume, run_media, find_verb, media_command,
}
use obs_osc.Controls.Poll.{Poll}
use obs_osc.Controls.Dispatch.{
  stay, switch_value, set_studio, dispatch_scenes, dispatch_sources, flag_command, filter_command,
  transform_command, dispatch_objects, command_route, obeyed, run_command,
}

module _ (P : Ui → Type 0) (env : Env) (k : RequestKeeps P) where
  switch_program_scene-Keeps : (name : Bytes) → Keeps P (switch_program_scene env name)
  unfolding switch_program_scene
  switch_program_scene-Keeps name u h =
      Option_both P (get_scene_by_name env u name) _ _ h (λ s. k _ u h)

  switch_program_scene_index-Keeps : (index : ℤ) → Keeps P (switch_program_scene_index env index)
  unfolding switch_program_scene_index
  switch_program_scene_index-Keeps (negsuc n) u h = h
  switch_program_scene_index-Keeps (pos n) u h =
      let name = nth_scene_name env (reads env u) n (reads env u).scenes in
      if_both P (not (is_empty name)) _ _ (switch_program_scene-Keeps name u h) h

  switch_preview_scene-Keeps : (name : Bytes) → Keeps P (switch_preview_scene env name)
  unfolding switch_preview_scene
  switch_preview_scene-Keeps name u h =
      Option_both P (get_scene_by_name env u name) _ _ h (λ s. k _ u h)

  select_transition-Keeps : (name : Bytes) → Keeps P (select_transition env name)
  unfolding select_transition
  select_transition-Keeps name u h =
      Option_both P (find_transition env (reads env u) name (reads env u).transitions) _ _ h
        (λ t. k _ u h)

  mute_inputs-Keeps :
      (pattern : Bytes) (value : Option Bool) → Keeps P (mute_inputs env pattern value)
  unfolding mute_inputs mute_visit
  mute_inputs-Keeps pattern value =
      osc_visit_sources-Keeps P env pattern input_kind (mute_visit env value) (λ s u h. k _ u h)

  set_input_volume-Keeps :
      (name : Bytes) (multiplier : ℕ) → Keeps P (set_input_volume env name multiplier)
  unfolding set_input_volume
  set_input_volume-Keeps name multiplier u h =
      Option_both P (get_input_by_name env u name) _ _ h (λ s. k _ u h)

  run_media-Keeps : (action : MediaAction) (source : Handle) → Keeps P (run_media env action source)
  unfolding run_media
  run_media-Keeps play source u h = k _ u h
  run_media-Keeps pause source u h = k _ u h
  run_media-Keeps toggle source u h = k _ u h
  run_media-Keeps stop source u h = k _ u h
  run_media-Keeps restart source u h = k _ u h
  run_media-Keeps next source u h = k _ u h
  run_media-Keeps prev source u h = k _ u h

  media_command-Keeps : (name verb : Bytes) → Keeps P (media_command env name verb)
  unfolding media_command
  media_command-Keeps name verb u h = Option_both P (get_input_by_name env u name) _ _ h (λ s.
      Option_both P (find_verb env verb media_verbs) _ _ h (λ action. run_media-Keeps action s u h))

  drive-Keeps : (id : OutputId) (wanted is_active : Bool) → Keeps P (drive id wanted is_active)
  unfolding drive
  drive-Keeps id wanted is_active u h =
      if_both P (wanted && not is_active) _ _ (k _ u h)
        (if_both P (not wanted && is_active) _ _ (k _ u h) h)

  run_output_command-Keeps :
      (id : OutputId) (msg : OscMessage) (sub : Bytes) → Keeps P (run_output_command env id msg sub)
  unfolding run_output_command
  run_output_command-Keeps id msg sub u h =
      let active = (reads env u).output_active id in
      if_both P (can_save id && str_eq sub sub_save) _ _ (if_both P active _ _ (k _ u h) h) (
        if_both P (can_pause id && str_eq sub sub_pause) _ _ (k _ u h)
          (drive-Keeps id _ active u h))

  module _ (msg : OscMessage) where
    set_studio-Keeps : Keeps P (set_studio env msg)
    unfolding set_studio
    set_studio-Keeps u h = k _ u h

    dispatch_scenes-Answers : (a : Bytes) → Answers (Keeps P) (dispatch_scenes env msg a)
    unfolding dispatch_scenes
    dispatch_scenes-Answers a =
        let Q = Keeps P in
        Answers-orelse Q _ _ (Answers-exactly Q a Names.studio _ set_studio-Keeps) (
          Answers-orelse Q _ _ (Answers-exactly Q a Names.transition _ (k trigger_transition)) (
            Answers-orelse Q _ _
              (Answers-under Q a Names.transition_prefix _ (λ name.
                if_both Q (str_eq name Names.transition_go) _ _ (k trigger_transition)
                  (select_transition-Keeps name)))
              (Answers-orelse Q _ _
                (Answers-under Q a Names.program_index_prefix _
                  (λ index. switch_program_scene_index-Keeps (env.atoi index)))
                (Answers-orelse Q _ _
                  (Answers-under Q a Names.program_prefix _ switch_program_scene-Keeps)
                  (Answers-under Q a Names.preview_prefix
                    (λ name. done (switch_preview_scene env name)) switch_preview_scene-Keeps)))))

    dispatch_sources-Answers : (a : Bytes) → Answers (Keeps P) (dispatch_sources env msg a)
    unfolding dispatch_sources
    dispatch_sources-Answers a =
        let Q = Keeps P in
        Answers-orelse Q _ _
          (Answers-under_output Q a outputs (λ out sub. run_output_command env out.id msg sub)
            (λ out sub. run_output_command-Keeps out.id msg sub))
          (Answers-orelse Q _ _ (Answers-exactly Q a Names.screenshot _ (k _)) (
            Answers-orelse Q _ _
              (Answers-under Q a Names.mute_prefix _ (λ p. mute_inputs-Keeps p (switch_value msg)))
              (Answers-orelse Q _ _
                (Answers-under Q a Names.volume_prefix _ (λ n. set_input_volume-Keeps n _))
                (Answers-orelse Q _ _
                  (Answers-under Q a Names.db_prefix _ (λ n. set_input_volume-Keeps n _))
                  (Answers-under Q a Names.media_prefix
                    (λ rest. done (split_else rest stay (λ name verb. media_command env name verb)))
                    (λ rest. split_else_both Q rest _ _ (λ u h. h) media_command-Keeps))))))

    flag_command-Keeps : (prop : ItemProp) (rest : Bytes) → Keeps P (flag_command env msg prop rest)
    flag_command-Keeps prop rest =
        split_else_both (Keeps P) rest _ _ (λ u h. h)
          (λ scene item. set_item_flag-Keeps P env k scene item prop (switch_value msg))

    filter_command-Keeps : (rest : Bytes) → Keeps P (filter_command env msg rest)
    unfolding filter_command
    filter_command-Keeps rest =
        split_else_both (Keeps P) rest _ _ (λ u h. h)
          (λ source rest2.
            split_else_both (Keeps P) rest2 _ _
              (set_filter_enabled-Keeps P env k source rest2 (switch_value msg))
              (λ selector param. write_filter_param-Keeps P env k msg source selector param))

    transform_command-Keeps : (rest : Bytes) → Keeps P (transform_command env msg rest)
    unfolding transform_command
    transform_command-Keeps rest =
        split_else_both (Keeps P) rest _ _ (λ u h. h)
          (λ scene remainder.
            split_else_both (Keeps P) remainder _ _ (λ u h. h)
              (λ item field. write_transform-Keeps P env k scene item field _))

    dispatch_objects-Answers : (a : Bytes) → Answers (Keeps P) (dispatch_objects env msg a)
    unfolding dispatch_objects
    dispatch_objects-Answers a =
        let Q = Keeps P in
        Answers-orelse Q _ _ (Answers-under Q a Names.visible_prefix _ (flag_command-Keeps visible))
          (Answers-orelse Q _ _
            (Answers-under Q a Names.locked_prefix _ (flag_command-Keeps locked))
            (Answers-orelse Q _ _
              (Answers-under Q a Names.order_prefix _ (λ rest.
                split_else_both Q rest _ _ (λ u h. h)
                  (λ scene item. set_item_order-Keeps P env k scene item _)))
              (Answers-orelse Q _ _ (Answers-under Q a Names.filter_prefix _ filter_command-Keeps) (
                Answers-orelse Q _ _
                  (Answers-under Q a Names.transform_prefix _ transform_command-Keeps)
                  (Answers-orelse Q _ _
                    (Answers-under Q a Names.hotkey_prefix _ (trigger_hotkey-Keeps P env k))
                    (Answers-orelse Q _ _ (Answers-under Q a Names.profile_prefix _ (λ name. k _)) (
                      Answers-under Q a Names.collection_prefix
                        (λ name. done (request (set_current_scene_collection name)))
                        (λ name. k _))))))))

    obeyed-Keeps : (b : Poll) → Answers (Keeps P) b → Keeps P (obeyed env msg b)
    obeyed-Keeps (done act) h u p = h u p
    obeyed-Keeps refused h u p = p
    obeyed-Keeps miss h u p = p

    pub run_command-Keeps : Keeps P (run_command env msg)
    unfolding run_command command_route
    run_command-Keeps =
        let Q = Keeps P in
        obeyed-Keeps (command_route env msg msg.address) (
          Answers-orelse Q (dispatch_scenes env msg msg.address) _
            (dispatch_scenes-Answers msg.address)
            (Answers-orelse Q (dispatch_sources env msg msg.address)
              (dispatch_objects env msg msg.address) (dispatch_sources-Answers msg.address)
              (dispatch_objects-Answers msg.address)))
