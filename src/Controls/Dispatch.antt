-- ===== src/Controls/Dispatch.antt =====
-- `osc_dispatch_command`, and the way of a datagram to it.
use obs_osc.Base.{
  ℕ, ◌^◌, ◌-◌, Bool, false, not, ◌||◌, List, [], ◌∷◌, Option, none, some, if◌then◌else◌, is_empty,
  Bytes, str_eq,
}
use obs_osc.Base.Run.{Run, ok}
use obs_osc.Net.{Endpoint}
use obs_osc.Message.Types.{OscMessage}
use obs_osc.Message.Access.{arg_bool, arg_int, arg_float, arg_is_toggle}
use obs_osc.Message.Parse.{osc_parse_packet}
use obs_osc.Addresses.Names
use obs_osc.Addresses.Names.{outputs}
use obs_osc.Addresses.Routes.{has_prefix}
use obs_osc.Subscribe.Registry.{Registry}
use obs_osc.Subscribe.Fanout.{osc_handle_subscription}
use obs_osc.Util.Fields.{float_0, osc_volume_multiplier}
use obs_osc.Obs.Actions.{
  set_preview_program_mode, trigger_transition, take_screenshot, set_current_profile,
  set_current_scene_collection,
}
use obs_osc.Obs.Readings.{Env, Ui, request, reads}
use obs_osc.Objects.Items.{
  visible, locked, ItemProp, set_item_flag, set_item_order, write_transform,
}
use obs_osc.Objects.Filters.{set_filter_enabled}
use obs_osc.Objects.Params.{write_filter_param}
use obs_osc.Objects.Misc.{trigger_hotkey}
use obs_osc.Controls.Branch.{
  done, refused, miss, ◌orelse◌, exactly, under, split_else, under_output,
}
use obs_osc.Controls.Outputs.{run_output_command}
use obs_osc.Controls.Sources.{
  switch_program_scene, switch_program_scene_index, switch_preview_scene, select_transition,
  mute_inputs, set_input_volume, media_command,
}
use obs_osc.Controls.Poll.{Poll, float_20, poll_dispatch}

-- The patterns of -1.0f and 10.0f.
abbrev pub float_minus_1 : ℕ
float_minus_1 = 0xbf80_0000

abbrev pub float_10 : ℕ
float_10 = 0x4120_0000

abbrev pub stay : Ui → Ui
stay u = u

-- What the routes with the toggle sentinel pass on: null for -1, else the value.
unfoldable pub switch_value : OscMessage → Option Bool
unfolding arg_is_toggle arg_bool
switch_value msg = if arg_is_toggle msg then none else some (arg_bool msg 0 false)

module _ (env : Env) (msg : OscMessage) where
  unfoldable pub set_studio : Ui → Ui
  unfolding arg_is_toggle arg_bool
  set_studio u =
      request
        (set_preview_program_mode (
          if arg_is_toggle msg
          then not (reads env u).preview_program_mode
          else arg_bool msg 0 false))
        u

  -- Studio mode, transitions and scenes.
  unfoldable pub dispatch_scenes : Bytes → Poll
  unfolding under set_studio select_transition switch_program_scene switch_program_scene_index
      switch_preview_scene
  dispatch_scenes a =
      exactly a Names.studio set_studio
      orelse exactly a Names.transition (request trigger_transition)
      orelse under a Names.transition_prefix (λ name. done (
          if str_eq name Names.transition_go
          then request trigger_transition
          else select_transition env name))
      orelse under a Names.program_index_prefix
          (λ index. done (switch_program_scene_index env (env.atoi index)))
      orelse under a Names.program_prefix (λ name. done (switch_program_scene env name))
      orelse under a Names.preview_prefix (λ name. done (switch_preview_scene env name))

  -- Outputs, screenshot, and the sources' mute, volume and media.
  unfoldable pub dispatch_sources : Bytes → Poll
  unfolding under under_output run_output_command switch_value mute_inputs set_input_volume
      osc_volume_multiplier arg_float split_else media_command
  dispatch_sources a =
      under_output a outputs (λ out sub. run_output_command env out.id msg sub)
      orelse exactly a Names.screenshot (request take_screenshot)
      orelse under a Names.mute_prefix
          (λ pattern. done (mute_inputs env pattern (switch_value msg)))
      orelse under a Names.volume_prefix (λ name. done (
          set_input_volume env name
            (osc_volume_multiplier env.floats (arg_float env.conv msg 0 float_minus_1))))
      orelse under a Names.db_prefix (λ name. done (
          set_input_volume env name (
            env.floats.pow float_10 (env.floats.over (arg_float env.conv msg 0 float_0) float_20))))
      orelse under a Names.media_prefix
          (λ rest. done (split_else rest stay (λ name verb. media_command env name verb)))

  abbrev pub flag_command : ItemProp → Bytes → Ui → Ui
  flag_command prop rest =
      split_else rest stay (λ scene item. set_item_flag env scene item prop (switch_value msg))

  unfoldable pub filter_command : Bytes → Ui → Ui
  unfolding split_else write_filter_param set_filter_enabled switch_value
  filter_command rest = split_else rest stay (λ source rest2.
      split_else rest2 (set_filter_enabled env source rest2 (switch_value msg))
        (λ selector param. write_filter_param env msg source selector param))

  unfoldable pub transform_command : Bytes → Ui → Ui
  unfolding split_else write_transform arg_float
  transform_command rest = split_else rest stay (λ scene remainder.
      split_else remainder stay (λ item field_name.
        write_transform env scene item field_name (arg_float env.conv msg 0 float_0)))

  -- Scene items, filters, hotkeys, profiles and scene collections.
  unfoldable pub dispatch_objects : Bytes → Poll
  unfolding under split_else set_item_flag switch_value set_item_order arg_int filter_command
      transform_command trigger_hotkey
  dispatch_objects a =
      under a Names.visible_prefix (λ rest. done (flag_command visible rest))
      orelse under a Names.locked_prefix (λ rest. done (flag_command locked rest))
      orelse under a Names.order_prefix (λ rest. done (
          split_else rest stay
            (λ scene item. set_item_order env scene item (arg_int env.conv msg 0 (2 ^ 32 - 1)))))
      orelse under a Names.filter_prefix (λ rest. done (filter_command rest))
      orelse under a Names.transform_prefix (λ rest. done (transform_command rest))
      orelse under a Names.hotkey_prefix (λ name. done (trigger_hotkey env name))
      orelse under a Names.profile_prefix (λ name. done (request (set_current_profile name)))
      orelse under a Names.collection_prefix
          (λ name. done (request (set_current_scene_collection name)))

  unfoldable pub command_route : Bytes → Poll
  unfolding dispatch_scenes dispatch_sources dispatch_objects
  command_route a = dispatch_scenes a orelse dispatch_sources a orelse dispatch_objects a

  abbrev pub obeyed : Poll → Ui → Ui
  obeyed (done act) = act
  obeyed refused = stay
  obeyed miss = stay

  -- The branches behind the polls.
  unfoldable pub run_command : Ui → Ui
  unfolding command_route
  run_command u = obeyed (command_route msg.address) u

-- The subscriptions beside the UI thread's state.
pub record Desk : Type 0 where
  pub registry : Registry
  pub ui : Ui

unfoldable pub osc_dispatch_command : Env → OscMessage → Endpoint → Desk → Desk
unfolding has_prefix osc_handle_subscription poll_dispatch run_command
osc_dispatch_command env msg reply_to d =
    let a = msg.address in
    let (polled, answered) = poll_dispatch env reply_to a d.ui in
    if not (has_prefix a Names.root)
    then d
    else if str_eq a Names.subscribe || str_eq a Names.unsubscribe
    then record d {
      registry =
          osc_handle_subscription env.conv d.registry msg reply_to (str_eq a Names.unsubscribe);
    }
    else if not (is_empty msg.args)
    then record d { ui = run_command env msg d.ui }
    else if answered
    then record d { ui = polled }
    else record d { ui = run_command env msg polled }

-- The closure that `handle_datagram` posts to the UI thread.
pub record Task : Type 0 where
  pub msgs : List OscMessage
  pub sender : Endpoint

abbrev pub posted : Run (List OscMessage) → Endpoint → Option Task
posted (ok msgs) sender = some (record { msgs = msgs; sender = sender })
posted _ sender = none

unfoldable pub handle_datagram : Bytes → Endpoint → Option Task
unfolding osc_parse_packet
handle_datagram bytes sender = posted (osc_parse_packet bytes []) sender

unfoldable pub dispatch_all : Env → List OscMessage → Endpoint → Desk → Desk
unfolding osc_dispatch_command
dispatch_all env [] sender d = d
dispatch_all env (msg ∷ msgs) sender d =
    dispatch_all env msgs sender (osc_dispatch_command env msg sender d)

unfoldable pub run_task : Env → Task → Desk → Desk
unfolding dispatch_all
run_task env task d = dispatch_all env task.msgs task.sender d
