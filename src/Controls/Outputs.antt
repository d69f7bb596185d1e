-- ===== src/Controls/Outputs.antt =====
-- `run_output_command`: one engine for the four outputs.
use obs_osc.Base.{Bool, true, false, not, ◌&&◌, if◌then◌else◌, Bytes, str_eq}
use obs_osc.Message.Types.{OscMessage}
use obs_osc.Message.Access.{arg_bool}
use obs_osc.Addresses.Names.{
  OutputId, record_output, replay, sub_start, sub_stop, sub_toggle, sub_save, sub_pause,
}
use obs_osc.Obs.Actions.{output_start, output_stop, recording_pause, replay_buffer_save}
use obs_osc.Obs.Readings.{Env, Ui, request, reads}

-- Whether the first `switch` sets `save`, and `set_paused`.
abbrev pub can_save : OutputId → Bool
can_save replay = true
can_save _ = false

abbrev pub can_pause : OutputId → Bool
can_pause record_output = true
can_pause _ = false

-- What the sub-action asks for, of an output that is active or not.
unfoldable pub start_it : OscMessage → Bytes → Bool → Bool
unfolding arg_bool
start_it msg sub is_active =
    if str_eq sub sub_start
    then true
    else if str_eq sub sub_stop
    then false
    else if str_eq sub sub_toggle
    then not is_active
    else arg_bool msg 0 (not is_active)

-- The last statement.
unfoldable pub drive : OutputId → Bool → Bool → Ui → Ui
drive id wanted is_active u =
    if wanted && not is_active
    then request (output_start id) u
    else if not wanted && is_active
    then request (output_stop id) u
    else u

unfoldable pub run_output_command : Env → OutputId → OscMessage → Bytes → Ui → Ui
unfolding arg_bool start_it drive
run_output_command env id msg sub u =
    let r = reads env u in
    if can_save id && str_eq sub sub_save
    then (if r.output_active id then request replay_buffer_save u else u)
    else if can_pause id && str_eq sub sub_pause
    then request (recording_pause (arg_bool msg 0 (not r.recording_paused))) u
    else drive id (start_it msg sub (r.output_active id)) (r.output_active id) u
