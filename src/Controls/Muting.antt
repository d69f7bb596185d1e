-- ===== src/Controls/Muting.antt =====
-- A mute command on its way from the message to OBS.
use obs_osc.Base.{
  Bool, true, false, List, ◌∷◌, Option, none, some, Bytes, str_eq, starts_with, length, ◌≡◌, refl,
  ap, ◌<◌, arith,
}
use obs_osc.Net.{Endpoint}
use obs_osc.Message.Types.{OscMessage, OscArgument}
use obs_osc.Addresses.Names
use obs_osc.Addresses.Names.{mute_prefix, outputs}
use obs_osc.Addresses.Routes.{tail, sub_action, mute_for, has_prefix}
use obs_osc.Addresses.Laws.{tail_iff}
use obs_osc.Util.Glob.{osc_has_wildcard}
use obs_osc.Util.Visit.{osc_is_input, type_ok, osc_visit_sources}
use obs_osc.Obs.Actions.{Handle, set_muted}
use obs_osc.Obs.Readings.{Env, Ui, request, reads}
use obs_osc.Objects.Items.{target}
use obs_osc.Controls.Branch.{done, under, under_output}
use obs_osc.Controls.Sources.{mute_inputs, mute_visit}
use obs_osc.Controls.Dispatch.{
  switch_value, dispatch_scenes, dispatch_sources, command_route, run_command, Desk,
  osc_dispatch_command,
}

tail_other : (a prefix : Bytes) → starts_with prefix a ≡ false → tail a prefix ≡ none
unfolding tail
tail_other a prefix h = ground (arith, h)

command_route-mute :
    (env : Env) (msg : OscMessage) (name : Bytes)
    → 0 < length name
    → command_route env msg (mute_for name) ≡ done (mute_inputs env name (switch_value msg))
unfolding command_route dispatch_scenes dispatch_sources under under_output sub_action starts_with
    str_eq
command_route-mute env msg name h =
    let a = mute_for name in
    rw
      (
        tail_other a Names.transition_prefix refl,
        tail_other a Names.program_index_prefix refl,
        tail_other a Names.program_prefix refl,
        (tail_iff a mute_prefix name).1 (refl, h),
      )
      refl

mute_inputs-found :
    (env : Env) (name : Bytes) (value : Option Bool) (source : Handle) (u : Ui)
    → osc_has_wildcard name ≡ false
    → (reads env u).source_by_name name ≡ some source
    → osc_is_input (reads env u) source ≡ true
    → mute_inputs env name value u
      ≡ request (set_muted source (target value ((reads env u).muted source))) u
unfolding mute_inputs osc_visit_sources type_ok mute_visit
mute_inputs-found env name value source u exact found fits = rw (exact, found, fits) refl

-- A message with arguments to the mute address of a name with no wildcard, under which OBS finds an
-- input, requests exactly one change: it mutes or unmutes that input by its first argument, or toggles
-- it on -1. Nothing else changes.
pub osc_dispatch_command-mute_for :
    (env : Env) (name : Bytes) (source : Handle) (arg : OscArgument) (args : List OscArgument)
    (reply_to : Endpoint) (d : Desk)
    → 0 < length name
    → osc_has_wildcard name ≡ false
    → (reads env d.ui).source_by_name name ≡ some source
    → osc_is_input (reads env d.ui) source ≡ true
    → osc_dispatch_command env (record { address = mute_for name; args = arg ∷ args }) reply_to d
      ≡ record d {
        ui =
            request
              (set_muted source (
                target
                  (switch_value (record { address = mute_for name; args = arg ∷ args }))
                  ((reads env d.ui).muted source)))
              d.ui;
      }
unfolding osc_dispatch_command run_command has_prefix starts_with str_eq
osc_dispatch_command-mute_for env name source arg args reply_to d h exact found fits =
    let msg : OscMessage = record { address = mute_for name; args = arg ∷ args } in
    rw (command_route-mute env msg name h) (
      ap (λ ui. record d { ui = ui })
        (mute_inputs-found env name (switch_value msg) source d.ui exact found fits))
