-- ===== src/Objects/Params.antt =====
-- Settings parameters of a filter.
use obs_osc.Base.{
  Bool, true, false, not, List, [], ◌∷◌, ◌++◌, Option, none, some, if◌then◌else◌, Bytes, codes,
  str_eq,
}
use obs_osc.Net.{Endpoint}
use obs_osc.Message.Types.{OscMessage, osc_int, osc_flt, osc_str}
use obs_osc.Message.Access.{arg_bool, arg_int, arg_float, arg_string}
use obs_osc.Addresses.Routes.{filter_for}
use obs_osc.Util.Fields.{float_0}
use obs_osc.Util.Visit.{any, osc_visit_sources}
use obs_osc.Obs.Actions.{Handle, Setting, as_bool, as_int, as_float, as_string, source_update}
use obs_osc.Obs.Readings.{
  bool, int, float, text, path, unsupported, PropertyType, Property, Env, Ui, request, reads,
}
use obs_osc.Objects.Items.{reply, osc_bool}
use obs_osc.Objects.Filters.{resolve_filter}

abbrev pub param_is_scalar : PropertyType → Bool
param_is_scalar unsupported = false
param_is_scalar _ = true

-- `param_mode`, with what each mode needs.
pub data ParamMode : Type 0 where
  list_all : Endpoint → ParamMode
  read_one : Endpoint → Bytes → ParamMode
  write_one : OscMessage → Bytes → ParamMode

-- Whether the mode passes over a property of this name.
abbrev pub passes_over : ParamMode → Bytes → Bool
passes_over (list_all _) name = false
passes_over (read_one _ param) name = not (str_eq name param)
passes_over (write_one _ param) name = not (str_eq name param)

abbrev pub stops : ParamMode → Bool
stops (list_all _) = false
stops _ = true

module _ (env : Env) where
  unfoldable pub read_property : Bytes → Property → Handle → Endpoint → Ui → Ui
  unfolding reply
  read_property base prop filter to u =
      let r = reads env u in
      let address = base ++ (codes "/" ++ prop.name) in
      elim prop.type [
        | bool ↦ reply to address (osc_bool (r.setting_bool filter prop.name)) u
        | int ↦ reply to address (osc_int (r.setting_int filter prop.name) ∷ []) u
        | float ↦ reply to address (osc_flt (r.setting_float filter prop.name) ∷ []) u
        | text ↦ reply to address (osc_str (r.setting_string filter prop.name) ∷ []) u
        | path ↦ reply to address (osc_str (r.setting_string filter prop.name) ∷ []) u
        | unsupported ↦ u
      ]

  -- The new value; an unsupported type leaves the settings as they are.
  unfoldable pub written : PropertyType → OscMessage → Option Setting
  unfolding arg_bool arg_int arg_float arg_string
  written bool msg = some (as_bool (arg_bool msg 0 false))
  written int msg = some (as_int (arg_int env.conv msg 0 0))
  written float msg = some (as_float (arg_float env.conv msg 0 float_0))
  written text msg = some (as_string (arg_string msg 0 []))
  written path msg = some (as_string (arg_string msg 0 []))
  written unsupported msg = none

  unfoldable pub write_property : Handle → Property → OscMessage → Ui → Ui
  unfolding written
  write_property filter prop msg u = elim (written prop.type msg) [
    | none ↦ u
    | some setting ↦ request (source_update filter prop.name setting) u
  ]

  abbrev pub handle_property : ParamMode → Bytes → Handle → Property → Ui → Ui
  handle_property (list_all to) base filter prop u = read_property base prop filter to u
  handle_property (read_one to _) base filter prop u = read_property base prop filter to u
  handle_property (write_one msg _) base filter prop u = write_property filter prop msg u

  -- The iteration over the properties of one filter.
  unfoldable pub param_loop : ParamMode → Bytes → Handle → List Property → Ui → Ui
  unfolding read_property write_property
  param_loop mode base filter [] u = u
  param_loop mode base filter (prop ∷ props) u =
      if passes_over mode prop.name
      then param_loop mode base filter props u
      else if not (param_is_scalar prop.type)
      then param_loop mode base filter props u
      else if stops mode
      then handle_property mode base filter prop u
      else param_loop mode base filter props (handle_property mode base filter prop u)

  unfoldable pub param_visit : Bytes → ParamMode → Handle → Ui → Ui × Bool
  unfolding resolve_filter param_loop
  param_visit selector mode source u = elim (resolve_filter env (reads env u) source selector) [
    | none ↦ (u, true)
    | some filter ↦
        let r = reads env u in
        let base = filter_for (r.source_name source) (r.source_name filter) in
        (param_loop mode base filter (r.properties filter) u, true)
  ]

  unfoldable pub run_param_pass : Bytes → Bytes → ParamMode → Ui → Ui
  unfolding param_visit osc_visit_sources
  run_param_pass source_pattern selector mode =
      osc_visit_sources (reads env) source_pattern any (param_visit selector mode)

  unfoldable pub poll_filter_params : Endpoint → Bytes → Bytes → Ui → Ui
  unfolding run_param_pass
  poll_filter_params to source_pattern selector =
      run_param_pass source_pattern selector (list_all to)

  unfoldable pub poll_filter_param : Endpoint → Bytes → Bytes → Bytes → Ui → Ui
  unfolding run_param_pass
  poll_filter_param to source_pattern selector param =
      run_param_pass source_pattern selector (read_one to param)

  unfoldable pub write_filter_param : OscMessage → Bytes → Bytes → Bytes → Ui → Ui
  unfolding run_param_pass
  write_filter_param msg source_pattern selector param =
      run_param_pass source_pattern selector (write_one msg param)
