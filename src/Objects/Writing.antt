-- ===== src/Objects/Writing.antt =====
-- Predicates that requests keep, through the commands of src/osc-objects.cpp.
use obs_osc.Base.{ℕ, Bool, Option, none, some, Option_both, Bytes}
use obs_osc.Message.Types.{OscMessage}
use obs_osc.Util.Fields.{TransformField}
use obs_osc.Util.Visiting.{osc_visit_scene_items-Keeps}
use obs_osc.Obs.Actions.{Handle}
use obs_osc.Obs.Readings.{Property, Env, Ui, reads}
use obs_osc.Obs.Keeps.{Keeps, VisitKeeps, RequestKeeps}
use obs_osc.Objects.Passes.{run_filter_enable_pass-Keeps, run_param_pass-Keeps}
use obs_osc.Objects.Items.{
  ItemProp, flag_visit, order_visit, find_transform_field, write_visit, set_item_flag,
  set_item_order, write_transform,
}
use obs_osc.Objects.Filters.{filter_enable, set_filter_enabled}
use obs_osc.Objects.Params.{write_one, written, write_property, write_filter_param}
use obs_osc.Objects.Misc.{find_hotkey, trigger_hotkey}

module _ (P : Ui → Type 0) (env : Env) (k : RequestKeeps P) where
  pub set_item_flag-Keeps :
      (scene item : Bytes) (prop : ItemProp) (value : Option Bool)
      → Keeps P (set_item_flag env scene item prop value)
  unfolding set_item_flag flag_visit
  set_item_flag-Keeps scene item prop value =
      osc_visit_scene_items-Keeps P env (some item) (flag_visit env none prop value)
        (λ scene_name x u h. k _ u h) scene

  order_visit-Keeps :
      (position : ℕ) (scene_name : Bytes) → VisitKeeps P (order_visit env none position scene_name)
  unfolding order_visit
  order_visit-Keeps position scene_name item u h =
      Option_both (λ (out : Ui × Bool). P out.0) ((reads env u).item_source item) _ _ h
        (λ s. k _ u h)

  pub set_item_order-Keeps :
      (scene item : Bytes) (position : ℕ) → Keeps P (set_item_order env scene item position)
  unfolding set_item_order
  set_item_order-Keeps scene item position =
      osc_visit_scene_items-Keeps P env (some item) (order_visit env none position)
        (order_visit-Keeps position) scene

  write_visit-Keeps :
      (field : TransformField) (value : ℕ) (scene_name : Bytes)
      → VisitKeeps P (write_visit env field value scene_name)
  unfolding write_visit
  write_visit-Keeps field value scene_name item u h =
      Option_both (λ (out : Ui × Bool). P out.0) ((reads env u).item_source item) _ _ h
        (λ s. k _ u h)

  pub write_transform-Keeps :
      (scene item name : Bytes) (value : ℕ) → Keeps P (write_transform env scene item name value)
  unfolding write_transform
  write_transform-Keeps scene item name value u h =
      Option_both P (find_transform_field env name) _ _ h (λ f.
        osc_visit_scene_items-Keeps P env (some item) (write_visit env f value)
          (write_visit-Keeps f value) scene u h)

  filter_enable-Keeps :
      (value : Option Bool) (source_name : Bytes) (filter : Handle)
      → Keeps P (filter_enable env none value source_name filter)
  unfolding filter_enable
  filter_enable-Keeps value source_name filter u h = k _ u h

  pub set_filter_enabled-Keeps :
      (source selector : Bytes) (value : Option Bool)
      → Keeps P (set_filter_enabled env source selector value)
  unfolding set_filter_enabled
  set_filter_enabled-Keeps source selector value =
      run_filter_enable_pass-Keeps P env selector value none (filter_enable-Keeps value) source

  write_property-Keeps :
      (msg : OscMessage) (filter : Handle) (prop : Property)
      → Keeps P (write_property env filter prop msg)
  unfolding write_property
  write_property-Keeps msg filter prop u h =
      Option_both P (written env prop.type msg) _ _ h (λ s. k _ u h)

  pub write_filter_param-Keeps :
      (msg : OscMessage) (source selector param : Bytes)
      → Keeps P (write_filter_param env msg source selector param)
  unfolding write_filter_param
  write_filter_param-Keeps msg source selector param =
      run_param_pass-Keeps P env selector (write_one msg param)
        (λ base filter prop. write_property-Keeps msg filter prop) source

  pub trigger_hotkey-Keeps : (name : Bytes) → Keeps P (trigger_hotkey env name)
  unfolding trigger_hotkey
  trigger_hotkey-Keeps name u h =
      Option_both P (find_hotkey env name (reads env u).hotkeys) _ _ h (λ id. k _ _ (k _ u h))
