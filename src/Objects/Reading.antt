-- ===== src/Objects/Reading.antt =====
-- Predicates that replies keep, through the polls of src/osc-objects.cpp.
use obs_osc.Base.{Bool, List, [], ◌∷◌, Option, none, some, Option_both, ◌≡◌, refl, Bytes}
use obs_osc.Net.{Endpoint}
use obs_osc.Message.Types.{OscArgument}
use obs_osc.Util.Fields.{TransformField, osc_transform_fields}
use obs_osc.Util.Visit.{input_kind, osc_visit_scene_items}
use obs_osc.Util.Visiting.{osc_visit_sources-Keeps, osc_visit_scene_items-Keeps}
use obs_osc.Obs.Actions.{Handle}
use obs_osc.Obs.Readings.{
  Property, PropertyType, bool, int, float, text, path, unsupported, Env, Ui, reads,
}
use obs_osc.Obs.Keeps.{Keeps, VisitKeeps}
use obs_osc.Objects.Passes.{run_filter_enable_pass-Keeps, run_param_pass-Keeps}
use obs_osc.Objects.Items.{
  reply, osc_bool, ItemProp, item_state, flag_address, name_of, flag_visit, order_visit,
  find_transform_field, reply_fields, poll_visit, poll_item_flag, poll_item_order, poll_transform,
}
use obs_osc.Objects.Filters.{filter_enable, poll_filter_enabled}
use obs_osc.Objects.Params.{
  list_all, read_one, read_property, poll_filter_params, poll_filter_param,
}
use obs_osc.Objects.Misc.{tally_visit, poll_input_state}

abbrev pub ReplyKeeps : (Ui → Type 0) → Endpoint → Type 0
ReplyKeeps P to = (address : Bytes) (args : List OscArgument) → Keeps P (reply to address args)

module _ (P : Ui → Type 0) (env : Env) (to : Endpoint) (k : ReplyKeeps P to) where
  flag_visit-Keeps :
      (prop : ItemProp) (scene_name : Bytes)
      → VisitKeeps P (flag_visit env (some to) prop none scene_name)
  unfolding flag_visit
  flag_visit-Keeps prop scene_name item u h =
      let r = reads env u in
      k (flag_address prop scene_name (name_of r (r.item_source item)))
        (osc_bool (item_state r prop item)) u h

  pub poll_item_flag-Keeps :
      (scene item : Bytes) (prop : ItemProp) → Keeps P (poll_item_flag env to scene item prop)
  unfolding poll_item_flag
  poll_item_flag-Keeps scene item prop =
      osc_visit_scene_items-Keeps P env (some item) (flag_visit env (some to) prop none)
        (flag_visit-Keeps prop) scene

  order_visit-Keeps : (scene_name : Bytes) → VisitKeeps P (order_visit env (some to) 0 scene_name)
  unfolding order_visit
  order_visit-Keeps scene_name item u h =
      Option_both (λ (out : Ui × Bool). P out.0) ((reads env u).item_source item) _ _ h
        (λ s. k _ _ u h)

  pub poll_item_order-Keeps : (scene item : Bytes) → Keeps P (poll_item_order env to scene item)
  unfolding poll_item_order
  poll_item_order-Keeps scene item =
      osc_visit_scene_items-Keeps P env (some item) (order_visit env (some to) 0) order_visit-Keeps
        scene

  reply_fields-Keeps :
      (scene_name item_name : Bytes) (item : Handle) (fs : List TransformField)
      → Keeps P (reply_fields env to scene_name item_name item fs)
  unfolding reply_fields
  reply_fields-Keeps scene_name item_name item [] u h = h
  reply_fields-Keeps scene_name item_name item (f ∷ fs) u h =
      reply_fields-Keeps scene_name item_name item fs _ (k _ _ u h)

  poll_visit-Keeps :
      (field : Option TransformField) (scene_name : Bytes)
      → VisitKeeps P (poll_visit env to field scene_name)
  unfolding poll_visit
  poll_visit-Keeps field scene_name item u h =
      let kept : Ui × Bool → Type 0 = λ out. P out.0 in
      Option_both kept ((reads env u).item_source item) _ _ h (λ s.
        Option_both kept field _ _ (reply_fields-Keeps scene_name _ item osc_transform_fields u h)
          (λ f. k _ _ u h))

  transform_pass :
      (scene item : Bytes) (field : Option TransformField)
      → Keeps P (osc_visit_scene_items env scene (some item) (poll_visit env to field))
  transform_pass scene item field =
      osc_visit_scene_items-Keeps P env (some item) (poll_visit env to field)
        (poll_visit-Keeps field) scene

  pub poll_transform-Keeps :
      (scene item : Bytes) (field_name : Option Bytes)
      → Keeps P (poll_transform env to scene item field_name)
  unfolding poll_transform
  poll_transform-Keeps scene item none u h = transform_pass scene item none u h
  poll_transform-Keeps scene item (some name) u h =
      Option_both P (find_transform_field env name) _ _ h
        (λ f. transform_pass scene item (some f) u h)

  filter_enable-Keeps :
      (source_name : Bytes) (filter : Handle)
      → Keeps P (filter_enable env (some to) none source_name filter)
  unfolding filter_enable
  filter_enable-Keeps source_name filter u h = k _ _ u h

  pub poll_filter_enabled-Keeps :
      (source selector : Bytes) → Keeps P (poll_filter_enabled env to source selector)
  unfolding poll_filter_enabled
  poll_filter_enabled-Keeps source selector =
      run_filter_enable_pass-Keeps P env selector none (some to) filter_enable-Keeps source

  read_property-Keeps :
      (base : Bytes) (filter : Handle) (prop : Property)
      → Keeps P (read_property env base prop filter to)
  unfolding read_property
  read_property-Keeps base filter prop u h = go prop.type refl
    where
      go : (t : PropertyType) → prop.type ≡ t → P (read_property env base prop filter to u)
      go bool e = rw (e, read_property) (k _ _ u h)
      go int e = rw (e, read_property) (k _ _ u h)
      go float e = rw (e, read_property) (k _ _ u h)
      go text e = rw (e, read_property) (k _ _ u h)
      go path e = rw (e, read_property) (k _ _ u h)
      go unsupported e = rw (e, read_property) h

  pub poll_filter_params-Keeps :
      (source selector : Bytes) → Keeps P (poll_filter_params env to source selector)
  unfolding poll_filter_params
  poll_filter_params-Keeps source selector =
      run_param_pass-Keeps P env selector (list_all to) read_property-Keeps source

  pub poll_filter_param-Keeps :
      (source selector param : Bytes) → Keeps P (poll_filter_param env to source selector param)
  unfolding poll_filter_param
  poll_filter_param-Keeps source selector param =
      run_param_pass-Keeps P env selector (read_one to param) read_property-Keeps source

  pub poll_input_state-Keeps :
      (pattern : Bytes) (showing : Bool) → Keeps P (poll_input_state env to pattern showing)
  unfolding poll_input_state tally_visit
  poll_input_state-Keeps pattern showing =
      osc_visit_sources-Keeps P env pattern input_kind (tally_visit env to showing)
        (λ s u h. k _ _ u h)
