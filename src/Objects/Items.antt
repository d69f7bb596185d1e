-- ===== src/Objects/Items.antt =====
-- Scene items: visibility, lock, stacking order and transform. The pointer `to` is null to write.
use obs_osc.Base.{
  ℕ, Bool, true, not, List, [], ◌∷◌, Option, none, some, if◌then◌else◌, Bytes, str_eq,
}
use obs_osc.Net.{Endpoint}
use obs_osc.Message.Types.{OscArgument, osc_int, osc_flt}
use obs_osc.Addresses.Routes.{visible_for, locked_for, order_for, transform_for}
use obs_osc.Server.Batch
use obs_osc.Util.Visit.{osc_visit_scene_items}
use obs_osc.Util.Fields.{TransformField, osc_transform_fields}
use obs_osc.Obs.Actions.{Handle, Action, set_visible, set_locked, set_order_position}
use obs_osc.Obs.Readings.{Reads, Env, Ui, request, reads}

-- `reply` of the anonymous namespace, which is `g_server.reply`.
unfoldable pub reply : Endpoint → Bytes → List OscArgument → Ui → Ui
unfolding Batch.reply
reply to address args u = record u { out = Batch.reply u.out to address args }

abbrev pub osc_bool : Bool → List OscArgument
osc_bool b = osc_int (if b then 1 else 0) ∷ []

pub data ItemProp : Type 0 where
  visible locked : ItemProp

abbrev pub item_state : Reads → ItemProp → Handle → Bool
item_state r visible item = r.item_visible item
item_state r locked item = r.item_locked item

abbrev pub set_flag : ItemProp → Handle → Bool → Action
set_flag visible = set_visible
set_flag locked = set_locked

abbrev pub flag_address : ItemProp → Bytes → Bytes → Bytes
flag_address visible = visible_for
flag_address locked = locked_for

-- `value ? *value : !state`
abbrev pub target : Option Bool → Bool → Bool
target none state = not state
target (some value) state = value

abbrev pub name_of : Reads → Option Handle → Bytes
name_of r none = []
name_of r (some source) = r.source_name source

module _ (env : Env) where
  unfoldable pub flag_visit :
      Option Endpoint → ItemProp → Option Bool → Bytes → Handle → Ui → Ui × Bool
  unfolding reply
  flag_visit none prop value scene_name item u =
      (request (set_flag prop item (target value (item_state (reads env u) prop item))) u, true)
  flag_visit (some to) prop value scene_name item u =
      let r = reads env u in
      let item_name = name_of r (r.item_source item) in
      (
        reply to (flag_address prop scene_name item_name) (osc_bool (item_state r prop item)) u,
        true,
      )

  unfoldable pub order_visit : Option Endpoint → ℕ → Bytes → Handle → Ui → Ui × Bool
  unfolding reply
  order_visit to position scene_name item u = elim ((reads env u).item_source item) [
    | none ↦ (u, true)
    | some source ↦ elim to [
      | none ↦ (request (set_order_position item position) u, true)
      | some client ↦ (
        reply client (order_for scene_name ((reads env u).source_name source))
            (osc_int ((reads env u).item_order item) ∷ []) u,
        true,
      )
    ]
  ]

  unfoldable pub find_in : Bytes → List TransformField → Option TransformField
  find_in name [] = none
  find_in name (f ∷ fs) = if str_eq f.name name then some f else find_in name fs

  unfoldable pub find_transform_field : Bytes → Option TransformField
  unfolding find_in
  find_transform_field name = find_in name osc_transform_fields

  -- One reply with a field's value.
  abbrev pub reply_field : Endpoint → Bytes → Bytes → Handle → TransformField → Ui → Ui
  reply_field to scene_name item_name item f u =
      reply to (transform_for scene_name item_name f.name)
        (osc_flt (f.get env.conv (reads env u) item) ∷ []) u

  unfoldable pub reply_fields : Endpoint → Bytes → Bytes → Handle → List TransformField → Ui → Ui
  unfolding reply
  reply_fields to scene_name item_name item [] u = u
  reply_fields to scene_name item_name item (f ∷ fs) u =
      reply_fields to scene_name item_name item fs (reply_field to scene_name item_name item f u)

  unfoldable pub write_visit : TransformField → ℕ → Bytes → Handle → Ui → Ui × Bool
  write_visit field value scene_name item u = elim ((reads env u).item_source item) [
    | none ↦ (u, true)
    | some source ↦ (request (field.set env.conv (reads env u) item value) u, true)
  ]

  unfoldable pub poll_visit : Endpoint → Option TransformField → Bytes → Handle → Ui → Ui × Bool
  unfolding reply reply_fields
  poll_visit to field scene_name item u = elim ((reads env u).item_source item) [
    | none ↦ (u, true)
    | some source ↦
        let item_name = (reads env u).source_name source in
        elim field [
          | some f ↦ (reply_field to scene_name item_name item f u, true)
          | none ↦ (reply_fields to scene_name item_name item osc_transform_fields u, true)
        ]
  ]

  unfoldable pub set_item_flag : Bytes → Bytes → ItemProp → Option Bool → Ui → Ui
  unfolding flag_visit osc_visit_scene_items
  set_item_flag scene_pattern item_selector prop value =
      osc_visit_scene_items env scene_pattern (some item_selector) (flag_visit none prop value)

  unfoldable pub poll_item_flag : Endpoint → Bytes → Bytes → ItemProp → Ui → Ui
  unfolding flag_visit osc_visit_scene_items
  poll_item_flag to scene_pattern item_selector prop =
      osc_visit_scene_items env scene_pattern (some item_selector) (flag_visit (some to) prop none)

  unfoldable pub set_item_order : Bytes → Bytes → ℕ → Ui → Ui
  unfolding order_visit osc_visit_scene_items
  set_item_order scene_pattern item_selector position =
      osc_visit_scene_items env scene_pattern (some item_selector) (order_visit none position)

  unfoldable pub poll_item_order : Endpoint → Bytes → Bytes → Ui → Ui
  unfolding order_visit osc_visit_scene_items
  poll_item_order to scene_pattern item_selector =
      osc_visit_scene_items env scene_pattern (some item_selector) (order_visit (some to) 0)

  unfoldable pub write_transform : Bytes → Bytes → Bytes → ℕ → Ui → Ui
  unfolding find_transform_field write_visit osc_visit_scene_items
  write_transform scene_pattern item_selector field_name value u =
      elim (find_transform_field field_name) [
        | none ↦ u
        | some field ↦
            osc_visit_scene_items env scene_pattern (some item_selector) (write_visit field value) u
      ]

  -- `field_name` may be null, for every field.
  unfoldable pub poll_transform : Endpoint → Bytes → Bytes → Option Bytes → Ui → Ui
  unfolding find_transform_field poll_visit osc_visit_scene_items
  poll_transform to scene_pattern item_selector none u =
      osc_visit_scene_items env scene_pattern (some item_selector) (poll_visit to none) u
  poll_transform to scene_pattern item_selector (some field_name) u =
      elim (find_transform_field field_name) [
        | none ↦ u
        | some field ↦
            osc_visit_scene_items env scene_pattern (some item_selector)
              (poll_visit to (some field)) u
      ]
