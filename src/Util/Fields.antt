-- ===== src/Util/Fields.antt =====
-- The volume curve and the table of transform fields of src/osc-util.cpp.
use obs_osc.Base.{ℕ, List, [], ◌∷◌, if◌then◌else◌, Bytes, codes}
use obs_osc.Message.Access.{Conversions}
use obs_osc.Obs.Actions.{Handle, Action, set_pos, set_scale, set_rot, set_crop}
use obs_osc.Obs.Readings.{Reads, Floats}

-- The patterns of 0.0f, 1.0f and 16.0f.
abbrev pub float_0 : ℕ
float_0 = 0

abbrev pub float_1 : ℕ
float_1 = 0x3f80_0000

abbrev pub float_16 : ℕ
float_16 = 0x4180_0000

-- `if (x < low) x = low; if (x > high) x = high;`
unfoldable pub clamp : Floats → ℕ → ℕ → ℕ → ℕ
clamp fl low high x =
    let raised = if fl.less x low then low else x in if fl.less high raised then high else raised

unfoldable pub osc_volume_multiplier : Floats → ℕ → ℕ
unfolding clamp
osc_volume_multiplier fl position =
    fl.times (clamp fl float_0 float_1 position) (clamp fl float_0 float_1 position)

unfoldable pub osc_volume_position : Floats → ℕ → ℕ
unfolding clamp
osc_volume_position fl multiplier = fl.sqrt (clamp fl float_0 float_16 multiplier)

-- `osc_transform_field`, over the conversions between `int` and `float`.
pub record TransformField : Type 0 where
  pub name : Bytes
  pub get : Conversions → Reads → Handle → ℕ
  pub set : Conversions → Reads → Handle → ℕ → Action

abbrev pub field_pos_x : TransformField
field_pos_x = record {
  name = codes "x";
  get = λ conv r item. (r.item_pos item).0;
  set = λ conv r item value. set_pos item (value, (r.item_pos item).1);
}

abbrev pub field_pos_y : TransformField
field_pos_y = record {
  name = codes "y";
  get = λ conv r item. (r.item_pos item).1;
  set = λ conv r item value. set_pos item ((r.item_pos item).0, value);
}

abbrev pub field_scale_x : TransformField
field_scale_x = record {
  name = codes "sx";
  get = λ conv r item. (r.item_scale item).0;
  set = λ conv r item value. set_scale item (value, (r.item_scale item).1);
}

abbrev pub field_scale_y : TransformField
field_scale_y = record {
  name = codes "sy";
  get = λ conv r item. (r.item_scale item).1;
  set = λ conv r item value. set_scale item ((r.item_scale item).0, value);
}

abbrev pub field_rotation : TransformField
field_rotation = record {
  name = codes "rot";
  get = λ conv r item. r.item_rot item;
  set = λ conv r item value. set_rot item value;
}

abbrev pub field_crop_left : TransformField
field_crop_left = record {
  name = codes "crop_left";
  get = λ conv r item. conv.float_of_int (r.item_crop item).left;
  set = λ conv r item value.
      set_crop item (record (r.item_crop item) { left = conv.int_of_float value });
}

abbrev pub field_crop_top : TransformField
field_crop_top = record {
  name = codes "crop_top";
  get = λ conv r item. conv.float_of_int (r.item_crop item).top;
  set = λ conv r item value.
      set_crop item (record (r.item_crop item) { top = conv.int_of_float value });
}

abbrev pub field_crop_right : TransformField
field_crop_right = record {
  name = codes "crop_right";
  get = λ conv r item. conv.float_of_int (r.item_crop item).right;
  set = λ conv r item value.
      set_crop item (record (r.item_crop item) { right = conv.int_of_float value });
}

abbrev pub field_crop_bottom : TransformField
field_crop_bottom = record {
  name = codes "crop_bottom";
  get = λ conv r item. conv.float_of_int (r.item_crop item).bottom;
  set = λ conv r item value.
      set_crop item (record (r.item_crop item) { bottom = conv.int_of_float value });
}

abbrev pub osc_transform_fields : List TransformField
osc_transform_fields =
    field_pos_x ∷ field_pos_y ∷ field_scale_x ∷ field_scale_y ∷ field_rotation ∷ field_crop_left
    ∷ field_crop_top ∷ field_crop_right ∷ field_crop_bottom ∷ []
