-- ===== src/Obs/Actions.antt =====
-- The calls of libobs and the frontend that change something, named for the functions called. A
-- handle stands for an `obs_source_t *`, an `obs_sceneitem_t *` or a hotkey id; an `int` or a
-- `float` is its 32-bit pattern.
use obs_osc.Base.{ℕ, Bool, Bytes}
use obs_osc.Addresses.Names.{OutputId}

abbrev pub Handle : Type 0
Handle = ℕ

pub record Crop : Type 0 where
  pub left : ℕ
  pub top : ℕ
  pub right : ℕ
  pub bottom : ℕ

-- `obs_data_set_bool` and its siblings.
pub data Setting : Type 0 where
  as_bool : Bool → Setting
  as_int as_float : ℕ → Setting
  as_string : Bytes → Setting

pub data Action : Type 0 where
  set_current_scene set_current_preview_scene set_current_transition : Handle → Action
  set_preview_program_mode : Bool → Action
  trigger_transition take_screenshot replay_buffer_save : Action
  output_start output_stop : OutputId → Action
  recording_pause : Bool → Action
  set_muted : Handle → Bool → Action
  set_volume : Handle → ℕ → Action
  media_play_pause : Handle → Bool → Action
  media_stop media_restart media_next media_previous : Handle → Action
  set_visible set_locked : Handle → Bool → Action
  set_order_position : Handle → ℕ → Action
  set_pos set_scale : Handle → ℕ × ℕ → Action
  set_rot : Handle → ℕ → Action
  set_crop : Handle → Crop → Action
  set_enabled : Handle → Bool → Action
  source_update : Handle → Bytes → Setting → Action
  hotkey_trigger : Handle → Bool → Action
  set_current_profile set_current_scene_collection : Bytes → Action
