-- ===== src/Obs/Readings.antt =====
-- What libobs, the frontend and the C library answer, and the state of the UI thread.
use obs_osc.Base.{ℕ, Bool, true, false, Option, List, [], ◌∷◌, ◌++◌, Bytes}
use obs_osc.Base.Int.{ℤ}
use obs_osc.Message.Access.{Conversions}
use obs_osc.Addresses.Names.{OutputId}
use obs_osc.Server.Batch.{Outbox}
use obs_osc.Obs.Actions.{Handle, Crop, Action}

pub data SourceType : Type 0 where
  input filter transition scene : SourceType

abbrev pub type_eq : SourceType → SourceType → Bool
type_eq input input = true
type_eq filter filter = true
type_eq transition transition = true
type_eq scene scene = true
type_eq _ _ = false

-- `obs_property_get_type`: the types that the program tells apart.
pub data PropertyType : Type 0 where
  bool int float text path unsupported : PropertyType

pub record Property : Type 0 where
  pub name : Bytes
  pub type : PropertyType

-- One answer to each reading call; an enumeration is the list of what it passes to its callback.
pub record Reads : Type 0 where
  pub source_by_name : Bytes → Option Handle
  pub sources : List Handle
  pub scenes : List Handle
  pub transitions : List Handle
  pub hotkeys : List (Handle × Bytes)
  pub source_name : Handle → Bytes
  pub source_type : Handle → SourceType
  pub muted : Handle → Bool
  pub get_ref : Handle → Bool
  pub active : Handle → Bool
  pub showing : Handle → Bool
  pub enabled : Handle → Bool
  pub volume : Handle → ℕ
  pub media_state : Handle → ℕ
  pub controllable_media : Handle → Bool
  pub filters : Handle → List Handle
  pub properties : Handle → List Property
  pub setting_bool : Handle → Bytes → Bool
  pub setting_int : Handle → Bytes → ℕ
  pub setting_float : Handle → Bytes → ℕ
  pub setting_string : Handle → Bytes → Bytes
  pub items : Handle → List Handle
  pub item_source : Handle → Option Handle
  pub item_visible : Handle → Bool
  pub item_locked : Handle → Bool
  pub item_order : Handle → ℕ
  pub item_pos : Handle → ℕ × ℕ
  pub item_scale : Handle → ℕ × ℕ
  pub item_rot : Handle → ℕ
  pub item_crop : Handle → Crop
  pub output_active : OutputId → Bool
  pub recording_paused : Bool
  pub preview_program_mode : Bool
  pub current_scene : Option Handle
  pub current_preview_scene : Option Handle
  pub current_transition : Option Handle
  pub current_profile : Option Bytes
  pub current_scene_collection : Option Bytes
  pub profiles : Option (List Bytes)
  pub scene_collections : Option (List Bytes)

-- The float operations of the program, on 32-bit patterns: `<`, `*`, `/`, `sqrtf`, `log10f`, `powf`.
pub record Floats : Type 0 where
  pub less : ℕ → ℕ → Bool
  pub times : ℕ → ℕ → ℕ
  pub over : ℕ → ℕ → ℕ
  pub sqrt : ℕ → ℕ
  pub log10 : ℕ → ℕ
  pub pow : ℕ → ℕ → ℕ

-- All that is not in the repository; the media states are libobs' constants.
pub record Env : Type 0 where
  pub obs : List Action → Reads
  pub floats : Floats
  pub conv : Conversions
  pub atoi : Bytes → ℤ
  pub media_state_playing : ℕ
  pub media_state_none : ℕ

-- The changes requested so far, in order, and the replies on their way.
pub record Ui : Type 0 where
  pub calls : List Action
  pub out : Outbox

abbrev pub request : Action → Ui → Ui
request action u = record u { calls = u.calls ++ (action ∷ []) }

abbrev pub reads : Env → Ui → Reads
reads env u = env.obs u.calls
