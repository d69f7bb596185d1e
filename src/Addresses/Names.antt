-- ===== src/Addresses/Names.antt =====
-- The address constants of src/osc-addresses.h and the tables of src/osc-addresses.cpp.
use obs_osc.Base.{List, [], ◌∷◌, Bytes, codes}

abbrev pub root : Bytes
root = codes "/"

abbrev pub studio : Bytes
studio = codes "/studio"

abbrev pub screenshot : Bytes
screenshot = codes "/screenshot"

abbrev pub transition : Bytes
transition = codes "/transition"

abbrev pub program : Bytes
program = codes "/program"

abbrev pub preview : Bytes
preview = codes "/preview"

abbrev pub program_prefix : Bytes
program_prefix = codes "/program/"

abbrev pub program_index_prefix : Bytes
program_index_prefix = codes "/program/index/"

abbrev pub preview_prefix : Bytes
preview_prefix = codes "/preview/"

abbrev pub transition_prefix : Bytes
transition_prefix = codes "/transition/"

abbrev pub mute_prefix : Bytes
mute_prefix = codes "/mute/"

abbrev pub volume_prefix : Bytes
volume_prefix = codes "/volume/"

abbrev pub db_prefix : Bytes
db_prefix = codes "/db/"

abbrev pub media_prefix : Bytes
media_prefix = codes "/media/"

abbrev pub profile_prefix : Bytes
profile_prefix = codes "/profile/"

abbrev pub collection_prefix : Bytes
collection_prefix = codes "/collection/"

abbrev pub visible_prefix : Bytes
visible_prefix = codes "/visible/"

abbrev pub locked_prefix : Bytes
locked_prefix = codes "/locked/"

abbrev pub order_prefix : Bytes
order_prefix = codes "/order/"

abbrev pub filter_prefix : Bytes
filter_prefix = codes "/filter/"

abbrev pub active_prefix : Bytes
active_prefix = codes "/active/"

abbrev pub showing_prefix : Bytes
showing_prefix = codes "/showing/"

abbrev pub hotkey_prefix : Bytes
hotkey_prefix = codes "/hotkey/"

abbrev pub transform_prefix : Bytes
transform_prefix = codes "/transform/"

abbrev pub profile : Bytes
profile = codes "/profile"

abbrev pub collection : Bytes
collection = codes "/collection"

abbrev pub visible : Bytes
visible = codes "/visible"

abbrev pub locked : Bytes
locked = codes "/locked"

abbrev pub order_route : Bytes
order_route = codes "/order"

abbrev pub filter_route : Bytes
filter_route = codes "/filter"

abbrev pub active : Bytes
active = codes "/active"

abbrev pub showing : Bytes
showing = codes "/showing"

abbrev pub transform : Bytes
transform = codes "/transform"

abbrev pub filter_params_node : Bytes
filter_params_node = codes "params"

abbrev pub subscribe : Bytes
subscribe = codes "/subscribe"

abbrev pub unsubscribe : Bytes
unsubscribe = codes "/unsubscribe"

abbrev pub transition_go : Bytes
transition_go = codes "go"

abbrev pub stream_route : Bytes
stream_route = codes "/stream"

abbrev pub record_route : Bytes
record_route = codes "/record"

abbrev pub record_paused : Bytes
record_paused = codes "/record/paused"

abbrev pub replay_route : Bytes
replay_route = codes "/replay"

abbrev pub replay_saved : Bytes
replay_saved = codes "/replay/saved"

abbrev pub virtualcam_route : Bytes
virtualcam_route = codes "/virtualcam"

abbrev pub sub_start : Bytes
sub_start = codes "start"

abbrev pub sub_stop : Bytes
sub_stop = codes "stop"

abbrev pub sub_toggle : Bytes
sub_toggle = codes "toggle"

abbrev pub sub_save : Bytes
sub_save = codes "save"

abbrev pub sub_pause : Bytes
sub_pause = codes "pause"

abbrev pub media_state_node : Bytes
media_state_node = codes "state"

abbrev pub mute : Bytes
mute = codes "mute"

abbrev pub volume : Bytes
volume = codes "volume"

abbrev pub db : Bytes
db = codes "db"

abbrev pub media : Bytes
media = codes "media"

pub data OutputId : Type 0 where
  stream record_output replay virtualcam : OutputId

-- `output_info`
pub record OutputInfo : Type 0 where
  pub id : OutputId
  pub base : Bytes
  pub description : Bytes
  pub subs : List Bytes

abbrev pub outputs : List OutputInfo
outputs =
    record {
      id = OutputId.stream;
      base = stream_route;
      description = codes "Streaming control";
      subs = sub_start ∷ sub_stop ∷ sub_toggle ∷ [];
    }
    ∷ record {
      id = OutputId.record_output;
      base = record_route;
      description = codes "Recording control";
      subs = sub_start ∷ sub_stop ∷ sub_toggle ∷ sub_pause ∷ [];
    }
    ∷ record {
      id = OutputId.replay;
      base = replay_route;
      description = codes "Replay buffer control";
      subs = sub_start ∷ sub_stop ∷ sub_save ∷ [];
    }
    ∷ record {
      id = OutputId.virtualcam;
      base = virtualcam_route;
      description = codes "Virtual camera control";
      subs = sub_start ∷ sub_stop ∷ [];
    }
    ∷ []

pub data MediaAction : Type 0 where
  play pause toggle stop restart next prev : MediaAction

abbrev pub media_verbs : List (Bytes × MediaAction)
media_verbs =
    (codes "play", play)
    ∷ (codes "pause", pause)
    ∷ (codes "toggle", toggle)
    ∷ (codes "stop", stop)
    ∷ (codes "restart", restart)
    ∷ (codes "next", next)
    ∷ (codes "prev", prev)
    ∷ []
