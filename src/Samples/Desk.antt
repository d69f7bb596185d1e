-- ===== src/Samples/Desk.antt =====
-- src/osc-controls.cpp, src/osc-objects.cpp and src/plugin.cpp over an OBS with one microphone and
-- one scene.
use obs_osc.Base.{
  inl, true, false, List, [], ◌∷◌, ◌≤◌, ◌≡◌, refl, ◌==◌, none, some, if◌then◌else◌, map, codes,
  Bytes, str_eq, starts_with, length, arith,
}
use obs_osc.Base.Int.{pos}
use obs_osc.Net.{Endpoint, inet, endpoint_same}
use obs_osc.Message.Types.{OscMessage, osc_int, osc_str}
use obs_osc.Message.Build.{osc_build_message}
use obs_osc.Message.Padding.{int}
use obs_osc.Addresses.Names.{stream}
use obs_osc.Server.State.{Server, fresh_server, OutPacket}
use obs_osc.Server.Batch.{begin_batch, no_batch, build_bundle, enqueue_all}
use obs_osc.Server.Bundle.{FitsBundle, built, parse_all}
use obs_osc.Base.Run.{ok}
use obs_osc.Server.Drain.{send_rounds, send_rounds-drain}
use obs_osc.Subscribe.Registry.{no_registrations}
use obs_osc.Util.Glob.{osc_has_wildcard, osc_selector_matches}
use obs_osc.Util.Visit.{osc_visit_sources, visit_each, visit_source, input_kind}
use obs_osc.Util.Lookup.{osc_visit_sources-visit_each}
use obs_osc.Obs.Actions.{Handle, set_muted}
use obs_osc.Obs.Readings.{reads, Reads, Env, Ui, input, scene}
use obs_osc.Controls.Outputs.{run_output_command}
use obs_osc.Controls.Sources.{mute_visit}
use obs_osc.Controls.Poll.{poll_route, poll_dispatch}
use obs_osc.Controls.Polls.{replies, poll_dispatch_one_datagram}
use obs_osc.Controls.Dispatch.{Desk, osc_dispatch_command, run_command}
use obs_osc.Controls.Driving.{Drives, run_output_command-Drives}
use obs_osc.Controls.Arrivals.{arrive, arrive_all, arrive_bundle_each}

abbrev pub client : Endpoint
client = record {
  family = inet;
  port = 7000;
  address = 127 ∷ 0 ∷ 0 ∷ 1 ∷ [];
  scope = 0;
  rest = [];
  len = 16;
}

-- The microphone is 1, the scene is 2, its one item is 3.
abbrev name : Handle → Bytes
name h = if h == 1 then codes "Mic" else codes "Main"

abbrev pub studio_obs : Reads
studio_obs = record {
  source_by_name = λ t. if str_eq t (codes "Mic") then some 1 else none;
  sources = 1 ∷ [];
  scenes = 2 ∷ [];
  transitions = [];
  hotkeys = [];
  source_name = name;
  source_type = λ h. if h == 1 then input else scene;
  muted = λ h. false;
  get_ref = λ h. true;
  active = λ h. true;
  showing = λ h. true;
  enabled = λ h. true;
  volume = λ h. 0x3f80_0000;
  media_state = λ h. 0;
  controllable_media = λ h. false;
  filters = λ h. [];
  properties = λ h. [];
  setting_bool = λ h key. false;
  setting_int = λ h key. 0;
  setting_float = λ h key. 0;
  setting_string = λ h key. [];
  items = λ h. 3 ∷ [];
  item_source = λ item. some 1;
  item_visible = λ item. true;
  item_locked = λ item. false;
  item_order = λ item. 0;
  item_pos = λ item. (0, 0);
  item_scale = λ item. (0, 0);
  item_rot = λ item. 0;
  item_crop = λ item. record { left = 0; top = 0; right = 0; bottom = 0 };
  output_active = λ id. false;
  recording_paused = false;
  preview_program_mode = false;
  current_scene = some 2;
  current_preview_scene = none;
  current_transition = none;
  current_profile = none;
  current_scene_collection = none;
  profiles = none;
  scene_collections = none;
}

abbrev pub env : Env
env = record {
  obs = λ calls. studio_obs;
  floats = record {
    less = λ a b. false;
    times = λ a b. a;
    over = λ a b. a;
    sqrt = λ a. a;
    log10 = λ a. a;
    pow = λ a b. a;
  };
  conv = record { int_of_float = λ f. 0; float_of_int = λ i. 0 };
  atoi = λ s. pos 0;
  media_state_playing = 1;
  media_state_none = 0;
}

abbrev sending : Server
sending = record fresh_server { running = true; fd = some 3; send_running = true }

abbrev pub ui : Ui
ui = record { calls = []; out = record { server = sending; batch = no_batch } }

abbrev pub desk : Desk
desk = record { registry = no_registrations; ui = ui }

abbrev poll_items : Bytes
poll_items = codes "/visible/Main"

abbrev mute_mic : OscMessage
mute_mic = record { address = codes "/mute/Mic"; args = osc_int 1 ∷ [] }

abbrev subscribe_mute : OscMessage
subscribe_mute = record { address = codes "/subscribe"; args = osc_str (codes "/mute/*") ∷ [] }

mute_mic-FitsBundle : FitsBundle mute_mic
unfolding starts_with osc_build_message
mute_mic-FitsBundle = (
  record {
    rooted = refl;
    nul_free = ground arith;
    address_bound = omega arith;
    args_bound = omega arith;
    sendable = (int 1 (omega arith) refl, tt);
  },
  omega arith,
)

-- The command reaches OBS.
mutes : (osc_dispatch_command env mute_mic client desk).ui.calls ≡ set_muted 1 true ∷ []
unfolding osc_dispatch_command run_command starts_with str_eq
mutes = refl

-- The scene has the microphone twice.
abbrev twice : Env
twice = record env {
  obs = λ calls. record studio_obs { source_by_name = λ t. some 2; items = λ h. 3 ∷ 4 ∷ [] };
}

abbrev shown : OscMessage
shown = record { address = codes "/visible/Main/Mic"; args = osc_int 1 ∷ [] }

shown-FitsBundle : FitsBundle shown
unfolding starts_with osc_build_message
shown-FitsBundle = (
  record {
    rooted = refl;
    nul_free = ground arith;
    address_bound = omega arith;
    args_bound = omega arith;
    sendable = (int 1 (omega arith) refl, tt);
  },
  omega arith,
)

two_replies : replies twice client poll_items ui ≡ map built (shown ∷ shown ∷ [])
unfolding poll_route osc_build_message str_eq starts_with begin_batch osc_selector_matches
    endpoint_same
two_replies = refl

poll_dispatch_one_datagram_example :
    (datagrams : List Bytes) × (length datagrams ≤ 1)
    × ((poll_dispatch twice client poll_items ui).0.out.server
        ≡ enqueue_all sending client datagrams)
    × (parse_all datagrams [] ≡ ok (shown ∷ shown ∷ []))
poll_dispatch_one_datagram_example =
    poll_dispatch_one_datagram twice client poll_items ui (shown ∷ shown ∷ [])
      (shown-FitsBundle, (shown-FitsBundle, tt)) two_replies

run_output_command-Drives_example :
    Drives stream env ui (run_output_command env stream mute_mic (codes "toggle") ui)
run_output_command-Drives_example =
    run_output_command-Drives stream env ui mute_mic (codes "toggle")

osc_visit_sources-visit_each_example :
    osc_visit_sources (reads env) (codes "Mic") input_kind (mute_visit env none) ui
    ≡ visit_each
        (visit_source (reads env) (codes "Mic") input_kind (mute_visit env none))
        (1 ∷ [])
        ui
unfolding osc_has_wildcard str_eq
osc_visit_sources-visit_each_example =
    osc_visit_sources-visit_each env (codes "Mic") (mute_visit env none) name
      (λ h. if h == 1 then input else scene) (λ calls h. refl) (λ calls h. refl) refl ui
      (refl, inl (refl, ([], [], refl, tt, tt)))

arrive_bundle_each_example :
    arrive env client (build_bundle (map built (mute_mic ∷ mute_mic ∷ []))) desk
    ≡ arrive_all env client (map built (mute_mic ∷ mute_mic ∷ [])) desk
arrive_bundle_each_example =
    arrive_bundle_each env client (mute_mic ∷ mute_mic ∷ []) desk
      (mute_mic-FitsBundle, (mute_mic-FitsBundle, tt))

abbrev packet : OutPacket
packet = record { target = client; bytes = 1 ∷ 2 ∷ [] }

send_rounds-drain_example :
    send_rounds 2 (record sending { send_queue = packet ∷ packet ∷ [] })
    ≡ (sending, packet ∷ packet ∷ [])
send_rounds-drain_example =
    send_rounds-drain (record sending { send_queue = packet ∷ packet ∷ [] }) 3 refl
