-- ===== src/Feedback/Events.antt =====
-- `frontend_event_cb` of src/osc-feedback.cpp: each event of the frontend is reported at once.
use obs_osc.Base.{ℕ, [], ◌∷◌, Option, none, some, Bytes}
use obs_osc.Message.Types.{osc_int, osc_str}
use obs_osc.Addresses.Names
use obs_osc.Obs.Actions.{Handle}
use obs_osc.Obs.Readings.{Reads}
use obs_osc.Controls.Poll.{text_of}
use obs_osc.Feedback.Signals.{Sink, feedback}

-- The `OBS_FRONTEND_EVENT_` names that have a `case`; `other_event` stands for the rest.
pub data FrontendEvent : Type 0 where
  scene_changed preview_scene_changed : FrontendEvent
  studio_mode_enabled studio_mode_disabled : FrontendEvent
  transition_changed : FrontendEvent
  streaming_started streaming_stopped : FrontendEvent
  recording_started recording_stopped : FrontendEvent
  recording_paused recording_unpaused : FrontendEvent
  replay_buffer_started replay_buffer_stopped replay_buffer_saved : FrontendEvent
  virtualcam_started virtualcam_stopped : FrontendEvent
  profile_changed scene_collection_changed other_event : FrontendEvent

unfoldable pub send_source_name : Reads → Bytes → Option Handle → Sink → Sink
unfolding feedback
send_source_name r address none k = k
send_source_name r address (some source) k =
    feedback address (osc_str (r.source_name source) ∷ []) k

unfoldable pub send_state : Bytes → ℕ → Sink → Sink
unfolding feedback
send_state address state = feedback address (osc_int state ∷ [])

unfoldable pub frontend_event_cb : Reads → FrontendEvent → Sink → Sink
unfolding send_source_name send_state feedback
frontend_event_cb r scene_changed = send_source_name r Names.program r.current_scene
frontend_event_cb r preview_scene_changed = send_source_name r Names.preview r.current_preview_scene
frontend_event_cb r studio_mode_enabled = send_state Names.studio 1
frontend_event_cb r studio_mode_disabled = send_state Names.studio 0
frontend_event_cb r transition_changed = send_source_name r Names.transition r.current_transition
frontend_event_cb r streaming_started = send_state Names.stream_route 1
frontend_event_cb r streaming_stopped = send_state Names.stream_route 0
frontend_event_cb r recording_started = send_state Names.record_route 1
frontend_event_cb r recording_stopped = send_state Names.record_route 0
frontend_event_cb r recording_paused = send_state Names.record_paused 1
frontend_event_cb r recording_unpaused = send_state Names.record_paused 0
frontend_event_cb r replay_buffer_started = send_state Names.replay_route 1
frontend_event_cb r replay_buffer_stopped = send_state Names.replay_route 0
frontend_event_cb r replay_buffer_saved = send_state Names.replay_saved 1
frontend_event_cb r virtualcam_started = send_state Names.virtualcam_route 1
frontend_event_cb r virtualcam_stopped = send_state Names.virtualcam_route 0
frontend_event_cb r profile_changed =
    feedback Names.profile (osc_str (text_of r.current_profile) ∷ [])
frontend_event_cb r scene_collection_changed =
    feedback Names.collection (osc_str (text_of r.current_scene_collection) ∷ [])
frontend_event_cb r other_event = λ k. k
