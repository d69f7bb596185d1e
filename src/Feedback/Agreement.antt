-- ===== src/Feedback/Agreement.antt =====
-- An event that the frontend reports, and the poll of the same address.
use obs_osc.Base.{Bool, true, false, List, [], ◌∷◌, some, Bytes, str_eq, ◌≡◌, refl, ap, ◌∙◌}
use obs_osc.Net.{Endpoint}
use obs_osc.Message.Types.{OscArgument, osc_str}
use obs_osc.Addresses.Names
use obs_osc.Addresses.Names.{OutputId, stream, record_output, replay, virtualcam}
use obs_osc.Server.Batch.{begin_batch, end_batch}
use obs_osc.Obs.Actions.{Handle}
use obs_osc.Obs.Readings.{Reads, Env, Ui, reads}
use obs_osc.Objects.Items.{reply, osc_bool, name_of}
use obs_osc.Controls.Branch.{done}
use obs_osc.Controls.Poll.{text_of, poll_values, poll_route, answered, poll_dispatch}
use obs_osc.Feedback.Signals.{Sink, feedback}
use obs_osc.Feedback.Events.{
  FrontendEvent, scene_changed, preview_scene_changed, studio_mode_enabled, studio_mode_disabled,
  transition_changed, streaming_started, streaming_stopped, recording_started, recording_stopped,
  recording_paused, recording_unpaused, replay_buffer_started, replay_buffer_stopped,
  replay_buffer_saved, virtualcam_started, virtualcam_stopped, profile_changed,
  scene_collection_changed, other_event, frontend_event_cb, send_source_name, send_state,
}

-- What an event that reports a state says of OBS; the others report none.
abbrev pub Happened : Reads → FrontendEvent → Type 0
Happened r scene_changed = (scene : Handle) × (r.current_scene ≡ some scene)
Happened r preview_scene_changed = (scene : Handle) × (r.current_preview_scene ≡ some scene)
Happened r studio_mode_enabled = r.preview_program_mode ≡ true
Happened r studio_mode_disabled = r.preview_program_mode ≡ false
Happened r transition_changed = (found : Handle) × (r.current_transition ≡ some found)
Happened r streaming_started = r.output_active stream ≡ true
Happened r streaming_stopped = r.output_active stream ≡ false
Happened r recording_started = r.output_active record_output ≡ true
Happened r recording_stopped = r.output_active record_output ≡ false
Happened r recording_paused = r.recording_paused ≡ true
Happened r recording_unpaused = r.recording_paused ≡ false
Happened r replay_buffer_started = r.output_active replay ≡ true
Happened r replay_buffer_stopped = r.output_active replay ≡ false
Happened r virtualcam_started = r.output_active virtualcam ≡ true
Happened r virtualcam_stopped = r.output_active virtualcam ≡ false
Happened r profile_changed = Unit
Happened r scene_collection_changed = Unit
Happened r replay_buffer_saved = ⊥
Happened r other_event = ⊥

-- One reply, in a batch of its own.
abbrev pub answer : Endpoint → Bytes → List OscArgument → Ui → Ui
answer to address args u =
    let v = reply to address args (record u { out = begin_batch u.out to }) in
    record v { out = end_batch v.out }

-- The event is sent as a message that the poll of its address answers with.
abbrev pub Agrees : Env → Endpoint → FrontendEvent → Ui → Sink → Type 0
Agrees env to event u k =
    (address : Bytes) × (args : List OscArgument) × (frontend_event_cb (reads env u) event k
      ≡ feedback address args k)
    × (poll_dispatch env to address u ≡ (answer to address args u, true))

-- A route with one reply is polled with that reply.
poll_dispatch-done :
    (env : Env) (to : Endpoint) (a : Bytes) (args : List OscArgument) (act : Ui → Ui) (u : Ui)
    → poll_route env to a ≡ done act
    → ((v : Ui) → v.calls ≡ u.calls → act v ≡ reply to a args v)
    → poll_dispatch env to a u ≡ (answer to a args u, true)
unfolding poll_dispatch
poll_dispatch-done env to a args act u route h =
    let v = record u { out = begin_batch u.out to } in
    ap (λ b. let (w, found) = answered env to b v in (record w { out = end_batch w.out }, found))
      route
    ∙ ap (λ w. (record w { out = end_batch w.out }, true)) (h v refl)

module _ (env : Env) (to : Endpoint) (u : Ui) (k : Sink) where
  -- What a route with one output or flag replies.
  abbrev agrees :
      (event : FrontendEvent) (address : Bytes) (args : List OscArgument) (act : Ui → Ui)
      → frontend_event_cb (reads env u) event k ≡ feedback address args k
      → poll_route env to address ≡ done act
      → ((v : Ui) → v.calls ≡ u.calls → act v ≡ reply to address args v)
      → Agrees env to event u k
  agrees event address args act sent route h =
      (address, args, sent, poll_dispatch-done env to address args act u route h)

  state_agrees :
      (event : FrontendEvent) (address : Bytes) (state : Reads → Bool) (b : Bool)
      → frontend_event_cb (reads env u) event k ≡ feedback address (osc_bool b) k
      → poll_route env to address ≡ done (λ v. reply to address (osc_bool (state (reads env v))) v)
      → state (reads env u) ≡ b
      → Agrees env to event u k
  state_agrees event address state b sent route h =
      agrees event address (osc_bool b) _ sent route (λ v e.
        ap (λ calls. reply to address (osc_bool (state (env.obs calls))) v) e
        ∙ ap (λ c. reply to address (osc_bool c) v) h)

  text_agrees :
      (event : FrontendEvent) (address : Bytes) (text : Reads → Bytes) (name : Bytes)
      → frontend_event_cb (reads env u) event k ≡ feedback address (osc_str name ∷ []) k
      → poll_route env to address
        ≡ done (λ v. reply to address (osc_str (text (reads env v)) ∷ []) v)
      → text (reads env u) ≡ name
      → Agrees env to event u k
  text_agrees event address text name sent route h =
      agrees event address (osc_str name ∷ []) _ sent route (λ v e.
        ap (λ calls. reply to address (osc_str (text (env.obs calls)) ∷ []) v) e
        ∙ ap (λ t. reply to address (osc_str t ∷ []) v) h)

-- An event that reports a state of OBS sends what a poll of the same address replies, address and
-- arguments, when OBS is in the state that the event reports.
pub frontend_event_cb-poll_dispatch :
    (env : Env) (to : Endpoint) (event : FrontendEvent) (u : Ui) (k : Sink)
    → Happened (reads env u) event
    → Agrees env to event u k
unfolding frontend_event_cb send_source_name send_state poll_route poll_values str_eq
frontend_event_cb-poll_dispatch env to scene_changed u k (s, e) =
    text_agrees env to u k scene_changed Names.program (λ r. name_of r r.current_scene)
      ((reads env u).source_name s) (ap (λ o. send_source_name (reads env u) Names.program o k) e)
      refl (ap (name_of (reads env u)) e)
frontend_event_cb-poll_dispatch env to preview_scene_changed u k (s, e) =
    text_agrees env to u k preview_scene_changed Names.preview
      (λ r. name_of r r.current_preview_scene) ((reads env u).source_name s)
      (ap (λ o. send_source_name (reads env u) Names.preview o k) e) refl
      (ap (name_of (reads env u)) e)
frontend_event_cb-poll_dispatch env to transition_changed u k (s, e) =
    text_agrees env to u k transition_changed Names.transition (λ r. name_of r r.current_transition)
      ((reads env u).source_name s)
      (ap (λ o. send_source_name (reads env u) Names.transition o k) e) refl
      (ap (name_of (reads env u)) e)
frontend_event_cb-poll_dispatch env to studio_mode_enabled u k e =
    state_agrees env to u k studio_mode_enabled Names.studio (λ r. r.preview_program_mode) true refl
      refl e
frontend_event_cb-poll_dispatch env to studio_mode_disabled u k e =
    state_agrees env to u k studio_mode_disabled Names.studio (λ r. r.preview_program_mode) false
      refl refl e
frontend_event_cb-poll_dispatch env to streaming_started u k e =
    state_agrees env to u k streaming_started Names.stream_route (λ r. r.output_active stream) true
      refl refl e
frontend_event_cb-poll_dispatch env to streaming_stopped u k e =
    state_agrees env to u k streaming_stopped Names.stream_route (λ r. r.output_active stream) false
      refl refl e
frontend_event_cb-poll_dispatch env to recording_started u k e =
    state_agrees env to u k recording_started Names.record_route
      (λ r. r.output_active record_output) true refl refl e
frontend_event_cb-poll_dispatch env to recording_stopped u k e =
    state_agrees env to u k recording_stopped Names.record_route
      (λ r. r.output_active record_output) false refl refl e
frontend_event_cb-poll_dispatch env to replay_buffer_started u k e =
    state_agrees env to u k replay_buffer_started Names.replay_route (λ r. r.output_active replay)
      true refl refl e
frontend_event_cb-poll_dispatch env to replay_buffer_stopped u k e =
    state_agrees env to u k replay_buffer_stopped Names.replay_route (λ r. r.output_active replay)
      false refl refl e
frontend_event_cb-poll_dispatch env to virtualcam_started u k e =
    state_agrees env to u k virtualcam_started Names.virtualcam_route
      (λ r. r.output_active virtualcam) true refl refl e
frontend_event_cb-poll_dispatch env to virtualcam_stopped u k e =
    state_agrees env to u k virtualcam_stopped Names.virtualcam_route
      (λ r. r.output_active virtualcam) false refl refl e
frontend_event_cb-poll_dispatch env to recording_paused u k e =
    state_agrees env to u k recording_paused Names.record_paused (λ r. r.recording_paused) true refl
      refl e
frontend_event_cb-poll_dispatch env to recording_unpaused u k e =
    state_agrees env to u k recording_unpaused Names.record_paused (λ r. r.recording_paused) false
      refl refl e
frontend_event_cb-poll_dispatch env to profile_changed u k e =
    text_agrees env to u k profile_changed Names.profile (λ r. text_of r.current_profile)
      (text_of (reads env u).current_profile) refl refl refl
frontend_event_cb-poll_dispatch env to scene_collection_changed u k e =
    text_agrees env to u k scene_collection_changed Names.collection
      (λ r. text_of r.current_scene_collection) (text_of (reads env u).current_scene_collection)
      refl refl refl
frontend_event_cb-poll_dispatch env to replay_buffer_saved u k e = elim e [ ]
frontend_event_cb-poll_dispatch env to other_event u k e = elim e [ ]
