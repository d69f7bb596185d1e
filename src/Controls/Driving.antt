-- ===== src/Controls/Driving.antt =====
-- What a command to an output asks of OBS.
use obs_osc.Base.{
  Bool, true, false, not, ◌&&◌, ◌≤◌, List, [], ◌∷◌, ◌++◌, All, length, Bytes, str_eq, ◌≡◌, refl,
  inl, inr, Bool-cases, append-nil, sym, ap, arith,
}
use obs_osc.Message.Types.{OscMessage}
use obs_osc.Message.Access.{arg_bool}
use obs_osc.Addresses.Names.{OutputId, record_output, replay, sub_save, sub_pause}
use obs_osc.Obs.Actions.{Action, output_start, output_stop, recording_pause, replay_buffer_save}
use obs_osc.Obs.Readings.{Reads, Env, Ui, request, reads}
use obs_osc.Controls.Outputs.{can_save, can_pause, start_it, drive, run_output_command}

-- An action that makes sense for this output in the state that it is in.
abbrev pub IsSensible : OutputId → Reads → Action → Type 0
IsSensible id r (output_start other) = (other ≡ id) × (r.output_active id ≡ false)
IsSensible id r (output_stop other) = (other ≡ id) × (r.output_active id ≡ true)
IsSensible id r replay_buffer_save = (id ≡ replay) × (r.output_active id ≡ true)
IsSensible id r (recording_pause paused) = id ≡ record_output
IsSensible id r _ = ⊥

-- At most one new request, which makes sense, and no reply.
abbrev pub Drives : OutputId → Env → Ui → Ui → Type 0
Drives id env u v =
    (added : List Action) × (v ≡ record u { calls = u.calls ++ added })
    × (length added ≤ 1)
    × All (IsSensible id (reads env u)) added

module _ (id : OutputId) (env : Env) (u : Ui) where
  idle : Drives id env u u
  idle = ([], ap (λ calls. record u { calls = calls }) (sym (append-nil u.calls)), omega arith, tt)

  one : (action : Action) → IsSensible id (reads env u) action → Drives id env u (request action u)
  one action h = (action ∷ [], refl, omega arith, (h, tt))

  drive-Drives :
      (wanted : Bool) (is_active : Bool)
      → (reads env u).output_active id ≡ is_active
      → Drives id env u (drive id wanted is_active u)
  unfolding drive
  drive-Drives true true e = idle
  drive-Drives true false e = one (output_start id) (refl, e)
  drive-Drives false true e = one (output_stop id) (refl, e)
  drive-Drives false false e = idle

  can_save-replay : (i : OutputId) → can_save i ≡ true → i ≡ replay
  can_save-replay replay h = refl
  can_save-replay OutputId.stream h = ground (arith, h)
  can_save-replay OutputId.virtualcam h = ground (arith, h)
  can_save-replay record_output h = ground (arith, h)

  can_pause-record : (i : OutputId) → can_pause i ≡ true → i ≡ record_output
  can_pause-record record_output h = refl
  can_pause-record OutputId.stream h = ground (arith, h)
  can_pause-record OutputId.virtualcam h = ground (arith, h)
  can_pause-record replay h = ground (arith, h)

  -- A command to an output requests at most one change: a start only of this output while it is not
  -- active, a stop only of this output while it is, a save only of the replay buffer while it is
  -- active, a pause only of the recording. It sends no reply.
  pub run_output_command-Drives :
      (msg : OscMessage) (sub : Bytes) → Drives id env u (run_output_command env id msg sub u)
  unfolding run_output_command
  run_output_command-Drives msg sub =
      let r = reads env u in
      elim (Bool-cases (can_save id && str_eq sub sub_save)) [
        | inl save ↦ rw save (elim (Bool-cases (r.output_active id)) [
          | inl e ↦ rw e (one replay_buffer_save (can_save-replay id (ground (arith, save)), e))
          | inr e ↦ rw e idle
        ])
        | inr other ↦ rw other (elim (Bool-cases (can_pause id && str_eq sub sub_pause)) [
          | inl pause ↦ rw pause (
              one (recording_pause (arg_bool msg 0 (not r.recording_paused)))
                (can_pause-record id (ground (arith, pause))))
          | inr drives ↦
              rw drives
                (drive-Drives (start_it msg sub (r.output_active id)) (r.output_active id) refl)
        ])
      ]
