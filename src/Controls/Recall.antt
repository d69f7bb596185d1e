-- ===== src/Controls/Recall.antt =====
-- A mute command, and the poll that reads it back.
use obs_osc.Base.{
  ℕ, ◌-◌, ◌^◌, ◌≢◌, not, if◌then◌else◌, Bool, true, false, List, [], ◌∷◌, ◌++◌, some, Bytes, str_eq,
  starts_with, length, ◌≡◌, refl, ap, ◌∙◌, ◌<◌, arith,
}
use obs_osc.Net.{Endpoint, endpoint_same_refl}
use obs_osc.Message.Types.{OscArgument, blank, osc_int, osc_flt, osc_str, osc_blob}
use obs_osc.Message.Access.{arg_is_toggle, arg_bool}
use obs_osc.Message.Build.{osc_build_message}
use obs_osc.Addresses.Names
use obs_osc.Addresses.Names.{mute_prefix, outputs}
use obs_osc.Addresses.Routes.{mute_for, has_prefix}
use obs_osc.Addresses.Laws.{tail_iff}
use obs_osc.Server.State.{enqueue}
use obs_osc.Server.Batch.{begin_batch, end_batch, Outbox, batch_datagrams}
use obs_osc.Server.Batch
use obs_osc.Util.Glob.{osc_has_wildcard}
use obs_osc.Util.Visit.{osc_is_input, type_ok, osc_visit_sources}
use obs_osc.Obs.Actions.{Handle, set_muted}
use obs_osc.Obs.Readings.{Env, Ui, request, reads, Reads}
use obs_osc.Objects.Items.{target, reply, osc_bool}
use obs_osc.Controls.Branch.{done, under, exact_output}
use obs_osc.Controls.Sources.{poll_mute_inputs, poll_mute_visit}
use obs_osc.Controls.Poll.{poll_values, poll_sources, poll_route, poll_dispatch}
use obs_osc.Controls.Dispatch.{switch_value, Desk, osc_dispatch_command}
use obs_osc.Controls.Muting.{osc_dispatch_command-mute_for}

poll_route-mute :
    (env : Env) (to : Endpoint) (name : Bytes)
    → 0 < length name
    → poll_route env to (mute_for name) ≡ done (poll_mute_inputs env to name)
unfolding poll_route poll_values poll_sources exact_output under starts_with str_eq
poll_route-mute env to name h = rw ((tail_iff (mute_for name) mute_prefix name).1 (refl, h)) refl

-- OBS has an input of that name, muted or not.
pub record HasInput (r : Reads) (name : Bytes) (source : Handle) : Type 0 where
  pub found : r.source_by_name name ≡ some source
  pub named : r.source_name source ≡ name
  pub fits : osc_is_input r source ≡ true

poll_mute_inputs-found :
    (env : Env) (to : Endpoint) (name : Bytes) (source : Handle) (u : Ui)
    → osc_has_wildcard name ≡ false
    → HasInput (reads env u) name source
    → poll_mute_inputs env to name u
      ≡ reply to (mute_for name) (osc_bool ((reads env u).muted source)) u
unfolding poll_mute_inputs osc_visit_sources type_ok poll_mute_visit
poll_mute_inputs-found env to name source u exact has =
    rw (exact, has.found, has.fits, has.named) refl

-- A batch of one reply.
abbrev pub replied : Outbox → Endpoint → Bytes → List OscArgument → Outbox
replied o to address args = record {
  server = enqueue o.server to (osc_build_message [] address args);
  batch = record { to = to; active = false; messages = [] };
}

one_reply :
    (o : Outbox) (to : Endpoint) (address : Bytes) (args : List OscArgument)
    → end_batch (Batch.reply (begin_batch o to) to address args) ≡ replied o to address args
unfolding end_batch Batch.reply begin_batch batch_datagrams
one_reply o to address args = rw (endpoint_same_refl to) refl

poll_dispatch-mute_for :
    (env : Env) (to : Endpoint) (name : Bytes) (source : Handle) (u : Ui)
    → 0 < length name
    → osc_has_wildcard name ≡ false
    → HasInput (reads env u) name source
    → poll_dispatch env to (mute_for name) u ≡ (
      record u { out = replied u.out to (mute_for name) (osc_bool ((reads env u).muted source)) },
      true,
    )
unfolding poll_dispatch reply
poll_dispatch-mute_for env to name source u h exact has =
    let begun : Ui = record u { out = begin_batch u.out to } in
    rw (poll_route-mute env to name h) (
      ap (λ v. (record v { out = end_batch v.out }, true))
        (poll_mute_inputs-found env to name source begun exact has)
      ∙ ap (λ out. (record u { out = out }, true))
          (one_reply u.out to (mute_for name) (osc_bool ((reads env u).muted source))))

-- A poll that is answered changes what the UI thread has on its way, and nothing else.
dispatch_polled :
    (env : Env) (a : Bytes) (to : Endpoint) (d : Desk) (polled : Ui)
    → has_prefix a Names.root ≡ true
    → str_eq a Names.subscribe ≡ false
    → str_eq a Names.unsubscribe ≡ false
    → poll_dispatch env to a d.ui ≡ (polled, true)
    → osc_dispatch_command env (record { address = a; args = [] }) to d ≡ record d { ui = polled }
unfolding osc_dispatch_command
dispatch_polled env a to d polled rooted one two answered = ground arith

-- A message with no arguments to the mute address of an input is answered with one message, from that
-- address, of its muted state; nothing else changes.
pub osc_dispatch_command-poll_mute_for :
    (env : Env) (name : Bytes) (source : Handle) (to : Endpoint) (d : Desk)
    → 0 < length name
    → osc_has_wildcard name ≡ false
    → HasInput (reads env d.ui) name source
    → osc_dispatch_command env (record { address = mute_for name; args = [] }) to d ≡ record d {
      ui = record (d.ui) {
        out = replied d.ui.out to (mute_for name) (osc_bool ((reads env d.ui).muted source));
      };
    }
unfolding has_prefix starts_with str_eq
osc_dispatch_command-poll_mute_for env name source to d h exact has =
    dispatch_polled env (mute_for name) to d _ refl refl refl
      (poll_dispatch-mute_for env to name source d.ui h exact has)

-- What an argument asks of a source that is muted or not: the integer -1 and -1.0f ask for the other
-- state, any other number than 0 and a true to mute, all else to unmute.
pub data Asks (arg : OscArgument) (current want : Bool) : Type 0 where
  other_int : arg ≡ osc_int (2 ^ 32 - 1) → want ≡ not current → Asks arg current want
  nonzero_int :
      (v : ℕ) → 0 < v → v < 2 ^ 32 - 1 → arg ≡ osc_int v → want ≡ true → Asks arg current want
  zero_int : arg ≡ osc_int 0 → want ≡ false → Asks arg current want
  other_float : arg ≡ osc_flt 0xbf80_0000 → want ≡ not current → Asks arg current want
  nonzero_float :
      (v : ℕ)
      → 0 < v
      → v ≢ 2 ^ 31
      → v ≢ 0xbf80_0000
      → arg ≡ osc_flt v
      → want ≡ true
      → Asks arg current want
  zero_float : arg ≡ osc_flt 0 → want ≡ false → Asks arg current want
  minus_zero_float : arg ≡ osc_flt (2 ^ 31) → want ≡ false → Asks arg current want
  true_tag : arg ≡ record blank { type = b'T'; i = 1 } → want ≡ true → Asks arg current want
  false_tag : arg ≡ record blank { type = b'F' } → want ≡ false → Asks arg current want
  text : (s : Bytes) → arg ≡ osc_str s → want ≡ false → Asks arg current want
  blob : (b : Bytes) → arg ≡ osc_blob b → want ≡ false → Asks arg current want

-- The code makes the same of an argument.
target-switch_value :
    (address : Bytes) (arg : OscArgument) (args : List OscArgument) (current want : Bool)
    → Asks arg current want
    → target (switch_value (record { address = address; args = arg ∷ args })) current ≡ want
unfolding switch_value arg_is_toggle arg_bool
target-switch_value address arg args current want (other_int e w) = rw (e, w) refl
target-switch_value address arg args current want (nonzero_int v h k e w) = rw (e, w) (ground arith)
target-switch_value address arg args current want (zero_int e w) = rw (e, w) refl
target-switch_value address arg args current want (other_float e w) = rw (e, w) refl
target-switch_value address arg args current want (nonzero_float v h k l e w) =
    rw (e, w) (ground arith)
target-switch_value address arg args current want (zero_float e w) = rw (e, w) refl
target-switch_value address arg args current want (minus_zero_float e w) = rw (e, w) refl
target-switch_value address arg args current want (true_tag e w) = rw (e, w) refl
target-switch_value address arg args current want (false_tag e w) = rw (e, w) refl
target-switch_value address arg args current want (text s e w) = rw (e, w) refl
target-switch_value address arg args current want (blob b e w) = rw (e, w) refl

-- What libobs promises of a source whose muted state is set: it has that state, and its name still
-- finds the same input.
pub record ShowsMuted (env : Env) (name : Bytes) (source : Handle) (u : Ui) (muted : Bool)
    : Type 0 where
  pub input : HasInput (reads env (request (set_muted source muted) u)) name source
  pub state : (reads env (request (set_muted source muted) u)).muted source ≡ muted

-- A mute command by one client, then a poll of the same address by another: OBS is asked once, for the
-- state that the command's argument asks for, and the one reply, to the one that polls, carries 1 if
-- that is to be muted and 0 if not. This is of a name with no wildcard under which OBS has an input,
-- and where OBS shows what was set.
pub mute_then_poll :
    (env : Env) (name : Bytes) (source : Handle) (arg : OscArgument) (args : List OscArgument)
    (want : Bool) (sender to : Endpoint) (d : Desk)
    → 0 < length name
    → osc_has_wildcard name ≡ false
    → HasInput (reads env d.ui) name source
    → Asks arg ((reads env d.ui).muted source) want
    → ShowsMuted env name source d.ui want
    → osc_dispatch_command env
        (record { address = mute_for name; args = [] })
        to
        (osc_dispatch_command env (record { address = mute_for name; args = arg ∷ args }) sender d)
      ≡ record d {
        ui = record {
          calls = d.ui.calls ++ (set_muted source want ∷ []);
          out = replied d.ui.out to (mute_for name) (osc_int (if want then 1 else 0) ∷ []);
        };
      }
mute_then_poll env name source arg args want sender to d h exact has asks shows =
    let set : Desk = record d { ui = request (set_muted source want) d.ui } in
    ap (osc_dispatch_command env (record { address = mute_for name; args = [] }) to) (
      osc_dispatch_command-mute_for env name source arg args sender d h exact has.found has.fits
      ∙ ap (λ b. record d { ui = request (set_muted source b) d.ui })
          (target-switch_value (mute_for name) arg args _ want asks))
    ∙ osc_dispatch_command-poll_mute_for env name source to set h exact shows.input
    ∙ ap
        (λ b. record set {
          ui = record (set.ui) { out = replied d.ui.out to (mute_for name) (osc_bool b) };
        })
        shows.state
