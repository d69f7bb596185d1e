-- ===== src/Samples/Hooking.antt =====
-- src/osc-feedback.cpp: the filter hooks and the events of the frontend, on concrete signals.
use obs_osc.Base.{true, List, [], ◌∷◌, ◌+◌, ◌≤◌, ◌≡◌, refl, some, ◌==◌}
use obs_osc.Server.State.{fresh_server}
use obs_osc.Subscribe.Registry.{no_registrations}
use obs_osc.Feedback.Signals.{Sink}
use obs_osc.Feedback.Events.{scene_changed}
use obs_osc.Feedback.Agreement.{Agrees, frontend_event_cb-poll_dispatch}
use obs_osc.Feedback.Hooks.{is_entry}
use obs_osc.Feedback.Histories.{
  HookSignal, initialised, filter_added, filter_removed, destroyed, unhooked, run_signals,
}
use obs_osc.Base.Counts.{count}
use obs_osc.Feedback.Pairing.{connects, disconnects, takes, releases}
use obs_osc.Feedback.Balance.{run-IsBalanced}
use obs_osc.Samples.Desk.{studio_obs, env, client, ui}

abbrev sink : Sink
sink = record {
  feedback_enabled = true;
  registry = no_registrations;
  server = fresh_server;
  peer_messages = [];
  last_sent = [];
}

frontend_event_cb-poll_dispatch_example : Agrees env client scene_changed ui sink
frontend_event_cb-poll_dispatch_example =
    frontend_event_cb-poll_dispatch env client scene_changed ui sink (2, refl)

abbrev signals : List HookSignal
signals =
    initialised studio_obs
    ∷ filter_added studio_obs 1 (some 7)
    ∷ filter_added studio_obs 1 (some 8)
    ∷ filter_removed 1 (some 7)
    ∷ destroyed studio_obs (some 1)
    ∷ []

run-IsBalanced_example :
    (count (takes 7) (run_signals signals unhooked).calls
      ≡ count (releases 7) (run_signals signals unhooked).calls
        + count (λ entry. entry.filter == 7) (run_signals signals unhooked).entries)
    × (count (connects 1 7) (run_signals signals unhooked).calls
        ≡ count (disconnects 1 7) (run_signals signals unhooked).calls
          + count (is_entry 1 7) (run_signals signals unhooked).entries)
    × (count (is_entry 1 7) (run_signals signals unhooked).entries ≤ 1)
run-IsBalanced_example = run-IsBalanced signals 1 7

-- The destruction of the parent drops what is left.
all_dropped : (run_signals signals unhooked).entries ≡ []
unfolding run_signals
all_dropped = refl
