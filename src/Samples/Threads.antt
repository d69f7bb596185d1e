-- ===== src/Samples/Threads.antt =====
-- The UI thread and a websocket client on concrete schedules; a mute command and its poll over an OBS
-- that obeys.
use obs_osc.Base.{
  ◌≤◌, ◌≡◌, refl, true, false, Bool, [], ◌∷◌, ◌++◌, none, List, codes, str_eq, arith, ◌||◌, not,
}
use obs_osc.Message.Types.{osc_int}
use obs_osc.Message.Build.{osc_build_message}
use obs_osc.Addresses.Routes.{mute_for}
use obs_osc.Util.Glob.{osc_has_wildcard}
use obs_osc.Util.Visit.{osc_is_input}
use obs_osc.Subscribe.Registry.{no_registrations}
use obs_osc.Obs.Actions.{Action, set_muted}
use obs_osc.Obs.Readings.{Env}
use obs_osc.Controls.Dispatch.{handle_datagram, osc_dispatch_command}
use obs_osc.Controls.Recall.{replied, nonzero_int, mute_then_poll}
use obs_osc.Tasks.Queue.{dispatching, walking, QueuedTask, Stage, run_queued}
use obs_osc.Tasks.Schedule.{
  Demand, datagram, lookup, Moment, comes, runs, IsFifo, over, demanded, ran, play, serve_all,
  play_linear,
}
use obs_osc.Base.Counts.{count}
use obs_osc.Ws.Peers.{Peers, enter, leave, shutdown_all}
use obs_osc.Ws.Racing.{Traffic, Reach, here, next, comes, is_socket, closes_once}
use obs_osc.Ws.Session.{serve}
use obs_osc.Ws.Serving.{serve_from}
use obs_osc.Ws.Served.{all_sent, Leaves, serve_from-Leaves}
use obs_osc.Samples.Desk.{client, studio_obs, env, ui, desk}
use obs_osc.Samples.Tree.{objects}

-- The microphone is muted as it was last set.
abbrev last_set : List Action → Bool → Bool
last_set [] b = b
last_set (set_muted source muted ∷ calls) b = last_set calls muted
last_set (_ ∷ calls) b = last_set calls b

abbrev obeying : Env
obeying = record env { obs = λ calls. record studio_obs { muted = λ h. last_set calls false } }

mute_then_poll_example :
    osc_dispatch_command obeying
      (record { address = mute_for (codes "Mic"); args = [] })
      client
      (osc_dispatch_command obeying
        (record { address = mute_for (codes "Mic"); args = osc_int 1 ∷ [] })
        client
        desk)
    ≡ record desk {
      ui = record {
        calls = [] ++ (set_muted 1 true ∷ []);
        out = replied ui.out client (mute_for (codes "Mic")) (osc_int 1 ∷ []);
      };
    }
unfolding osc_has_wildcard osc_is_input str_eq
mute_then_poll_example =
    mute_then_poll obeying (codes "Mic") 1 (osc_int 1) [] true client client desk (omega arith) refl
      (record { found = refl; named = refl; fits = refl })
      (nonzero_int 1 (omega arith) (omega arith) refl refl)
      (record { input = record { found = refl; named = refl; fits = refl }; state = refl })

abbrev mute : Demand
mute = datagram (osc_build_message [] (codes "/mute/Mic") (osc_int 1 ∷ [])) client

abbrev document : Demand
document = lookup (codes "/mute/Mic")

abbrev stage : Stage
stage = record { desk = desk; documents = [] }

abbrev muting : QueuedTask
muting = record {
  fn = dispatching (record {
    msgs = record { address = codes "/mute/Mic"; args = osc_int 1 ∷ [] } ∷ [];
    sender = client;
  });
  wait = false;
}

abbrev reading : QueuedTask
reading = record { fn = walking (codes "/mute/Mic"); wait = true }

-- A datagram and a request come before the UI thread runs the first task; the second waits.
abbrev moments : List Moment
moments = comes mute ∷ comes document ∷ runs muting ∷ []

moments-IsFifo : IsFifo [] moments (reading ∷ [])
unfolding handle_datagram osc_build_message
moments-IsFifo = demanded [] (reading ∷ []) mute (comes document ∷ runs muting ∷ []) (
    demanded (muting ∷ []) (reading ∷ []) document (runs muting ∷ [])
      (ran muting (reading ∷ []) (reading ∷ []) [] (over (reading ∷ []))))

play_linear_example :
    run_queued objects obeying (reading ∷ []) (play objects obeying moments stage)
    ≡ serve_all objects obeying (mute ∷ document ∷ []) stage
play_linear_example = play_linear objects obeying moments (reading ∷ []) stage moments-IsFifo

abbrev no_clients : Peers
no_clients = record { shared = []; conns = []; registry = no_registrations; closed = [] }

-- A client that sends a ping.
serve_from-Leaves_example :
    Leaves no_clients 7
      (not true || all_sent (serve (λ n. true) (137 ∷ 0 ∷ [])))
      (serve_from (λ message. none) 1 (λ n. true) 7 (137 ∷ 0 ∷ []) true no_clients []).0
serve_from-Leaves_example =
    serve_from-Leaves (λ message. none) 1 no_clients
      (record { unnamed = tt; unheard = tt; unshared = tt }) 7 (λ n. true) (137 ∷ 0 ∷ []) true []

abbrev idle_traffic : Traffic
idle_traffic = record { peers = no_clients; entered = [] }

abbrev one_client : Traffic
one_client = record { peers = enter 1 7 no_clients; entered = 7 ∷ [] }

one_client-Reach : Reach (λ message. none) idle_traffic one_client
unfolding enter
one_client-Reach = next here (comes 1 7)

closes_once_example :
    (count (is_socket 7) one_client.peers.closed ≤ count (is_socket 7) one_client.entered)
    × (count (is_socket 7) (shutdown_all one_client.peers).closed
        ≤ count (is_socket 7) one_client.entered)
    × (count (is_socket 7) (leave 1 (shutdown_all one_client.peers)).closed
        ≤ count (is_socket 7) one_client.entered)
closes_once_example =
    closes_once (λ message. none) idle_traffic one_client
      (record { unshared = refl; unclosed = refl; unentered = refl }) one_client-Reach 1 7
