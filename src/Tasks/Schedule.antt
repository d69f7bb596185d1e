-- ===== src/Tasks/Schedule.antt =====
-- The receiving thread, the connection threads and the UI thread as one sequence of moments.
use obs_osc.Base.{List, [], ◌∷◌, ◌++◌, Bytes, ◌≡◌, refl, ap, ◌∙◌}
use obs_osc.Net.{Endpoint}
use obs_osc.Obs.Readings.{Env, reads}
use obs_osc.Base.Run.{Run, ok, reject, fault, out_of_fuel}
use obs_osc.Message.Types.{OscMessage}
use obs_osc.Message.Parse.{osc_parse_packet}
use obs_osc.Schema.Tree.{osc_query_schema_lookup}
use obs_osc.Schema.Data.{ObsData}
use obs_osc.Controls.Dispatch.{
  Desk, posted, handle_datagram, osc_dispatch_command, dispatch_all, run_task,
}
use obs_osc.Tasks.Queue.{
  walking, QueuedTask, osc_ui_run, Stage, post_datagram, run_work, run_queued,
}

-- A datagram reaches `handle_datagram`, or a connection asks for the document of a path.
pub data Demand : Type 0 where
  datagram : Bytes → Endpoint → Demand
  lookup : Bytes → Demand

-- What a demand queues.
abbrev pub queues : Demand → List QueuedTask
queues (datagram bytes sender) = post_datagram (handle_datagram bytes sender)
queues (lookup path) = osc_ui_run (walking path)

pub data Moment : Type 0 where
  comes : Demand → Moment
  runs : QueuedTask → Moment

-- What libobs promises of its queue for the UI thread: tasks run one at a time, each once, in the order
-- in which they were queued. Of the tasks that wait before the moments, and of those that the moments
-- queue, the ones left behind them have not run.
pub data IsFifo : List QueuedTask → List Moment → List QueuedTask → Type 0 where
  over : (waiting : List QueuedTask) → IsFifo waiting [] waiting
  demanded :
      (waiting left : List QueuedTask) (demand : Demand) (moments : List Moment)
      → IsFifo (waiting ++ queues demand) moments left
      → IsFifo waiting (comes demand ∷ moments) left
  ran :
      (task : QueuedTask) (waiting left : List QueuedTask) (moments : List Moment)
      → IsFifo waiting moments left
      → IsFifo (task ∷ waiting) (runs task ∷ moments) left

abbrev pub demands : List Moment → List Demand
demands [] = []
demands (comes demand ∷ moments) = demand ∷ demands moments
demands (runs _ ∷ moments) = demands moments

module _ {D : Type 0} (doc : ObsData D) (env : Env) where
  -- Only the UI thread touches the stage.
  abbrev pub play : List Moment → Stage → Stage
  play [] s = s
  play (comes _ ∷ moments) s = play moments s
  play (runs task ∷ moments) s = play moments (run_work doc env task.fn s)

  -- One message behind the other.
  abbrev commanded : List OscMessage → Endpoint → Desk → Desk
  commanded [] sender d = d
  commanded (msg ∷ msgs) sender d = commanded msgs sender (osc_dispatch_command env msg sender d)

  -- A packet that parses is obeyed, message by message; any other changes nothing.
  abbrev obeyed : Run (List OscMessage) → Endpoint → Stage → Stage
  obeyed (ok msgs) sender s = record s { desk = commanded msgs sender s.desk }
  obeyed reject sender s = s
  obeyed fault sender s = s
  obeyed out_of_fuel sender s = s

  -- A demand served at once, with no queue and no task.
  abbrev pub serve_now : Demand → Stage → Stage
  serve_now (datagram bytes sender) s = obeyed (osc_parse_packet bytes []) sender s
  serve_now (lookup path) s = record s {
    documents = s.documents ++ (osc_query_schema_lookup doc env (reads env s.desk.ui) path ∷ []);
  }

  -- Each demand served before the next comes.
  abbrev pub serve_all : List Demand → Stage → Stage
  serve_all [] s = s
  serve_all (demand ∷ rest) s = serve_all rest (serve_now demand s)

  dispatch_all-commanded :
      (msgs : List OscMessage) (sender : Endpoint) (d : Desk)
      → dispatch_all env msgs sender d ≡ commanded msgs sender d
  unfolding dispatch_all
  dispatch_all-commanded [] sender d = refl
  dispatch_all-commanded (msg ∷ msgs) sender d =
      dispatch_all-commanded msgs sender (osc_dispatch_command env msg sender d)

  run_queued-obeyed :
      (r : Run (List OscMessage)) (sender : Endpoint) (s : Stage)
      → run_queued doc env (post_datagram (posted r sender)) s ≡ obeyed r sender s
  unfolding run_task
  run_queued-obeyed (ok msgs) sender s =
      ap (λ d. record s { desk = d }) (dispatch_all-commanded msgs sender s.desk)
  run_queued-obeyed reject sender s = refl
  run_queued-obeyed fault sender s = refl
  run_queued-obeyed out_of_fuel sender s = refl

  -- What a demand queues does, once run, what serving it at once does.
  run_queued-queues :
      (demand : Demand) (s : Stage) → run_queued doc env (queues demand) s ≡ serve_now demand s
  unfolding handle_datagram
  run_queued-queues (datagram bytes sender) s =
      run_queued-obeyed (osc_parse_packet bytes []) sender s
  run_queued-queues (lookup path) s = refl

  run_queued-append :
      (xs ys : List QueuedTask) (s : Stage)
      → run_queued doc env (xs ++ ys) s ≡ run_queued doc env ys (run_queued doc env xs s)
  run_queued-append [] ys s = refl
  run_queued-append (task ∷ xs) ys s = run_queued-append xs ys (run_work doc env task.fn s)

  play-serve_all :
      (waiting : List QueuedTask) (moments : List Moment) (left : List QueuedTask) (s : Stage)
      → IsFifo waiting moments left
      → run_queued doc env left (play moments s)
        ≡ serve_all (demands moments) (run_queued doc env waiting s)
  play-serve_all waiting moments left s (over _) = refl
  play-serve_all waiting moments left s (demanded _ _ demand rest fifo) =
      play-serve_all (waiting ++ queues demand) rest left s fifo
      ∙ ap (serve_all (demands rest)) (
          run_queued-append waiting (queues demand) s
          ∙ run_queued-queues demand (run_queued doc env waiting s))
  play-serve_all waiting moments left s (ran task others _ rest fifo) =
      play-serve_all others rest left (run_work doc env task.fn s) fifo

  -- However the receiving thread, the connection threads and the UI thread interleave, once the tasks
  -- left in the queue have run, OBS, the replies and the subscriptions are as if each datagram and each
  -- request for a document had been served at once, before the next came: the messages of a datagram
  -- that parses dispatched one behind the other, and for each request the document of its path, read
  -- behind the commands of exactly the datagrams that came before it.
  -- This is under libobs' promise that the queue is served in order.
  pub play_linear :
      (moments : List Moment) (left : List QueuedTask) (s : Stage)
      → IsFifo [] moments left
      → run_queued doc env left (play moments s) ≡ serve_all (demands moments) s
  play_linear moments left s fifo = play-serve_all [] moments left s fifo
