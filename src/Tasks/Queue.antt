-- ===== src/Tasks/Queue.antt =====
-- `osc_ui_post` and `osc_ui_run` over `obs_queue_task`, whose calls are kept, and the two places that
-- call them: `handle_datagram` of src/plugin.cpp and `osc_query_schema_lookup` of
-- src/osc-query-schema.cpp.
use obs_osc.Base.{Bool, true, false, List, [], ◌∷◌, ◌++◌, Option, none, some, Bytes}
use obs_osc.Obs.Readings.{Env, reads}
use obs_osc.Schema.Data.{ObsData}
use obs_osc.Schema.Tree.{osc_query_schema_lookup}
use obs_osc.Controls.Dispatch.{Desk, Task, run_task}

-- The closures that are queued: one that dispatches messages, one that walks the tree for a path.
pub data Work : Type 0 where
  dispatching : Task → Work
  walking : Bytes → Work

-- `obs_queue_task(OBS_TASK_UI, …, fn, wait)`
pub record QueuedTask : Type 0 where
  pub fn : Work
  pub wait : Bool

abbrev pub run_on_ui : Work → Bool → List QueuedTask
run_on_ui fn wait = record { fn = fn; wait = wait } ∷ []

abbrev pub osc_ui_post : Work → List QueuedTask
osc_ui_post fn = run_on_ui fn false

abbrev pub osc_ui_run : Work → List QueuedTask
osc_ui_run fn = run_on_ui fn true

-- What a task does when it runs: the desk, and the documents handed back so far, in order.
pub record Stage : Type 0 where
  pub desk : Desk
  pub documents : List Bytes

abbrev pub post_datagram : Option Task → List QueuedTask
post_datagram none = []
post_datagram (some task) = osc_ui_post (dispatching task)

module _ {D : Type 0} (doc : ObsData D) (env : Env) where
  abbrev pub run_work : Work → Stage → Stage
  run_work (dispatching task) s = record s { desk = run_task env task s.desk }
  run_work (walking path) s = record s {
    documents = s.documents ++ (osc_query_schema_lookup doc env (reads env s.desk.ui) path ∷ []);
  }

  abbrev pub run_queued : List QueuedTask → Stage → Stage
  run_queued [] s = s
  run_queued (task ∷ tasks) s = run_queued tasks (run_work task.fn s)
