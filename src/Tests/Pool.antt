-- ===== src/Tests/Pool.antt =====
-- Witnesses of the theorems on the thread pool.
use nexus_ftp_engine.Prelude.{
  ℕ, zero, suc, ◌<◌, ◌≡◌, refl, true, false, List, [], ◌∷◌, ◌++◌, arith, length,
}
use nexus_ftp_engine.Session.{inc, dec}
use nexus_ftp_engine.Pool.{
  Worker, awake, exited, holding, running, ThreadPool, Event, accepted, started, silent, worker_at,
  Run, done, step, submit_unheard, worker_takes, task_begins, task_ends, shutdown_begins,
  worker_exits, new_pool,
}
use nexus_ftp_engine.Pool.Order.{accepted_in, started_in, Run-order}
use nexus_ftp_engine.Pool.Drain.{Run-new_pool-drained}

abbrev pool_at : Worker ℕ → List ℕ → ThreadPool ℕ
pool_at w ts = record { workers = w ∷ []; tasks = ts; shutdown = false; active_tasks = 0 }

-- One worker: a task is accepted, run, and the pool shut down.
abbrev finished : ThreadPool ℕ
finished = record { workers = exited ∷ []; tasks = []; shutdown = true; active_tasks = 0 }

abbrev events : List (Event ℕ)
events = accepted 7 ∷ started 7 ∷ silent ∷ silent ∷ silent ∷ silent ∷ []

one_task : Run (new_pool 1) events finished
unfolding new_pool inc dec
one_task = step (submit_unheard (pool_at awake []) 7 refl tt) (
    step (worker_takes (pool_at awake (7 ∷ [])) 0 7 [] (omega arith) refl refl) (
      step (task_begins (pool_at (holding 7) []) 0 7 (omega arith) refl) (
        step
          (task_ends (record (pool_at (running 7) []) { active_tasks = 1 }) 0 7 (omega arith) refl)
          (step (shutdown_begins (pool_at awake [])) (
            step
              (worker_exits (record (pool_at awake []) { shutdown = true }) 0 (omega arith) refl
                refl refl)
              (done finished))))))

all_exited : (i : ℕ) → i < length finished.workers → worker_at finished i ≡ exited
all_exited zero h = refl
all_exited (suc i) h = refl

Run-order_example :
    (new_pool {Task = ℕ} 1).tasks ++ accepted_in events ≡ started_in events ++ finished.tasks
Run-order_example = Run-order one_task

Run-new_pool-drained_example : started_in events ≡ accepted_in events
Run-new_pool-drained_example = Run-new_pool-drained 1 (omega arith) one_task all_exited
