-- ===== src/Tests/Semaphore.antt =====
-- Witnesses of the theorems on the thread pool over the semaphore.
use nexus_ftp_engine.Prelude.{ℕ, ◌≤◌, ◌≡◌, refl, true, false, List, [], ◌∷◌, arith}
use nexus_ftp_engine.Pool.{Event, accepted, started, silent}
use nexus_ftp_engine.Pool.Semaphore.{
  Thread, awake, blocked, resumed, holding, SemPool, new_sem_pool, notify_one, notify_all,
  release_semaphore, SemRun, done, step, submits, wait_blocks, wait_resumes, wait_returns,
  worker_takes, shutdown_begins,
}
use nexus_ftp_engine.Pool.Semaphore.Released.{blocked_threads, SemRun-new_sem_pool-Freed}
use nexus_ftp_engine.Pool.Semaphore.Attended.{SomeMoves, SemRun-new_sem_pool-SomeMoves}

-- One thread, with the queue, waiters_ and the count of the semaphore.
abbrev sem_pool_at : Thread ℕ → List ℕ → ℕ → ℕ → SemPool ℕ
sem_pool_at w ts waiters sema = record {
  threads = w ∷ [];
  tasks = ts;
  shutdown = false;
  active_tasks = 0;
  waiters = waiters;
  sema = sema;
}

blocks : SemRun (new_sem_pool 1) (silent ∷ []) (sem_pool_at blocked [] 1 0)
unfolding new_sem_pool
blocks = step (wait_blocks (sem_pool_at awake [] 0 0) 0 (omega arith) refl refl refl) (done _)

-- A task comes while the thread is blocked.
queued : SemRun (new_sem_pool 1) (silent ∷ accepted 7 ∷ []) (sem_pool_at blocked (7 ∷ []) 1 1)
unfolding new_sem_pool notify_one release_semaphore
queued =
    step (wait_blocks (sem_pool_at awake [] 0 0) 0 (omega arith) refl refl refl)
      (step (submits (sem_pool_at blocked [] 1 0) 7 refl) (done _))

abbrev task_events : List (Event ℕ)
task_events = silent ∷ accepted 7 ∷ silent ∷ silent ∷ started 7 ∷ []

taken : SemRun (new_sem_pool 1) task_events (sem_pool_at (holding 7) [] 0 0)
unfolding new_sem_pool notify_one release_semaphore
taken = step (wait_blocks (sem_pool_at awake [] 0 0) 0 (omega arith) refl refl refl) (
    step (submits (sem_pool_at blocked [] 1 0) 7 refl) (
      step (wait_resumes (sem_pool_at blocked (7 ∷ []) 1 1) 0 (omega arith) refl (omega arith)) (
        step (wait_returns (sem_pool_at resumed (7 ∷ []) 1 0) 0 (omega arith) refl) (
          step (worker_takes (sem_pool_at awake (7 ∷ []) 0 0) 0 7 [] (omega arith) refl refl)
            (done _)))))

SemRun-new_sem_pool-SomeMoves_example : SomeMoves (sem_pool_at blocked (7 ∷ []) 1 1)
SemRun-new_sem_pool-SomeMoves_example =
    SemRun-new_sem_pool-SomeMoves 1 (omega arith) queued (λ e. cc)

abbrev stopping : SemPool ℕ
stopping = record (sem_pool_at blocked [] 1 0) { shutdown = true }

abbrev stopped : SemPool ℕ
stopped = record (sem_pool_at resumed [] 1 0) { shutdown = true }

stops : SemRun (new_sem_pool 1) (silent ∷ silent ∷ []) stopping
unfolding new_sem_pool
stops =
    step (wait_blocks (sem_pool_at awake [] 0 0) 0 (omega arith) refl refl refl)
      (step (shutdown_begins (sem_pool_at blocked [] 1 0)) (done _))

-- The thread passes the semaphore after notify_all.
wakes_up : SemRun (record stopping { sema = notify_all 1 0 }) (silent ∷ []) stopped
unfolding notify_all release_semaphore
wakes_up =
    step (wait_resumes (record stopping { sema = 1 }) 0 (omega arith) refl (omega arith)) (done _)

SemRun-new_sem_pool-Freed_example :
    (stopped.shutdown ≡ true) × (blocked_threads stopped ≤ stopped.sema)
SemRun-new_sem_pool-Freed_example = SemRun-new_sem_pool-Freed 1 (omega arith) stops refl wakes_up
