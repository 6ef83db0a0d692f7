-- ===== src/Pool.antt =====
-- src/server/thread_pool.cpp: ThreadPool. Every stretch under the mutex is one step, and so is every
-- access to an atomic outside of it; a task is opaque, and its exceptions are caught.
pub mod Order
pub mod Drain
pub mod Semaphore
use nexus_ftp_engine.Prelude.{
  ℕ, zero, suc, ◌<◌, ◌≡◌, Bool, true, false, List, [], ◌∷◌, ◌++◌, map, length, get_or, set,
}
use nexus_ftp_engine.Session.{inc, dec}

-- Where a worker stands in workerLoop: before it locks the mutex, in cv_.wait, with a task taken from
-- the queue, in the task, or returned.
pub data Worker (Task : Type 0) : Type 0 where
  awake waiting exited : Worker Task
  holding running : Task → Worker Task

pub record ThreadPool (Task : Type 0) : Type 0 where
  pub workers : List (Worker Task)
  pub tasks : List Task
  pub shutdown : Bool
  pub active_tasks : ℕ

-- What a step shows of the queue.
pub data Event (Task : Type 0) : Type 0 where
  accepted rejected started : Task → Event Task
  silent : Event Task

module _ {Task : Type 0} where
  -- The worker at an index; there is none outside of the list.
  abbrev pub worker_at : ThreadPool Task → ℕ → Worker Task
  worker_at p i = get_or p.workers i exited

  abbrev pub set_worker : ℕ → Worker Task → ThreadPool Task → ThreadPool Task
  set_worker i w p = record p { workers = set p.workers i w }

  abbrev pub wake : Worker Task → Worker Task
  wake waiting = awake
  wake w = w

  -- No worker waits on the condition variable.
  abbrev pub NoneWaits : List (Worker Task) → Type 0
  NoneWaits [] = Unit {0}
  NoneWaits (waiting ∷ ws) = ⊥
  NoneWaits (w ∷ ws) = NoneWaits ws

  -- tasks_.push(task)
  abbrev pub push_task : Task → ThreadPool Task → ThreadPool Task
  push_task t p = record p { tasks = p.tasks ++ (t ∷ []) }

  -- The constructor.
  unfoldable pub new_pool : ℕ → ThreadPool Task
  new_pool zero = record { workers = []; tasks = []; shutdown = false; active_tasks = 0 }
  new_pool (suc n) = let p = new_pool n in record p { workers = awake ∷ p.workers }

  pub data Step : ThreadPool Task → Event Task → ThreadPool Task → Type 0 where
    -- submit, with the worker that notify_one wakes, with none to wake, and after shutdown.
    submit_wakes :
        (p : ThreadPool Task) (t : Task) (i : ℕ)
        → p.shutdown ≡ false
        → i < length p.workers
        → worker_at p i ≡ waiting
        → Step p (accepted t) (set_worker i awake (push_task t p))
    submit_unheard :
        (p : ThreadPool Task) (t : Task)
        → p.shutdown ≡ false
        → NoneWaits p.workers
        → Step p (accepted t) (push_task t p)
    submit_rejected : (p : ThreadPool Task) (t : Task) → p.shutdown ≡ true → Step p (rejected t) p
    -- workerLoop under the mutex: wait, return, or take the front of the queue.
    worker_waits :
        (p : ThreadPool Task) (i : ℕ)
        → i < length p.workers
        → worker_at p i ≡ awake
        → p.shutdown ≡ false
        → p.tasks ≡ []
        → Step p silent (set_worker i waiting p)
    worker_exits :
        (p : ThreadPool Task) (i : ℕ)
        → i < length p.workers
        → worker_at p i ≡ awake
        → p.shutdown ≡ true
        → p.tasks ≡ []
        → Step p silent (set_worker i exited p)
    worker_takes :
        (p : ThreadPool Task) (i : ℕ) (t : Task) (rest : List Task)
        → i < length p.workers
        → worker_at p i ≡ awake
        → p.tasks ≡ t ∷ rest
        → Step p (started t) (set_worker i (holding t) (record p { tasks = rest }))
    -- A wake-up of the condition variable with no notification.
    worker_wakes :
        (p : ThreadPool Task) (i : ℕ)
        → i < length p.workers
        → worker_at p i ≡ waiting
        → Step p silent (set_worker i awake p)
    -- activeTasks_.inc(), the task, activeTasks_.dec().
    task_begins :
        (p : ThreadPool Task) (i : ℕ) (t : Task)
        → i < length p.workers
        → worker_at p i ≡ holding t
        → Step p silent (set_worker i (running t) (record p { active_tasks = inc p.active_tasks }))
    task_ends :
        (p : ThreadPool Task) (i : ℕ) (t : Task)
        → i < length p.workers
        → worker_at p i ≡ running t
        → Step p silent (set_worker i awake (record p { active_tasks = dec p.active_tasks }))
    -- shutdown: the flag, outside of the mutex, then notify_all under it.
    shutdown_begins : (p : ThreadPool Task) → Step p silent (record p { shutdown = true })
    shutdown_notifies :
        (p : ThreadPool Task)
        → p.shutdown ≡ true
        → Step p silent (record p { workers = map wake p.workers })

  -- A run: steps of the pool's callers and workers in any order.
  pub data Run : ThreadPool Task → List (Event Task) → ThreadPool Task → Type 0 where
    done : (p : ThreadPool Task) → Run p [] p
    step :
        {p q r : ThreadPool Task} {e : Event Task} {es : List (Event Task)}
        → Step p e q
        → Run q es r
        → Run p (e ∷ es) r
