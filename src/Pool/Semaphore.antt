-- ===== src/Pool/Semaphore.antt =====
-- src/common/win32_threads.h: the CondVar of the Windows branch, a counting semaphore and a count of
-- waiters, under the workers of src/server/thread_pool.cpp. The steps are those of the pool; where a
-- stretch under the mutex is two steps here, other steps may come between them.
pub mod Attended
pub mod Released
use nexus_ftp_engine.Prelude.{
  ℕ, zero, suc, ◌+◌, ◌-◌, ◌<◌, ◌≡◌, Bool, true, false, List, [], ◌∷◌, ◌++◌, length, get_or, set,
  ltb, leb, if◌then◌else◌,
}
use nexus_ftp_engine.Session.{inc, dec}
use nexus_ftp_engine.Pool.{Event, accepted, rejected, started, silent}

-- A worker in CondVar::wait is blocked on the semaphore, or has passed it and not locked the mutex.
pub data Thread (Task : Type 0) : Type 0 where
  awake blocked resumed exited : Thread Task
  holding running : Task → Thread Task

pub record SemPool (Task : Type 0) : Type 0 where
  pub threads : List (Thread Task)
  pub tasks : List Task
  pub shutdown : Bool
  pub active_tasks : ℕ
  pub waiters : ℕ
  pub sema : ℕ

-- ReleaseSemaphore: past the maximum of CreateSemaphore the call fails and changes nothing.
unfoldable pub release_semaphore : ℕ → ℕ → ℕ
release_semaphore count sema = if leb (sema + count) 0x7FFFFFFF then sema + count else sema

-- CondVar::notify_one and CondVar::notify_all, from the waiters and the semaphore's count.
unfoldable pub notify_one : ℕ → ℕ → ℕ
unfolding release_semaphore
notify_one waiters sema = if ltb 0 waiters then release_semaphore 1 sema else sema

unfoldable pub notify_all : ℕ → ℕ → ℕ
unfolding release_semaphore
notify_all waiters sema = if ltb 0 waiters then release_semaphore waiters sema else sema

module _ {Task : Type 0} where
  abbrev pub thread_at : SemPool Task → ℕ → Thread Task
  thread_at p i = get_or p.threads i exited

  abbrev pub set_thread : ℕ → Thread Task → SemPool Task → SemPool Task
  set_thread i w p = record p { threads = set p.threads i w }

  unfoldable pub new_sem_pool : ℕ → SemPool Task
  new_sem_pool zero = record {
    threads = [];
    tasks = [];
    shutdown = false;
    active_tasks = 0;
    waiters = 0;
    sema = 0;
  }
  new_sem_pool (suc n) = let p = new_sem_pool n in record p { threads = awake ∷ p.threads }

  pub data SemStep : SemPool Task → Event Task → SemPool Task → Type 0 where
    submits :
        (p : SemPool Task) (t : Task)
        → p.shutdown ≡ false
        → SemStep p
            (accepted t)
            (record p { tasks = p.tasks ++ (t ∷ []); sema = notify_one p.waiters p.sema })
    submit_rejected : (p : SemPool Task) (t : Task) → p.shutdown ≡ true → SemStep p (rejected t) p
    -- CondVar::wait: waiters_++ and unlock; the semaphore; lock and waiters_--.
    wait_blocks :
        (p : SemPool Task) (i : ℕ)
        → i < length p.threads
        → thread_at p i ≡ awake
        → p.shutdown ≡ false
        → p.tasks ≡ []
        → SemStep p silent (set_thread i blocked (record p { waiters = p.waiters + 1 }))
    wait_resumes :
        (p : SemPool Task) (i : ℕ)
        → i < length p.threads
        → thread_at p i ≡ blocked
        → 0 < p.sema
        → SemStep p silent (set_thread i resumed (record p { sema = p.sema - 1 }))
    wait_returns :
        (p : SemPool Task) (i : ℕ)
        → i < length p.threads
        → thread_at p i ≡ resumed
        → SemStep p silent (set_thread i awake (record p { waiters = p.waiters - 1 }))
    worker_exits :
        (p : SemPool Task) (i : ℕ)
        → i < length p.threads
        → thread_at p i ≡ awake
        → p.shutdown ≡ true
        → p.tasks ≡ []
        → SemStep p silent (set_thread i exited p)
    worker_takes :
        (p : SemPool Task) (i : ℕ) (t : Task) (rest : List Task)
        → i < length p.threads
        → thread_at p i ≡ awake
        → p.tasks ≡ t ∷ rest
        → SemStep p (started t) (set_thread i (holding t) (record p { tasks = rest }))
    task_begins :
        (p : SemPool Task) (i : ℕ) (t : Task)
        → i < length p.threads
        → thread_at p i ≡ holding t
        → SemStep p silent
            (set_thread i (running t) (record p { active_tasks = inc p.active_tasks }))
    task_ends :
        (p : SemPool Task) (i : ℕ) (t : Task)
        → i < length p.threads
        → thread_at p i ≡ running t
        → SemStep p silent (set_thread i awake (record p { active_tasks = dec p.active_tasks }))
    shutdown_begins : (p : SemPool Task) → SemStep p silent (record p { shutdown = true })
    shutdown_notifies :
        (p : SemPool Task)
        → p.shutdown ≡ true
        → SemStep p silent (record p { sema = notify_all p.waiters p.sema })

  pub data SemRun : SemPool Task → List (Event Task) → SemPool Task → Type 0 where
    done : (p : SemPool Task) → SemRun p [] p
    step :
        {p q r : SemPool Task} {e : Event Task} {es : List (Event Task)}
        → SemStep p e q
        → SemRun q es r
        → SemRun p (e ∷ es) r
