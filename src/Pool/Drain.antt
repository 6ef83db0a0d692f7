-- ===== src/Pool/Drain.antt =====
-- src/server/thread_pool.cpp: the workers, waiting and at shutdown.
use nexus_ftp_engine.Prelude.{
  ℕ, zero, suc, ◌<◌, ◌≡◌, ◌≢◌, inl, inr, refl, sym, ap, subst, ◌∙◌, Bool, true, false, List, [],
  ◌∷◌, ◌++◌, append-nil, arith, map, length, length-map, get_or, set, get_or-set_same, length-set,
  set_before,
}
use nexus_ftp_engine.Pool.{
  Worker, awake, waiting, exited, holding, running, ThreadPool, Event, worker_at, wake, NoneWaits,
  Step, submit_wakes, submit_unheard, submit_rejected, worker_waits, worker_exits, worker_takes,
  worker_wakes, task_begins, task_ends, shutdown_begins, shutdown_notifies, Run, done, step,
  new_pool,
}
use nexus_ftp_engine.Pool.Order.{accepted_in, started_in, Run-order}

pub not_off : {b : Bool} → b ≡ false → b ≡ true → ⊥
not_off off on = cc

length-new_pool : (Task : Type 0) (n : ℕ) → length (new_pool {Task = Task} n).workers ≡ n
unfolding new_pool
length-new_pool Task zero = refl
length-new_pool Task (suc n) = ap suc (length-new_pool Task n)

module _ {Task : Type 0} where
  -- Neither asleep nor returned: such a worker comes to the queue again.
  abbrev pub IsBusy : Worker Task → Type 0
  IsBusy waiting = ⊥
  IsBusy exited = ⊥
  IsBusy w = Unit

  pub get_or-wake :
      (ws : List (Worker Task)) (i : ℕ) → get_or (map wake ws) i exited ≡ wake (get_or ws i exited)
  get_or-wake [] i = refl
  get_or-wake (w ∷ ws) zero = refl
  get_or-wake (w ∷ ws) (suc i) = get_or-wake ws i

  -- A worker has returned only from a pool that is shut down and has no task left; and while there is
  -- a task in the queue, some worker is neither asleep nor returned.
  pub record Served (p : ThreadPool Task) : Type 0 where
    pub staffed : 0 < length p.workers
    pub drained :
        (i : ℕ)
        → i < length p.workers
        → worker_at p i ≡ exited
        → (p.shutdown ≡ true) × (p.tasks ≡ [])
    pub attended : p.tasks ≢ [] → (i : ℕ) × (i < length p.workers) × IsBusy (worker_at p i)

  busy_exited : (w : Worker Task) → IsBusy w → w ≢ exited
  busy_exited w b e = subst IsBusy e b

  -- A step of the worker at `i` to a state in which it comes to the queue again.
  busy_step :
      (p : ThreadPool Task) (i : ℕ) (w : Worker Task) (ts : List Task) (n : ℕ)
      → i < length p.workers
      → IsBusy w
      → Served p
      → ((j : ℕ) → j < length p.workers → worker_at p j ≡ exited → ts ≡ [])
      → Served (record p { workers = set p.workers i w; tasks = ts; active_tasks = n })
  busy_step p i w ts n here b s empty = record {
    staffed = omega (arith, s.staffed, length-set p.workers i w);
    drained = λ j at e. elim (set_before p.workers i j w exited here e) [
      | inl k ↦ absurd (busy_exited w b k)
      | inr k ↦
          let there : j < length p.workers = omega (arith, at, length-set p.workers i w) in
          ((s.drained j there k).0, empty j there k)
    ];
    attended = λ ne. (
      i,
      omega (arith, length-set p.workers i w),
      subst IsBusy (sym (get_or-set_same p.workers i w exited here)) b,
    );
  }

  -- With no task left, a worker that sleeps or returns breaks nothing.
  idle_step :
      (p : ThreadPool Task) (i : ℕ) (w : Worker Task)
      → i < length p.workers
      → p.tasks ≡ []
      → Served p
      → (w ≡ exited → p.shutdown ≡ true)
      → Served (record p { workers = set p.workers i w })
  idle_step p i w here empty s off = record {
    staffed = omega (arith, s.staffed, length-set p.workers i w);
    drained = λ j at e. elim (set_before p.workers i j w exited here e) [
      | inl k ↦ (off k, empty)
      | inr k ↦ s.drained j (omega (arith, at, length-set p.workers i w)) k
    ];
    attended = λ ne. absurd (ne empty);
  }

  -- The first worker of a running pool in which nobody waits is busy.
  first-IsBusy :
      (ws : List (Worker Task))
      → 0 < length ws
      → NoneWaits ws
      → get_or ws 0 exited ≢ exited
      → IsBusy (get_or ws 0 exited)
  first-IsBusy [] h n e = absurd (omega arith)
  first-IsBusy (awake ∷ ws) h n e = tt
  first-IsBusy (waiting ∷ ws) h n e = n
  first-IsBusy (exited ∷ ws) h n e = e refl
  first-IsBusy (holding t ∷ ws) h n e = tt
  first-IsBusy (running t ∷ ws) h n e = tt

  IsBusy-wake : (w : Worker Task) → IsBusy w → IsBusy (wake w)
  IsBusy-wake awake b = tt
  IsBusy-wake waiting b = absurd b
  IsBusy-wake exited b = b
  IsBusy-wake (holding t) b = tt
  IsBusy-wake (running t) b = tt

  wake_exited : (w : Worker Task) → wake w ≡ exited → w ≡ exited
  wake_exited awake e = cc
  wake_exited waiting e = cc
  wake_exited exited e = refl
  wake_exited (holding t) e = cc
  wake_exited (running t) e = cc

  waiting_exited : ¬ (Path (Worker Task) waiting exited)
  waiting_exited k = cc

  Step-Served : {p q : ThreadPool Task} {e : Event Task} → Step p e q → Served p → Served q
  Step-Served (submit_wakes p t i off here w) s =
      busy_step p i awake (p.tasks ++ (t ∷ [])) p.active_tasks here tt s
        (λ j at e. absurd (not_off off (s.drained j at e).0))
  Step-Served (submit_unheard p t off n) s = record {
    staffed = s.staffed;
    drained = λ j at e. absurd (not_off off (s.drained j at e).0);
    attended = λ ne. (
      0,
      s.staffed,
      first-IsBusy p.workers s.staffed n (λ e. not_off off (s.drained 0 s.staffed e).0),
    );
  }
  Step-Served (submit_rejected p t on) s = s
  Step-Served (worker_waits p i here a off e) s =
      idle_step p i waiting here e s (λ k. absurd (waiting_exited k))
  Step-Served (worker_exits p i here a on e) s = idle_step p i exited here e s (λ k. on)
  Step-Served (worker_takes p i t rest here a e) s =
      busy_step p i (holding t) rest p.active_tasks here tt s
        (λ j at k. absurd (not_empty (sym e ∙ (s.drained j at k).1)))
    where
      not_empty : (t ∷ rest) ≢ []
      not_empty k = cc
  Step-Served (worker_wakes p i here w) s =
      busy_step p i awake p.tasks p.active_tasks here tt s (λ j at k. (s.drained j at k).1)
  Step-Served (task_begins p i t here w) s =
      busy_step p i (running t) p.tasks _ here tt s (λ j at k. (s.drained j at k).1)
  Step-Served (task_ends p i t here w) s =
      busy_step p i awake p.tasks _ here tt s (λ j at k. (s.drained j at k).1)
  Step-Served (shutdown_begins p) s = record {
    staffed = s.staffed;
    drained = λ j at e. (refl, (s.drained j at e).1);
    attended = s.attended;
  }
  Step-Served (shutdown_notifies p on) s = record {
    staffed = omega (arith, s.staffed, length-map wake p.workers);
    drained = λ j at e.
        s.drained j (omega (arith, at, length-map wake p.workers))
          (wake_exited (worker_at p j) (sym (get_or-wake p.workers j) ∙ e));
    attended = λ ne.
        let (i, at, b) = s.attended ne in
        (
          i,
          omega (arith, at, length-map wake p.workers),
          subst IsBusy (sym (get_or-wake p.workers i)) (IsBusy-wake (worker_at p i) b),
        );
  }

  Run-Served : {p q : ThreadPool Task} {es : List (Event Task)} → Run p es q → Served p → Served q
  Run-Served (done p) s = s
  Run-Served (step {p} {q} {r} {e} {es} st rest) s = Run-Served rest (Step-Served st s)

  tasks-new_pool : (n : ℕ) → (new_pool {Task = Task} n).tasks ≡ []
  unfolding new_pool
  tasks-new_pool zero = refl
  tasks-new_pool (suc n) = tasks-new_pool n

  awake_exited : ¬ (Path (Worker Task) awake exited)
  awake_exited k = cc

  new_pool-staffed :
      (n i : ℕ)
      → i < length (new_pool {Task = Task} n).workers
      → ¬ (Path (Worker Task) (worker_at (new_pool n) i) exited)
  unfolding new_pool
  new_pool-staffed zero i at e = omega (arith, at)
  new_pool-staffed (suc n) zero at e = awake_exited e
  new_pool-staffed (suc n) (suc i) at e = new_pool-staffed n i (omega (arith, at)) e

  new_pool-Served : (n : ℕ) → 0 < n → Served (new_pool n)
  new_pool-Served n pos = record {
    staffed = omega (arith, pos, length-new_pool Task n);
    drained = λ i at e. absurd (new_pool-staffed n i at e);
    attended = λ ne. absurd (ne (tasks-new_pool n));
  }

  -- In every state that a pool of one worker or more can reach, a worker has returned only if the pool
  -- is shut down and no task is left; and while there is a task in the queue, some worker is neither
  -- asleep nor returned: no wake-up is lost.
  Run-new_pool-Served :
      {q : ThreadPool Task} {es : List (Event Task)} (n : ℕ)
      → 0 < n
      → Run (new_pool n) es q
      → Served q
  Run-new_pool-Served n pos r = Run-Served r (new_pool-Served n pos)

  -- When all workers of a pool have returned, which is what shutdown joins on, every task that submit
  -- accepted has been started, in the order of submission.
  pub Run-new_pool-drained :
      {q : ThreadPool Task} {es : List (Event Task)} (n : ℕ)
      → 0 < n
      → Run (new_pool n) es q
      → ((i : ℕ) → i < length q.workers → worker_at q i ≡ exited)
      → started_in es ≡ accepted_in es
  Run-new_pool-drained {q} {es} n pos r joined = sym (
      ap (λ ts. ts ++ accepted_in es) (sym (tasks-new_pool n))
      ∙ Run-order r
      ∙ ap (λ ts. started_in es ++ ts) (s.drained 0 s.staffed (joined 0 s.staffed)).1
      ∙ append-nil (started_in es))
    where
      s : Served q
      s = Run-new_pool-Served n pos r
