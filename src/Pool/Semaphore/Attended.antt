-- ===== src/Pool/Semaphore/Attended.antt =====
-- src/common/win32_threads.h: the semaphore's tokens against the queue of src/server/thread_pool.cpp.
use nexus_ftp_engine.Prelude.{
  total, ℕ, zero, suc, ◌<◌, ◌≤◌, ◌≡◌, ◌≢◌, inl, inr, refl, sym, subst, ◌∙◌, true, false, List, [],
  ◌∷◌, arith, length, length-set, get_or, set, get_or-set_same, set_before, Bool-cases, ltb,
}
use nexus_ftp_engine.Pool.{Event}
use nexus_ftp_engine.Pool.Drain.{not_off}
use nexus_ftp_engine.Pool.Semaphore.{
  Thread, awake, blocked, resumed, exited, holding, running, SemPool, thread_at, new_sem_pool,
  notify_one, release_semaphore, SemStep, submits, submit_rejected, wait_blocks, wait_resumes,
  wait_returns, worker_exits, worker_takes, task_begins, task_ends, shutdown_begins,
  shutdown_notifies, SemRun, done, step,
}
use nexus_ftp_engine.Pool.Semaphore.Released.{
  in_wait, notify_more, Counted, SemStep-Counted, new_sem_pool-Counted,
}

notify_one_more : (waiters sema : ℕ) → sema ≤ notify_one waiters sema
unfolding notify_one release_semaphore
notify_one_more waiters sema = ground arith

notify_one_pos : (waiters sema : ℕ) → 0 < waiters → 0 < notify_one waiters sema
unfolding notify_one release_semaphore
notify_one_pos waiters sema h = ground (arith, h)

module _ {Task : Type 0} where
  -- A thread that can take its next step: in CondVar::wait it needs a token of the semaphore.
  abbrev pub CanMove : ℕ → Thread Task → Type 0
  CanMove sema blocked = 0 < sema
  CanMove sema exited = ⊥
  CanMove sema w = Unit

  CanMove-more : (m n : ℕ) (w : Thread Task) → m ≤ n → CanMove m w → CanMove n w
  CanMove-more m n awake h c = tt
  CanMove-more m n blocked h c = omega (arith, h, c)
  CanMove-more m n resumed h c = tt
  CanMove-more m n exited h c = c
  CanMove-more m n (holding t) h c = tt
  CanMove-more m n (running t) h c = tt

  -- Some thread of the pool can take its next step.
  abbrev pub SomeMoves : SemPool Task → Type 0
  SomeMoves p = (i : ℕ) × (i < length p.threads) × CanMove p.sema (thread_at p i)

  record Attended (p : SemPool Task) : Type 0 where
    pub staffed : 0 < length p.threads
    pub drained :
        (i : ℕ)
        → i < length p.threads
        → thread_at p i ≡ exited
        → (p.shutdown ≡ true) × (p.tasks ≡ [])
    pub attended : p.tasks ≢ [] → SomeMoves p

  CanMove-exited : (n : ℕ) (w : Thread Task) → CanMove n w → w ≢ exited
  CanMove-exited n w c e = subst (CanMove n) e c

  -- A step of the thread at `i` to a state in which it can go on.
  free_step :
      (p : SemPool Task) (i : ℕ) (w : Thread Task) (ts : List Task) (n m k : ℕ)
      → i < length p.threads
      → CanMove k w
      → Attended p
      → ((j : ℕ) → j < length p.threads → thread_at p j ≡ exited → ts ≡ [])
      → Attended (record p {
        threads = set p.threads i w;
        tasks = ts;
        active_tasks = n;
        waiters = m;
        sema = k;
      })
  free_step p i w ts n m k here b s empty = record {
    staffed = omega (arith, s.staffed, length-set p.threads i w);
    drained = λ j at e. elim (set_before p.threads i j w exited here e) [
      | inl x ↦ absurd (CanMove-exited k w b x)
      | inr x ↦
          let there : j < length p.threads = omega (arith, at, length-set p.threads i w) in
          ((s.drained j there x).0, empty j there x)
    ];
    attended = λ ne. (
      i,
      omega (arith, here, length-set p.threads i w),
      subst (CanMove k) (sym (get_or-set_same p.threads i w exited here)) b,
    );
  }

  -- With no task left, a thread that blocks or returns breaks nothing.
  idle_step :
      (p : SemPool Task) (i : ℕ) (w : Thread Task) (m : ℕ)
      → i < length p.threads
      → p.tasks ≡ []
      → Attended p
      → (w ≡ exited → p.shutdown ≡ true)
      → Attended (record p { threads = set p.threads i w; waiters = m })
  idle_step p i w m here empty s off = record {
    staffed = omega (arith, s.staffed, length-set p.threads i w);
    drained = λ j at e. elim (set_before p.threads i j w exited here e) [
      | inl k ↦ (off k, empty)
      | inr k ↦ s.drained j (omega (arith, at, length-set p.threads i w)) k
    ];
    attended = λ ne. absurd (ne empty);
  }

  -- A thread that waiters_ counts moves if there is a token.
  counted-CanMove :
      (ws : List (Thread Task)) (k : ℕ)
      → 0 < total in_wait ws
      → 0 < k
      → (i : ℕ) × (i < length ws) × CanMove k (get_or ws i exited)
  counted-CanMove [] k h pos = absurd (omega (arith, h))
  counted-CanMove (blocked ∷ ws) k h pos = (0, omega arith, pos)
  counted-CanMove (resumed ∷ ws) k h pos = (0, omega arith, tt)
  counted-CanMove (awake ∷ ws) k h pos =
      let (i, at, c) = counted-CanMove ws k (omega (arith, h)) pos in (suc i, omega (arith, at), c)
  counted-CanMove (exited ∷ ws) k h pos =
      let (i, at, c) = counted-CanMove ws k (omega (arith, h)) pos in (suc i, omega (arith, at), c)
  counted-CanMove (holding t ∷ ws) k h pos =
      let (i, at, c) = counted-CanMove ws k (omega (arith, h)) pos in (suc i, omega (arith, at), c)
  counted-CanMove (running t ∷ ws) k h pos =
      let (i, at, c) = counted-CanMove ws k (omega (arith, h)) pos in (suc i, omega (arith, at), c)

  -- With none counted, the first thread of a running pool moves.
  first-CanMove :
      (ws : List (Thread Task)) (k : ℕ)
      → 0 < length ws
      → total in_wait ws ≡ 0
      → get_or ws 0 exited ≢ exited
      → CanMove k (get_or ws 0 exited)
  first-CanMove [] k h z n = absurd (omega (arith, h))
  first-CanMove (awake ∷ ws) k h z n = tt
  first-CanMove (blocked ∷ ws) k h z n = absurd (omega (arith, z))
  first-CanMove (resumed ∷ ws) k h z n = tt
  first-CanMove (exited ∷ ws) k h z n = absurd (n refl)
  first-CanMove (holding t ∷ ws) k h z n = tt
  first-CanMove (running t ∷ ws) k h z n = tt

  -- After submit some thread moves.
  submit-SomeMoves :
      {n : ℕ} (p : SemPool Task)
      → p.shutdown ≡ false
      → Attended p
      → Counted n p
      → (i : ℕ) × (i < length p.threads) × CanMove (notify_one p.waiters p.sema) (thread_at p i)
  submit-SomeMoves p off s c = elim (Bool-cases (ltb 0 p.waiters)) [
    | inl e ↦
        let pos : 0 < p.waiters = ground (arith, e) in
        counted-CanMove p.threads _ (omega (arith, pos, c.counted))
          (notify_one_pos p.waiters p.sema pos)
    | inr e ↦
        let none : p.waiters ≡ 0 = ground (arith, e) in
        (
          0,
          s.staffed,
          first-CanMove p.threads _ s.staffed (omega (arith, none, c.counted))
              (λ x. not_off off (s.drained 0 s.staffed x).0),
        )
  ]

  blocked_exited : ¬ (Path (Thread Task) blocked exited)
  blocked_exited k = cc

  not_empty : {t : Task} {ts : List Task} → (t ∷ ts) ≢ []
  not_empty k = cc

  SemStep-Attended :
      {n : ℕ} {p q : SemPool Task} {e : Event Task}
      → SemStep p e q
      → Counted n p
      → Attended p
      → Attended q
  SemStep-Attended (submits p t off) c s = record {
    staffed = s.staffed;
    drained = λ j at e. absurd (not_off off (s.drained j at e).0);
    attended = λ ne. submit-SomeMoves p off s c;
  }
  SemStep-Attended (submit_rejected p t on) c s = s
  SemStep-Attended (wait_blocks p i h w off e) c s =
      idle_step p i blocked _ h e s (λ k. absurd (blocked_exited k))
  SemStep-Attended (wait_resumes p i h w tok) c s =
      free_step p i resumed p.tasks _ _ _ h tt s (λ j at k. (s.drained j at k).1)
  SemStep-Attended (wait_returns p i h w) c s =
      free_step p i awake p.tasks _ _ _ h tt s (λ j at k. (s.drained j at k).1)
  SemStep-Attended (worker_exits p i h w on e) c s = idle_step p i exited _ h e s (λ k. on)
  SemStep-Attended (worker_takes p i t rest h w e) c s =
      free_step p i (holding t) rest _ _ _ h tt s
        (λ j at k. absurd (not_empty (sym e ∙ (s.drained j at k).1)))
  SemStep-Attended (task_begins p i t h w) c s =
      free_step p i (running t) p.tasks _ _ _ h tt s (λ j at k. (s.drained j at k).1)
  SemStep-Attended (task_ends p i t h w) c s =
      free_step p i awake p.tasks _ _ _ h tt s (λ j at k. (s.drained j at k).1)
  SemStep-Attended (shutdown_begins p) c s = record {
    staffed = s.staffed;
    drained = λ j at e. (refl, (s.drained j at e).1);
    attended = s.attended;
  }
  SemStep-Attended (shutdown_notifies p on) c s = record {
    staffed = s.staffed;
    drained = s.drained;
    attended = λ ne.
        let (i, at, m) = s.attended ne in
        (i, at, CanMove-more _ _ (thread_at p i) (notify_more p.waiters p.sema) m);
  }

  SemRun-Attended :
      {n : ℕ} {p q : SemPool Task} {es : List (Event Task)}
      → SemRun p es q
      → Counted n p
      → Attended p
      → Attended q
  SemRun-Attended (done p) c s = s
  SemRun-Attended (step st rest) c s =
      SemRun-Attended rest (SemStep-Counted st c) (SemStep-Attended st c s)

  awake_exited : ¬ (Path (Thread Task) awake exited)
  awake_exited k = cc

  new_sem_pool_staff :
      (n i : ℕ)
      → i < length (new_sem_pool {Task = Task} n).threads
      → ¬ (Path (Thread Task) (thread_at (new_sem_pool n) i) exited)
  unfolding new_sem_pool
  new_sem_pool_staff zero i at e = omega (arith, at)
  new_sem_pool_staff (suc n) zero at e = awake_exited e
  new_sem_pool_staff (suc n) (suc i) at e = new_sem_pool_staff n i (omega (arith, at)) e

  tasks-new_sem_pool : (n : ℕ) → (new_sem_pool {Task = Task} n).tasks ≡ []
  unfolding new_sem_pool
  tasks-new_sem_pool zero = refl
  tasks-new_sem_pool (suc n) = tasks-new_sem_pool n

  new_sem_pool-Attended : (n : ℕ) → 0 < n → Attended (new_sem_pool n)
  new_sem_pool-Attended n pos =
      let c = new_sem_pool-Counted {Task = Task} n in
      record {
        staffed = omega (arith, pos, c.staff);
        drained = λ i at e. absurd (new_sem_pool_staff n i at e);
        attended = λ ne. absurd (ne (tasks-new_sem_pool n));
      }

  -- In every state that a pool of one worker or more can reach over the semaphore, while there is a
  -- task in the queue, some thread can take its next step: it is in the pool's own code or in a task,
  -- or it is in CondVar::wait and the semaphore has a token for it.
  pub SemRun-new_sem_pool-SomeMoves :
      {q : SemPool Task} {es : List (Event Task)} (n : ℕ)
      → 0 < n
      → SemRun (new_sem_pool n) es q
      → q.tasks ≢ []
      → SomeMoves q
  SemRun-new_sem_pool-SomeMoves n pos r =
      (SemRun-Attended r (new_sem_pool-Counted n) (new_sem_pool-Attended n pos)).attended
