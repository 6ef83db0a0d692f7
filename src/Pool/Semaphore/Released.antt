-- ===== src/Pool/Semaphore/Released.antt =====
-- src/common/win32_threads.h: the semaphore's tokens against the threads that wait for them, under
-- the workers of src/server/thread_pool.cpp.
use nexus_ftp_engine.Prelude.{
  total, total-from, total-at, total_bound, ℕ, zero, suc, ◌+◌, ◌<◌, ◌≤◌, ◌≡◌, refl, ap, ◌∙◌, true,
  List, [], ◌∷◌, arith, length, length-set, set,
}
use nexus_ftp_engine.Pool.{Event}
use nexus_ftp_engine.Pool.Drain.{not_off}
use nexus_ftp_engine.Pool.Semaphore.{
  Thread, awake, blocked, resumed, exited, holding, running, SemPool, thread_at, new_sem_pool,
  notify_all, release_semaphore, SemStep, submits, submit_rejected, wait_blocks, wait_resumes,
  wait_returns, worker_exits, worker_takes, task_begins, task_ends, shutdown_begins,
  shutdown_notifies, SemRun, done, step,
}

release_enough : (waiters sema : ℕ) → waiters ≤ 0x40000000 → waiters ≤ notify_all waiters sema
unfolding notify_all release_semaphore
release_enough waiters sema h = ground (arith, h)

pub notify_more : (waiters sema : ℕ) → sema ≤ notify_all waiters sema
unfolding notify_all release_semaphore
notify_more waiters sema = ground arith

module _ {Task : Type 0} where
  -- 1 on a thread that waits for a token; 1 on a thread that waiters_ counts.
  abbrev is_blocked : Thread Task → ℕ
  is_blocked blocked = 1
  is_blocked w = 0

  abbrev pub in_wait : Thread Task → ℕ
  in_wait blocked = 1
  in_wait resumed = 1
  in_wait w = 0

  abbrev pub blocked_threads : SemPool Task → ℕ
  blocked_threads p = total is_blocked p.threads

  is_blocked-in_wait : (w : Thread Task) → is_blocked w ≤ in_wait w
  is_blocked-in_wait awake = omega arith
  is_blocked-in_wait blocked = omega arith
  is_blocked-in_wait resumed = omega arith
  is_blocked-in_wait exited = omega arith
  is_blocked-in_wait (holding t) = omega arith
  is_blocked-in_wait (running t) = omega arith

  in_wait_bound : (w : Thread Task) → in_wait w ≤ 1
  in_wait_bound awake = omega arith
  in_wait_bound blocked = omega arith
  in_wait_bound resumed = omega arith
  in_wait_bound exited = omega arith
  in_wait_bound (holding t) = omega arith
  in_wait_bound (running t) = omega arith

  total-is_blocked : (ws : List (Thread Task)) → total is_blocked ws ≤ total in_wait ws
  total-is_blocked [] = omega arith
  total-is_blocked (w ∷ ws) = omega (arith, is_blocked-in_wait w, total-is_blocked ws)

  -- waiters_ counts the threads in CondVar::wait, and the constructor's threads are all there is.
  pub record Counted (n : ℕ) (p : SemPool Task) : Type 0 where
    pub counted : p.waiters ≡ total in_wait p.threads
    pub staff : length p.threads ≡ n

  set-Counted :
      {n : ℕ} {p : SemPool Task} (i : ℕ) (v w : Thread Task) (ts : List Task) (a m k : ℕ)
      → i < length p.threads
      → thread_at p i ≡ v
      → m + in_wait v ≡ p.waiters + in_wait w
      → Counted n p
      → Counted n (record p {
        threads = set p.threads i w;
        tasks = ts;
        active_tasks = a;
        waiters = m;
        sema = k;
      })
  set-Counted {n} {p} i v w ts a m k h e d c = record {
    counted = omega (arith, total-from in_wait p.threads i v w exited h e, d, c.counted);
    staff = length-set p.threads i w ∙ c.staff;
  }

  pub SemStep-Counted :
      {n : ℕ} {p q : SemPool Task} {e : Event Task} → SemStep p e q → Counted n p → Counted n q
  SemStep-Counted (submits p t off) c = record { counted = c.counted; staff = c.staff }
  SemStep-Counted (submit_rejected p t on) c = c
  SemStep-Counted (wait_blocks p i h w off e) c =
      set-Counted i awake blocked _ _ _ _ h w (omega arith) c
  SemStep-Counted (wait_resumes p i h w tok) c =
      set-Counted i blocked resumed _ _ _ _ h w (omega arith) c
  SemStep-Counted (wait_returns p i h w) c =
      set-Counted i resumed awake _ _ _ _ h w
        (omega (arith, c.counted, total-at in_wait p.threads i resumed exited h w)) c
  SemStep-Counted (worker_exits p i h w on e) c =
      set-Counted i awake exited _ _ _ _ h w (omega arith) c
  SemStep-Counted (worker_takes p i t rest h w e) c =
      set-Counted i awake (holding t) _ _ _ _ h w (omega arith) c
  SemStep-Counted (task_begins p i t h w) c =
      set-Counted i (holding t) (running t) _ _ _ _ h w (omega arith) c
  SemStep-Counted (task_ends p i t h w) c =
      set-Counted i (running t) awake _ _ _ _ h w (omega arith) c
  SemStep-Counted (shutdown_begins p) c = record { counted = c.counted; staff = c.staff }
  SemStep-Counted (shutdown_notifies p on) c = record { counted = c.counted; staff = c.staff }

  SemRun-Counted :
      {n : ℕ} {p q : SemPool Task} {es : List (Event Task)}
      → SemRun p es q
      → Counted n p
      → Counted n q
  SemRun-Counted (done p) c = c
  SemRun-Counted (step st rest) c = SemRun-Counted rest (SemStep-Counted st c)

  pub new_sem_pool-Counted : (n : ℕ) → Counted n (new_sem_pool n)
  unfolding new_sem_pool
  new_sem_pool-Counted zero = record { counted = refl; staff = refl }
  new_sem_pool-Counted (suc n) =
      let c = new_sem_pool-Counted n in
      record { counted = omega (arith, c.counted); staff = ap suc c.staff }

  -- The pool is shut down and every blocked thread has a token.
  pub record Freed (p : SemPool Task) : Type 0 where
    pub off : p.shutdown ≡ true
    pub tokens : blocked_threads p ≤ p.sema

  set-Freed :
      {p : SemPool Task} (i : ℕ) (v w : Thread Task) (ts : List Task) (a m k : ℕ)
      → i < length p.threads
      → thread_at p i ≡ v
      → p.sema + is_blocked w ≤ k + is_blocked v
      → Freed p
      → Freed (record p {
        threads = set p.threads i w;
        tasks = ts;
        active_tasks = a;
        waiters = m;
        sema = k;
      })
  set-Freed {p} i v w ts a m k h e d f = record {
    off = f.off;
    tokens = omega (arith, total-from is_blocked p.threads i v w exited h e, d, f.tokens);
  }

  SemStep-Freed : {p q : SemPool Task} {e : Event Task} → SemStep p e q → Freed p → Freed q
  SemStep-Freed (submits p t off) f = absurd (not_off off f.off)
  SemStep-Freed (submit_rejected p t on) f = f
  SemStep-Freed (wait_blocks p i h w off e) f = absurd (not_off off f.off)
  SemStep-Freed (wait_resumes p i h w tok) f =
      set-Freed i blocked resumed _ _ _ _ h w (omega (arith, tok)) f
  SemStep-Freed (wait_returns p i h w) f = set-Freed i resumed awake _ _ _ _ h w (omega arith) f
  SemStep-Freed (worker_exits p i h w on e) f = set-Freed i awake exited _ _ _ _ h w (omega arith) f
  SemStep-Freed (worker_takes p i t rest h w e) f =
      set-Freed i awake (holding t) _ _ _ _ h w (omega arith) f
  SemStep-Freed (task_begins p i t h w) f =
      set-Freed i (holding t) (running t) _ _ _ _ h w (omega arith) f
  SemStep-Freed (task_ends p i t h w) f = set-Freed i (running t) awake _ _ _ _ h w (omega arith) f
  SemStep-Freed (shutdown_begins p) f = record { off = refl; tokens = f.tokens }
  SemStep-Freed (shutdown_notifies p on) f = record {
    off = f.off;
    tokens = omega (arith, f.tokens, notify_more p.waiters p.sema);
  }

  SemRun-Freed : {p q : SemPool Task} {es : List (Event Task)} → SemRun p es q → Freed p → Freed q
  SemRun-Freed (done p) f = f
  SemRun-Freed (step st rest) f = SemRun-Freed rest (SemStep-Freed st f)

  -- In a pool of at most 2^30 workers, from shutdown's notify_all on, in whatever order the threads
  -- step, the pool stays shut down and the semaphore has a token for every thread that is blocked on
  -- it, also where the release would pass the semaphore's maximum and fails.
  pub SemRun-new_sem_pool-Freed :
      {p q : SemPool Task} {es fs : List (Event Task)} (n : ℕ)
      → n ≤ 0x40000000
      → SemRun (new_sem_pool n) es p
      → p.shutdown ≡ true
      → SemRun (record p { sema = notify_all p.waiters p.sema }) fs q
      → (q.shutdown ≡ true) × (blocked_threads q ≤ q.sema)
  SemRun-new_sem_pool-Freed {p} {q} n small before on after = (f.off, f.tokens)
    where
      c : Counted n p
      c = SemRun-Counted before (new_sem_pool-Counted n)

      few : p.waiters ≤ 0x40000000
      few = omega (arith, c.counted, c.staff, total_bound in_wait in_wait_bound p.threads)

      f : Freed q
      f = SemRun-Freed after (record {
        off = on;
        tokens =
            omega
              (arith, c.counted, total-is_blocked p.threads, release_enough p.waiters p.sema few);
      })
