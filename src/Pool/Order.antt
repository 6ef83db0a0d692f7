-- ===== src/Pool/Order.antt =====
-- src/server/thread_pool.cpp: the order of the tasks.
use nexus_ftp_engine.Prelude.{
  ◌≡◌, refl, sym, ap, ◌∙◌, List, [], ◌∷◌, ◌++◌, append_assoc, append-nil,
}
use nexus_ftp_engine.Pool.{
  ThreadPool, Event, accepted, rejected, started, silent, Step, submit_wakes, submit_unheard,
  submit_rejected, worker_waits, worker_exits, worker_takes, worker_wakes, task_begins, task_ends,
  shutdown_begins, shutdown_notifies, Run, done, step,
}

module _ {Task : Type 0} where
  abbrev and_accepted : Event Task → List Task → List Task
  and_accepted (accepted t) ts = t ∷ ts
  and_accepted e ts = ts

  abbrev and_started : Event Task → List Task → List Task
  and_started (started t) ts = t ∷ ts
  and_started e ts = ts

  -- The tasks that submit accepted, and those that a worker took, in the order of the run.
  abbrev pub accepted_in : List (Event Task) → List Task
  accepted_in [] = []
  accepted_in (e ∷ es) = and_accepted e (accepted_in es)

  abbrev pub started_in : List (Event Task) → List Task
  started_in [] = []
  started_in (e ∷ es) = and_started e (started_in es)

  Step-order :
      {p q : ThreadPool Task} {e : Event Task}
      → Step p e q
      → (ts : List Task) → p.tasks ++ and_accepted e ts ≡ and_started e (q.tasks ++ ts)
  Step-order (submit_wakes p t i off here w) ts = sym (append_assoc p.tasks (t ∷ []) ts)
  Step-order (submit_unheard p t off n) ts = sym (append_assoc p.tasks (t ∷ []) ts)
  Step-order (submit_rejected p t on) ts = refl
  Step-order (worker_waits p i here a off e) ts = refl
  Step-order (worker_exits p i here a on e) ts = refl
  Step-order (worker_takes p i t rest here a e) ts = ap (λ us. us ++ ts) e
  Step-order (worker_wakes p i here w) ts = refl
  Step-order (task_begins p i t here w) ts = refl
  Step-order (task_ends p i t here w) ts = refl
  Step-order (shutdown_begins p) ts = refl
  Step-order (shutdown_notifies p on) ts = refl

  and_started-append :
      (e : Event Task) (ts us : List Task) → and_started e (ts ++ us) ≡ and_started e ts ++ us
  and_started-append (accepted t) ts us = refl
  and_started-append (rejected t) ts us = refl
  and_started-append (started t) ts us = refl
  and_started-append silent ts us = refl

  -- In every run, however the callers and the workers interleave, the tasks that were in the queue and
  -- those that submit accepted are, in this order, the tasks that workers took and those that are left.
  pub Run-order :
      {p q : ThreadPool Task} {es : List (Event Task)}
      → Run p es q
      → p.tasks ++ accepted_in es ≡ started_in es ++ q.tasks
  Run-order (done p) = append-nil p.tasks
  Run-order (step {p} {q} {r} {e} {es} s rest) =
      Step-order s (accepted_in es)
      ∙ ap (and_started e) (Run-order rest)
      ∙ and_started-append e (started_in es) r.tasks
