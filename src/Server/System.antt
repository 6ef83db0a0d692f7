-- ===== src/Server/System.antt =====
-- src/server/ftp_server.cpp with src/server/thread_pool.cpp and src/server/session.cpp: the accept
-- loop, the pool and the sessions in its workers. A turn of the accept loop or of a session's loop is
-- one step; the steps of different threads come in any order.
use nexus_ftp_engine.Prelude.{
  ℕ, ◌<◌, ◌≡◌, true, false, List, [], ◌∷◌, length, get_or, set, replicate,
}
use nexus_ftp_engine.Bytes.{bytes}
use nexus_ftp_engine.Platform.{Host}
use nexus_ftp_engine.Session.{
  Session, ServerContext, wait_user, Sys, next, leave, raised, inc, dec, set_state,
}
use nexus_ftp_engine.Session.Reply.{send_reply}
use nexus_ftp_engine.Session.Access.{new_session}
use nexus_ftp_engine.Session.Loop.{is_closed, turn, end_session}
use nexus_ftp_engine.Pool.{
  awake, holding, running, ThreadPool, Event, accepted, rejected, worker_at, set_worker, Step,
  submit_wakes, submit_unheard, submit_rejected, task_begins, task_ends, new_pool,
}
use nexus_ftp_engine.Server.{
  FtpServer, Connection, refused, submitted, invalid, accept_turn, shutdown,
}

-- Where a worker stands in the task that start submits: before the session's constructor, in run, or
-- behind it.
pub data Phase : Type 0 where
  before over : Phase
  inside : Session → Phase

pub record System (W : Type 0) : Type 0 where
  pub server : FtpServer
  pub pool : ThreadPool Connection
  pub phases : List Phase
  pub world : W

-- What a step does to the connections: a session that ends by an exception is told from the rest.
pub data Outcome : Type 0 where
  quiet failed : Outcome

-- The steps of the pool that neither submit a task nor run one.
abbrev pub IsOwn : {p q : ThreadPool Connection} {e : Event Connection} → Step p e q → Type 0
IsOwn (submit_wakes p t i off h w) = ⊥
IsOwn (submit_unheard p t off n) = ⊥
IsOwn (submit_rejected p t on) = ⊥
IsOwn (task_begins p i t h w) = ⊥
IsOwn (task_ends p i t h w) = ⊥
IsOwn _ = Unit

module _ (h : Host) (fuel : ℕ) where
  open h use {World}

  abbrev pub phase_at : System World → ℕ → Phase
  phase_at s i = get_or s.phases i over

  -- What a session works on, and the system behind a turn of it.
  abbrev pub sys_of : System World → Session → Sys World
  sys_of s session = record { session = session; ctx = s.server.context; world = s.world }

  abbrev pub set_phase : ℕ → Phase → System World → System World
  set_phase i p s = record s { phases = set s.phases i p }

  abbrev pub put_sys : Sys World → System World → System World
  put_sys t s = record s { server = record s.server { context = t.ctx }; world = t.world }

  -- The session's constructor and the start of run.
  unfoldable pub open_session : Connection → ServerContext → World → Sys World
  open_session c ctx w =
      set_state wait_user
        (send_reply h (bytes "220 FTP Server v2.0 ready.") (new_session h c.socket c.ip ctx w))

  -- The server behind start_listening, with the pool of its constructor.
  unfoldable pub new_system : ℕ → FtpServer → World → System World
  new_system n server w = record {
    server = server;
    pool = new_pool n;
    phases = replicate n over;
    world = w;
  }

  pub data ServerStep : System World → Outcome → System World → Type 0 where
    accept_none :
        (s : System World) (w : World)
        → s.server.running ≡ true
        → accept_turn h s.server s.world ≡ (invalid, w)
        → ServerStep s quiet (record s { world = w })
    accept_busy :
        (s : System World) (c : Connection) (w : World)
        → s.server.running ≡ true
        → accept_turn h s.server s.world ≡ (refused c, w)
        → ServerStep s quiet (record s { world = w })
    accept_submits :
        (s : System World) (c : Connection) (w : World) (p : ThreadPool Connection)
        → s.server.running ≡ true
        → accept_turn h s.server s.world ≡ (submitted c, w)
        → Step s.pool (accepted c) p
        → ServerStep s quiet (record s { pool = p; world = w })
    accept_late :
        (s : System World) (c : Connection) (w : World) (p : ThreadPool Connection)
        → s.server.running ≡ true
        → accept_turn h s.server s.world ≡ (submitted c, w)
        → Step s.pool (rejected c) p
        → ServerStep s quiet (record s { pool = p; world = w })
    shuts_down :
        (s : System World)
        → ServerStep s quiet (record s {
          server = (shutdown h s.server s.world).1;
          world = (shutdown h s.server s.world).2;
        })
    pool_moves :
        (s : System World) (e : Event Connection) (p : ThreadPool Connection) (st : Step s.pool e p)
        → IsOwn st
        → ServerStep s quiet (record s { pool = p })
    -- The task of a worker: activeTasks_, the constructor, turns of the loop, the end. A worker that
    -- holds a task has returned from the one before.
    task_begins_at :
        (s : System World) (i : ℕ) (c : Connection)
        → i < length s.pool.workers
        → worker_at s.pool i ≡ holding c
        → i < length s.phases
        → phase_at s i ≡ over
        → ServerStep s quiet (
            set_phase i before (record s {
              pool =
                  set_worker i
                    (running c)
                    (record s.pool { active_tasks = inc s.pool.active_tasks });
            }))
    session_opens :
        (s : System World) (i : ℕ) (c : Connection)
        → i < length s.phases
        → worker_at s.pool i ≡ running c
        → phase_at s i ≡ before
        → ServerStep s quiet (
            let t = open_session c s.server.context s.world in
            set_phase i (inside t.session) (put_sys t s))
    session_turns :
        (s : System World) (i : ℕ) (session : Session) (t : Sys World)
        → i < length s.phases
        → phase_at s i ≡ inside session
        → is_closed session.state ≡ false
        → turn h fuel (sys_of s session) ≡ next t
        → ServerStep s quiet (set_phase i (inside t.session) (put_sys t s))
    session_closed :
        (s : System World) (i : ℕ) (session : Session)
        → i < length s.phases
        → phase_at s i ≡ inside session
        → is_closed session.state ≡ true
        → ServerStep s quiet (set_phase i over (put_sys (end_session h fuel (sys_of s session)) s))
    session_leaves :
        (s : System World) (i : ℕ) (session : Session) (t : Sys World)
        → i < length s.phases
        → phase_at s i ≡ inside session
        → is_closed session.state ≡ false
        → turn h fuel (sys_of s session) ≡ leave t
        → ServerStep s quiet (set_phase i over (put_sys (end_session h fuel t) s))
    session_raises :
        (s : System World) (i : ℕ) (session : Session) (t : Sys World)
        → i < length s.phases
        → phase_at s i ≡ inside session
        → is_closed session.state ≡ false
        → turn h fuel (sys_of s session) ≡ raised t
        → ServerStep s failed (set_phase i over (put_sys t s))
    task_ends_at :
        (s : System World) (i : ℕ) (c : Connection)
        → i < length s.pool.workers
        → worker_at s.pool i ≡ running c
        → phase_at s i ≡ over
        → ServerStep s quiet (record s {
          pool = set_worker i awake (record s.pool { active_tasks = dec s.pool.active_tasks });
        })

  pub data ServerRun : System World → List Outcome → System World → Type 0 where
    done : (s : System World) → ServerRun s [] s
    step :
        {s t u : System World} {o : Outcome} {os : List Outcome}
        → ServerStep s o t
        → ServerRun t os u
        → ServerRun s (o ∷ os) u
