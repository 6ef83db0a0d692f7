-- ===== src/Server/Capacity.antt =====
-- src/server/ftp_server.cpp: the count of active connections against the guard of the accept loop.
use nexus_ftp_engine.Prelude.{
  total, total-from, total-at, total_bound, ℕ, zero, suc, ◌+◌, ◌^◌, ◌<◌, ◌≤◌, ◌≡◌, ◌≢◌, refl, sym,
  ap, subst, ◌∙◌, List, [], ◌∷◌, arith, length, length-set, length-replicate, set, replicate,
}
use nexus_ftp_engine.Prelude.Int.{ℤ, pos, negsuc}
use nexus_ftp_engine.Platform.{Host}
use nexus_ftp_engine.Session.{Session, ServerContext, Sys, Flow, next, leave, raised, inc, dec}
use nexus_ftp_engine.Session.Flows.{FlowAll, FlowAll-map}
use nexus_ftp_engine.Session.Reply.{send_reply}
use nexus_ftp_engine.Session.Access.{new_session}
use nexus_ftp_engine.Session.Loop.{turn, end_session}
use nexus_ftp_engine.Session.Connections.{SameServer, turn-SameServer}
use nexus_ftp_engine.Server.{
  FtpServer, Connection, refused, submitted, to_uint64, at_capacity, admit, accept_turn, shutdown,
}
use nexus_ftp_engine.Server.System.{
  Phase, before, over, inside, System, Outcome, quiet, failed, phase_at, sys_of, open_session,
  new_system, ServerStep, accept_none, accept_busy, accept_submits, accept_late, shuts_down,
  pool_moves, task_begins_at, session_opens, session_turns, session_closed, session_leaves,
  session_raises, task_ends_at, ServerRun, done, step,
}

-- 1 on a worker in a session.
abbrev pub is_inside : Phase → ℕ
is_inside (inside s) = 1
is_inside _ = 0

is_inside_bound : (p : Phase) → is_inside p ≤ 1
is_inside_bound before = omega arith
is_inside_bound over = omega arith
is_inside_bound (inside s) = omega arith

-- How many sessions an exception has ended.
abbrev pub failures : List Outcome → ℕ
failures [] = 0
failures (quiet ∷ os) = failures os
failures (failed ∷ os) = suc (failures os)

-- The number of failures behind one more outcome.
abbrev more : Outcome → ℕ → ℕ
more quiet k = k
more failed k = suc k

more-failures :
    (o : Outcome) (os : List Outcome) (k : ℕ) → more o k + failures os ≡ k + failures (o ∷ os)
more-failures quiet os k = refl
more-failures failed os k = omega arith

module _ (h : Host) (fuel : ℕ) where
  open h use {World}

  abbrev pub active : System World → ℕ
  active s = s.server.context.active_connections

  -- The active connections are the sessions in the workers and those that exceptions have ended.
  record Counts (n k : ℕ) (limit : ℕ) (s : System World) : Type 0 where
    pub counted : active s ≡ total is_inside s.phases + k
    pub staff : length s.phases ≡ n
    pub limited : to_uint64 s.server.max_clients ≡ limit

  -- A step of one worker that moves the count along with its phase.
  phase-Counts :
      {n k l limit : ℕ} (s t : System World) (i : ℕ) (v w : Phase)
      → i < length s.phases
      → phase_at h fuel s i ≡ v
      → t.phases ≡ set s.phases i w
      → t.server.max_clients ≡ s.server.max_clients
      → active t + is_inside v + k ≡ active s + is_inside w + l
      → Counts n k limit s
      → Counts n l limit t
  phase-Counts s t i v w here e ps mc d c = record {
    counted = omega (
      arith,
      total-from is_inside s.phases i v w over here e,
      d,
      c.counted,
      ap (total is_inside) ps,
    );
    staff = ap length ps ∙ length-set s.phases i w ∙ c.staff;
    limited = ap to_uint64 mc ∙ c.limited;
  }

  -- A step that leaves the phases, the count and the limit.
  still-Counts :
      {n k limit : ℕ} (s t : System World)
      → t.phases ≡ s.phases
      → active t ≡ active s
      → t.server.max_clients ≡ s.server.max_clients
      → Counts n k limit s
      → Counts n k limit t
  still-Counts {n} {k} s t ps same mc c = record {
    counted = same ∙ c.counted ∙ ap (λ xs. total is_inside xs + k) (sym ps);
    staff = ap length ps ∙ c.staff;
    limited = ap to_uint64 mc ∙ c.limited;
  }

  shutdown-still :
      (s : FtpServer) (w : World)
      → ((shutdown h s w).1.context ≡ s.context) × ((shutdown h s w).1.max_clients ≡ s.max_clients)
  unfolding shutdown
  shutdown-still s w = ground arith

  active-open_session :
      (c : Connection) (ctx : ServerContext) (w : World)
      → (open_session h fuel c ctx w).ctx.active_connections ≡ inc ctx.active_connections
  unfolding open_session new_session send_reply
  active-open_session c ctx w = refl

  active-end_session :
      (t : Sys World) → (end_session h fuel t).ctx.active_connections ≡ dec t.ctx.active_connections
  unfolding end_session
  active-end_session t = refl

  -- The count behind a turn of a session.
  active-turn :
      (s : System World) (session : Session) (f : Flow (Sys World))
      → turn h fuel (sys_of h fuel s session) ≡ f
      → FlowAll (λ (t : Sys World). t.ctx.active_connections ≡ active s) f
  active-turn s session f e = subst (FlowAll (λ t. t.ctx.active_connections ≡ active s)) e (
      FlowAll-map (SameServer (sys_of h fuel s session)) (turn h fuel (sys_of h fuel s session))
        (λ t k. k.active) (turn-SameServer h fuel (sys_of h fuel s session)))

  inc_small : (n : ℕ) → n + 1 < 2 ^ 64 → inc n ≡ n + 1
  unfolding inc
  inc_small n small = omega (arith, small)

  dec_pos : (n : ℕ) → 0 < n → dec n + 1 ≡ n
  unfolding dec
  dec_pos n positive = omega (arith, positive)

  -- The count when a worker that is not inside opens a session, and when one inside leaves.
  opened :
      {n k limit : ℕ} (s : System World) (i : ℕ) (session : Session)
      → n + k < 2 ^ 64
      → i < length s.phases
      → phase_at h fuel s i ≡ before
      → Counts n k limit s
      → inc (active s) ≡ active s + 1
  opened s i session small here e c = inc_small (active s) (
      omega (
        arith,
        small,
        c.counted,
        c.staff,
        total-from is_inside s.phases i before (inside session) over here e,
        total_bound is_inside is_inside_bound (set s.phases i (inside session)),
        length-set s.phases i (inside session),
      ))

  left :
      {n k limit : ℕ} (s : System World) (i : ℕ) (session : Session)
      → i < length s.phases
      → phase_at h fuel s i ≡ inside session
      → Counts n k limit s
      → dec (active s) + 1 ≡ active s
  left s i session here e c =
      dec_pos (active s)
        (omega (arith, c.counted, total-at is_inside s.phases i (inside session) over here e))

  ServerStep-Counts :
      {n k limit : ℕ} {s t : System World} {o : Outcome}
      → n + k < 2 ^ 64
      → ServerStep h fuel s o t
      → Counts n k limit s
      → Counts n (more o k) limit t
  ServerStep-Counts small (accept_none s w on e) c = still-Counts s _ refl refl refl c
  ServerStep-Counts small (accept_busy s x w on e) c = still-Counts s _ refl refl refl c
  ServerStep-Counts small (accept_submits s x w p on e st) c = still-Counts s _ refl refl refl c
  ServerStep-Counts small (accept_late s x w p on e st) c = still-Counts s _ refl refl refl c
  ServerStep-Counts small (shuts_down s) c =
      let k = shutdown-still s.server s.world in
      still-Counts s _ refl (ap (λ (x : ServerContext). x.active_connections) k.0) k.1 c
  ServerStep-Counts small (pool_moves s e p st own) c = still-Counts s _ refl refl refl c
  ServerStep-Counts small (task_begins_at s i x h1 w h2 e) c =
      phase-Counts s _ i over before h2 e refl refl (omega arith) c
  ServerStep-Counts {n} {k} small (session_opens s i x h1 w e) c =
      phase-Counts s _ i before (inside _) h1 e refl refl
        (omega (
          arith,
          active-open_session x s.server.context s.world,
          opened s i (open_session h fuel x s.server.context s.world).session (omega (arith, small))
              h1 e c,
        ))
        c
  ServerStep-Counts small (session_turns s i session t h1 e going eq) c =
      phase-Counts s _ i (inside session) (inside t.session) h1 e refl refl
        (omega (arith, active-turn s session (next t) eq)) c
  ServerStep-Counts small (session_closed s i session h1 e shut) c =
      phase-Counts s _ i (inside session) over h1 e refl refl
        (omega (arith, active-end_session (sys_of h fuel s session), left s i session h1 e c)) c
  ServerStep-Counts small (session_leaves s i session t h1 e going eq) c =
      phase-Counts s _ i (inside session) over h1 e refl refl
        (omega (
          arith,
          active-end_session t,
          ap dec (active-turn s session (leave t) eq),
          left s i session h1 e c,
        ))
        c
  ServerStep-Counts small (session_raises s i session t h1 e going eq) c =
      phase-Counts s _ i (inside session) over h1 e refl refl
        (omega (arith, active-turn s session (raised t) eq)) c
  ServerStep-Counts small (task_ends_at s i x h1 w e) c = still-Counts s _ refl refl refl c

  ServerRun-Counts :
      {n k limit : ℕ} {s t : System World} {os : List Outcome}
      → n + (k + failures os) < 2 ^ 64
      → ServerRun h fuel s os t
      → Counts n k limit s
      → Counts n (k + failures os) limit t
  ServerRun-Counts {n} {k} {limit} small (done s) c =
      subst (λ j. Counts n j limit s) (omega arith) c
  ServerRun-Counts {n} {k} {limit} {s} {t} small (step {t = m} {o} {os} st rest) c =
      subst (λ j. Counts n j limit t) (more-failures o os k)
        (ServerRun-Counts {k = more o k} (omega (arith, small, more-failures o os k)) rest
          (ServerStep-Counts (omega (arith, small)) st c))

  new_system-Counts :
      (n : ℕ) (server : FtpServer) (w : World)
      → server.context.active_connections ≡ 0
      → Counts n 0 (to_uint64 server.max_clients) (new_system h fuel n server w)
  unfolding new_system
  new_system-Counts n server w e = record {
    counted = omega (arith, e, none_inside n);
    staff = length-replicate n over;
    limited = refl;
  }
    where
      none_inside : (m : ℕ) → total is_inside (replicate m over) ≡ 0
      none_inside zero = refl
      none_inside (suc m) = omega (arith, none_inside m)

  refused_full :
      (s : FtpServer) (c : Connection) (v u : World)
      → accept_turn h s v ≡ (refused c, u)
      → to_uint64 s.max_clients ≤ s.context.active_connections
  unfolding accept_turn admit at_capacity
  refused_full s c v u e = ground (arith, e)

  submitted_free :
      (s : FtpServer) (c : Connection) (v u : World)
      → accept_turn h s v ≡ (submitted c, u)
      → s.context.active_connections < to_uint64 s.max_clients
  unfolding accept_turn admit at_capacity
  submitted_free s c v u e = ground (arith, e)

  to_uint64_bound : (z : ℤ) → to_uint64 z < 2 ^ 64
  unfolding to_uint64
  to_uint64_bound (pos m) = omega arith
  to_uint64_bound (negsuc m) = omega arith

  -- From a server with no active connection and a pool of `n` workers, in every state that the accept
  -- loop, the workers and their sessions can reach in any order, the count of active connections is
  -- the number of workers inside a session plus the number of sessions that an exception has ended,
  -- as long as the workers and those sessions together are fewer than 2^64.
  pub ServerRun-active :
      {q : System World} {os : List Outcome} (n : ℕ) (server : FtpServer) (w : World)
      → server.context.active_connections ≡ 0
      → n + failures os < 2 ^ 64
      → ServerRun h fuel (new_system h fuel n server w) os q
      → active q ≡ total is_inside q.phases + failures os
  ServerRun-active n server w e small run =
      let c = ServerRun-Counts (omega (arith, small)) run (new_system-Counts n server w e) in
      omega (arith, c.counted)

  -- If the workers and the sessions that exceptions have ended are fewer than max_clients, no turn of
  -- the accept loop refuses a connection, however many wait in the queue of the pool.
  pub ServerRun-unrefused :
      {q : System World} {os : List Outcome} (n : ℕ) (server : FtpServer) (w : World)
      → server.context.active_connections ≡ 0
      → n + failures os < to_uint64 server.max_clients
      → ServerRun h fuel (new_system h fuel n server w) os q
      → (c : Connection) (v u : World) → accept_turn h q.server v ≢ (refused c, u)
  ServerRun-unrefused {q} n server w e small run c v u r =
      let a =
        ServerRun-Counts (omega (arith, small, to_uint64_bound server.max_clients)) run
          (new_system-Counts n server w e) in
      omega (
        arith,
        small,
        a.counted,
        a.staff,
        a.limited,
        refused_full q.server c v u r,
        total_bound is_inside is_inside_bound q.phases,
      )

  -- Once as many sessions as max_clients have ended by an exception, no turn of the accept loop submits
  -- a connection any more.
  pub ServerRun-unsubmitted :
      {q : System World} {os : List Outcome} (n : ℕ) (server : FtpServer) (w : World)
      → server.context.active_connections ≡ 0
      → n + failures os < 2 ^ 64
      → to_uint64 server.max_clients ≤ failures os
      → ServerRun h fuel (new_system h fuel n server w) os q
      → (c : Connection) (v u : World) → accept_turn h q.server v ≢ (submitted c, u)
  ServerRun-unsubmitted {q} n server w e small many run c v u r =
      let a = ServerRun-Counts (omega (arith, small)) run (new_system-Counts n server w e) in
      omega (arith, many, a.counted, a.limited, submitted_free q.server c v u r)
