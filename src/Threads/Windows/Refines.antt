-- ===== src/Threads/Windows/Refines.antt =====
-- src/common/win32_threads.h, Windows: the operations under the mutex against those of one step.
use nexus_ftp_engine.Prelude.{
  ℕ, ◌≡◌, sym, ap, subst, ◌∙◌, List, [], map, map-set, get_or-map, map-replicate, set_same,
}
use nexus_ftp_engine.Threads
use nexus_ftp_engine.Threads.{
  Op, load, store, Event, new_value, result, Call, idle, pending, done, Atomic, call_at, set_call,
  AtomicStep, AtomicRun, AtomicRun-one, AtomicRun-append, new_atomic,
}
use nexus_ftp_engine.Threads.Windows
use nexus_ftp_engine.Threads.Windows.{
  Pc, outside, entered, locked, reading, leaving, finished, WinAtomic, pc_at, set_pc, new_win,
  WinStep, WinRun,
}
use nexus_ftp_engine.Threads.Windows.Exclusion.{IsGuarded, WinRun-IsGuarded, new_win-IsGuarded}

-- A call takes effect where it writes, or where load() reads.
abbrev pub call_of : Pc → Call
call_of outside = idle
call_of (entered op) = pending op
call_of (locked op) = pending op
call_of (reading op v) = pending op
call_of (leaving value) = done value
call_of (finished value) = done value

abbrev pub win_atomic_of : WinAtomic → Atomic
win_atomic_of s = record { val = s.val; calls = map call_of s.pcs }

call_of-at :
    (s : WinAtomic) (i : ℕ) (pc : Pc) → pc_at s i ≡ pc → call_at (win_atomic_of s) i ≡ call_of pc
call_of-at s i pc e = get_or-map call_of s.pcs i outside ∙ ap call_of e

win_atomic_of-set_pc :
    (i : ℕ) (pc : Pc) (s : WinAtomic)
    → set_call i (call_of pc) (win_atomic_of s) ≡ win_atomic_of (set_pc i pc s)
win_atomic_of-set_pc i pc s =
    ap (λ cs. record { val = s.val; calls = cs }) (sym (map-set call_of s.pcs i pc))

-- A step that the callers do not see.
AtomicRun-stays :
    (s : WinAtomic) (i : ℕ) (pc : Pc)
    → call_at (win_atomic_of s) i ≡ call_of pc
    → AtomicRun (win_atomic_of s) [] (win_atomic_of (set_pc i pc s))
AtomicRun-stays s i pc e =
    subst (AtomicRun (win_atomic_of s) [])
      (sym (
          ap (λ cs. record { val = s.val; calls = cs })
            (set_same (map call_of s.pcs) i (call_of pc) idle e))
        ∙ win_atomic_of-set_pc i pc s)
      Threads.AtomicRun.here

-- A step in which the operation takes effect.
AtomicRun-effect :
    (s : WinAtomic) (i : ℕ) (op : Op)
    → call_at (win_atomic_of s) i ≡ pending op
    → AtomicRun (win_atomic_of s) [] (
        win_atomic_of
          (set_pc i (leaving (result op s.val)) (record s { val = new_value op s.val })))
AtomicRun-effect s i op e =
    subst (AtomicRun (win_atomic_of s) [])
      (win_atomic_of-set_pc i (leaving (result op s.val)) (record s { val = new_value op s.val }))
      (AtomicRun-one (Threads.takes_effect (win_atomic_of s) i op e))

WinStep-AtomicRun :
    {s t : WinAtomic} {es : List Event}
    → IsGuarded s
    → WinStep s es t
    → AtomicRun (win_atomic_of s) es (win_atomic_of t)
unfolding new_value result
WinStep-AtomicRun g (Windows.calls s i op h e) =
    subst (AtomicRun (win_atomic_of s) _) (win_atomic_of-set_pc i (entered op) s)
      (AtomicRun-one (Threads.calls (win_atomic_of s) i op (call_of-at s i outside e)))
WinStep-AtomicRun g (Windows.locks s i op h e free) =
    AtomicRun-stays s i (locked op) (call_of-at s i (entered op) e)
WinStep-AtomicRun g (Windows.loads s i h e) =
    AtomicRun-effect s i load (call_of-at s i (locked load) e)
WinStep-AtomicRun g (Windows.stores s i v h e) =
    AtomicRun-effect s i (store v) (call_of-at s i (locked (store v)) e)
WinStep-AtomicRun g (Windows.reads s i op h e u) =
    AtomicRun-stays s i (reading op s.val) (call_of-at s i (locked op) e)
WinStep-AtomicRun g (Windows.writes s i op v h e) =
    subst
      (λ w.
        AtomicRun (win_atomic_of s) []
          (win_atomic_of (set_pc i (leaving (result op w)) (record s { val = new_value op w }))))
      (sym (g.current i op v e)) (AtomicRun-effect s i op (call_of-at s i (reading op v) e))
WinStep-AtomicRun g (Windows.unlocks s i value h e) =
    AtomicRun-stays s i (finished value) (call_of-at s i (leaving value) e)
WinStep-AtomicRun g (Windows.returns s i value h e) =
    subst (AtomicRun (win_atomic_of s) _) (win_atomic_of-set_pc i outside s) (
      AtomicRun-one (Threads.returns (win_atomic_of s) i value (call_of-at s i (finished value) e)))

WinRun-refines :
    {s t : WinAtomic} {es : List Event}
    → IsGuarded s
    → WinRun s es t
    → AtomicRun (win_atomic_of s) es (win_atomic_of t)
WinRun-refines g Windows.here = Threads.AtomicRun.here
WinRun-refines g (Windows.next r st) =
    AtomicRun-append (WinRun-refines g r) (WinStep-AtomicRun (WinRun-IsGuarded r g) st)

-- Every run of the operations of the Windows branch from a new counter, whatever the interleaving,
-- has the calls and the results of a run in which each operation takes effect in one step, and ends
-- with its value: the critical section keeps what a thread has read current until it writes.
pub WinRun-AtomicRun :
    (threads v : ℕ) {t : WinAtomic} {es : List Event}
    → WinRun (new_win threads v) es t
    → AtomicRun (new_atomic threads v) es (win_atomic_of t)
unfolding new_win new_atomic
WinRun-AtomicRun threads v {t = t} {es = es} r =
    subst (λ cs. AtomicRun (record { val = v; calls = cs }) es (win_atomic_of t))
      (map-replicate call_of threads outside) (WinRun-refines (new_win-IsGuarded threads v) r)
