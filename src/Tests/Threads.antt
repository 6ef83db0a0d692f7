-- ===== src/Tests/Threads.antt =====
-- Witnesses of the theorems on the threads' counters and on the wrappers of sockets and threads.
use nexus_ftp_engine.Prelude.{◌≡◌, ◌+◌, refl, some, none, [], ◌∷◌, total, arith}
use nexus_ftp_engine.Session.{dec}
use nexus_ftp_engine.Threads.{AtomicRun, called, returned, decrement, new_value, result, new_atomic}
use nexus_ftp_engine.Threads.Posix
use nexus_ftp_engine.Threads.Posix.{PosixAtomic, PosixRun, Pc, new_posix}
use nexus_ftp_engine.Threads.Posix.Refines.{atomic_of, PosixRun-AtomicRun}
use nexus_ftp_engine.Threads.Windows
use nexus_ftp_engine.Threads.Windows.{WinAtomic, WinRun, new_win}
use nexus_ftp_engine.Threads.Windows.Refines.{win_atomic_of, WinRun-AtomicRun}
use nexus_ftp_engine.Threads.Handles.{starts, moves_thread, assigns_thread, thread_scope}
use nexus_ftp_engine.Threads.Handles.Joins.{thread_scope-once}
use nexus_ftp_engine.Platform.Managed.{makes, moves_in, assigns}
use nexus_ftp_engine.Platform.Managed.Ownership.{is_fd}
use nexus_ftp_engine.Platform.Managed.Scopes.{whole_scope, whole_scope-once}

-- Two threads in dec() at once: both read 2, and the second exchange fails and reads 1.
abbrev both_decremented : PosixAtomic
both_decremented = record { val = 0; pcs = Posix.finished 0 ∷ Posix.finished 0 ∷ [] }

race : PosixRun (new_posix 2 2) (called 0 decrement ∷ called 1 decrement ∷ []) both_decremented
unfolding new_posix
race =
    let s0 = new_posix 2 2 in
    let s1 : PosixAtomic = Posix.set_pc 0 (Posix.entered decrement) s0 in
    let s2 : PosixAtomic = Posix.set_pc 1 (Posix.entered decrement) s1 in
    let s3 : PosixAtomic = Posix.set_pc 0 (Posix.testing 2) s2 in
    let s4 : PosixAtomic = Posix.set_pc 1 (Posix.testing 2) s3 in
    let s5 : PosixAtomic = Posix.set_pc 0 (Posix.finished 0) (record s4 { val = 1 }) in
    let s6 : PosixAtomic = Posix.set_pc 1 (Posix.testing 1) s5 in
    let r1 = Posix.PosixRun.next Posix.PosixRun.here (Posix.PosixStep.calls s0 0 decrement refl) in
    let r2 = Posix.PosixRun.next r1 (Posix.PosixStep.calls s1 1 decrement refl) in
    let r3 = Posix.PosixRun.next r2 (Posix.PosixStep.loads s2 0 refl) in
    let r4 = Posix.PosixRun.next r3 (Posix.PosixStep.loads s3 1 refl) in
    let r5 = Posix.PosixRun.next r4 (Posix.PosixStep.exchanges s4 0 2 refl (omega arith) refl) in
    let r6 = Posix.PosixRun.next r5 (Posix.PosixStep.fails s5 1 2 refl (omega arith)) in
    Posix.PosixRun.next r6 (Posix.PosixStep.exchanges s6 1 1 refl (omega arith) refl)

PosixRun-AtomicRun_example :
    AtomicRun
      (new_atomic 2 2)
      (called 0 decrement ∷ called 1 decrement ∷ [])
      (atomic_of both_decremented)
PosixRun-AtomicRun_example = PosixRun-AtomicRun 2 2 race

-- One thread takes the lock, subtracts and gives it back.
decremented :
    WinRun
      (new_win 1 2)
      (called 0 decrement ∷ returned 0 0 ∷ [])
      (record { val = 1; owner = none; pcs = Windows.outside ∷ [] })
unfolding new_win result new_value dec
decremented =
    let s0 = new_win 1 2 in
    let s1 : WinAtomic = Windows.set_pc 0 (Windows.entered decrement) s0 in
    let s2 : WinAtomic =
      Windows.set_pc 0 (Windows.locked decrement) (record s1 { owner = some 0 }) in
    let s3 : WinAtomic = Windows.set_pc 0 (Windows.reading decrement 2) s2 in
    let s4 : WinAtomic = Windows.set_pc 0 (Windows.leaving 0) (record s3 { val = 1 }) in
    let s5 : WinAtomic = Windows.set_pc 0 (Windows.finished 0) (record s4 { owner = none }) in
    let r1 =
      Windows.WinRun.next Windows.WinRun.here
        (Windows.WinStep.calls s0 0 decrement (omega arith) refl) in
    let r2 =
      Windows.WinRun.next r1 (Windows.WinStep.locks s1 0 decrement (omega arith) refl refl) in
    let r3 =
      Windows.WinRun.next r2 (Windows.WinStep.reads s2 0 decrement (omega arith) refl refl) in
    let r4 = Windows.WinRun.next r3 (Windows.WinStep.writes s3 0 decrement 2 (omega arith) refl) in
    let r5 = Windows.WinRun.next r4 (Windows.WinStep.unlocks s4 0 0 (omega arith) refl) in
    Windows.WinRun.next r5 (Windows.WinStep.returns s5 0 0 (omega arith) refl)

WinRun-AtomicRun_example :
    AtomicRun
      (new_atomic 1 2)
      (called 0 decrement ∷ returned 0 0 ∷ [])
      (win_atomic_of (record { val = 1; owner = none; pcs = Windows.outside ∷ [] }))
WinRun-AtomicRun_example = WinRun-AtomicRun 1 2 decremented

-- A socket that is wrapped, moved twice and closed.
whole_scope-once_example :
    total
        (is_fd 7)
        (whole_scope (makes (some 7) ∷ moves_in 0 ∷ makes none ∷ assigns 0 1 ∷ [])).closed
      + total
          (is_fd 7)
          (whole_scope (makes (some 7) ∷ moves_in 0 ∷ makes none ∷ assigns 0 1 ∷ [])).released
    ≡ 1
whole_scope-once_example =
    whole_scope-once 7 (makes (some 7) ∷ moves_in 0 ∷ makes none ∷ assigns 0 1 ∷ [])
      (omega arith, (omega arith, omega arith, tt)) refl

thread_scope-once_example :
    total (is_fd 7) (thread_scope (starts 7 ∷ moves_thread 0 ∷ assigns_thread 0 0 ∷ [])).closed ≡ 1
thread_scope-once_example =
    thread_scope-once 7 (starts 7 ∷ moves_thread 0 ∷ assigns_thread 0 0 ∷ [])
      (omega arith, (omega arith, tt)) refl
