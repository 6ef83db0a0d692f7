-- ===== src/Threads/Posix/Refines.antt =====
-- src/common/win32_threads.h, POSIX: the atomic operations against those of one step.
use nexus_ftp_engine.Prelude.{
  ℕ, zero, suc, ◌-◌, ◌≡◌, refl, sym, ap, subst, ◌∙◌, List, [], set, map, map-set, get_or-map,
  set_same, map-replicate, arith,
}
use nexus_ftp_engine.Session.{dec}
use nexus_ftp_engine.Threads
use nexus_ftp_engine.Threads.{
  AtomicRun-one, AtomicRun-append, Op, decrement, Event, new_value, result, Call, idle, pending,
  done, Atomic, call_at, set_call, AtomicStep, AtomicRun, new_atomic,
}
use nexus_ftp_engine.Threads.Posix
use nexus_ftp_engine.Threads.Posix.{
  Pc, outside, entered, testing, finished, PosixAtomic, pc_at, PosixStep, PosixRun, set_pc,
  new_posix,
}

-- A call has taken effect where it has read 0: there is nothing to subtract.
abbrev pub call_of : Pc → Call
call_of outside = idle
call_of (entered op) = pending op
call_of (testing zero) = done 0
call_of (testing (suc n)) = pending decrement
call_of (finished value) = done value

abbrev pub atomic_of : PosixAtomic → Atomic
atomic_of s = record { val = s.val; calls = map call_of s.pcs }

call_of-at :
    (s : PosixAtomic) (i : ℕ) (pc : Pc) → pc_at s i ≡ pc → call_at (atomic_of s) i ≡ call_of pc
call_of-at s i pc e = get_or-map call_of s.pcs i outside ∙ ap call_of e

atomic_of-set_pc :
    (i : ℕ) (pc : Pc) (s : PosixAtomic)
    → set_call i (call_of pc) (atomic_of s) ≡ atomic_of (set_pc i pc s)
atomic_of-set_pc i pc s =
    ap (λ cs. record { val = s.val; calls = cs }) (sym (map-set call_of s.pcs i pc))

-- A read of the value in dec(), the first or that of an exchange that fails.
decrement-reads :
    (s : Atomic) (i : ℕ)
    → call_at s i ≡ pending decrement
    → AtomicRun s [] (set_call i (call_of (testing s.val)) s)
unfolding new_value result dec
decrement-reads s i e = reads s.val refl
  where
    reads : (v : ℕ) → s.val ≡ v → AtomicRun s [] (set_call i (call_of (testing v)) s)
    reads zero k =
        subst (λ v. AtomicRun s [] (set_call i (done 0) (record s { val = v }))) (ap dec k ∙ sym k)
          (AtomicRun-one (Threads.takes_effect s i decrement e))
    reads (suc n) k =
        subst (λ cs. AtomicRun s [] (record s { calls = cs }))
          (sym (set_same s.calls i (pending decrement) idle e)) Threads.AtomicRun.here

PosixStep-AtomicRun :
    {s t : PosixAtomic} {es : List Event}
    → PosixStep s es t
    → AtomicRun (atomic_of s) es (atomic_of t)
unfolding new_value result dec
PosixStep-AtomicRun (Posix.calls s i op e) =
    subst (AtomicRun (atomic_of s) _) (atomic_of-set_pc i (entered op) s)
      (AtomicRun-one (Threads.calls (atomic_of s) i op (call_of-at s i outside e)))
PosixStep-AtomicRun (Posix.accesses s i op e k) =
    subst (AtomicRun (atomic_of s) [])
      (atomic_of-set_pc i (finished (result op s.val)) (record s { val = new_value op s.val }))
      (AtomicRun-one (Threads.takes_effect (atomic_of s) i op (call_of-at s i (entered op) e)))
PosixStep-AtomicRun (Posix.loads s i e) =
    subst (AtomicRun (atomic_of s) []) (atomic_of-set_pc i (testing s.val) s)
      (decrement-reads (atomic_of s) i (call_of-at s i (entered decrement) e))
PosixStep-AtomicRun (Posix.leaves s i e) =
    subst (AtomicRun (atomic_of s) [])
      (sym (
          ap (λ cs. record { val = s.val; calls = cs })
            (set_same (map call_of s.pcs) i (done 0) idle (call_of-at s i (testing 0) e)))
        ∙ atomic_of-set_pc i (finished 0) s)
      Threads.AtomicRun.here
PosixStep-AtomicRun (Posix.exchanges s i zero e k v) = absurd (omega (arith, k))
PosixStep-AtomicRun (Posix.exchanges s i (suc n) e k v) =
    subst (AtomicRun (atomic_of s) [])
      (ap (λ w. record { val = w - 1; calls = set (map call_of s.pcs) i (done 0) }) v
        ∙ atomic_of-set_pc i (finished 0) (record s { val = suc n - 1 }))
      (AtomicRun-one
        (Threads.takes_effect (atomic_of s) i decrement (call_of-at s i (testing (suc n)) e)))
PosixStep-AtomicRun (Posix.fails s i zero e k) = absurd (omega (arith, k))
PosixStep-AtomicRun (Posix.fails s i (suc n) e k) =
    subst (AtomicRun (atomic_of s) []) (atomic_of-set_pc i (testing s.val) s)
      (decrement-reads (atomic_of s) i (call_of-at s i (testing (suc n)) e))
PosixStep-AtomicRun (Posix.returns s i value e) =
    subst (AtomicRun (atomic_of s) _) (atomic_of-set_pc i outside s)
      (AtomicRun-one (Threads.returns (atomic_of s) i value (call_of-at s i (finished value) e)))

PosixRun-refines :
    {s t : PosixAtomic} {es : List Event}
    → PosixRun s es t
    → AtomicRun (atomic_of s) es (atomic_of t)
PosixRun-refines Posix.here = Threads.AtomicRun.here
PosixRun-refines (Posix.next r st) = AtomicRun-append (PosixRun-refines r) (PosixStep-AtomicRun st)

-- Every run of the POSIX operations from a new counter, whatever the interleaving and the failures of
-- compare_exchange_weak in the loop of dec(), has the calls and the results of a run in which each
-- operation takes effect in one step, and ends with its value.
pub PosixRun-AtomicRun :
    (threads v : ℕ) {t : PosixAtomic} {es : List Event}
    → PosixRun (new_posix threads v) es t
    → AtomicRun (new_atomic threads v) es (atomic_of t)
unfolding new_posix new_atomic
PosixRun-AtomicRun threads v {t = t} {es = es} r =
    subst (λ cs. AtomicRun (record { val = v; calls = cs }) es (atomic_of t))
      (map-replicate call_of threads outside) (PosixRun-refines r)
