-- ===== src/Threads/Posix.antt =====
-- src/common/win32_threads.h, POSIX: AtomicU64 over std::atomic<uint64_t>, whose operations are
-- atomic; dec() is a loop of compare_exchange_weak.
pub mod Refines
use nexus_ftp_engine.Prelude.{
  ℕ, zero, suc, ◌+◌, ◌-◌, ◌<◌, ◌≡◌, ◌≢◌, List, [], ◌∷◌, ◌++◌, get_or, set, replicate,
}
use nexus_ftp_engine.Threads.{Op, load, store, add, increment, decrement, Event, called, returned}
use nexus_ftp_engine.Threads.{new_value, result}

-- Where a thread stands: before the first access, in the loop of dec() with `current`, at the end.
pub data Pc : Type 0 where
  outside : Pc
  entered : Op → Pc
  testing : (current : ℕ) → Pc
  finished : (value : ℕ) → Pc

pub record PosixAtomic : Type 0 where
  pub val : ℕ
  pub pcs : List Pc

abbrev pub pc_at : PosixAtomic → ℕ → Pc
pc_at s i = get_or s.pcs i outside

abbrev pub set_pc : ℕ → Pc → PosixAtomic → PosixAtomic
set_pc i pc s = record s { pcs = set s.pcs i pc }

unfoldable pub new_posix : ℕ → ℕ → PosixAtomic
new_posix threads v = record { val = v; pcs = replicate threads outside }

pub data PosixStep : PosixAtomic → List Event → PosixAtomic → Type 0 where
  calls :
      (s : PosixAtomic) (i : ℕ) (op : Op)
      → pc_at s i ≡ outside
      → PosixStep s (called i op ∷ []) (set_pc i (entered op) s)
  -- load, store, fetch_add(v) and fetch_add(1).
  accesses :
      (s : PosixAtomic) (i : ℕ) (op : Op)
      → pc_at s i ≡ entered op
      → op ≢ decrement
      → PosixStep s []
          (set_pc i (finished (result op s.val)) (record s { val = new_value op s.val }))
  -- uint64_t current = val_.load();
  loads :
      (s : PosixAtomic) (i : ℕ)
      → pc_at s i ≡ entered decrement
      → PosixStep s [] (set_pc i (testing s.val) s)
  -- while (current > 0 && !val_.compare_exchange_weak(current, current - 1)) {}
  leaves :
      (s : PosixAtomic) (i : ℕ) → pc_at s i ≡ testing 0 → PosixStep s [] (set_pc i (finished 0) s)
  exchanges :
      (s : PosixAtomic) (i current : ℕ)
      → pc_at s i ≡ testing current
      → 0 < current
      → s.val ≡ current
      → PosixStep s [] (set_pc i (finished 0) (record s { val = current - 1 }))
  -- It fails where the value is another one, and may fail where it is not.
  fails :
      (s : PosixAtomic) (i current : ℕ)
      → pc_at s i ≡ testing current
      → 0 < current
      → PosixStep s [] (set_pc i (testing s.val) s)
  returns :
      (s : PosixAtomic) (i value : ℕ)
      → pc_at s i ≡ finished value
      → PosixStep s (returned i value ∷ []) (set_pc i outside s)

pub data PosixRun (s : PosixAtomic) : List Event → PosixAtomic → Type 0 where
  here : PosixRun s [] s
  next :
      {es fs : List Event} {t u : PosixAtomic}
      → PosixRun s es t
      → PosixStep t fs u
      → PosixRun s (es ++ fs) u
