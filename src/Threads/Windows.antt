-- ===== src/Threads/Windows.antt =====
-- src/common/win32_threads.h, Windows: AtomicU64 under a LockGuard on its Mutex, a critical section.
pub mod Exclusion
pub mod Refines
use nexus_ftp_engine.Prelude.{
  ℕ, zero, suc, ◌+◌, ◌<◌, ◌≡◌, Bool, true, false, Option, none, some, List, [], ◌∷◌, ◌++◌, length,
  get_or, set, replicate,
}
use nexus_ftp_engine.Threads.{
  Op, load, store, add, increment, decrement, Event, called, returned, new_value, result,
}

-- Where a thread stands: before m_.lock(), behind it, with the value it has read, at the end of the
-- LockGuard's scope, behind m_.unlock().
pub data Pc : Type 0 where
  outside : Pc
  entered : Op → Pc
  locked : Op → Pc
  reading : Op → (v : ℕ) → Pc
  leaving : (value : ℕ) → Pc
  finished : (value : ℕ) → Pc

pub record WinAtomic : Type 0 where
  pub val : ℕ
  pub owner : Option ℕ  -- the owning thread of the critical section
  pub pcs : List Pc

abbrev pub pc_at : WinAtomic → ℕ → Pc
pc_at s i = get_or s.pcs i outside

abbrev pub set_pc : ℕ → Pc → WinAtomic → WinAtomic
set_pc i pc s = record s { pcs = set s.pcs i pc }

unfoldable pub new_win : ℕ → ℕ → WinAtomic
new_win threads v = record { val = v; owner = none; pcs = replicate threads outside }

-- The operations that read val_ and write it.
abbrev pub updates : Op → Bool
updates load = false
updates (store v) = false
updates op = true

-- EnterCriticalSection waits until no thread owns the section.
pub data WinStep : WinAtomic → List Event → WinAtomic → Type 0 where
  calls :
      (s : WinAtomic) (i : ℕ) (op : Op)
      → i < length s.pcs
      → pc_at s i ≡ outside
      → WinStep s (called i op ∷ []) (set_pc i (entered op) s)
  locks :
      (s : WinAtomic) (i : ℕ) (op : Op)
      → i < length s.pcs
      → pc_at s i ≡ entered op
      → s.owner ≡ none
      → WinStep s [] (set_pc i (locked op) (record s { owner = some i }))
  loads :
      (s : WinAtomic) (i : ℕ)
      → i < length s.pcs
      → pc_at s i ≡ locked load
      → WinStep s [] (set_pc i (leaving s.val) s)
  stores :
      (s : WinAtomic) (i v : ℕ)
      → i < length s.pcs
      → pc_at s i ≡ locked (store v)
      → WinStep s [] (set_pc i (leaving 0) (record s { val = v }))
  -- val_ += v, ++val_ and if (val_) --val_ read the value, and then write it.
  reads :
      (s : WinAtomic) (i : ℕ) (op : Op)
      → i < length s.pcs
      → pc_at s i ≡ locked op
      → updates op ≡ true
      → WinStep s [] (set_pc i (reading op s.val) s)
  writes :
      (s : WinAtomic) (i : ℕ) (op : Op) (v : ℕ)
      → i < length s.pcs
      → pc_at s i ≡ reading op v
      → WinStep s [] (set_pc i (leaving (result op v)) (record s { val = new_value op v }))
  unlocks :
      (s : WinAtomic) (i value : ℕ)
      → i < length s.pcs
      → pc_at s i ≡ leaving value
      → WinStep s [] (set_pc i (finished value) (record s { owner = none }))
  returns :
      (s : WinAtomic) (i value : ℕ)
      → i < length s.pcs
      → pc_at s i ≡ finished value
      → WinStep s (returned i value ∷ []) (set_pc i outside s)

pub data WinRun (s : WinAtomic) : List Event → WinAtomic → Type 0 where
  here : WinRun s [] s
  next :
      {es fs : List Event} {t u : WinAtomic}
      → WinRun s es t
      → WinStep t fs u
      → WinRun s (es ++ fs) u
