-- ===== src/Threads.antt =====
-- src/common/win32_threads.h: AtomicU64 as its callers use it, each operation in one step. The two
-- implementations of the header are modelled beside it, an access of the shared state at a time.
pub mod Posix
pub mod Windows
pub mod Flags
pub mod Handles
use nexus_ftp_engine.Prelude.{
  ℕ, zero, suc, ◌+◌, ◌-◌, ◌%◌, ◌^◌, ◌≡◌, sym, subst, List, [], ◌∷◌, ◌++◌, append-nil, append_assoc,
  get_or, set, replicate,
}
use nexus_ftp_engine.Session.{inc, dec}

pub data Op : Type 0 where
  load : Op
  store : ℕ → Op
  add : ℕ → Op
  increment : Op
  decrement : Op

-- The value after the operation, a uint64_t, and what the operation returns.
unfoldable pub new_value : Op → ℕ → ℕ
new_value load val = val
new_value (store v) val = v
new_value (add v) val = (val + v) % 2 ^ 64
new_value increment val = inc val
new_value decrement val = dec val

unfoldable pub result : Op → ℕ → ℕ
result load val = val
result op val = 0

-- A thread that has called an operation, before and after its effect.
pub data Call : Type 0 where
  idle : Call
  pending : Op → Call
  done : ℕ → Call

pub data Event : Type 0 where
  called : ℕ → Op → Event
  returned : ℕ → ℕ → Event

pub record Atomic : Type 0 where
  pub val : ℕ
  pub calls : List Call

abbrev pub call_at : Atomic → ℕ → Call
call_at s i = get_or s.calls i idle

abbrev pub set_call : ℕ → Call → Atomic → Atomic
set_call i c s = record s { calls = set s.calls i c }

unfoldable pub new_atomic : ℕ → ℕ → Atomic
new_atomic threads v = record { val = v; calls = replicate threads idle }

pub data AtomicStep : Atomic → List Event → Atomic → Type 0 where
  calls :
      (s : Atomic) (i : ℕ) (op : Op)
      → call_at s i ≡ idle
      → AtomicStep s (called i op ∷ []) (set_call i (pending op) s)
  takes_effect :
      (s : Atomic) (i : ℕ) (op : Op)
      → call_at s i ≡ pending op
      → AtomicStep s []
          (set_call i (done (result op s.val)) (record s { val = new_value op s.val }))
  returns :
      (s : Atomic) (i r : ℕ)
      → call_at s i ≡ done r
      → AtomicStep s (returned i r ∷ []) (set_call i idle s)

-- The events of a run in their order.
pub data AtomicRun (s : Atomic) : List Event → Atomic → Type 0 where
  here : AtomicRun s [] s
  next :
      {es fs : List Event} {t u : Atomic}
      → AtomicRun s es t
      → AtomicStep t fs u
      → AtomicRun s (es ++ fs) u

pub AtomicRun-one : {s t : Atomic} {es : List Event} → AtomicStep s es t → AtomicRun s es t
AtomicRun-one st = next here st

pub AtomicRun-append :
    {s t u : Atomic} {es fs : List Event}
    → AtomicRun s es t
    → AtomicRun t fs u
    → AtomicRun s (es ++ fs) u
AtomicRun-append {s = s} {t = t} {es = es} r here =
    subst (λ k. AtomicRun s k t) (sym (append-nil es)) r
AtomicRun-append {s = s} {u = u} {es = es} r (next {es = fs} {fs = gs} q st) =
    subst (λ k. AtomicRun s k u) (append_assoc es fs gs) (next (AtomicRun-append r q) st)
