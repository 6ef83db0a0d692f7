-- ===== src/Threads/Flags.antt =====
-- src/common/win32_threads.h: AtomicBool. Windows keeps it in a LONG, 1 or 0; each operation is one
-- Interlocked call, or one of std::atomic<bool>.
use nexus_ftp_engine.Prelude.{ℕ, ◌≡◌, refl, Bool, true, false, not, ◌==◌, if◌then◌else◌}

-- AtomicBool(v) and store(v): the new value of val_.
unfoldable pub flag_of : Bool → ℕ
flag_of v = if v then 1 else 0

-- load()
unfoldable pub load_flag : ℕ → Bool
load_flag val = not (val == 0)

-- exchange(v): the result, and the new value.
unfoldable pub exchange_flag : Bool → ℕ → Bool × ℕ
unfolding flag_of
exchange_flag v val = (not (val == 0), flag_of v)

-- Of two calls exchange(false) in a row on a flag that is set, the first one sees it set.
exchange_flag-once :
    let (first, val) = exchange_flag false (flag_of true) in
    (first ≡ true) × ((exchange_flag false val).0 ≡ false)
unfolding exchange_flag flag_of
exchange_flag-once = (refl, refl)
