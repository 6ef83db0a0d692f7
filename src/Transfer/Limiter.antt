-- ===== src/Transfer/Limiter.antt =====
-- src/server/transfer.h: RateLimiter. The arithmetic in `double` is the host's.
use nexus_ftp_engine.Prelude.{ℕ, ◌+◌, ◌-◌, ◌%◌, ◌^◌, ltb, ◌==◌, if◌then◌else◌}
use nexus_ftp_engine.Platform.{Host}

pub record RateLimiter : Type 0 where
  pub limit : ℕ
  pub window_start : ℕ
  pub window_bytes : ℕ

-- RateLimiter::setLimit
unfoldable pub set_limit : ℕ → RateLimiter → RateLimiter
set_limit bytes_per_sec l = record l { limit = bytes_per_sec }

module _ (h : Host) where
  open h use {World, clock, sleep_ms, over_budget_ms, second_elapsed}

  -- windowStart_ = clock(); windowBytes_ = 0;
  unfoldable pub reset_window : RateLimiter → World → RateLimiter × World
  reset_window l w =
      let (now, w1) = clock w in (record l { window_start = now; window_bytes = 0 }, w1)

  -- Sleep, where the window is over its budget by a millisecond or more.
  unfoldable pub sleep_over_budget : ℕ → RateLimiter → World → RateLimiter × World
  unfolding reset_window
  sleep_over_budget elapsed l w =
      let ms = over_budget_ms l.limit l.window_bytes elapsed in
      if ltb 0 ms then reset_window l (sleep_ms ms w) else (l, w)

  -- RateLimiter::throttle
  unfoldable pub throttle : ℕ → RateLimiter → World → RateLimiter × World
  unfolding sleep_over_budget reset_window
  throttle n l w =
      let l1 = record l { window_bytes = (l.window_bytes + n) % 2 ^ 64 } in
      let (now, w1) = clock w in
      let elapsed = now - l.window_start in
      let (l2, w2) = sleep_over_budget elapsed l1 w1 in
      if l.limit == 0
      then (l, w)
      else if second_elapsed elapsed
      then reset_window l2 w2
      else (l2, w2)
