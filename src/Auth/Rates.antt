-- ===== src/Auth/Rates.antt =====
-- src/server/auth.cpp: the counter of failed attempts of one address.
use nexus_ftp_engine.Prelude.{ℕ, ◌+◌, Bool, ◌&&◌, not, ltb, leb, if◌then◌else◌}

pub record RateInfo : Type 0 where
  pub failed_attempts : ℕ
  pub blocked_until_sec : ℕ

abbrev pub max_attempts : ℕ
max_attempts = 5

abbrev pub block_secs : ℕ
block_secs = 60

abbrev pub fresh_rate : RateInfo
fresh_rate = record { failed_attempts = 0; blocked_until_sec = 0 }

-- Whether isRateLimited returns true.
unfoldable pub is_limited : RateInfo → ℕ → Bool
is_limited info now = leb max_attempts info.failed_attempts && ltb now info.blocked_until_sec

-- What isRateLimited leaves: an expired block is reset.
unfoldable pub expire : RateInfo → ℕ → RateInfo
expire info now =
    if leb max_attempts info.failed_attempts && not (ltb now info.blocked_until_sec)
    then fresh_rate
    else info

-- What recordFailedAttempt makes of an entry.
unfoldable pub bump : ℕ → RateInfo → RateInfo
bump now info =
    let failed = info.failed_attempts + 1 in
    record {
      failed_attempts = failed;
      blocked_until_sec =
          if leb max_attempts failed then now + block_secs else info.blocked_until_sec;
    }
