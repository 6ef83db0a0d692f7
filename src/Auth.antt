-- ===== src/Auth.antt =====
-- src/server/auth.h and src/server/auth.cpp. The two maps are behind mutexes, so each operation is
-- one step; the time of `nowSecs` is an argument.
pub mod Users
pub mod Rates
pub mod Blocking
pub mod Accounts
use nexus_ftp_engine.Prelude.{ℕ, Bool, Option, none, some}
use nexus_ftp_engine.Prelude.{◌+◌, ◌%◌, ◌^◌, []}
use nexus_ftp_engine.Bytes.{Bytes}
use nexus_ftp_engine.Bytes.Assoc.{Assoc, lookup, insert, erase}
use Users.{UserRecord, load_users, check_password}
use Rates.{RateInfo, fresh_rate, is_limited, bump, expire}

pub record AuthManager : Type 0 where
  pub users : Assoc UserRecord
  pub rate_map : Assoc RateInfo
  pub total_failed : ℕ

abbrev pub initial_auth : AuthManager
initial_auth = record { users = []; rate_map = []; total_failed = 0 }

-- AuthManager::loadUsers; `none` is a file that cannot be opened.
unfoldable pub load : Option Bytes → AuthManager → Bool × AuthManager
load file auth = elim file [
  | none ↦ (Bool.false, auth)
  | some text ↦ let (loaded, users) = load_users text in (loaded, record auth { users = users })
]

-- AuthManager::authenticate
unfoldable pub authenticate : Bytes → Bytes → AuthManager → Bool
authenticate user pass auth = elim (lookup user auth.users) [
  | none ↦ Bool.false
  | some rec ↦ check_password rec pass
]

-- AuthManager::isRateLimited
unfoldable pub is_rate_limited : Bytes → ℕ → AuthManager → Bool × AuthManager
unfolding is_limited expire
is_rate_limited ip now auth = elim (lookup ip auth.rate_map) [
  | none ↦ (Bool.false, auth)
  | some info ↦
      (is_limited info now, record auth { rate_map = insert ip (expire info now) auth.rate_map })
]

-- AuthManager::recordFailedAttempt; `rateMap_[ip]` makes a fresh entry where there is none.
unfoldable pub record_failed_attempt : Bytes → ℕ → AuthManager → AuthManager
unfolding bump
record_failed_attempt ip now auth = record auth {
  rate_map =
      insert ip (bump now (elim (lookup ip auth.rate_map) [ none ↦ fresh_rate | some info ↦ info ]))
        auth.rate_map;
  total_failed = (auth.total_failed + 1) % 2 ^ 64;
}

-- AuthManager::clearAttempts
unfoldable pub clear_attempts : Bytes → AuthManager → AuthManager
clear_attempts ip auth = record auth { rate_map = erase ip auth.rate_map }
