-- ===== src/Auth/Blocking.antt =====
-- src/server/auth.cpp: the counter of failed attempts, over sequences of failures.
use nexus_ftp_engine.Prelude.{
  ℕ, ◌+◌, ◌≤◌, ◌≡◌, ◌≢◌, ◌∙◌, false, ◌&&◌, none, some, List, [], ◌∷◌, arith, length, ltb, leb,
  if◌then◌else◌,
}
use nexus_ftp_engine.Bytes.{Bytes, bytes_eq}
use nexus_ftp_engine.Bytes.Laws.{bytes_eq_iff, bytes_eq_refl}
use nexus_ftp_engine.Bytes.Assoc.{lookup, lookup-insert, lookup-erase}
use nexus_ftp_engine.Auth.{AuthManager, is_rate_limited, record_failed_attempt, clear_attempts}
use nexus_ftp_engine.Auth.Rates.{RateInfo, fresh_rate, is_limited, expire, bump}

-- The entry of an address, fresh where there is none.
abbrev pub rate_of : Bytes → AuthManager → RateInfo
rate_of ip auth = elim (lookup ip auth.rate_map) [ none ↦ fresh_rate | some info ↦ info ]

-- Failures of one address at these times, the first one first.
unfoldable pub record_all : Bytes → List ℕ → AuthManager → AuthManager
record_all ip [] auth = auth
record_all ip (t ∷ times) auth = record_all ip times (record_failed_attempt ip t auth)

rate_of-record_failed_attempt :
    (ip other : Bytes) (t : ℕ) (auth : AuthManager)
    → rate_of other (record_failed_attempt ip t auth)
      ≡ (if bytes_eq ip other then bump t (rate_of ip auth) else rate_of other auth)
unfolding record_failed_attempt
rate_of-record_failed_attempt ip other t auth =
    ground (arith, lookup-insert ip other (bump t (rate_of ip auth)) auth.rate_map)

limited-rate_of :
    (ip : Bytes) (now : ℕ) (auth : AuthManager)
    → (is_rate_limited ip now auth).0 ≡ is_limited (rate_of ip auth) now
unfolding is_rate_limited is_limited
limited-rate_of ip now auth = ground arith

failed-record_all :
    (ip : Bytes) (times : List ℕ) (auth : AuthManager)
    → (rate_of ip (record_all ip times auth)).failed_attempts
      ≡ (rate_of ip auth).failed_attempts + length times
unfolding record_all bump
failed-record_all ip [] auth = omega arith
failed-record_all ip (t ∷ times) auth = ground (
  arith,
  failed-record_all ip times (record_failed_attempt ip t auth),
  rate_of-record_failed_attempt ip ip t auth,
  bytes_eq_refl ip,
)

-- After failures at any times and one more at `last`, an address is blocked exactly if that makes
-- five or more in all, and until a minute after the last one.
pub is_rate_limited-record_all :
    (ip : Bytes) (times : List ℕ) (last now : ℕ) (auth : AuthManager)
    → (is_rate_limited ip now (record_failed_attempt ip last (record_all ip times auth))).0
      ≡ (leb 5 ((rate_of ip auth).failed_attempts + length times + 1) && ltb now (last + 60))
unfolding is_limited bump
is_rate_limited-record_all ip times last now auth = ground (
  arith,
  limited-rate_of ip now (record_failed_attempt ip last (record_all ip times auth)),
  rate_of-record_failed_attempt ip ip last (record_all ip times auth),
  failed-record_all ip times auth,
  bytes_eq_refl ip,
)

rate_of-is_rate_limited :
    (ip other : Bytes) (now : ℕ) (auth : AuthManager)
    → rate_of other (is_rate_limited ip now auth).1
      ≡ (if bytes_eq ip other then expire (rate_of ip auth) now else rate_of other auth)
unfolding is_rate_limited expire
rate_of-is_rate_limited ip other now auth = ground (
  arith,
  lookup-insert ip other (expire (rate_of ip auth) now) auth.rate_map,
  bytes_eq_iff ip other,
)

rate_of-clear_attempts :
    (ip other : Bytes) (auth : AuthManager)
    → rate_of other (clear_attempts ip auth)
      ≡ (if bytes_eq ip other then fresh_rate else rate_of other auth)
unfolding clear_attempts
rate_of-clear_attempts ip other auth = ground (arith, lookup-erase ip other auth.rate_map)

-- A failure, a check and a success of one address leave the answer for another as it was.
is_rate_limited-apart :
    (ip other : Bytes) (t now : ℕ) (auth : AuthManager)
    → ip ≢ other
    → ((is_rate_limited other now (record_failed_attempt ip t auth)).0
        ≡ (is_rate_limited other now auth).0)
      × ((is_rate_limited other now (is_rate_limited ip t auth).1).0
          ≡ (is_rate_limited other now auth).0)
      × ((is_rate_limited other now (clear_attempts ip auth)).0
          ≡ (is_rate_limited other now auth).0)
is_rate_limited-apart ip other t now auth apart = ground (
  arith,
  bytes_eq_iff ip other,
  limited-rate_of other now auth,
  limited-rate_of other now (record_failed_attempt ip t auth),
  limited-rate_of other now (is_rate_limited ip t auth).1,
  limited-rate_of other now (clear_attempts ip auth),
  rate_of-record_failed_attempt ip other t auth,
  rate_of-is_rate_limited ip other t auth,
  rate_of-clear_attempts ip other auth,
)

-- After a check once the minute is over, the count of the address begins again:
-- it takes five more failures to block it.
is_rate_limited-again :
    (ip : Bytes) (times : List ℕ) (checked last now : ℕ) (auth : AuthManager)
    → (rate_of ip auth).blocked_until_sec ≤ checked
    → 5 ≤ (rate_of ip auth).failed_attempts
    → let fresh = is_rate_limited ip checked auth in
      (fresh.0 ≡ false)
      × ((is_rate_limited ip now (record_failed_attempt ip last (record_all ip times fresh.1))).0
          ≡ (leb 5 (length times + 1) && ltb now (last + 60)))
unfolding expire is_limited
is_rate_limited-again ip times checked last now auth over many = (
  limited-rate_of ip checked auth ∙ ground arith,
  is_rate_limited-record_all ip times last now (is_rate_limited ip checked auth).1
      ∙ ground (arith, rate_of-is_rate_limited ip ip checked auth, bytes_eq_refl ip),
)
