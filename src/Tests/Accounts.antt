-- ===== src/Tests/Accounts.antt =====
-- Witnesses of the theorems on the users file and on failed attempts.
use nexus_ftp_engine.Prelude.{
  ℕ, ◌+◌, ◌≡◌, ◌≢◌, refl, ap, ◌&&◌, some, List, [], ◌∷◌, arith, length, leb, ltb,
}
use nexus_ftp_engine.Bytes.{Bytes, bytes_eq}
use nexus_ftp_engine.Auth.{
  AuthManager, initial_auth, load, authenticate, is_rate_limited, record_failed_attempt,
}
use nexus_ftp_engine.Auth.Accounts.{
  Account, IsAccount, users_text, last_account, admits, authenticate-users_text,
}
use nexus_ftp_engine.Auth.Blocking.{rate_of, record_all, is_rate_limited-record_all}

abbrev pub bob : Account
bob = record { user = b'b' ∷ []; salt = b'7' ∷ []; password = b'p' ∷ [] }

pub bob-IsAccount : IsAccount bob
bob-IsAccount = record {
  named = refl;
  user_key = ((λ e. omega (arith, e)), tt);
  user_lf = ((λ e. omega (arith, e)), tt);
  user_cr = ((λ e. omega (arith, e)), tt);
  salted = refl;
  salt_key = ((λ e. omega (arith, e)), tt);
  salt_lf = ((λ e. omega (arith, e)), tt);
  salt_cr = ((λ e. omega (arith, e)), tt);
}

authenticate-users_text_example :
    authenticate (b'b' ∷ []) (b'p' ∷ []) (load (some (users_text (bob ∷ []))) initial_auth).1
    ≡ admits (last_account (b'b' ∷ []) (bob ∷ [])) (b'p' ∷ [])
authenticate-users_text_example =
    authenticate-users_text (bob ∷ []) (b'b' ∷ []) (b'p' ∷ []) initial_auth (bob-IsAccount, tt)

abbrev attacker : Bytes
attacker = b'9' ∷ []

abbrev neighbour : Bytes
neighbour = b'8' ∷ []

abbrev early : List ℕ
early = 10 ∷ 11 ∷ 12 ∷ 13 ∷ []

abbrev once : List ℕ
once = 81 ∷ []

is_rate_limited-record_all_example :
    (is_rate_limited attacker 70
      (record_failed_attempt attacker 14 (record_all attacker early initial_auth))).0
    ≡ (leb 5 ((rate_of attacker initial_auth).failed_attempts + length early + 1)
        && ltb 70 (14 + 60))
is_rate_limited-record_all_example = is_rate_limited-record_all attacker early 14 70 initial_auth

not_same : bytes_eq attacker attacker ≢ bytes_eq neighbour attacker
unfolding bytes_eq
not_same = λ e. cc

attacker_apart : attacker ≢ neighbour
attacker_apart e = not_same (ap (λ s. bytes_eq s attacker) e)

-- An address with five failures, blocked until 74.
abbrev blocked : AuthManager
blocked = record initial_auth {
  rate_map = (attacker, record { failed_attempts = 5; blocked_until_sec = 74 }) ∷ [];
}
