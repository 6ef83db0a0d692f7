-- ===== src/Auth/Accounts.antt =====
-- src/server/auth.cpp: users files made of the lines that hashPassword is for.
use nexus_ftp_engine.Prelude.{
  ℕ, suc, ◌<◌, ◌≡◌, refl, ap, ◌∙◌, Bool, true, false, Option, none, some, List, [], ◌∷◌, ◌++◌, map,
  arith, length, take, drop, take-append, if◌then◌else◌,
}
use nexus_ftp_engine.Bytes.{Bytes, bytes, bytes_eq, is_empty, find}
use nexus_ftp_engine.Bytes.Laws.{Lacks, Lacks-append, drop-suc-append, find-append}
use nexus_ftp_engine.Bytes.Assoc.{lookup, lookup-insert}
use nexus_ftp_engine.Bytes.Lines.{get_lines, get_lines-append, strip_cr-id}
use nexus_ftp_engine.Sha256.{sha256_salted}
use nexus_ftp_engine.Sha256.Digest.{AllHex, sha256_salted-AllHex}
use nexus_ftp_engine.Auth.{AuthManager, load, authenticate}
use nexus_ftp_engine.Auth.Users.{
  UserRecord, hash_password, Loaded, add_user, load_value, load_stripped, load_line, load_lines,
  load_users, check_password, is_skipped,
}

-- A user with a password, and the salt of its hash.
pub record Account : Type 0 where
  pub user : Bytes
  pub salt : Bytes
  pub password : Bytes

-- The line of an account: "<user>=<hashPassword(password, salt)>".
unfoldable pub account_line : Account → Bytes
account_line a = a.user ++ (b'=' ∷ hash_password a.password a.salt [])

unfoldable pub users_text : List Account → Bytes
unfolding account_line
users_text [] = []
users_text (a ∷ accounts) = account_line a ++ (10 ∷ users_text accounts)

-- What a users file can hold: a user is not empty, is no comment and has no '=', a salt is not empty
-- and has no ':', and neither breaks the line.
pub record IsAccount (a : Account) : Type 0 where
  pub named : is_skipped a.user ≡ false
  pub user_key : Lacks b'=' a.user
  pub user_lf : Lacks 10 a.user
  pub user_cr : Lacks 13 a.user
  pub salted : is_empty a.salt ≡ false
  pub salt_key : Lacks b':' a.salt
  pub salt_lf : Lacks 10 a.salt
  pub salt_cr : Lacks 13 a.salt

abbrev pub AllAccounts : List Account → Type 0
AllAccounts [] = Unit {0}
AllAccounts (a ∷ accounts) = IsAccount a × AllAccounts accounts

Lacks-AllHex : (c : ℕ) (s : Bytes) → c < 48 → AllHex s → Lacks c s
Lacks-AllHex c [] h k = tt
Lacks-AllHex c (d ∷ s) h k = (ground (arith, k.0), Lacks-AllHex c s h k.1)

-- The record that loadUsers makes of an account.
abbrev pub record_of : Account → UserRecord
record_of a = record { hashed = true; salt = a.salt; stored = sha256_salted a.salt a.password }

pub hash_password-salted :
    (p s : Bytes)
    → is_empty s ≡ false
    → hash_password p s [] ≡ bytes "sha256:" ++ (s ++ (b':' ∷ sha256_salted s p))
unfolding hash_password bytes
hash_password-salted p [] e = cc
hash_password-salted p (c ∷ s) e = refl

Lacks-prefix : (c : ℕ) (s : Bytes) → c < 48 → Lacks c s → Lacks c (bytes "sha256:" ++ s)
unfolding bytes
Lacks-prefix c s low l = (
  (λ eq. omega arith),
  (
    (λ eq. omega arith),
    (
      (λ eq. omega arith),
      ((λ eq. omega arith), ((λ eq. omega arith), ((λ eq. omega arith), ((λ eq. omega arith), l)))),
    ),
  ),
)

account_line-Lacks :
    (c : ℕ) (a : Account)
    → c < 48
    → Lacks c a.user
    → is_empty a.salt ≡ false
    → Lacks c a.salt
    → Lacks c (account_line a)
unfolding account_line bytes
account_line-Lacks c a low hu e hs =
    Lacks-append c a.user (b'=' ∷ hash_password a.password a.salt []) hu (
      (λ eq. omega arith),
      rw (hash_password-salted a.password a.salt e) (
          Lacks-prefix c _ low (
            Lacks-append c a.salt (b':' ∷ sha256_salted a.salt a.password) hs (
              (λ eq. omega arith),
              Lacks-AllHex c (sha256_salted a.salt a.password) low
                  (sha256_salted-AllHex a.salt a.password),
            ))),
    )

load_value-hashed :
    (user salt rest : Bytes) (acc : Loaded)
    → Lacks b':' salt
    → load_value user (bytes "sha256:" ++ (salt ++ (b':' ∷ rest))) acc
      ≡ add_user user (record { hashed = true; salt = salt; stored = rest }) acc
unfolding load_value bytes bytes_eq
load_value-hashed user salt rest acc l =
    rw
      (find-append b':' salt rest l, take-append salt (b':' ∷ rest), drop-suc-append salt b':' rest)

load_value-account :
    (a : Account) (acc : Loaded)
    → IsAccount a
    → load_value a.user (hash_password a.password a.salt []) acc ≡ add_user a.user (record_of a) acc
load_value-account a acc k =
    rw (hash_password-salted a.password a.salt k.salted)
      (load_value-hashed a.user a.salt (sha256_salted a.salt a.password) acc k.salt_key)

is_skipped-append : (s t : Bytes) → is_skipped s ≡ false → is_skipped (s ++ t) ≡ false
is_skipped-append [] t e = cc
is_skipped-append (c ∷ s) t e = e

is_empty-named : (s : Bytes) → is_skipped s ≡ false → is_empty s ≡ false
is_empty-named [] e = cc
is_empty-named (c ∷ s) e = refl

load_stripped-split :
    (line : Bytes) (n : ℕ) (user value : Bytes) (acc : Loaded)
    → is_skipped line ≡ false
    → find b'=' line ≡ some n
    → take n line ≡ user
    → drop (suc n) line ≡ value
    → is_empty user ≡ false
    → is_empty value ≡ false
    → load_stripped acc line ≡ load_value user value acc
unfolding load_stripped
load_stripped-split line n user value acc kept found is_user is_value named full =
    rw (kept, load_stripped, found) (rw (is_user, is_value) (rw (named, full)))

load_stripped-pair :
    (user value : Bytes) (acc : Loaded)
    → is_skipped user ≡ false
    → Lacks b'=' user
    → is_empty value ≡ false
    → load_stripped acc (user ++ (b'=' ∷ value)) ≡ load_value user value acc
load_stripped-pair user value acc named key full =
    load_stripped-split (user ++ (b'=' ∷ value)) (length user) user value acc
      (is_skipped-append user (b'=' ∷ value) named) (find-append b'=' user value key)
      (take-append user (b'=' ∷ value)) (drop-suc-append user b'=' value)
      (is_empty-named user named) full

load_line-pair :
    (user value : Bytes) (acc : Loaded)
    → is_skipped user ≡ false
    → Lacks b'=' user
    → is_empty value ≡ false
    → Lacks 13 (user ++ (b'=' ∷ value))
    → load_line acc (user ++ (b'=' ∷ value)) ≡ load_value user value acc
unfolding load_line
load_line-pair user value acc named key full cr =
    ap (load_stripped acc) (strip_cr-id (user ++ (b'=' ∷ value)) cr)
    ∙ load_stripped-pair user value acc named key full

hash_password-full : (p s : Bytes) → is_empty (hash_password p s []) ≡ false
unfolding hash_password bytes
hash_password-full p s = refl

load_line-account :
    (a : Account) (acc : Loaded)
    → IsAccount a
    → load_line acc (account_line a) ≡ add_user a.user (record_of a) acc
unfolding account_line
load_line-account a acc k =
    load_line-pair a.user (hash_password a.password a.salt []) acc k.named k.user_key
      (hash_password-full a.password a.salt)
      (account_line-Lacks 13 a (omega arith) k.user_cr k.salted k.salt_cr)
    ∙ load_value-account a acc k

-- The accounts one after another: a later one replaces an earlier one of the same user.
unfoldable pub last_account : Bytes → List Account → Option Account
last_account user [] = none
last_account user (a ∷ accounts) = elim (last_account user accounts) [
  | some b ↦ some b
  | none ↦ if bytes_eq a.user user then some a else none
]

-- What authenticate looks up, for an account or for none.
abbrev pub record_for : Option Account → Option UserRecord → Option UserRecord
record_for none other = other
record_for (some a) other = some (record_of a)

lookup-load_lines :
    (accounts : List Account) (user : Bytes) (acc : Loaded)
    → AllAccounts accounts
    → lookup user (load_lines acc (map account_line accounts)).0
      ≡ record_for (last_account user accounts) (lookup user acc.0)
unfolding load_lines last_account
lookup-load_lines [] user acc k = refl
lookup-load_lines (a ∷ accounts) user acc (k, ks) =
    ap (λ b. lookup user (load_lines b (map account_line accounts)).0) (load_line-account a acc k)
    ∙ ground (
      arith,
      lookup-load_lines accounts user (add_user a.user (record_of a) acc) ks,
      lookup-insert a.user user (record_of a) acc.0,
    )

get_lines-users_text :
    (accounts : List Account)
    → AllAccounts accounts
    → get_lines (users_text accounts) ≡ map account_line accounts
unfolding users_text get_lines
get_lines-users_text [] k = refl
get_lines-users_text (a ∷ accounts) (k, ks) =
    get_lines-append (account_line a) (users_text accounts)
      (account_line-Lacks 10 a (omega arith) k.user_lf k.salted k.salt_lf)
    ∙ ap (◌∷◌ (account_line a)) (get_lines-users_text accounts ks)

lookup-users_text :
    (accounts : List Account) (user : Bytes)
    → AllAccounts accounts
    → lookup user (load_users (users_text accounts)).1
      ≡ record_for (last_account user accounts) none
unfolding load_users lookup
lookup-users_text accounts user k =
    ap (λ ls. lookup user (load_lines ([], 0) ls).0) (get_lines-users_text accounts k)
    ∙ lookup-load_lines accounts user ([], 0) k

-- Whether a password is that of the account, by the hash with the account's salt.
unfoldable pub admits : Option Account → Bytes → Bool
admits none password = false
admits (some a) password =
    bytes_eq (sha256_salted a.salt password) (sha256_salted a.salt a.password)

-- From a users file with a line for each of these accounts, authenticate admits a user by the password
-- of the last of the user's accounts, up to a collision of the salted hash, and nobody else.
pub authenticate-users_text :
    (accounts : List Account) (user password : Bytes) (auth : AuthManager)
    → AllAccounts accounts
    → authenticate user password (load (some (users_text accounts)) auth).1
      ≡ admits (last_account user accounts) password
unfolding authenticate load check_password admits
authenticate-users_text accounts user password auth k =
    ground (arith, lookup-users_text accounts user k)
