-- ===== src/Auth/Users.antt =====
-- src/server/auth.cpp: the users file, the salted hashes and the comparison of a password.
use nexus_ftp_engine.Prelude.{
  ℕ, suc, ◌%◌, Bool, true, false, ◌||◌, none, some, List, [], ◌∷◌, ◌++◌, take, drop, ltb, ◌==◌,
  if◌then◌else◌,
}
use nexus_ftp_engine.Bytes.{Bytes, bytes, bytes_eq, is_empty, find, substr}
use nexus_ftp_engine.Bytes.Assoc.{Assoc, insert}
use nexus_ftp_engine.Bytes.Lines.{get_lines, strip_cr}
use nexus_ftp_engine.Sha256.{sha256_salted}
use nexus_ftp_engine.Sha256.Hex.{to_upper_hex}

pub record UserRecord : Type 0 where
  pub hashed : Bool
  pub salt : Bytes
  pub stored : Bytes

-- `rand() & 0xFFFF` four times; the draws are arguments.
unfoldable pub generate_salt : ℕ → ℕ → ℕ → ℕ → Bytes
generate_salt r0 r1 r2 r3 =
    to_upper_hex (r0 % 0x10000)
    ++ to_upper_hex (r1 % 0x10000)
    ++ to_upper_hex (r2 % 0x10000)
    ++ to_upper_hex (r3 % 0x10000)

-- AuthManager::hashPassword, with the salt that generateSalt would return.
unfoldable pub hash_password : Bytes → Bytes → Bytes → Bytes
hash_password password salt_in generated =
    let salt = if is_empty salt_in then generated else salt_in in
    bytes "sha256:" ++ salt ++ b':' ∷ sha256_salted salt password

-- The entries so far and their `count`.
abbrev pub Loaded : Type 0
Loaded = Assoc UserRecord × ℕ

-- users_[user] = rec; count++;
abbrev pub add_user : Bytes → UserRecord → Loaded → Loaded
add_user user rec (users, count) = (insert user rec users, suc count)

-- A value is "sha256:<salt>:<hash>" or a plain password.
unfoldable pub load_value : Bytes → Bytes → Loaded → Loaded
load_value user value acc =
    if bytes_eq (substr 0 7 value) (bytes "sha256:")
    then elim (find b':' (drop 7 value)) [
      | none ↦ acc
      | some n ↦
          add_user user
            (record {
              hashed = true;
              salt = substr 7 n value;
              stored = drop (suc n) (drop 7 value);
            })
            acc
    ]
    else add_user user (record { hashed = false; salt = []; stored = value }) acc

-- A blank line or a comment.
abbrev pub is_skipped : Bytes → Bool
is_skipped [] = true
is_skipped (c ∷ s) = c == b'#'

-- The body of the loop of loadUsers, behind the stripping of '\r'.
unfoldable pub load_stripped : Loaded → Bytes → Loaded
load_stripped acc line = if is_skipped line then acc else elim (find b'=' line) [
  | none ↦ acc
  | some eq ↦
      let user = take eq line in
      let value = drop (suc eq) line in
      if is_empty user || is_empty value then acc else load_value user value acc
]

unfoldable pub load_line : Loaded → Bytes → Loaded
unfolding load_stripped
load_line acc raw = load_stripped acc (strip_cr raw)

unfoldable pub load_lines : Loaded → List Bytes → Loaded
load_lines acc [] = acc
load_lines acc (line ∷ lines) = load_lines (load_line acc line) lines

-- The result of loadUsers, `count > 0`, and the new map.
unfoldable pub load_users : Bytes → Bool × Assoc UserRecord
unfolding load_lines load_line
load_users text = let (users, count) = load_lines ([], 0) (get_lines text) in (ltb 0 count, users)

-- The comparison at the end of AuthManager::authenticate.
unfoldable pub check_password : UserRecord → Bytes → Bool
check_password rec pass =
    if rec.hashed
    then bytes_eq (sha256_salted rec.salt pass) rec.stored
    else bytes_eq rec.stored pass
