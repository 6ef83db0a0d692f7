-- ===== src/Tools/Lines.antt =====
-- tools/hash_password.cpp against src/server/auth.cpp: the line that the tool prints, in a users file.
use nexus_ftp_engine.Prelude.{ℕ, ◌≡◌, refl, sym, ap, ◌∙◌, false, some, List, [], ◌∷◌, ◌++◌}
use nexus_ftp_engine.Bytes.{Bytes, bytes, bytes_eq, is_empty}
use nexus_ftp_engine.Bytes.Laws.{bytes_eq_refl}
use nexus_ftp_engine.Sha256.{sha256_salted}
use nexus_ftp_engine.Auth.{AuthManager, load, authenticate}
use nexus_ftp_engine.Auth.Accounts.{
  hash_password-salted, Account, IsAccount, account_line, users_text, admits, last_account,
  hash_password-salted, authenticate-users_text,
}
use nexus_ftp_engine.Tools.{salt_of, hash_entry, hash_password_main}

-- The tool and AuthManager::hashPassword write the same line.
hash_entry-account_line :
    (a : Account) → is_empty a.salt ≡ false → hash_entry a.user a.password a.salt ≡ account_line a
unfolding hash_entry account_line bytes
hash_entry-account_line a e =
    ap (λ s. a.user ++ (b'=' ∷ s)) (sym (hash_password-salted a.password a.salt e))

-- The users file that consists of the line which the tool prints.
abbrev pub file_of_entry : Account → Bytes
file_of_entry a = hash_entry a.user a.password a.salt ++ (10 ∷ [])

last_account-itself : (a : Account) → last_account a.user (a ∷ []) ≡ some a
unfolding last_account
last_account-itself a = rw (bytes_eq_refl a.user) refl

-- For a user name and a salt that a users file can hold, the line that hash_password prints, pasted
-- into a users file, lets the user in with a password exactly if it has the salted hash of the given
-- one.
pub authenticate-hash_entry :
    (a : Account) (password : Bytes) (auth : AuthManager)
    → IsAccount a
    → authenticate a.user password (load (some (file_of_entry a)) auth).1
      ≡ bytes_eq (sha256_salted a.salt password) (sha256_salted a.salt a.password)
unfolding users_text admits
authenticate-hash_entry a password auth k =
    ap (λ text. authenticate a.user password (load (some text) auth).1)
      (ap (λ l. l ++ (10 ∷ [])) (hash_entry-account_line a k.salted))
    ∙ authenticate-users_text (a ∷ []) a.user password auth (k, tt)
    ∙ ap (λ o. admits o password) (last_account-itself a)

-- The tool's own check cannot fail: it compares a hash with itself.
hash_password_main-succeeds :
    (username password : Bytes) (more : List Bytes) (now : ℕ)
    → (hash_password_main (username ∷ password ∷ more) now).1 ≡ 0
unfolding hash_password_main
hash_password_main-succeeds username password more now =
    rw (bytes_eq_refl (sha256_salted (salt_of more now) password)) refl
