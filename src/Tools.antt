-- ===== src/Tools.antt =====
-- tools/hash_password.cpp: the line for a users file.
pub mod Lines
use nexus_ftp_engine.Prelude.{ℕ, ◌+◌, ◌%◌, Bool, true, false, List, [], ◌∷◌, ◌++◌, if◌then◌else◌}
use nexus_ftp_engine.Bytes.{Bytes, bytes, bytes_eq}
use nexus_ftp_engine.Bytes.Decimal.{to_string}
use nexus_ftp_engine.Sha256.{sha256_salted}

-- argv[3], or "FTP" and 16 bits of the time; `more` is what stands behind the password.
unfoldable pub salt_of : List Bytes → ℕ → Bytes
salt_of [] now = bytes "FTP" ++ to_string (now % 0x10000)
salt_of (salt ∷ more) now = salt

unfoldable pub hash_entry : Bytes → Bytes → Bytes → Bytes
hash_entry username password salt =
    username ++ (bytes "=sha256:" ++ (salt ++ (b':' ∷ sha256_salted salt password)))

unfoldable pub verification_text : Bool → Bytes
verification_text ok = bytes "Verification: " ++ (if ok then bytes "OK" else bytes "FAILED")

-- What main prints on std::cout, and its result; `args` are the arguments behind the program's name.
unfoldable pub hash_password_main : List Bytes → ℕ → Bytes × ℕ
unfolding salt_of hash_entry verification_text
hash_password_main [] now = ([], 1)
hash_password_main (username ∷ []) now = ([], 1)
hash_password_main (username ∷ password ∷ more) now =
    let salt = salt_of more now in
    let ok = bytes_eq (sha256_salted salt password) (sha256_salted salt password) in
    (
      10
          ∷ (bytes "# Paste this line into config/users.conf:"
              ++ (10
                  ∷ (hash_entry username password salt
                      ++ (10 ∷ 10 ∷ (verification_text ok ++ (10 ∷ [])))))),
      if ok then 0 else 1,
    )
