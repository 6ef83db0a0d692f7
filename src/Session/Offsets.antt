-- ===== src/Session/Offsets.antt =====
-- src/server/session.cpp: REST and numbers in decimal.
use nexus_ftp_engine.Prelude.{
  ℕ, ◌+◌, ◌*◌, ◌-◌, ◌%◌, ◌^◌, ◌≡◌, refl, ap, false, none, some, [], ◌∷◌, ◌++◌, arith, ◌⊎◌, inl, inr,
}
use nexus_ftp_engine.Bytes.{Bytes, bytes, is_digit}
use nexus_ftp_engine.Bytes.Decimal.{
  to_string, decimal, AllDigits, to_string-AllDigits, to_string-is_empty, decimal-to_string,
}
use nexus_ftp_engine.Platform.{Host}
use nexus_ftp_engine.Session.{Sys, next}
use nexus_ftp_engine.Session.Reply.{send_reply}
use nexus_ftp_engine.Session.Files.{parse_offset, restart_at, handle_rest}

parse_offset-AllDigits :
    (acc m : ℕ) (s : Bytes)
    → acc ≡ m % 2 ^ 64
    → AllDigits s
    → parse_offset acc s ≡ some (decimal m s % 2 ^ 64)
unfolding parse_offset decimal is_digit
parse_offset-AllDigits acc m [] e d = ap some e
parse_offset-AllDigits acc m (c ∷ s) e d = ground (
  arith,
  parse_offset-AllDigits ((acc * 10 + (c - 48)) % 2 ^ 64) (m * 10 + (c - 48)) s (omega arith) d.2,
)

-- Some byte is not a digit.
abbrev pub HasOther : Bytes → Type 0
HasOther [] = ⊥
HasOther (c ∷ s) = (is_digit c ≡ false) ⊎ HasOther s

parse_offset-HasOther : (acc : ℕ) (s : Bytes) → HasOther s → parse_offset acc s ≡ none
unfolding parse_offset
parse_offset-HasOther acc [] o = elim o [ ]
parse_offset-HasOther acc (c ∷ s) (inl e) = rw e
parse_offset-HasOther acc (c ∷ s) (inr o) =
    ground (arith, parse_offset-HasOther ((acc * 10 + (c - 48)) % 2 ^ 64) s o)

module _ (h : Host) where
  open h use {World}

  -- REST with a number in decimal stores that number modulo 2 ^ 64 and confirms what it stored.
  handle_rest-to_string :
      (n : ℕ) (s : Sys World)
      → handle_rest h (to_string n) s
        ≡ next (
            send_reply h
              (bytes "350 Restarting at " ++ to_string (n % 2 ^ 64) ++ bytes ". Send RETR or STOR.")
              (record s { session = record s.session { restart_offset = n % 2 ^ 64 } }))
  unfolding handle_rest restart_at
  handle_rest-to_string n s = rw (
    to_string-is_empty n,
    handle_rest,
    parse_offset-AllDigits 0 0 (to_string n) refl (to_string-AllDigits n),
    decimal-to_string n,
  )

  -- REST with a byte that is not a digit in its argument is refused, and the offset stays.
  handle_rest-HasOther :
      (arg : Bytes) (s : Sys World)
      → HasOther arg
      → handle_rest h arg s ≡ next (send_reply h (bytes "501 Invalid offset") s)
  unfolding handle_rest restart_at
  handle_rest-HasOther [] s o = elim o [ ]
  handle_rest-HasOther (c ∷ arg) s o = rw (handle_rest, parse_offset-HasOther 0 (c ∷ arg) o)
