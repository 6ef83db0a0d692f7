-- ===== src/Tests/Settings.antt =====
-- Witnesses of the theorems on configuration files and on SHA-256.
use nexus_ftp_engine.Prelude.{◌≡◌, some, [], ◌∷◌, arith, length}
use nexus_ftp_engine.Bytes.{find_if, find_last_if}
use nexus_ftp_engine.Bytes.Decimal.{to_string}
use nexus_ftp_engine.Config.{load, trim, get_string}
use nexus_ftp_engine.Config.Settings.{
  Setting, IsSetting, settings_text, last_value, text_or, get_string-settings_text,
}
use nexus_ftp_engine.Sha256.{sha256}
use nexus_ftp_engine.Sha256.Digest.{AllHex, sha256-IsDigest}

abbrev port : Setting
port = record { key = b'p' ∷ []; value = to_string 21 }

port-IsSetting : IsSetting port
unfolding to_string trim find_if find_last_if
port-IsSetting = record {
  named = (λ e. omega (arith, e));
  key_eq = ((λ e. omega (arith, e)), tt);
  key_lf = ((λ e. omega (arith, e)), tt);
  key_cr = ((λ e. omega (arith, e)), tt);
  value_lf = ((λ e. omega (arith, e)), ((λ e. omega (arith, e)), tt));
  value_cr = ((λ e. omega (arith, e)), ((λ e. omega (arith, e)), tt));
  key_first = ((λ e. omega (arith, e)), (λ e. omega (arith, e)));
  key_last = ((λ e. omega (arith, e)), (λ e. omega (arith, e)));
  value_first = ((λ e. omega (arith, e)), (λ e. omega (arith, e)));
  value_last = ((λ e. omega (arith, e)), (λ e. omega (arith, e)));
}

get_string-settings_text_example :
    get_string (b'p' ∷ []) [] (load (some (settings_text (port ∷ []))) []).1
    ≡ text_or (last_value (b'p' ∷ []) (port ∷ [])) (get_string (b'p' ∷ []) [] [])
get_string-settings_text_example =
    get_string-settings_text (port ∷ []) (b'p' ∷ []) [] [] (port-IsSetting, tt)

sha256-IsDigest_example : (length (sha256 (b'a' ∷ [])) ≡ 64) × AllHex (sha256 (b'a' ∷ []))
sha256-IsDigest_example = sha256-IsDigest (b'a' ∷ [])
