-- ===== src/Tests/Sha256.antt =====
-- Tests of src/common/sha256.h: the vectors of tests/test_security.cpp and config/users.conf.
use nexus_ftp_engine.Prelude.{◌≡◌, refl, replicate, arith}
use nexus_ftp_engine.Bytes.{bytes}
use nexus_ftp_engine.Sha256.{sha256, sha256_salted}
use nexus_ftp_engine.Sha256.Standard.{standard_hash, hex_text}
use nexus_ftp_engine.Sha256.Equivalence.{sha256-standard_hash}

sha256_abc :
    sha256 (bytes "abc") ≡ bytes "ba7816bf8f01cfea414140de5dae2223b00361a396177a9cb410ff61f20015ad"
unfolding sha256 bytes
sha256_abc = refl

admin_hash :
    sha256_salted (bytes "FTP2024") (bytes "1234")
    ≡ bytes "1d7c95de7b6f81df38a63f0b5f64b1ba292957214456fea92cd6d1348359ae0c"
unfolding sha256_salted sha256 bytes
admin_hash = refl

sha256-standard_hash_example :
    sha256 (replicate 100 b'a') ≡ hex_text (standard_hash (replicate 100 b'a'))
sha256-standard_hash_example = sha256-standard_hash (replicate 100 b'a') (omega arith)
