-- ===== src/Tests/Uploads.antt =====
-- Witnesses of the theorems on uploads.
use nexus_ftp_engine.Prelude.{
  ℕ, zero, suc, ◌+◌, ◌≤◌, ◌≡◌, refl, some, List, [], ◌∷◌, arith, length, take, drop,
}
use nexus_ftp_engine.Bytes.{Bytes}
use nexus_ftp_engine.Transfer.Uploads.{Uploading, Ends, recv_loop-Bounded}
use nexus_ftp_engine.Tests.Toy.{ToyWorld, empty_world, next_chunk, toy}

abbrev all_bytes : List Bytes → ℕ
all_bytes [] = 0
all_bytes (c ∷ cs) = length c + all_bytes cs

take-bytes :
    (n : ℕ) (c : Bytes)
    → (length (drop n c) + length (take n c) ≡ length c) × (length (take n c) ≤ n)
take-bytes zero c = (omega arith, omega arith)
take-bytes (suc n) [] = (omega arith, omega arith)
take-bytes (suc n) (d ∷ c) = (omega (arith, (take-bytes n c).0), omega (arith, (take-bytes n c).1))

chunk-bytes :
    (n : ℕ) (cs : List Bytes) (w : ToyWorld) (b : Bytes)
    → (next_chunk n cs w).0 ≡ some b
    → w.inbox ≡ cs
    → (all_bytes (next_chunk n cs w).1.inbox + length b ≡ all_bytes w.inbox) × (length b ≤ n)
chunk-bytes n [] w b e k = ground arith
chunk-bytes n (c ∷ cs) w b e k = ground (arith, take-bytes n c)

chunk-file_size :
    (n : ℕ) (cs : List Bytes) (w : ToyWorld) → (next_chunk n cs w).1.file_size ≡ w.file_size
chunk-file_size n [] w = refl
chunk-file_size n (c ∷ cs) w = refl

abbrev toy-Uploading : Uploading toy
toy-Uploading = record {
  pending = λ (w : ToyWorld). all_bytes w.inbox;
  written = λ (w : ToyWorld). w.file_size;
  pending-recv = λ sock n w b e. chunk-bytes n w.inbox w b e refl;
  written-recv = λ sock n w. chunk-file_size n w.inbox w;
  pending-fwrite = λ file b w. refl;
  written-fwrite = λ file b w. refl;
  pending-clock = λ w. refl;
  written-clock = λ w. refl;
  pending-sleep = λ n w. refl;
  written-sleep = λ n w. refl;
}

-- Five bytes are on their way.
abbrev sending : ToyWorld
sending = record empty_world { inbox = (1 ∷ 2 ∷ 3 ∷ []) ∷ (4 ∷ 5 ∷ []) ∷ [] }

recv_loop-Bounded_example :
    Ends toy toy-Uploading 4 6
      (some 9)
      6
      0
      (record { limit = 0; window_start = 0; window_bytes = 0 })
      sending
recv_loop-Bounded_example =
    recv_loop-Bounded toy toy-Uploading 4 (omega arith) (omega arith) 6 (some 9) 6 0
      (record { limit = 0; window_start = 0; window_bytes = 0 }) sending (omega arith) (omega arith)
