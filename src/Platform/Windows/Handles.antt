-- ===== src/Platform/Windows/Handles.antt =====
-- src/common/platform.cpp: the conversion of a socket to a handle and back.
use nexus_ftp_engine.Prelude.{ℕ, ◌^◌, ◌<◌, ◌≡◌, arith, ltb, ◌==◌, Bool-cases, inl, inr}
use nexus_ftp_engine.Platform.Windows.{to_win, from_win, as_signed, invalid_socket}

to_win-as_signed : (s : ℕ) → s < 2 ^ 64 → to_win (as_signed s) ≡ s
unfolding to_win as_signed
to_win-as_signed s h = elim (Bool-cases (ltb s (2 ^ 63))) [
  | inl e ↦ rw e (omega (arith, h))
  | inr e ↦ rw e (omega (arith, h))
]

-- A SOCKET that goes through a SocketHandle comes back as it was, INVALID_SOCKET among them.
to_win-from_win : (s : ℕ) → s < 2 ^ 64 → to_win (from_win s) ≡ s
unfolding from_win to_win
to_win-from_win s h = elim (Bool-cases (s == invalid_socket)) [
  | inl e ↦ rw e (ground (arith, e))
  | inr e ↦ rw e (to_win-as_signed s h)
]
