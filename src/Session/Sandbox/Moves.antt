-- ===== src/Session/Sandbox/Moves.antt =====
-- src/server/session.cpp: the paths of transfers and listings.
use nexus_ftp_engine.Prelude.{
  ℕ, ◌≡◌, refl, Option, none, some, List, if_both, Option-cases, Bool-cases, inl, inr,
}
use nexus_ftp_engine.Bytes.{Bytes}
use nexus_ftp_engine.Platform.{Host, FileInfo, SocketHandle}
use nexus_ftp_engine.Platform.Sockets.{send_data}
use nexus_ftp_engine.Platform.Files.{list_directory}
use nexus_ftp_engine.DataChannel.{open_data}
use nexus_ftp_engine.Transfer.{TransferResult}
use nexus_ftp_engine.Transfer.Limiter.{RateLimiter}
use nexus_ftp_engine.Session.{Sys, Flow}
use nexus_ftp_engine.Session.Reply.{send_reply}
use nexus_ftp_engine.Session.Directories.{is_missing}
use nexus_ftp_engine.Session.Data.{
  with_data, send_listing, retrieved, stored, list_text, name_text, retrieve, retrieve_path,
  handle_retr, store_file, handle_stor, handle_list, handle_nlst,
}
use nexus_ftp_engine.Session.Sandbox.Calls.{Survives, managed_close-Safe}
use nexus_ftp_engine.Session.Sandbox.Transfers.{Transferred, send_file-Safe, recv_file-Safe}
use nexus_ftp_engine.Session.Sandbox.Handlers.{
  Safe, Allows, send_reply-Safe, with_filename-Safe, is_missing-Safe,
}
use nexus_ftp_engine.Session.Sandbox.Data.{open_data-Safe}

module _ (h : Host) (Allowed : Bytes → Type 0) (P : h.World → Type 0)
    (k : Survives h Allowed P) where
  open h use {World}

  -- The handler behind the data connection starts in the same directory.
  with_data-Safe :
      (opening : Bytes) (f : SocketHandle → Sys World → Flow (Sys World)) (s : Sys World)
      → P s.world
      → ((ds : SocketHandle) (t : Sys World)
          → t.session.current_dir ≡ s.session.current_dir
          → P t.world
          → Safe h Allowed P k (f ds t))
      → Safe h Allowed P k (with_data h opening f s)
  unfolding with_data
  with_data-Safe opening f s p handled =
      elim (Option-cases
        (open_data h (send_reply h opening s).session.data_channel
          (send_reply h opening s).world).0) [
            | inl e ↦ rw (e, with_data) (send_reply-Safe h Allowed P k _ _ opened)
            | inr (fd, e) ↦
                rw (e, with_data) (handled (some fd) _ (unfold send_reply in refl) opened)
          ]
    where
      opened :
          P
            (open_data h
              (send_reply h opening s).session.data_channel
              (send_reply h opening s).world).2
      opened = open_data-Safe h Allowed P k _ _ (send_reply-Safe h Allowed P k opening s p)

  send_listing-Safe :
      (text : List FileInfo → Bytes) (done : Bytes) (ds : SocketHandle) (s : Sys World)
      → ((w : World) → P w → P (list_directory h s.session.current_dir w).1)
      → P s.world
      → Safe h Allowed P k (send_listing h text done ds s)
  unfolding send_listing send_data
  send_listing-Safe text done ds s listed p =
      managed_close-Safe h Allowed P k ds _
        (send_reply-Safe h Allowed P k done _ (k.send_at ds _ _ (listed s.world p)))

  retrieve-Safe :
      (fuel : ℕ) (path : Bytes) (ds : SocketHandle) (s : Sys World)
      → Allowed path
      → P s.world
      → Safe h Allowed P k (retrieve h fuel path ds s)
  unfolding retrieve
  retrieve-Safe fuel path ds s a p = finished _ (
      send_file-Safe h Allowed P k fuel ds path s.session.restart_offset s.session.rate_limiter
        s.world a p)
    where
      finished :
          (r : Option (TransferResult × RateLimiter × World))
          → Transferred h Allowed P k r
          → Safe h Allowed P k (retrieved h ds s r)
      finished none q = tt
      finished (some (res, l, w)) q =
          managed_close-Safe h Allowed P k ds _ (send_reply-Safe h Allowed P k _ _ q)

  store_file-Safe :
      (fuel : ℕ) (path : Bytes) (ds : SocketHandle) (s : Sys World)
      → Allowed path
      → P s.world
      → Safe h Allowed P k (store_file h fuel path ds s)
  unfolding store_file
  store_file-Safe fuel path ds s a p = finished _ (
      recv_file-Safe h Allowed P k fuel ds path s.session.restart_offset s.session.rate_limiter
        s.ctx.max_file_size_bytes s.world a p)
    where
      finished :
          (r : Option (TransferResult × RateLimiter × World))
          → Transferred h Allowed P k r
          → Safe h Allowed P k (stored h ds s r)
      finished none q = tt
      finished (some (res, l, w)) q =
          if_both (Safe h Allowed P k) res.rate_limit_hit
            (managed_close-Safe h Allowed P k ds _ (send_reply-Safe h Allowed P k _ _ q))
            (managed_close-Safe h Allowed P k ds _ (send_reply-Safe h Allowed P k _ _ q))

  retrieve_path-Safe :
      (fuel : ℕ) (arg path : Bytes) (s : Sys World)
      → P s.world
      → Allowed path
      → Safe h Allowed P k (retrieve_path h fuel arg path s)
  unfolding retrieve_path
  retrieve_path-Safe fuel arg path s p a = elim (Bool-cases (is_missing h path s.world).0) [
    | inl e ↦ rw (e, retrieve_path) (send_reply-Safe h Allowed P k _ _ looked)
    | inr e ↦
        rw (e, retrieve_path)
          (with_data-Safe _ _ _ looked (λ ds t _ q. retrieve-Safe fuel path ds t a q))
  ]
    where
      looked : P (is_missing h path s.world).1
      looked = is_missing-Safe h Allowed P k path s.world a p

  module _ (s : Sys World) (p : P s.world) where
    pub handle_retr-Safe :
        (fuel : ℕ) (arg : Bytes)
        → Allows h Allowed P k s.session
        → Safe h Allowed P k (handle_retr h fuel arg s)
    unfolding handle_retr
    handle_retr-Safe fuel arg a =
        with_filename-Safe h Allowed P k arg (retrieve_path h fuel arg) s a p
          (λ q. retrieve_path-Safe fuel arg q s p)

    pub handle_stor-Safe :
        (fuel : ℕ) (arg : Bytes)
        → Allows h Allowed P k s.session
        → Safe h Allowed P k (handle_stor h fuel arg s)
    unfolding handle_stor
    handle_stor-Safe fuel arg a =
        with_filename-Safe h Allowed P k arg _ s a p
          (λ q b. with_data-Safe _ _ s p (λ ds t _. store_file-Safe fuel q ds t b))

    pub handle_list-Safe :
        ((w : World) → P w → P (list_directory h s.session.current_dir w).1)
        → Safe h Allowed P k (handle_list h s)
    unfolding handle_list
    handle_list-Safe listed =
        with_data-Safe _ _ s p
          (λ ds t e. send_listing-Safe list_text _ ds t (λ w q. rw e (listed w q)))

    pub handle_nlst-Safe :
        ((w : World) → P w → P (list_directory h s.session.current_dir w).1)
        → Safe h Allowed P k (handle_nlst h s)
    unfolding handle_nlst
    handle_nlst-Safe listed =
        with_data-Safe _ _ s p
          (λ ds t e. send_listing-Safe name_text _ ds t (λ w q. rw e (listed w q)))
