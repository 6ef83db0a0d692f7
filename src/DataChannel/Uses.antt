-- ===== src/DataChannel/Uses.antt =====
-- src/server/data_channel.h: a data channel over the whole of a session.
use nexus_ftp_engine.Prelude.{ℕ, ◌+◌, ◌≡◌, ap, List, [], ◌∷◌, arith}
use nexus_ftp_engine.Prelude.Int.{ℤ}
use nexus_ftp_engine.Bytes.{Bytes}
use nexus_ftp_engine.Platform.{Host}
use nexus_ftp_engine.DataChannel.{
  DataChannel, initial_channel, close_passive, enter_passive, enter_active, open_data,
}
use nexus_ftp_engine.DataChannel.Handed.{
  Connecting, close_passive-same, enter_passive-same, enter_active-same, open_data-handed,
}
use nexus_ftp_engine.DataChannel.Sockets.{
  held, Counted, close_passive-Balanced, close_passive-none, enter_passive-Balanced,
  enter_active-Balanced, open_data-Balanced,
}

-- What a session does with its channel.
pub data ChannelUse : Type 0 where
  enters_passive : ChannelUse
  enters_active : Bytes → ℤ → ChannelUse
  opens_data : ChannelUse

module _ (h : Host) (k : ℕ) where
  open h use {World}

  -- The channel, the world, and how often the channel has handed out the descriptor `k`.
  abbrev pub use_channel : ChannelUse → DataChannel → World → ℕ → DataChannel × World × ℕ
  use_channel enters_passive d w out = let (port, d1, w1) = enter_passive h d w in (d1, w1, out)
  use_channel (enters_active ip port) d w out =
      let (d1, w1) = enter_active h ip port d w in (d1, w1, out)
  use_channel opens_data d w out = let (ds, d1, w1) = open_data h d w in (d1, w1, out + held k ds)

  -- All of it, and the destructor of the channel's socket.
  abbrev pub use_all : List ChannelUse → DataChannel → World → ℕ → World × ℕ
  use_all [] d w out = ((close_passive h d w).1, out)
  use_all (u ∷ us) d w out = let (d1, w1, out1) = use_channel u d w out in use_all us d1 w1 out1

module _ (h : Host) (k : ℕ) (counted : Counted h k) where
  open h use {World}
  open counted use {opens, closes}

  use_all-Balanced :
      (us : List ChannelUse) (d : DataChannel) (w : World) (out : ℕ)
      → opens (use_all h k us d w out).0 + closes w + held k d.passive_socket + out
        ≡ opens w + closes (use_all h k us d w out).0 + (use_all h k us d w out).1
  use_all-Balanced [] d w out = omega (
    arith,
    close_passive-Balanced h k counted d w,
    ap (held k) (close_passive-none h k counted d w),
  )
  use_all-Balanced (enters_passive ∷ us) d w out = omega (
    arith,
    enter_passive-Balanced h k counted d w,
    use_all-Balanced us (enter_passive h d w).1 (enter_passive h d w).2 out,
  )
  use_all-Balanced (enters_active ip port ∷ us) d w out = omega (
    arith,
    enter_active-Balanced h k counted ip port d w,
    use_all-Balanced us (enter_active h ip port d w).0 (enter_active h ip port d w).1 out,
  )
  use_all-Balanced (opens_data ∷ us) d w out = omega (
    arith,
    open_data-Balanced h k counted d w,
    use_all-Balanced us (open_data h d w).1 (open_data h d w).2 (out + held k (open_data h d w).0),
  )

  use_all-handed :
      (c : Connecting h k) (us : List ChannelUse) (d : DataChannel) (w : World) (out : ℕ)
      → c.made (use_all h k us d w out).0 + out ≡ c.made w + (use_all h k us d w out).1
  use_all-handed c [] d w out = omega (arith, close_passive-same h k c d w)
  use_all-handed c (enters_passive ∷ us) d w out = omega (
    arith,
    enter_passive-same h k c d w,
    use_all-handed c us (enter_passive h d w).1 (enter_passive h d w).2 out,
  )
  use_all-handed c (enters_active ip port ∷ us) d w out = omega (
    arith,
    enter_active-same h k c ip port d w,
    use_all-handed c us (enter_active h ip port d w).0 (enter_active h ip port d w).1 out,
  )
  use_all-handed c (opens_data ∷ us) d w out = omega (
    arith,
    open_data-handed h k c d w,
    use_all-handed c us (open_data h d w).1 (open_data h d w).2 (out + held k (open_data h d w).0),
  )

  -- Whatever a session does with a new data channel, PASV, PORT and data connections in any order and
  -- whichever system calls fail, when the channel is gone it holds for every descriptor: it was opened
  -- as often as it was closed and handed out, and it was handed out as often as accept gave it or
  -- connect succeeded on it. So every listener is closed, and only connections are handed out.
  pub use_all-closes :
      (c : Connecting h k) (us : List ChannelUse) (w : World)
      → (opens (use_all h k us initial_channel w 0).0 + closes w
          ≡ opens w
            + closes (use_all h k us initial_channel w 0).0
            + (use_all h k us initial_channel w 0).1)
        × (c.made (use_all h k us initial_channel w 0).0
            ≡ c.made w + (use_all h k us initial_channel w 0).1)
  use_all-closes c us w = (
    omega (arith, use_all-Balanced us initial_channel w 0),
    omega (arith, use_all-handed c us initial_channel w 0),
  )
