-- ===== src/Tcp/Steps.antt =====
-- Every event of a leased connection (Tcp/LeaseEvents) keeps its accounts (Tcp/Accounts).
use bucky_p2p.Base.{ℕ, ◌≡◌, Bool, true, false, ◌&&◌, ◌||◌, arith, ◌==◌}
use bucky_p2p.Tcp.{TcpChannelId, TcpLeaseSeq}
use bucky_p2p.Tcp.Lease.{
  LeaseContext, LeasedConn, is_some_number, retire_lease, send_read_done, send_write_fin,
}
use bucky_p2p.Tcp.LeaseEvents.{
  LeaseEvent, reads, writes, drops_read, drops_write, gets_write_fin, gets_read_done, frame_sent,
  finalize_check, poll_read, poll_write, release_read_half, release_write_half, after_read,
}
use bucky_p2p.Tcp.Accounts.{
  is_leased_conn, SameCounts, retire_lem, retire-is_leased_conn, finalize_lem,
  finalize-is_leased_conn, send_read_done_lem, send_read_done-is_leased_conn,
}

abbrev pub finishes : TcpLeaseSeq → TcpChannelId → ℕ → LeaseEvent → Bool
finishes seq channel n (gets_write_fin fin) =
    fin.lease_seq == seq && fin.channel_id == channel && fin.final_tx_bytes == n
finishes seq channel n (reads m) = false
finishes seq channel n (writes m) = false
finishes seq channel n drops_read = false
finishes seq channel n drops_write = false
finishes seq channel n (gets_read_done done) = false
finishes seq channel n (frame_sent went) = false
finishes seq channel n finalize_check = false

abbrev pub confirms : TcpLeaseSeq → TcpChannelId → ℕ → LeaseEvent → Bool
confirms seq channel n (gets_read_done done) =
    done.lease_seq == seq && done.channel_id == channel && done.final_rx_bytes == n
confirms seq channel n (reads m) = false
confirms seq channel n (writes m) = false
confirms seq channel n drops_read = false
confirms seq channel n drops_write = false
confirms seq channel n (gets_write_fin fin) = false
confirms seq channel n (frame_sent went) = false
confirms seq channel n finalize_check = false

-- The lease, its channel and the total of the peer stay.
abbrev pub SameFin : LeasedConn → LeasedConn → Type 0
SameFin d c =
    (d.lease.lease_seq ≡ c.lease.lease_seq)
    × (d.lease.channel_id ≡ c.lease.channel_id)
    × (d.lease.peer_final_tx_bytes ≡ c.lease.peer_final_tx_bytes)

-- The peer has confirmed `n` bytes, or its confirmation of them waits.
abbrev pub confirmed : LeaseContext → ℕ → Bool
confirmed l n =
    is_some_number l.pending_peer_read_done_final_rx_bytes n
    || (l.peer_read_done_received && l.tx_bytes == n)

module _ (c : LeasedConn) where
  after_read-is_leased_conn :
      (n : ℕ) → is_leased_conn c ≡ true → is_leased_conn (after_read c n) ≡ true
  unfolding after_read retire_lease send_read_done is_leased_conn
  after_read-is_leased_conn n h = ground arith

  after_read_lem :
      (n : ℕ)
      → SameCounts (after_read c n).lease c.lease
        × ((after_read c n).lease.peer_final_tx_bytes ≡ c.lease.peer_final_tx_bytes)
  unfolding after_read retire_lease send_read_done
  after_read_lem n = ground arith

  pub poll_read-is_leased_conn :
      (n : ℕ) → is_leased_conn c ≡ true → is_leased_conn (poll_read c n) ≡ true
  unfolding poll_read
  poll_read-is_leased_conn n h =
      ground (arith, after_read-is_leased_conn n h, retire-is_leased_conn c h)

  pub poll_read_lem :
      (n : ℕ)
      → SameCounts (poll_read c n).lease c.lease
        × ((poll_read c n).lease.peer_final_tx_bytes ≡ c.lease.peer_final_tx_bytes)
  unfolding poll_read
  poll_read_lem n = ground (arith, after_read_lem n, retire_lem c)

  pub poll_write-is_leased_conn :
      (n : ℕ) → is_leased_conn c ≡ true → is_leased_conn (poll_write c n) ≡ true
  unfolding poll_write retire_lease is_leased_conn
  poll_write-is_leased_conn n h = ground arith

  pub poll_write_lem : (n : ℕ) → SameFin (poll_write c n) c
  unfolding poll_write retire_lease
  poll_write_lem n = ground arith

  pub poll_write-confirmed :
      (n m : ℕ)
      → is_leased_conn c ≡ true
      → confirmed (poll_write c n).lease m ≡ true
      → confirmed c.lease m ≡ true
  unfolding poll_write retire_lease is_leased_conn
  poll_write-confirmed n m k h = ground arith

  -- The read half is dropped.
  abbrev dropped_read : LeasedConn
  dropped_read = record c { lease = record c.lease { read_released = true } }

  dropped_read-is_leased_conn : is_leased_conn c ≡ true → is_leased_conn dropped_read ≡ true
  unfolding is_leased_conn
  dropped_read-is_leased_conn h = ground arith

  pub release_read_half-is_leased_conn :
      is_leased_conn c ≡ true → is_leased_conn (release_read_half c) ≡ true
  unfolding release_read_half
  release_read_half-is_leased_conn h =
      let d = dropped_read-is_leased_conn h in
      ground (
        arith,
        finalize-is_leased_conn (send_read_done dropped_read)
            (send_read_done-is_leased_conn dropped_read d),
        finalize-is_leased_conn (retire_lease dropped_read) (retire-is_leased_conn dropped_read d),
        finalize-is_leased_conn dropped_read d,
      )

  pub release_read_half_lem :
      SameCounts (release_read_half c).lease c.lease
      × ((release_read_half c).lease.peer_final_tx_bytes ≡ c.lease.peer_final_tx_bytes)
  unfolding release_read_half
  release_read_half_lem = ground (
    arith,
    finalize_lem (send_read_done dropped_read),
    finalize_lem (retire_lease dropped_read),
    finalize_lem dropped_read,
    send_read_done_lem dropped_read,
    retire_lem dropped_read,
  )

  -- The write half is dropped.
  abbrev dropped_write : LeasedConn
  dropped_write = record c { lease = record c.lease { write_released = true } }

  dropped_write-is_leased_conn :
      is_leased_conn c ≡ true → is_leased_conn (send_write_fin dropped_write) ≡ true
  unfolding is_leased_conn send_write_fin retire_lease
  dropped_write-is_leased_conn h = ground arith

  pub release_write_half-is_leased_conn :
      is_leased_conn c ≡ true → is_leased_conn (release_write_half c) ≡ true
  unfolding release_write_half
  release_write_half-is_leased_conn h = ground (
    arith,
    finalize-is_leased_conn (send_write_fin dropped_write) (dropped_write-is_leased_conn h),
  )

  send_write_fin_lem :
      (m : ℕ)
      → SameFin (send_write_fin dropped_write) c
        × (confirmed (send_write_fin dropped_write).lease m ≡ true → confirmed c.lease m ≡ true)
  unfolding send_write_fin retire_lease
  send_write_fin_lem m = (ground arith, λ h. ground arith)

  pub release_write_half_lem :
      (m : ℕ)
      → SameFin (release_write_half c) c
        × (confirmed (release_write_half c).lease m ≡ true → confirmed c.lease m ≡ true)
  unfolding release_write_half
  release_write_half_lem m =
      let sent = send_write_fin_lem m in
      let finalized = finalize_lem (send_write_fin dropped_write) in
      (ground arith, λ h. ground arith)
