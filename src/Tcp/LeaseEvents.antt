-- ===== src/Tcp/LeaseEvents.antt =====
-- p2p-frame/src/networks/tcp/tunnel.rs: what happens to a leased connection (Tcp/Lease): reads, writes,
-- the halves that the channel drops, the frames of the peer and the frames that went out.
use bucky_p2p.Base.{
  ℕ, ◌+◌, Bool, true, false, not, ◌&&◌, ◌||◌, Option, none, some, List, [], ◌∷◌, ltb, ◌==◌,
  if◌then◌else◌,
}
use Prim.Native.Nat.{lt, eq, gt}
use bucky_p2p.Types.{partial_cmp}
use bucky_p2p.Tcp.{TcpLeaseSeq}
use bucky_p2p.Tcp.Lease.{
  WriteFin, ReadDone, LeasedConn, is_some_number, retire_lease, maybe_finalize_lease, is_leased,
  mark_draining, send_read_done, send_write_fin, is_pending,
}

abbrev pub is_above : ℕ → Option ℕ → Bool
is_above n none = false
is_above n (some final) = ltb final n

-- A read of `n` bytes; of none at the end of the stream. A timer that is set is not part of the state.
unfoldable pub after_read : LeasedConn → ℕ → LeasedConn
unfolding retire_lease send_read_done
after_read c n =
    if c.lease.retired
    then c
    else if n == 0
    then retire_lease c
    else let read = record c { lease = record c.lease { rx_bytes = c.lease.rx_bytes + n } } in
      if c.lease.hidden_zero_read || is_above read.lease.rx_bytes c.lease.peer_final_tx_bytes
      then retire_lease read
      else send_read_done read

-- A read through the half that the channel holds; without the half it fails.
unfoldable pub poll_read : LeasedConn → ℕ → LeasedConn
unfolding retire_lease after_read
poll_read c n =
    if c.lease.read_released then c else if c.lease.has_read then after_read c n else retire_lease c

unfoldable pub poll_write : LeasedConn → ℕ → LeasedConn
unfolding retire_lease
poll_write c n =
    if c.lease.write_released
    then c
    else if c.lease.has_write
    then record c { lease = record c.lease { tx_bytes = c.lease.tx_bytes + n } }
    else retire_lease c

unfoldable pub release_read_half : LeasedConn → LeasedConn
unfolding maybe_finalize_lease send_read_done retire_lease
release_read_half c =
    if c.lease.read_released
    then c
    else let after = record c { lease = record c.lease { read_released = true } } in
      maybe_finalize_lease (
        if c.lease.peer_write_fin_received
        then (if is_some_number c.lease.peer_final_tx_bytes c.lease.rx_bytes
            then send_read_done after
            else retire_lease after)
        else after)

unfoldable pub release_write_half : LeasedConn → LeasedConn
unfolding maybe_finalize_lease send_write_fin
release_write_half c =
    if c.lease.write_released
    then c
    else maybe_finalize_lease
        (send_write_fin (record c { lease = record c.lease { write_released = true } }))

-- The lease after a `WriteFin` of its own channel that is the first.
unfoldable pub first_write_fin : LeasedConn → ℕ → LeasedConn
unfolding retire_lease send_read_done
first_write_fin c final =
    let after = record c {
      lease = record c.lease { peer_write_fin_received = true; peer_final_tx_bytes = some final };
      state = mark_draining c.state;
    } in
    if (c.lease.hidden_zero_read && not (final == 0))
      || (c.lease.read_released && not (c.lease.rx_bytes == final))
    then retire_lease after
    else send_read_done after

-- `<` on the sequence numbers is that of the tunnel ids, which wrap.
unfoldable pub is_older : TcpLeaseSeq → TcpLeaseSeq → Bool
unfolding partial_cmp
is_older a b = elim (partial_cmp a b) [ lt ↦ true | eq ↦ false | gt ↦ false ]

-- A `WriteFin` that is not of an older lease.
unfoldable pub take_write_fin : LeasedConn → WriteFin → LeasedConn
unfolding retire_lease first_write_fin
take_write_fin c fin =
    if not (c.lease.lease_seq == fin.lease_seq) || not (c.lease.channel_id == fin.channel_id)
    then retire_lease (record c { state = mark_draining c.state })
    else if c.lease.peer_write_fin_received
    then (if is_some_number c.lease.peer_final_tx_bytes fin.final_tx_bytes
        then record c { state = mark_draining c.state }
        else retire_lease (record c { state = mark_draining c.state }))
    else first_write_fin c fin.final_tx_bytes

-- `handle_write_fin` on a connection under a lease: a frame of an older lease is ignored.
unfoldable pub handle_write_fin : LeasedConn → WriteFin → LeasedConn
unfolding is_older maybe_finalize_lease take_write_fin
handle_write_fin c fin =
    if not (is_leased c.state)
    then c
    else if is_older fin.lease_seq c.lease.lease_seq
    then c
    else maybe_finalize_lease (take_write_fin c fin)

-- A `ReadDone` of its own channel before the local `WriteFin` went out.
unfoldable pub early_read_done : LeasedConn → ℕ → LeasedConn
unfolding retire_lease
early_read_done c final =
    if is_pending c.lease.pending_peer_read_done_final_rx_bytes
    then (if is_some_number c.lease.pending_peer_read_done_final_rx_bytes final
        then c
        else retire_lease c)
    else record c {
      lease = record c.lease { pending_peer_read_done_final_rx_bytes = some final };
      state = mark_draining c.state;
    }

-- The `ReadDone` counts.
abbrev pub counted : LeasedConn → LeasedConn
counted c = record c { lease = record c.lease { peer_read_done_received = true } }

-- A `ReadDone` of the lease and the channel.
unfoldable pub take_read_done : LeasedConn → ℕ → LeasedConn
unfolding maybe_finalize_lease retire_lease early_read_done
take_read_done c final =
    if not c.lease.local_write_fin_sent
    then early_read_done c final
    else if not (final == c.lease.tx_bytes)
    then retire_lease c
    else maybe_finalize_lease (counted c)

-- `handle_read_done` on a connection under a lease.
unfoldable pub handle_read_done : LeasedConn → ReadDone → LeasedConn
unfolding is_older retire_lease take_read_done
handle_read_done c done =
    if not (is_leased c.state)
    then c
    else if is_older done.lease_seq c.lease.lease_seq
    then c
    else if not (c.lease.lease_seq == done.lease_seq) || not (c.lease.channel_id == done.channel_id)
    then retire_lease c
    else take_read_done c done.final_rx_bytes

pub data LeaseEvent : Type 0 where
  reads writes : ℕ → LeaseEvent
  drops_read drops_write : LeaseEvent
  gets_write_fin : WriteFin → LeaseEvent
  gets_read_done : ReadDone → LeaseEvent
  frame_sent : Bool → LeaseEvent
  finalize_check : LeaseEvent

unfoldable pub lease_event : LeasedConn → LeaseEvent → LeasedConn
unfolding poll_read poll_write release_read_half release_write_half handle_write_fin
    handle_read_done maybe_finalize_lease retire_lease
lease_event c (reads n) = poll_read c n
lease_event c (writes n) = poll_write c n
lease_event c drops_read = release_read_half c
lease_event c drops_write = release_write_half c
lease_event c (gets_write_fin fin) = handle_write_fin c fin
lease_event c (gets_read_done done) = handle_read_done c done
lease_event c (frame_sent true) = maybe_finalize_lease c
lease_event c (frame_sent false) = retire_lease c
lease_event c finalize_check = maybe_finalize_lease c

unfoldable pub lease_events : LeasedConn → List LeaseEvent → LeasedConn
unfolding lease_event
lease_events c [] = c
lease_events c (e ∷ es) = lease_events (lease_event c e) es
