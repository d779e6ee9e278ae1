-- ===== src/Tcp/Accounts.antt =====
-- What a leased connection (Tcp/Lease) knows of the bytes of both directions, and what keeps it so.
use bucky_p2p.Base.{ℕ, ◌≡◌, ◌⊎◌, Bool, true, false, not, ◌&&◌, ◌||◌, some, arith, if◌then◌else◌}
use bucky_p2p.Tcp.Lease.{
  retire_lease, maybe_finalize_lease, send_read_done, mark_draining, WriteFin, LeaseContext,
  ConnState, bound, idle, LeasedConn, is_some_number, ready_for_idle, is_leased,
}
use bucky_p2p.Tcp.LeaseEvents.{handle_write_fin, first_write_fin, take_write_fin}

abbrev pub is_idle : ConnState → Bool
is_idle idle = true
is_idle bound = false
is_idle ConnState.draining = false
is_idle ConnState.retired = false

-- What holds of a lease that is not retired.
abbrev pub is_sound : LeaseContext → Bool
is_sound l =
    (not l.local_read_done_sent || is_some_number l.peer_final_tx_bytes l.rx_bytes)
    && (not l.local_read_done_sent || l.peer_write_fin_received)
    && (not l.local_write_fin_sent || l.write_released)
    && (not l.peer_read_done_received || l.local_write_fin_sent)

unfoldable pub is_leased_conn : LeasedConn → Bool
is_leased_conn c =
    (if c.lease.retired then not c.lease.has_write else is_sound c.lease)
    && (not (is_idle c.state) || ready_for_idle c.lease)

-- What the frames of the peer are compared with.
abbrev pub SameCounts : LeaseContext → LeaseContext → Type 0
SameCounts l m =
    (l.lease_seq ≡ m.lease_seq)
    × (l.channel_id ≡ m.channel_id)
    × (l.tx_bytes ≡ m.tx_bytes)
    × (l.pending_peer_read_done_final_rx_bytes ≡ m.pending_peer_read_done_final_rx_bytes)
    × (l.peer_read_done_received ≡ m.peer_read_done_received)

pub retire_lem :
    (c : LeasedConn)
    → SameCounts (retire_lease c).lease c.lease
      × ((retire_lease c).lease.peer_final_tx_bytes ≡ c.lease.peer_final_tx_bytes)
unfolding retire_lease
retire_lem c = ground arith

pub retire-is_leased_conn :
    (c : LeasedConn) → is_leased_conn c ≡ true → is_leased_conn (retire_lease c) ≡ true
unfolding is_leased_conn retire_lease
retire-is_leased_conn c h = ground arith

pub finalize_lem :
    (c : LeasedConn)
    → SameCounts (maybe_finalize_lease c).lease c.lease
      × ((maybe_finalize_lease c).lease.peer_final_tx_bytes ≡ c.lease.peer_final_tx_bytes)
unfolding maybe_finalize_lease
finalize_lem c = ground arith

pub finalize-is_leased_conn :
    (c : LeasedConn) → is_leased_conn c ≡ true → is_leased_conn (maybe_finalize_lease c) ≡ true
unfolding is_leased_conn maybe_finalize_lease
finalize-is_leased_conn c h = ground arith

pub send_read_done_lem :
    (c : LeasedConn)
    → SameCounts (send_read_done c).lease c.lease
      × ((send_read_done c).lease.peer_final_tx_bytes ≡ c.lease.peer_final_tx_bytes)
unfolding send_read_done
send_read_done_lem c = ground arith

first_write_fin_lem :
    (c : LeasedConn) (n : ℕ)
    → SameCounts (first_write_fin c n).lease c.lease
      × ((first_write_fin c n).lease.peer_final_tx_bytes ≡ some n)
unfolding first_write_fin retire_lease send_read_done
first_write_fin_lem c n = ground arith

first_write_fin-is_leased_conn :
    (c : LeasedConn) (n : ℕ)
    → is_leased_conn c ≡ true
    → is_leased c.state ≡ true
    → c.lease.peer_write_fin_received ≡ false
    → is_leased_conn (first_write_fin c n) ≡ true
unfolding is_leased_conn first_write_fin retire_lease send_read_done
first_write_fin-is_leased_conn c n h l f = ground arith

drain-is_leased_conn :
    (c : LeasedConn)
    → is_leased_conn c ≡ true
    → is_leased c.state ≡ true
    → is_leased_conn (record c { state = mark_draining c.state }) ≡ true
unfolding is_leased_conn
drain-is_leased_conn c h l = ground arith

take_write_fin-is_leased_conn :
    (c : LeasedConn) (fin : WriteFin)
    → is_leased_conn c ≡ true
    → is_leased c.state ≡ true
    → is_leased_conn (take_write_fin c fin) ≡ true
unfolding take_write_fin
take_write_fin-is_leased_conn c fin h l =
    let drained = drain-is_leased_conn c h l in
    ground (
      arith,
      retire-is_leased_conn (record c { state = mark_draining c.state }) drained,
      first_write_fin-is_leased_conn c fin.final_tx_bytes h l,
    )

take_write_fin_lem :
    (c : LeasedConn) (fin : WriteFin)
    → SameCounts (take_write_fin c fin).lease c.lease
      × (((take_write_fin c fin).lease.peer_final_tx_bytes ≡ c.lease.peer_final_tx_bytes)
          ⊎ (((take_write_fin c fin).lease.peer_final_tx_bytes ≡ some fin.final_tx_bytes)
              × (c.lease.lease_seq ≡ fin.lease_seq)
              × (c.lease.channel_id ≡ fin.channel_id)))
unfolding take_write_fin
take_write_fin_lem c fin = ground (
  arith,
  retire_lem (record c { state = mark_draining c.state }),
  first_write_fin_lem c fin.final_tx_bytes,
)

pub handle_write_fin-is_leased_conn :
    (c : LeasedConn) (fin : WriteFin)
    → is_leased_conn c ≡ true
    → is_leased_conn (handle_write_fin c fin) ≡ true
unfolding handle_write_fin
handle_write_fin-is_leased_conn c fin h =
    ground
      (arith, take_write_fin-is_leased_conn c fin h, finalize-is_leased_conn (take_write_fin c fin))

pub handle_write_fin_lem :
    (c : LeasedConn) (fin : WriteFin)
    → SameCounts (handle_write_fin c fin).lease c.lease
      × (((handle_write_fin c fin).lease.peer_final_tx_bytes ≡ c.lease.peer_final_tx_bytes)
          ⊎ (((handle_write_fin c fin).lease.peer_final_tx_bytes ≡ some fin.final_tx_bytes)
              × (c.lease.lease_seq ≡ fin.lease_seq)
              × (c.lease.channel_id ≡ fin.channel_id)))
unfolding handle_write_fin
handle_write_fin_lem c fin =
    ground (arith, take_write_fin_lem c fin, finalize_lem (take_write_fin c fin))

pub send_read_done-is_leased_conn :
    (c : LeasedConn) → is_leased_conn c ≡ true → is_leased_conn (send_read_done c) ≡ true
unfolding is_leased_conn send_read_done
send_read_done-is_leased_conn c h = ground arith
