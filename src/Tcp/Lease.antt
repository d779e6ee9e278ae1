-- ===== src/Tcp/Lease.antt =====
-- p2p-frame/src/networks/tcp/tunnel.rs: one use of a data connection by a channel, its lease, from the
-- moment it is bound until the connection is idle again or retired. The state of the connection that
-- the lease belongs to stands beside it, with the frames that went out; the tunnel and the connection
-- are alive all the while, and a stream channel is meant, which has no hidden observer of its reads.
use bucky_p2p.Base.{
  ℕ, Bool, true, false, not, ◌&&◌, ◌||◌, Option, none, some, List, [], ◌∷◌, ◌++◌, ◌==◌,
  if◌then◌else◌,
}
use bucky_p2p.Tcp.{TcpChannelId, TcpLeaseSeq}

pub record WriteFin : Type 0 where
  pub channel_id : TcpChannelId
  pub lease_seq : TcpLeaseSeq
  pub final_tx_bytes : ℕ

pub record ReadDone : Type 0 where
  pub channel_id : TcpChannelId
  pub lease_seq : TcpLeaseSeq
  pub final_rx_bytes : ℕ

pub record LeaseContext : Type 0 where
  pub lease_seq : TcpLeaseSeq
  pub channel_id : TcpChannelId
  pub has_read : Bool
  pub has_write : Bool
  pub tx_bytes : ℕ
  pub rx_bytes : ℕ
  pub peer_final_tx_bytes : Option ℕ
  pub pending_peer_read_done_final_rx_bytes : Option ℕ
  pub local_write_fin_sent : Bool
  pub peer_write_fin_received : Bool
  pub local_read_done_sent : Bool
  pub peer_read_done_received : Bool
  pub read_released : Bool
  pub write_released : Bool
  pub retired : Bool
  pub no_reuse : Bool
  pub hidden_zero_read : Bool

-- The lease that a stream channel is bound to.
abbrev pub stream_lease : TcpLeaseSeq → TcpChannelId → LeaseContext
stream_lease seq channel = record {
  lease_seq = seq;
  channel_id = channel;
  has_read = true;
  has_write = true;
  tx_bytes = 0;
  rx_bytes = 0;
  peer_final_tx_bytes = none;
  pending_peer_read_done_final_rx_bytes = none;
  local_write_fin_sent = false;
  peer_write_fin_received = false;
  local_read_done_sent = false;
  peer_read_done_received = false;
  read_released = false;
  write_released = false;
  retired = false;
  no_reuse = false;
  hidden_zero_read = false;
}

-- Of the states of the connection, those that it can have under a lease and after it.
pub data ConnState : Type 0 where
  bound draining idle retired : ConnState

pub data Frame : Type 0 where
  write_fin : WriteFin → Frame
  read_done : ReadDone → Frame

pub record LeasedConn : Type 0 where
  pub lease : LeaseContext
  pub state : ConnState
  pub sent : List Frame

abbrev pub is_some_number : Option ℕ → ℕ → Bool
is_some_number none n = false
is_some_number (some m) n = m == n

abbrev pub can_send_read_done : LeaseContext → Bool
can_send_read_done l =
    l.peer_write_fin_received
    && is_some_number l.peer_final_tx_bytes l.rx_bytes
    && not l.local_read_done_sent

abbrev pub ready_for_idle : LeaseContext → Bool
ready_for_idle l =
    l.local_write_fin_sent
    && l.peer_write_fin_received
    && l.local_read_done_sent
    && l.peer_read_done_received
    && l.read_released
    && l.write_released
    && not l.retired
    && not l.no_reuse

abbrev pub ready_for_close : LeaseContext → Bool
ready_for_close l = l.read_released && l.write_released && (l.retired || l.no_reuse)

abbrev pub without_halves : LeaseContext → LeaseContext
without_halves l = record l { has_read = false; has_write = false }

-- `retire_lease_arc`.
unfoldable pub retire_lease : LeasedConn → LeasedConn
retire_lease c = if c.lease.retired then c else record c {
  lease = record (without_halves c.lease) { retired = true };
  state = ConnState.retired;
}

abbrev pub is_leased : ConnState → Bool
is_leased bound = true
is_leased draining = true
is_leased idle = false
is_leased ConnState.retired = false

unfoldable pub maybe_finalize_lease : LeasedConn → LeasedConn
maybe_finalize_lease c =
    if ready_for_idle c.lease
    then (if not c.lease.has_read || not c.lease.has_write then c else record c {
      lease = without_halves c.lease;
      state = if is_leased c.state then idle else c.state;
    })
    else if ready_for_close c.lease
    then record c {
      lease = record (without_halves c.lease) { retired = true };
      state = ConnState.retired;
    }
    else c

abbrev pub mark_draining : ConnState → ConnState
mark_draining bound = draining
mark_draining draining = draining
mark_draining idle = idle
mark_draining ConnState.retired = ConnState.retired

-- The synchronous part; what follows when the frame is written is the event `frame_sent`.
unfoldable pub send_read_done : LeasedConn → LeasedConn
send_read_done c = if not (can_send_read_done c.lease) || c.lease.retired then c else record c {
  lease = record c.lease { local_read_done_sent = true };
  state = mark_draining c.state;
  sent =
      c.sent
      ++ read_done (record {
        channel_id = c.lease.channel_id;
        lease_seq = c.lease.lease_seq;
        final_rx_bytes = c.lease.rx_bytes;
      })
        ∷ [];
}

-- A `ReadDone` that came before the local `WriteFin` is looked at now.
abbrev pub fin_accounts : Option ℕ → ℕ → Bool
fin_accounts none tx = true
fin_accounts (some final_rx) tx = final_rx == tx

abbrev pub is_pending : Option ℕ → Bool
is_pending none = false
is_pending (some n) = true

abbrev pub write_finished : LeaseContext → LeaseContext
write_finished l = record l {
  local_write_fin_sent = true;
  pending_peer_read_done_final_rx_bytes = none;
  peer_read_done_received =
      l.peer_read_done_received
      || is_some_number l.pending_peer_read_done_final_rx_bytes l.tx_bytes;
}

unfoldable pub send_write_fin : LeasedConn → LeasedConn
unfolding retire_lease
send_write_fin c =
    if c.lease.local_write_fin_sent || c.lease.retired
    then c
    else let after = record c { lease = write_finished c.lease; state = mark_draining c.state } in
      if not (fin_accounts c.lease.pending_peer_read_done_final_rx_bytes c.lease.tx_bytes)
      then retire_lease after
      else record after {
        sent =
            c.sent
            ++ write_fin (record {
              channel_id = c.lease.channel_id;
              lease_seq = c.lease.lease_seq;
              final_tx_bytes = c.lease.tx_bytes;
            })
              ∷ [];
      }
