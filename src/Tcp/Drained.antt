-- ===== src/Tcp/Drained.antt =====
-- When a leased connection becomes idle again (Tcp/LeaseEvents): after both directions are accounted for.
use bucky_p2p.Base.{ℕ, ◌≡◌, ◌⊎◌, refl, Bool, true, false, ◌||◌, some, List, [], ◌∷◌, arith, any}
use bucky_p2p.Tcp.{TcpChannelId, TcpLeaseSeq}
use bucky_p2p.Tcp.Lease.{
  WriteFin, bound, idle, LeasedConn, is_some_number, stream_lease, retire_lease,
  maybe_finalize_lease,
}
use bucky_p2p.Tcp.LeaseEvents.{
  LeaseEvent, reads, writes, drops_read, drops_write, gets_write_fin, gets_read_done, frame_sent,
  finalize_check, lease_event, lease_events, poll_read, poll_write, release_read_half,
  release_write_half, handle_write_fin, handle_read_done,
}
use bucky_p2p.Tcp.Accounts.{
  is_leased_conn, SameCounts, retire_lem, retire-is_leased_conn, finalize_lem,
  finalize-is_leased_conn, handle_write_fin-is_leased_conn, handle_write_fin_lem,
}
use bucky_p2p.Tcp.Steps.{
  SameFin, finishes, confirms, confirmed, poll_read-is_leased_conn, poll_read_lem,
  poll_write-is_leased_conn, poll_write_lem, poll_write-confirmed, release_read_half-is_leased_conn,
  release_read_half_lem, release_write_half-is_leased_conn, release_write_half_lem,
}
use bucky_p2p.Tcp.Confirmations.{handle_read_done-is_leased_conn, handle_read_done_lem}

abbrev pub bound_conn : TcpLeaseSeq → TcpChannelId → LeasedConn
bound_conn seq channel = record { lease = stream_lease seq channel; state = bound; sent = [] }

step-is_leased_conn :
    (c : LeasedConn) (e : LeaseEvent)
    → is_leased_conn c ≡ true
    → is_leased_conn (lease_event c e) ≡ true
unfolding lease_event
step-is_leased_conn c (reads n) h = poll_read-is_leased_conn c n h
step-is_leased_conn c (writes n) h = poll_write-is_leased_conn c n h
step-is_leased_conn c drops_read h = release_read_half-is_leased_conn c h
step-is_leased_conn c drops_write h = release_write_half-is_leased_conn c h
step-is_leased_conn c (gets_write_fin fin) h = handle_write_fin-is_leased_conn c fin h
step-is_leased_conn c (gets_read_done done) h = handle_read_done-is_leased_conn c done h
step-is_leased_conn c (frame_sent true) h = finalize-is_leased_conn c h
step-is_leased_conn c (frame_sent false) h = retire-is_leased_conn c h
step-is_leased_conn c finalize_check h = finalize-is_leased_conn c h

-- What an event does to the accounts.
abbrev StepsTo : LeasedConn → LeaseEvent → LeasedConn → Type 0
StepsTo c e d =
    (d.lease.lease_seq ≡ c.lease.lease_seq)
    × (d.lease.channel_id ≡ c.lease.channel_id)
    × ((n : ℕ)
        → is_some_number d.lease.peer_final_tx_bytes n ≡ true
        → (is_some_number c.lease.peer_final_tx_bytes n
            || finishes c.lease.lease_seq c.lease.channel_id n e)
          ≡ true)
    × ((n : ℕ)
        → confirmed d.lease n ≡ true
        → (confirmed c.lease n || confirms c.lease.lease_seq c.lease.channel_id n e) ≡ true)

same-StepsTo :
    (c : LeasedConn) (e : LeaseEvent) (d : LeasedConn)
    → SameCounts d.lease c.lease
    → d.lease.peer_final_tx_bytes ≡ c.lease.peer_final_tx_bytes
    → StepsTo c e d
same-StepsTo c e d s f = (ground arith, ground arith, λ n h. ground arith, λ n h. ground arith)

kept-StepsTo :
    (c : LeasedConn) (e : LeaseEvent) (d : LeasedConn)
    → SameFin d c
    → ((n : ℕ)
        → confirmed d.lease n ≡ true
        → (confirmed c.lease n || confirms c.lease.lease_seq c.lease.channel_id n e) ≡ true)
    → StepsTo c e d
kept-StepsTo c e d s k = (s.0, s.1, λ n h. ground (arith, s.2), k)

fin-StepsTo :
    (c : LeasedConn) (fin : WriteFin) (d : LeasedConn)
    → SameCounts d.lease c.lease
    → (d.lease.peer_final_tx_bytes ≡ c.lease.peer_final_tx_bytes)
      ⊎ ((d.lease.peer_final_tx_bytes ≡ some fin.final_tx_bytes)
          × (c.lease.lease_seq ≡ fin.lease_seq)
          × (c.lease.channel_id ≡ fin.channel_id))
    → StepsTo c (gets_write_fin fin) d
fin-StepsTo c fin d s f = (s.0, s.1, λ n h. ground arith, λ n h. ground arith)

or_right : (a b : Bool) → a ≡ true → (a || b) ≡ true
or_right a b h = ground arith

step-StepsTo :
    (c : LeasedConn) (e : LeaseEvent) → is_leased_conn c ≡ true → StepsTo c e (lease_event c e)
unfolding lease_event
step-StepsTo c (reads n) k =
    let s = poll_read_lem c n in same-StepsTo c (reads n) (poll_read c n) s.0 s.1
step-StepsTo c (writes m) k =
    kept-StepsTo c (writes m) (poll_write c m) (poll_write_lem c m)
      (λ n h. or_right _ false (poll_write-confirmed c m n k h))
step-StepsTo c drops_read k =
    let s = release_read_half_lem c in same-StepsTo c drops_read (release_read_half c) s.0 s.1
step-StepsTo c drops_write k =
    kept-StepsTo c drops_write (release_write_half c) (release_write_half_lem c 0).0
      (λ n h. or_right _ false ((release_write_half_lem c n).1 h))
step-StepsTo c (gets_write_fin fin) k =
    let s = handle_write_fin_lem c fin in fin-StepsTo c fin (handle_write_fin c fin) s.0 s.1
step-StepsTo c (gets_read_done done) k =
    kept-StepsTo c (gets_read_done done) (handle_read_done c done) (handle_read_done_lem c done).0
      (handle_read_done_lem c done).1
step-StepsTo c (frame_sent true) k =
    let s = finalize_lem c in same-StepsTo c (frame_sent true) (maybe_finalize_lease c) s.0 s.1
step-StepsTo c (frame_sent false) k =
    let s = retire_lem c in same-StepsTo c (frame_sent false) (retire_lease c) s.0 s.1
step-StepsTo c finalize_check k =
    let s = finalize_lem c in same-StepsTo c finalize_check (maybe_finalize_lease c) s.0 s.1

or_later :
    (a b p q : Bool) → (b ≡ true → (a || p) ≡ true) → (b || q) ≡ true → (a || (p || q)) ≡ true
or_later a b p q f h = ground (arith, f)

finishes_from :
    (c : LeasedConn) (es : List LeaseEvent) (n : ℕ)
    → is_leased_conn c ≡ true
    → is_some_number (lease_events c es).lease.peer_final_tx_bytes n ≡ true
    → (is_some_number c.lease.peer_final_tx_bytes n
        || any (finishes c.lease.lease_seq c.lease.channel_id n) es)
      ≡ true
unfolding lease_events
finishes_from c [] n k h = or_right _ false h
finishes_from c (e ∷ es) n k h =
    let later = finishes_from (lease_event c e) es n (step-is_leased_conn c e k) h in
    let (seq, channel, ends, same) = step-StepsTo c e k in
    or_later _ _ _ _ (ends n) (rw (seq, channel) at later)

confirms_from :
    (c : LeasedConn) (es : List LeaseEvent) (n : ℕ)
    → is_leased_conn c ≡ true
    → confirmed (lease_events c es).lease n ≡ true
    → (confirmed c.lease n || any (confirms c.lease.lease_seq c.lease.channel_id n) es) ≡ true
unfolding lease_events
confirms_from c [] n k h = or_right _ false h
confirms_from c (e ∷ es) n k h =
    let later = confirms_from (lease_event c e) es n (step-is_leased_conn c e k) h in
    let (seq, channel, ends, same) = step-StepsTo c e k in
    or_later _ _ _ _ (same n) (rw (seq, channel) at later)

lease_events-is_leased_conn :
    (c : LeasedConn) (es : List LeaseEvent)
    → is_leased_conn c ≡ true
    → is_leased_conn (lease_events c es) ≡ true
unfolding lease_events
lease_events-is_leased_conn c [] k = k
lease_events-is_leased_conn c (e ∷ es) k =
    lease_events-is_leased_conn (lease_event c e) es (step-is_leased_conn c e k)

idle-accounts :
    (c : LeasedConn)
    → is_leased_conn c ≡ true
    → c.state ≡ idle
    → (c.lease.read_released ≡ true)
      × (c.lease.write_released ≡ true)
      × (is_some_number c.lease.peer_final_tx_bytes c.lease.rx_bytes ≡ true)
      × (confirmed c.lease c.lease.tx_bytes ≡ true)
unfolding is_leased_conn
idle-accounts c k h = (ground arith, ground arith, ground arith, ground arith)

-- Whatever happens to a connection bound to a lease, and in whatever order: when it is idle again, the
-- channel has dropped both halves, the peer's `WriteFin` of this lease and channel named exactly the
-- bytes that were read, and the peer's `ReadDone` of it named exactly the bytes that were written.
pub lease_events-idle :
    (seq : TcpLeaseSeq) (channel : TcpChannelId) (es : List LeaseEvent)
    → (lease_events (bound_conn seq channel) es).state ≡ idle
    → let l = (lease_events (bound_conn seq channel) es).lease in
      (l.read_released ≡ true)
      × (l.write_released ≡ true)
      × (any (finishes seq channel l.rx_bytes) es ≡ true)
      × (any (confirms seq channel l.tx_bytes) es ≡ true)
unfolding is_leased_conn
lease_events-idle seq channel es h =
    let c = lease_events (bound_conn seq channel) es in
    let k = lease_events-is_leased_conn (bound_conn seq channel) es refl in
    let (read, written, ended, done) = idle-accounts c k h in
    (
      read,
      written,
      finishes_from (bound_conn seq channel) es c.lease.rx_bytes refl ended,
      confirms_from (bound_conn seq channel) es c.lease.tx_bytes refl done,
    )
