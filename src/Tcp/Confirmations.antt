-- ===== src/Tcp/Confirmations.antt =====
-- What a `ReadDone` of the peer (Tcp/LeaseEvents) does to the accounts of a lease (Tcp/Accounts).
use bucky_p2p.Base.{ℕ, ◌≡◌, true, not, ◌&&◌, ◌||◌, arith, ◌==◌, if_both}
use bucky_p2p.Tcp.Lease.{ReadDone, LeasedConn, is_leased, retire_lease, maybe_finalize_lease}
use bucky_p2p.Tcp.LeaseEvents.{handle_read_done, early_read_done, counted, take_read_done, is_older}
use bucky_p2p.Tcp.Accounts.{is_leased_conn, retire-is_leased_conn, finalize-is_leased_conn}
use bucky_p2p.Tcp.Steps.{SameFin, confirmed}

module _ (c : LeasedConn) where
  early_read_done-is_leased_conn :
      (n : ℕ)
      → is_leased_conn c ≡ true
      → is_leased c.state ≡ true
      → is_leased_conn (early_read_done c n) ≡ true
  unfolding early_read_done retire_lease is_leased_conn
  early_read_done-is_leased_conn n h l = ground arith

  counted-is_leased_conn :
      is_leased_conn c ≡ true
      → c.lease.local_write_fin_sent ≡ true
      → is_leased_conn (counted c) ≡ true
  unfolding is_leased_conn
  counted-is_leased_conn h l = ground arith

  take_read_done-is_leased_conn :
      (n : ℕ)
      → is_leased_conn c ≡ true
      → is_leased c.state ≡ true
      → is_leased_conn (take_read_done c n) ≡ true
  unfolding take_read_done
  take_read_done-is_leased_conn n h l = ground (
    arith,
    retire-is_leased_conn c h,
    early_read_done-is_leased_conn n h l,
    counted-is_leased_conn h,
    finalize-is_leased_conn (counted c),
  )

  pub handle_read_done-is_leased_conn :
      (done : ReadDone) → is_leased_conn c ≡ true → is_leased_conn (handle_read_done c done) ≡ true
  unfolding handle_read_done
  handle_read_done-is_leased_conn done h =
      ground (arith, retire-is_leased_conn c h, take_read_done-is_leased_conn done.final_rx_bytes h)

  -- The channel and the total stay, and a confirmation is old or of `n` bytes.
  abbrev TakesReadDone : ℕ → LeasedConn → Type 0
  TakesReadDone n d =
      SameFin d c × ((m : ℕ) → confirmed d.lease m ≡ true → (confirmed c.lease m || n == m) ≡ true)

  retire-TakesReadDone : (n : ℕ) → TakesReadDone n (retire_lease c)
  unfolding retire_lease
  retire-TakesReadDone n = (ground arith, λ m h. ground arith)

  early-TakesReadDone : (n : ℕ) → TakesReadDone n (early_read_done c n)
  unfolding early_read_done retire_lease
  early-TakesReadDone n = (ground arith, λ m h. ground arith)

  counted-TakesReadDone :
      (n : ℕ) → n ≡ c.lease.tx_bytes → TakesReadDone n (maybe_finalize_lease (counted c))
  unfolding maybe_finalize_lease
  counted-TakesReadDone n q = (ground arith, λ m h. ground arith)

  take-TakesReadDone : (n : ℕ) → TakesReadDone n (take_read_done c n)
  unfolding take_read_done
  take-TakesReadDone n =
      if_both (TakesReadDone n) (not c.lease.local_write_fin_sent) _ _ (λ q. early-TakesReadDone n)
        (λ q.
          if_both (TakesReadDone n) (not (n == c.lease.tx_bytes)) _ _ (λ p. retire-TakesReadDone n)
            (λ p. counted-TakesReadDone n (ground arith)))

  -- The channel and the total stay, and a confirmation is old or of this `ReadDone`.
  abbrev HandlesReadDone : ReadDone → LeasedConn → Type 0
  HandlesReadDone done d =
      SameFin d c
      × ((m : ℕ)
          → confirmed d.lease m ≡ true
          → (confirmed c.lease m
              || (done.lease_seq == c.lease.lease_seq
                  && done.channel_id == c.lease.channel_id
                  && done.final_rx_bytes == m))
            ≡ true)

  same-HandlesReadDone : (done : ReadDone) → HandlesReadDone done c
  same-HandlesReadDone done = (ground arith, λ m h. ground arith)

  retire-HandlesReadDone : (done : ReadDone) → HandlesReadDone done (retire_lease c)
  unfolding retire_lease
  retire-HandlesReadDone done = (ground arith, λ m h. ground arith)

  pub handle_read_done_lem : (done : ReadDone) → HandlesReadDone done (handle_read_done c done)
  unfolding handle_read_done
  handle_read_done_lem done =
      if_both (HandlesReadDone done) (not (is_leased c.state)) _ _ (λ q. same-HandlesReadDone done)
        (λ q.
          if_both (HandlesReadDone done) (is_older done.lease_seq c.lease.lease_seq) _ _
            (λ p. same-HandlesReadDone done)
            (λ p.
              if_both (HandlesReadDone done)
                (not (c.lease.lease_seq == done.lease_seq)
                  || not (c.lease.channel_id == done.channel_id))
                _ _ (λ r. retire-HandlesReadDone done)
                (λ r.
                  let (same, taken) = take-TakesReadDone done.final_rx_bytes in
                  (same, λ m h. let k = taken m h in ground arith))))
