-- ===== src/TunnelManager/Entries/Peers.antt =====
-- The entries of a peer (TunnelManager/Entries): at least one, all of them of the peer, and no candidate
-- twice.
use bucky_p2p.Base.{
  ◌≡◌, inl, inr, refl, Bool, false, none, [], ◌∷◌, ◌++◌, arith, any, All, keep, is_empty,
  Bool-cases, HashMap,
}
use bucky_p2p.Base.MapTotals.{NodupKeys}
use bucky_p2p.Identity.{P2pId, id_eq}
use bucky_p2p.TunnelManager.{Instant, Tunnel, TunnelEntry, TunnelEntries}
use bucky_p2p.TunnelManager.Entries.{is_same_candidate, find_entry, mark_published}

abbrev pub Distinct : TunnelEntries → Type 0
Distinct [] = Unit
Distinct (e ∷ es) = (any (is_same_candidate e.tunnel) es ≡ false) × Distinct es

abbrev pub OfPeer : P2pId → TunnelEntry → Type 0
OfPeer id e = e.tunnel.remote_id ≡ id

abbrev pub IsPeer : P2pId × TunnelEntries → Type 0
IsPeer (id, es) = (is_empty es ≡ false) × All (OfPeer id) es × Distinct es

abbrev pub IsPeerMap : HashMap P2pId TunnelEntries → Type 0
IsPeerMap m = NodupKeys m × All IsPeer m

any-keep :
    (p q : TunnelEntry → Bool) (xs : TunnelEntries) → any p xs ≡ false → any p (keep q xs) ≡ false
any-keep p q [] h = refl
any-keep p q (x ∷ xs) h = ground (arith, any-keep p q xs)

pub Distinct-keep :
    (p : TunnelEntry → Bool) (xs : TunnelEntries) → Distinct xs → Distinct (keep p xs)
Distinct-keep p [] d = tt
Distinct-keep p (x ∷ xs) d =
    ground (arith, Distinct-keep p xs d.1, any-keep (is_same_candidate x.tunnel) p xs d.0)

module _ (now : Instant) (tunnel : Tunnel) where
  -- A tunnel of which no candidate is registered yet.
  any-append_new :
      (e new : TunnelEntry) (xs : TunnelEntries)
      → any (is_same_candidate e.tunnel) xs ≡ false
      → is_same_candidate e.tunnel new ≡ false
      → any (is_same_candidate e.tunnel) (xs ++ new ∷ []) ≡ false
  any-append_new e new [] h k = ground arith
  any-append_new e new (x ∷ xs) h k = ground (arith, any-append_new e new xs)

  pub Distinct-append_new :
      (new : TunnelEntry) (xs : TunnelEntries)
      → new.tunnel ≡ tunnel
      → find_entry tunnel xs ≡ none
      → Distinct xs
      → Distinct (xs ++ new ∷ [])
  unfolding find_entry
  Distinct-append_new new [] t f d = (refl, tt)
  Distinct-append_new new (x ∷ xs) t f d = elim (Bool-cases (is_same_candidate tunnel x)) [
    | inl q ↦ let g = rw q at f in cc
    | inr q ↦
        let other : is_same_candidate x.tunnel new ≡ false = ground arith in
        (any-append_new x new xs d.0 other, Distinct-append_new new xs t (rw q at f) d.1)
  ]

  pub OfPeer-append_new :
      (id : P2pId) (new : TunnelEntry) (xs : TunnelEntries)
      → OfPeer id new
      → All (OfPeer id) xs
      → All (OfPeer id) (xs ++ new ∷ [])
  OfPeer-append_new id new [] o h = (o, tt)
  OfPeer-append_new id new (x ∷ xs) o h = (h.0, OfPeer-append_new id new xs o h.1)

  pub is_empty-append_new :
      (new : TunnelEntry) (xs : TunnelEntries) → is_empty (xs ++ new ∷ []) ≡ false
  is_empty-append_new new [] = refl
  is_empty-append_new new (x ∷ xs) = refl

  -- Publishing changes no tunnel.
  any-mark_published :
      (t : Tunnel) (xs : TunnelEntries)
      → any (is_same_candidate t) (mark_published now tunnel xs) ≡ any (is_same_candidate t) xs
  unfolding mark_published
  any-mark_published t [] = refl
  any-mark_published t (x ∷ xs) = ground (arith, any-mark_published t xs)

  Distinct-mark_published :
      (xs : TunnelEntries) → Distinct xs → Distinct (mark_published now tunnel xs)
  unfolding mark_published
  Distinct-mark_published [] d = tt
  Distinct-mark_published (x ∷ xs) d =
      ground (arith, Distinct-mark_published xs d.1, any-mark_published x.tunnel xs)

  OfPeer-mark_published :
      (id : P2pId) (xs : TunnelEntries)
      → All (OfPeer id) xs
      → All (OfPeer id) (mark_published now tunnel xs)
  unfolding mark_published
  OfPeer-mark_published id [] h = tt
  OfPeer-mark_published id (x ∷ xs) h = ground (arith, OfPeer-mark_published id xs h.1)

  pub mark_published-IsPeer :
      (id : P2pId) (xs : TunnelEntries)
      → IsPeer (id, xs)
      → IsPeer (id, mark_published now tunnel xs)
  unfolding mark_published
  mark_published-IsPeer id [] h = h
  mark_published-IsPeer id (x ∷ xs) h =
      (ground arith, OfPeer-mark_published id (x ∷ xs) h.1, Distinct-mark_published (x ∷ xs) h.2)
