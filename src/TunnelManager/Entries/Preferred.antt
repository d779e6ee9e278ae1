-- ===== src/TunnelManager/Entries/Preferred.antt =====
-- Which tunnel of a peer is used (TunnelManager/Entries).
use bucky_p2p.Base.{
  ◌≡◌, ◌⊎◌, inl, inr, refl, Bool, true, false, not, ◌&&◌, ◌||◌, Option, none, some, [], ◌∷◌, arith,
  if◌then◌else◌, any, keep, is_empty, get, Bool-cases,
}
use bucky_p2p.Identity.{P2pId, id_eq}
use bucky_p2p.TunnelManager.{Instant, Tunnel, TunnelEntry, TunnelEntries, TunnelManager}
use bucky_p2p.TunnelManager.Upgrades.{is_proxy}
use bucky_p2p.TunnelManager.Entries
use bucky_p2p.TunnelManager.Entries.{
  preferred_tunnel_entry, slot_with, select_loop, select_preferred_tunnel_entry, select_tunnel,
  or_else, available_entries, get_tunnel_with_filter, get_tunnel, later,
}

-- The entry is one of the list.
abbrev pub Elem : TunnelEntry → TunnelEntries → Type 0
Elem e [] = ⊥
Elem e (x ∷ xs) = (x ≡ e) ⊎ Elem e xs

module _ (activity : Tunnel → Option Instant) where
  -- A direct tunnel comes before a proxy; among tunnels of one kind the preferred one comes first.
  abbrev pub beats : TunnelEntry → TunnelEntry → Bool
  beats x e =
      if is_proxy x.tunnel.form
      then is_proxy e.tunnel.form && preferred_tunnel_entry activity x e
      else is_proxy e.tunnel.form || preferred_tunnel_entry activity x e

  preferred_trans :
      (x y z : TunnelEntry)
      → preferred_tunnel_entry activity x y ≡ false
      → preferred_tunnel_entry activity y z ≡ false
      → preferred_tunnel_entry activity x z ≡ false
  unfolding preferred_tunnel_entry
  preferred_trans x y z h k = ground arith

  preferred_asymm :
      (x y : TunnelEntry)
      → preferred_tunnel_entry activity x y ≡ true
      → preferred_tunnel_entry activity y x ≡ false
  unfolding preferred_tunnel_entry
  preferred_asymm x y h = ground arith

  preferred_refl : (x : TunnelEntry) → preferred_tunnel_entry activity x x ≡ false
  unfolding preferred_tunnel_entry
  preferred_refl x = ground arith

  -- The loop over the entries of one kind.
  abbrev latest : Option TunnelEntry → TunnelEntries → Option TunnelEntry
  latest slot [] = slot
  latest slot (x ∷ xs) = latest (slot_with activity slot x) xs

  abbrev IsLatest : TunnelEntry → TunnelEntries → Option TunnelEntry → Type 0
  IsLatest slot xs o =
      (e : TunnelEntry) × (o ≡ some e)
      × ((slot ≡ e) ⊎ Elem e xs)
      × (preferred_tunnel_entry activity slot e ≡ false)
      × (any (λ x. preferred_tunnel_entry activity x e) xs ≡ false)

  latest-IsLatest :
      (slot : TunnelEntry) (xs : TunnelEntries) → IsLatest slot xs (latest (some slot) xs)
  latest-IsLatest slot [] = (slot, refl, inl refl, preferred_refl slot, refl)
  latest-IsLatest slot (x ∷ xs) = elim (Bool-cases (preferred_tunnel_entry activity x slot)) [
    | inl q ↦
        let (e, o, at, ahead, rest) = latest-IsLatest x xs in
        let new = preferred_trans slot x e (preferred_asymm x slot q) ahead in
        rw q (e, o, inr at, new, ground arith)
    | inr q ↦
        let (e, o, at, ahead, rest) = latest-IsLatest slot xs in
        let new = preferred_trans x slot e q ahead in
        let within : (slot ≡ e) ⊎ Elem e (x ∷ xs) = elim at [
          | inl p ↦ inl p
          | inr p ↦ inr (inr p)
        ] in
        rw q (e, o, within, ahead, ground arith)
  ]

  select_loop-latest :
      (direct relayed : Option TunnelEntry) (xs : TunnelEntries)
      → select_loop activity direct relayed xs ≡ (
        latest direct (keep (λ e. not (is_proxy e.tunnel.form)) xs),
        latest relayed (keep (λ e. is_proxy e.tunnel.form) xs),
      )
  unfolding select_loop
  select_loop-latest direct relayed [] = refl
  select_loop-latest direct relayed (x ∷ xs) = elim (Bool-cases (is_proxy x.tunnel.form)) [
    | inl q ↦ rw (q, select_loop) (select_loop-latest direct (slot_with activity relayed x) xs)
    | inr q ↦ rw (q, select_loop) (select_loop-latest (slot_with activity direct x) relayed xs)
  ]

  -- Of a list, nothing if it is empty, and an entry that none is before by `better`.
  abbrev IsFirst : (TunnelEntry → TunnelEntry → Bool) → TunnelEntries → Option TunnelEntry → Type 0
  IsFirst better xs o =
      ((o ≡ none) × (is_empty xs ≡ true))
      ⊎ ((e : TunnelEntry) × (o ≡ some e) × Elem e xs × (any (λ x. better x e) xs ≡ false))

  latest-IsFirst :
      (xs : TunnelEntries) → IsFirst (preferred_tunnel_entry activity) xs (latest none xs)
  latest-IsFirst [] = inl (refl, refl)
  latest-IsFirst (x ∷ xs) =
      let (e, o, at, ahead, rest) = latest-IsLatest x xs in inr (e, o, at, ground arith)

  Elem-keep :
      (p : TunnelEntry → Bool) (e : TunnelEntry) (xs : TunnelEntries)
      → Elem e (keep p xs)
      → Elem e xs × (p e ≡ true)
  Elem-keep p e [] m = absurd m
  Elem-keep p e (x ∷ xs) m = elim (Bool-cases (p x)) [
    | inr q ↦ let r = Elem-keep p e xs (rw q at m) in (inr r.0, r.1)
    | inl q ↦
        let n : (x ≡ e) ⊎ Elem e (keep p xs) = rw q at m in
        elim n [
          | inl same ↦ (inl same, rw (← same) q)
          | inr tail ↦ let r = Elem-keep p e xs tail in (inr r.0, r.1)
        ]
  ]

  beats-direct :
      (e : TunnelEntry) (xs : TunnelEntries)
      → is_proxy e.tunnel.form ≡ false
      → any (λ x. preferred_tunnel_entry activity x e) (keep (λ x. not (is_proxy x.tunnel.form)) xs)
        ≡ false
      → any (λ x. beats x e) xs ≡ false
  beats-direct e [] d h = refl
  beats-direct e (x ∷ xs) d h = ground (arith, beats-direct e xs d)

  beats-relayed :
      (e : TunnelEntry) (xs : TunnelEntries)
      → is_proxy e.tunnel.form ≡ true
      → is_empty (keep (λ x. not (is_proxy x.tunnel.form)) xs) ≡ true
      → any (λ x. preferred_tunnel_entry activity x e) (keep (λ x. is_proxy x.tunnel.form) xs)
        ≡ false
      → any (λ x. beats x e) xs ≡ false
  beats-relayed e [] d n h = refl
  beats-relayed e (x ∷ xs) d n h = ground (arith, beats-relayed e xs d)

  both_empty :
      (p : TunnelEntry → Bool) (xs : TunnelEntries)
      → is_empty (keep (λ x. not (p x)) xs) ≡ true
      → is_empty (keep p xs) ≡ true
      → is_empty xs ≡ true
  both_empty p [] h k = refl
  both_empty p (x ∷ xs) h k = ground arith

  select_preferred-IsFirst :
      (xs : TunnelEntries) → IsFirst beats xs (select_preferred_tunnel_entry activity xs)
  unfolding select_preferred_tunnel_entry
  select_preferred-IsFirst xs =
      let direct = keep (λ (x : TunnelEntry). not (is_proxy x.tunnel.form)) xs in
      let relayed = keep (λ (x : TunnelEntry). is_proxy x.tunnel.form) xs in
      rw (select_loop-latest none none xs) (elim (latest-IsFirst direct) [
        | inr (e, o, at, best) ↦
            let k = Elem-keep (λ x. not (is_proxy x.tunnel.form)) e xs at in
            inr (e, rw o refl, k.0, beats-direct e xs (ground arith) best)
        | inl (o, empty) ↦ elim (latest-IsFirst relayed) [
          | inr (e, o2, at, best) ↦
              let k = Elem-keep (λ x. is_proxy x.tunnel.form) e xs at in
              inr (e, rw (o, o2) refl, k.0, beats-relayed e xs k.1 empty best)
          | inl (o2, none_relayed) ↦
              inl (rw (o, o2) refl, both_empty (λ x. is_proxy x.tunnel.form) xs empty none_relayed)
        ]
      ])

  Elem-is_empty : (e : TunnelEntry) (xs : TunnelEntries) → Elem e xs → is_empty xs ≡ false
  Elem-is_empty e [] m = absurd m
  Elem-is_empty e (x ∷ xs) m = refl

  -- The published entries that fit, or all that fit where none is published and hidden ones may serve.
  abbrev pub candidates : (TunnelEntry → Bool) → Bool → TunnelEntries → TunnelEntries
  candidates filter allow_hidden_fallback xs =
      let fitting = keep filter xs in
      let published = keep (λ (e : TunnelEntry). e.published) fitting in
      if is_empty published && allow_hidden_fallback then fitting else published

  -- Nothing of an empty list, or the tunnel of an entry that none of the others beats.
  abbrev pub IsChosen : TunnelEntries → Option Tunnel → Type 0
  IsChosen xs o =
      ((o ≡ none) × (is_empty xs ≡ true))
      ⊎ ((e : TunnelEntry) × (o ≡ some e.tunnel) × Elem e xs × (any (λ x. beats x e) xs ≡ false))

  IsFirst-IsChosen :
      (xs : TunnelEntries) (o : Option TunnelEntry)
      → IsFirst beats xs o
      → IsChosen xs (Entries.tunnel_of o)
  IsFirst-IsChosen xs o (inl (q, empty)) = inl (rw q refl, empty)
  IsFirst-IsChosen xs o (inr (e, q, at, best)) = inr (e, rw q refl, at, best)

  select_tunnel-IsChosen :
      (filter : TunnelEntry → Bool) (allow : Bool) (xs : TunnelEntries)
      → IsChosen (candidates filter allow xs) (select_tunnel activity filter allow xs)
  unfolding select_tunnel
  select_tunnel-IsChosen filter allow xs =
      let fitting = keep filter xs in
      let published = keep (λ (e : TunnelEntry). e.published) fitting in
      elim (select_preferred-IsFirst published) [
        | inr (e, q, at, best) ↦ rw (q, Elem-is_empty e published at) (inr (e, refl, at, best))
        | inl (q, empty) ↦
            rw (q, empty)
              (elim (Bool-cases allow) [
                | inl a ↦ rw a (
                    IsFirst-IsChosen fitting (select_preferred_tunnel_entry activity fitting)
                      (select_preferred-IsFirst fitting))
                | inr a ↦ rw a (inl (refl, empty))
              ])
      ]

  -- Of a peer with tunnels, what `get_tunnel_with_filter` gives: a tunnel that is available and fits, a
  -- published one if hidden ones may not serve or a published one is there, and a direct one if there
  -- is any; no other of its kind is preferred to it. It gives none only where no such tunnel is.
  pub get_tunnel_with_filter-IsChosen :
      (available : Tunnel → Bool) (now : Instant) (m : TunnelManager) (remote_id : P2pId)
      (filter : TunnelEntry → Bool) (allow : Bool) (entries : TunnelEntries)
      → get remote_id m.tunnels ≡ some entries
      → IsChosen
          (candidates filter allow (available_entries available now entries))
          (get_tunnel_with_filter available now activity m remote_id filter allow).1
  unfolding get_tunnel_with_filter
  get_tunnel_with_filter-IsChosen available now m remote_id filter allow entries e =
      rw (e, get_tunnel_with_filter)
        (select_tunnel-IsChosen filter allow (available_entries available now entries))
