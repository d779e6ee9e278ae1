-- ===== src/TunnelManager/Owners/Crossing.antt =====
-- Two peers that open a rendezvous towards one another at the same time (TunnelManager/Owners).
use bucky_p2p.Base.{
  ◌≡◌, ◌∙◌, refl, true, false, not, Option, none, some, arith, HashMap, get, insert, remove,
  get-insert, ap,
}
use bucky_p2p.Identity.{P2pId, id_eq, bytes_lt, bytes_lt_asymm}
use bucky_p2p.TunnelManager.{IncomingNotify, ManagerState, RendezvousAttemptOwner}
use bucky_p2p.TunnelManager.Owners
use bucky_p2p.TunnelManager.Owners.Completions.{
  displace-attempts, publish_rendezvous_waiter-attempts,
}

-- An attempt with the waiter for its tunnel, and the attempt that a manager has for a peer once it has
-- installed two of them, the first one before the second.
abbrev pub Arrival : Type 0
Arrival = RendezvousAttemptOwner × Option IncomingNotify

abbrev install : P2pId → P2pId → ManagerState → Arrival → ManagerState
install local_id remote_id s (owner, waiter) =
    (Owners.install_rendezvous_owner local_id s remote_id owner waiter).0

abbrev pub survivor :
    P2pId → P2pId → ManagerState → Arrival → Arrival → Option RendezvousAttemptOwner
survivor local_id remote_id s first second =
    get remote_id
      (install local_id remote_id (install local_id remote_id s first) second).rendezvous_attempts

get-insert_self :
    (id : P2pId) (owner : RendezvousAttemptOwner) (m : HashMap P2pId RendezvousAttemptOwner)
    → get id (insert id owner m) ≡ some owner
get-insert_self id owner m = ground (arith, get-insert id id owner m)

install_new :
    (local_id remote_id : P2pId) (s : ManagerState) (owner : RendezvousAttemptOwner)
    (waiter : Option IncomingNotify)
    → get remote_id s.rendezvous_attempts ≡ none
    → (Owners.install_rendezvous_owner local_id s remote_id owner waiter).0.rendezvous_attempts
      ≡ insert remote_id owner s.rendezvous_attempts
unfolding Owners.install_rendezvous_owner
install_new local_id remote_id s owner waiter e =
    rw (e, Owners.install_rendezvous_owner)
      (ap (insert remote_id owner) (publish_rendezvous_waiter-attempts s remote_id owner waiter))

install_known :
    (local_id remote_id : P2pId) (s : ManagerState) (existing owner : RendezvousAttemptOwner)
    (waiter : Option IncomingNotify)
    → get remote_id s.rendezvous_attempts ≡ some existing
    → Owners.install_rendezvous_owner local_id s remote_id owner waiter
      ≡ Owners.install_over local_id s remote_id existing owner waiter
unfolding Owners.install_rendezvous_owner
install_known local_id remote_id s existing owner waiter e =
    rw (e, Owners.install_rendezvous_owner) refl

-- The second of two attempts that come from the two ends.
module _ (local_id remote_id : P2pId) (s : ManagerState) (existing owner : RendezvousAttemptOwner)
    (waiter : Option IncomingNotify) where
  install_over-wins :
      existing.initiator_local ≡ not owner.initiator_local
      → Owners.new_wins local_id remote_id owner ≡ true
      → (Owners.install_over local_id s remote_id existing owner waiter).0.rendezvous_attempts
        ≡ insert remote_id (Owners.entering existing owner) (remove remote_id s.rendezvous_attempts)
  install_over-wins other w =
      let d = displace-attempts s remote_id existing owner waiter in ground arith

  install_over-yields :
      existing.initiator_local ≡ false
      → owner.initiator_local ≡ true
      → Owners.new_wins local_id remote_id owner ≡ false
      → (Owners.install_over local_id s remote_id existing owner waiter).0.rendezvous_attempts
        ≡ insert remote_id
            (Owners.more_completions existing owner.winner_completions)
            s.rendezvous_attempts
  install_over-yields x y w = ground arith

  install_over-refused :
      existing.initiator_local ≡ true
      → owner.initiator_local ≡ false
      → Owners.new_wins local_id remote_id owner ≡ false
      → (Owners.install_over local_id s remote_id existing owner waiter).0.rendezvous_attempts
        ≡ s.rendezvous_attempts
  install_over-refused x y w = ground arith

module _ (local_id remote_id : P2pId) (s : ManagerState) where
  after_both :
      (first second : Arrival) (m : HashMap P2pId RendezvousAttemptOwner)
      → get remote_id s.rendezvous_attempts ≡ none
      → ((s1 : ManagerState)
          → s1.rendezvous_attempts ≡ insert remote_id first.0 s.rendezvous_attempts
          → (Owners.install_over local_id s1 remote_id first.0 second.0
              second.1).0.rendezvous_attempts
            ≡ m)
      → survivor local_id remote_id s first second ≡ get remote_id m
  after_both (first, w) (second, v) m free over =
      let s1 = (Owners.install_rendezvous_owner local_id s remote_id first w).0 in
      let e1 = install_new local_id remote_id s first w free in
      let known : get remote_id s1.rendezvous_attempts ≡ some first =
        rw e1 (get-insert_self remote_id first s.rendezvous_attempts) in
      ap (get remote_id) (
        ap (λ r. r.0.rendezvous_attempts) (install_known local_id remote_id s1 first second v known)
        ∙ over s1 e1)

  survivor_at_winner :
      (own theirs : Arrival)
      → get remote_id s.rendezvous_attempts ≡ none
      → own.0.initiator_local ≡ true
      → theirs.0.initiator_local ≡ false
      → bytes_lt local_id.bytes remote_id.bytes ≡ true
      → (survivor local_id remote_id s own theirs ≡ some own.0)
        × (survivor local_id remote_id s theirs own ≡ some own.0)
  unfolding Owners.new_wins
  survivor_at_winner (own, w) (theirs, v) free x y lt =
      let m = s.rendezvous_attempts in
      let alone : Owners.entering theirs own ≡ own = rw y refl in
      (
        after_both (own, w) (theirs, v) (insert remote_id own m) free
              (λ s1 e1.
                install_over-refused local_id remote_id s1 own theirs v x y (ground arith) ∙ e1)
            ∙ get-insert_self remote_id own m,
        after_both (theirs, v) (own, w)
              (insert remote_id own (remove remote_id (insert remote_id theirs m))) free
              (λ s1 e1.
                install_over-wins local_id remote_id s1 theirs own w (ground arith) (ground arith)
                ∙ rw (e1, alone) refl)
            ∙ get-insert_self remote_id own (remove remote_id (insert remote_id theirs m)),
      )

  survivor_at_loser :
      (own theirs : Arrival)
      → get remote_id s.rendezvous_attempts ≡ none
      → own.0.initiator_local ≡ true
      → theirs.0.initiator_local ≡ false
      → bytes_lt local_id.bytes remote_id.bytes ≡ false
      → let joined = Owners.more_completions theirs.0 own.0.winner_completions in
        (survivor local_id remote_id s own theirs ≡ some joined)
        × (survivor local_id remote_id s theirs own ≡ some joined)
  unfolding Owners.new_wins
  survivor_at_loser (own, w) (theirs, v) free x y lt =
      let m = s.rendezvous_attempts in
      let joined = Owners.more_completions theirs own.winner_completions in
      let more : Owners.entering own theirs ≡ joined = rw (x, y) refl in
      (
        after_both (own, w) (theirs, v)
              (insert remote_id joined (remove remote_id (insert remote_id own m))) free
              (λ s1 e1.
                install_over-wins local_id remote_id s1 own theirs v (ground arith) (ground arith)
                ∙ rw (e1, more) refl)
            ∙ get-insert_self remote_id joined (remove remote_id (insert remote_id own m)),
        after_both (theirs, v) (own, w) (insert remote_id joined (insert remote_id theirs m)) free
              (λ s1 e1.
                install_over-yields local_id remote_id s1 theirs own w y x (ground arith)
                ∙ ap (insert remote_id joined) e1)
            ∙ get-insert_self remote_id joined (insert remote_id theirs m),
      )

-- Two peers open a rendezvous towards one another, each without an attempt for the other before: the
-- attempt of the peer with the lesser id stays at both ends, in whichever order an end installs its
-- own and the other's; where its own gives way, those who wait for it wait for the other one.
pub install_rendezvous_owner-crossing :
    (a b : P2pId) (s t : ManagerState) (own_a theirs_a own_b theirs_b : Arrival)
    → bytes_lt a.bytes b.bytes ≡ true
    → get b s.rendezvous_attempts ≡ none
    → get a t.rendezvous_attempts ≡ none
    → own_a.0.initiator_local ≡ true
    → theirs_a.0.initiator_local ≡ false
    → own_b.0.initiator_local ≡ true
    → theirs_b.0.initiator_local ≡ false
    → let joined = Owners.more_completions theirs_b.0 own_b.0.winner_completions in
      (survivor a b s own_a theirs_a ≡ some own_a.0)
      × (survivor a b s theirs_a own_a ≡ some own_a.0)
      × (survivor b a t own_b theirs_b ≡ some joined)
      × (survivor b a t theirs_b own_b ≡ some joined)
install_rendezvous_owner-crossing a b s t own_a theirs_a own_b theirs_b lt f g x y z w =
    let (p, q) = survivor_at_winner a b s own_a theirs_a f x y lt in
    let (r, u) = survivor_at_loser b a t own_b theirs_b g z w (bytes_lt_asymm a.bytes b.bytes lt) in
    (p, q, r, u)
