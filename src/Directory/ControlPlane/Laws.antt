-- ===== src/Directory/ControlPlane/Laws.antt =====
-- p2p-frame/src/sn/directory/control_plane.rs: what the log and the sessions of the control plane keep.
use bucky_p2p.Base.{
  ℕ, ◌≡◌, refl, sym, ◌∙◌, ◌⊎◌, inl, inr, Bool, true, false, not, some, List, [], ◌∷◌, ◌++◌, ◌≟◌,
  length, contains, Timestamp, arith, All, All-keep, map,
}
use mathlib.Core.List.{append-nil, append_assoc}
use bucky_p2p.Identity.{P2pId, id_eq}
use bucky_p2p.Directory.Membership.{OwnerMembership, OwnerMember, is_member, is_some, find_member}
use bucky_p2p.Directory.ControlPlane.{
  OwnerControlPlane, OwnerSessionEntry, revoke_serving_session, new_control_plane, set_voter_active,
  elect_leader, append_as_leader, set_known_leader, apply_committed_session_entry, id_of, add_voter,
  drop_voter,
}

-- The operations that change the control plane.
pub data Operation : Type 0 where
  voter_active : P2pId → Bool → Operation
  elect : P2pId → Operation
  append : P2pId → OwnerSessionEntry → Timestamp → Operation
  known_leader : P2pId → ℕ → Operation
  apply_committed : P2pId → ℕ → OwnerSessionEntry → Timestamp → Operation

unfoldable pub step : OwnerControlPlane → Operation → OwnerControlPlane
step p (voter_active member active) = (set_voter_active p member active).0
step p (elect id) = (elect_leader p id).0
step p (append id entry now) = (append_as_leader p id entry now).0
step p (known_leader id term) = (set_known_leader p id term).0
step p (apply_committed id term entry now) = (apply_committed_session_entry p id term entry now).0

unfoldable pub run : OwnerControlPlane → List Operation → OwnerControlPlane
unfolding step
run p [] = p
run p (o ∷ os) = run (step p o) os

-- The index of the last commit is the length of the log, the leader, where one is known, is a
-- member, and so is every active voter.
unfoldable pub PlaneInv : OwnerMembership → OwnerControlPlane → Type 0
PlaneInv membership p =
    (p.membership ≡ membership)
    × (p.committed_index ≡ length p.log)
    × ((id : P2pId) → p.leader_id ≡ some id → is_member membership id ≡ true)
    × All (λ v. is_member membership v ≡ true) p.active_voters

All-add_voter :
    (P : P2pId → Type 0) (id : P2pId) (voters : List P2pId)
    → P id
    → All P voters
    → All P (add_voter id voters)
All-add_voter P id voters h hs = ground arith

All-drop_voter :
    (P : P2pId → Type 0) (id : P2pId) (voters : List P2pId)
    → All P voters
    → All P (drop_voter id voters)
All-drop_voter P id voters hs = All-keep P (λ v. not (v ≟ id)) voters hs

set_voter_active_cases :
    (p : OwnerControlPlane) (member : P2pId)
    → ((set_voter_active p member false).0 ≡ p)
      ⊎ ((set_voter_active p member false).0
          ≡ record p { active_voters = drop_voter member p.active_voters })
unfolding set_voter_active
set_voter_active_cases p member = ground arith

set_voter_active-PlaneInv :
    (membership : OwnerMembership) (p : OwnerControlPlane) (member : P2pId)
    → PlaneInv membership p
    → PlaneInv membership (set_voter_active p member false).0
unfolding PlaneInv
set_voter_active-PlaneInv membership p member h = elim (set_voter_active_cases p member) [
  | inl q ↦ rw q h
  | inr q ↦
      let (same, index, leads, voters) = h in
      rw q (
        same,
        index,
        leads,
        All-drop_voter (λ v. is_member membership v ≡ true) member p.active_voters voters,
      )
]

step-PlaneInv :
    (membership : OwnerMembership) (p : OwnerControlPlane) (o : Operation)
    → PlaneInv membership p
    → PlaneInv membership (step p o)
unfolding step set_voter_active elect_leader append_as_leader set_known_leader
    apply_committed_session_entry PlaneInv
step-PlaneInv membership p (voter_active member true) h =
    ground (arith, All-add_voter (λ v. is_member membership v ≡ true) member p.active_voters)
step-PlaneInv membership p (voter_active member false) h =
    set_voter_active-PlaneInv membership p member h
step-PlaneInv membership p (elect id) h = ground arith
step-PlaneInv membership p (append id entry now) h = ground arith
step-PlaneInv membership p (known_leader id term) h = ground arith
step-PlaneInv membership p (apply_committed id term entry now) h = ground arith

find_member-own :
    (id : P2pId) (ms : List OwnerMember)
    → contains id (map id_of ms) ≡ true
    → is_some (find_member id ms) ≡ true
unfolding find_member
find_member-own id [] h = cc
find_member-own id (m ∷ ms) h = ground (arith, find_member-own id ms)

-- Every member of a sublist of the members is one.
pub All-is_member :
    (all ms : List OwnerMember)
    → ((id : P2pId) → contains id (map id_of ms) ≡ true → contains id (map id_of all) ≡ true)
    → All (λ v. is_some (find_member v all) ≡ true) (map id_of ms)
All-is_member every [] h = tt
All-is_member every (m ∷ ms) h = (
  find_member-own m.sn_id every (h m.sn_id (ground arith)),
  All-is_member every ms (λ id q. h id (ground arith)),
)

new_control_plane-leader :
    (membership : OwnerMembership) (id : P2pId)
    → (new_control_plane membership).leader_id ≡ some id
    → is_member membership id ≡ true
unfolding new_control_plane find_member
new_control_plane-leader membership id h = ground arith

new_control_plane-PlaneInv :
    (membership : OwnerMembership) → PlaneInv membership (new_control_plane membership)
unfolding new_control_plane PlaneInv
new_control_plane-PlaneInv membership = (
  refl,
  refl,
  new_control_plane-leader membership,
  All-is_member membership.members membership.members (λ id h. h),
)

from-PlaneInv :
    (membership : OwnerMembership) (p : OwnerControlPlane) (os : List Operation)
    → PlaneInv membership p
    → PlaneInv membership (run p os)
unfolding run
from-PlaneInv membership p [] h = h
from-PlaneInv membership p (o ∷ os) h =
    from-PlaneInv membership (step p o) os (step-PlaneInv membership p o h)

-- From a new control plane, after any operations: the committed index is the length of the log, a
-- known leader is a member, and every active voter is a member.
pub run-PlaneInv :
    (membership : OwnerMembership) (os : List Operation)
    → PlaneInv membership (run (new_control_plane membership) os)
run-PlaneInv membership os =
    from-PlaneInv membership (new_control_plane membership) os
      (new_control_plane-PlaneInv membership)

abbrev pub Extends : List OwnerSessionEntry → List OwnerSessionEntry → Type 0
Extends older newer = (added : List OwnerSessionEntry) × (newer ≡ older ++ added)

Extends-refl : (log : List OwnerSessionEntry) → Extends log log
Extends-refl log = ([], sym (append-nil log))

Extends-trans : (a b c : List OwnerSessionEntry) → Extends a b → Extends b c → Extends a c
Extends-trans a b c (x, p) (y, q) = (x ++ y, rw (q, p, append_assoc))

-- A step leaves the log or adds one entry to it.
Extends-cases :
    (log newer : List OwnerSessionEntry) (entry : OwnerSessionEntry)
    → (newer ≡ log) ⊎ (newer ≡ log ++ entry ∷ [])
    → Extends log newer
Extends-cases log newer entry (inl same) = ([], same ∙ sym (append-nil log))
Extends-cases log newer entry (inr longer) = (entry ∷ [], longer)

step-Extends : (p : OwnerControlPlane) (o : Operation) → Extends p.log (step p o).log
unfolding step set_voter_active elect_leader append_as_leader set_known_leader
    apply_committed_session_entry
step-Extends p (voter_active member active) =
    Extends-cases p.log _ (revoke_serving_session member) (ground arith)
step-Extends p (elect id) = Extends-cases p.log _ (revoke_serving_session id) (ground arith)
step-Extends p (append id entry now) = Extends-cases p.log _ entry (ground arith)
step-Extends p (known_leader id term) =
    Extends-cases p.log _ (revoke_serving_session id) (ground arith)
step-Extends p (apply_committed id term entry now) = Extends-cases p.log _ entry (ground arith)

-- No operation rewrites the log: after any operations it is the old log with entries added at the end.
pub run-Extends : (p : OwnerControlPlane) (os : List Operation) → Extends p.log (run p os).log
unfolding run
run-Extends p [] = Extends-refl p.log
run-Extends p (o ∷ os) =
    Extends-trans p.log (step p o).log (run (step p o) os).log (step-Extends p o)
      (run-Extends (step p o) os)
