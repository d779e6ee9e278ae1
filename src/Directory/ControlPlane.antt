-- ===== src/Directory/ControlPlane.antt =====
-- p2p-frame/src/sn/directory/control_plane.rs: the log of session changes that the leader of the
-- owners commits, and the sessions that result.
pub mod Laws
pub mod Sessions
use bucky_p2p.Base.{
  ℕ, ◌+◌, ◌/◌, max, ◌≡◌, Bool, true, false, not, ◌&&◌, ◌||◌, Option, none, some, List, [], ◌∷◌,
  ◌++◌, map, ltb, leb, ◌==◌, ◌≟◌, if◌then◌else◌, length, keep, contains, first?, HashMap, get,
  insert, ok, err, P2pResult, P2pErrorCode, Timestamp, Duration, saturating_add, Eq,
}
use bucky_p2p.Identity.{P2pId, id_eq}
use bucky_p2p.Directory.Membership.{OwnerMember, OwnerMembership, is_member, to_bucky_time}

pub data ServingSnSessionState : Type 0 where
  online offline : ServingSnSessionState

pub record ServingSnSession : Type 0 where
  pub serving_sn_id : P2pId
  pub state : ServingSnSessionState
  pub expires_at : Timestamp

abbrev pub online_session : P2pId → Duration → Timestamp → ServingSnSession
online_session id ttl now = record {
  serving_sn_id = id;
  state = online;
  expires_at = saturating_add now (to_bucky_time ttl);
}

abbrev pub is_online_state : ServingSnSessionState → Bool
is_online_state online = true
is_online_state offline = false

abbrev pub is_online : ServingSnSession → Timestamp → Bool
is_online s now = is_online_state s.state && ltb now s.expires_at

pub data OwnerSessionEntry : Type 0 where
  renew_serving_session : ServingSnSession → OwnerSessionEntry
  revoke_serving_session : P2pId → OwnerSessionEntry

-- The owner control plane: its membership and the state under its lock. The set of active voters is
-- a list without repetitions.
pub record OwnerControlPlane : Type 0 where
  pub membership : OwnerMembership
  pub current_term : ℕ
  pub leader_id : Option P2pId
  pub committed_index : ℕ
  pub log : List OwnerSessionEntry
  pub sessions : HashMap P2pId ServingSnSession
  pub active_voters : List P2pId

abbrev pub id_of : OwnerMember → P2pId
id_of m = m.sn_id

abbrev some_term : Option P2pId → ℕ
some_term none = 0
some_term (some id) = 1

abbrev pub map_option {ℓ κ} : {A : Type ℓ} {B : Type κ} → (A → B) → Option A → Option B
map_option f none = none
map_option f (some a) = some (f a)

unfoldable pub new_control_plane : OwnerMembership → OwnerControlPlane
new_control_plane membership =
    let leader = map_option id_of (first? membership.members) in
    record {
      membership = membership;
      current_term = some_term leader;
      leader_id = leader;
      committed_index = 0;
      log = [];
      sessions = [];
      active_voters = map id_of membership.members;
    }

-- `HashSet::insert` and `HashSet::remove`.
abbrev pub add_voter : P2pId → List P2pId → List P2pId
add_voter id voters = if contains id voters then voters else id ∷ voters

abbrev pub drop_voter : P2pId → List P2pId → List P2pId
drop_voter id voters = keep (λ v. not (v ≟ id)) voters

unfoldable pub set_voter_active : OwnerControlPlane → P2pId → Bool → OwnerControlPlane × Bool
set_voter_active p member active = if not (is_member p.membership member) then (p, false) else (
  record p {
    active_voters =
        if active then add_voter member p.active_voters else drop_voter member p.active_voters;
  },
  true,
)

abbrev pub quorum_size : OwnerMembership → ℕ
quorum_size membership = length membership.members / 2 + 1

abbrev pub has_quorum : OwnerControlPlane → Bool
has_quorum p = leb (quorum_size p.membership) (length p.active_voters)

unfoldable pub elect_leader : OwnerControlPlane → P2pId → OwnerControlPlane × P2pResult ℕ
elect_leader p candidate =
    if not (is_member p.membership candidate)
    then (p, err P2pErrorCode.permission_denied)
    else if not (contains candidate p.active_voters) || not (has_quorum p)
    then (p, err P2pErrorCode.not_found)
    else let term = max (saturating_add p.current_term 1) 1 in
      (record p { current_term = term; leader_id = some candidate }, ok term)

-- A renewal extends the session, unless an online session already lasts longer.
abbrev pub should_update : Option ServingSnSession → ServingSnSession → Bool
should_update none session = true
should_update (some existing) session =
    not (is_online_state existing.state) || leb existing.expires_at session.expires_at

abbrev revoked :
    HashMap P2pId ServingSnSession
    → P2pId
    → ServingSnSession
    → Timestamp
    → HashMap P2pId ServingSnSession
revoked sessions id existing now =
    if ltb now existing.expires_at
    then insert id (record existing { state = offline; expires_at = now }) sessions
    else sessions

unfoldable pub apply_entry :
    HashMap P2pId ServingSnSession → OwnerSessionEntry → Timestamp → HashMap P2pId ServingSnSession
apply_entry sessions (renew_serving_session session) now =
    if should_update (get session.serving_sn_id sessions) session
    then insert session.serving_sn_id session sessions
    else sessions
apply_entry sessions (revoke_serving_session id) now = elim (get id sessions) [
  | none ↦ sessions
  | some existing ↦ revoked sessions id existing now
]

-- Pushing an entry and applying it.
abbrev pub commit : OwnerControlPlane → OwnerSessionEntry → Timestamp → OwnerControlPlane
commit p entry now = record p {
  log = p.log ++ entry ∷ [];
  committed_index = length (p.log ++ entry ∷ []);
  sessions = apply_entry p.sessions entry now;
}

abbrev pub is_leader : Option P2pId → P2pId → Bool
is_leader none id = false
is_leader (some leader) id = leader ≟ id

unfoldable pub append_as_leader :
    OwnerControlPlane → P2pId → OwnerSessionEntry → Timestamp → OwnerControlPlane × P2pResult ℕ
append_as_leader p leader entry now =
    if not (is_leader p.leader_id leader)
    then (p, err P2pErrorCode.permission_denied)
    else if not (has_quorum p)
    then (p, err P2pErrorCode.not_found)
    else (commit p entry now, ok (length (p.log ++ entry ∷ [])))

abbrev pub renew_serving_online :
    OwnerControlPlane → P2pId → P2pId → Duration → Timestamp → OwnerControlPlane × P2pResult ℕ
renew_serving_online p leader serving ttl now =
    append_as_leader p leader (renew_serving_session (online_session serving ttl now)) now

abbrev pub mark_serving_offline :
    OwnerControlPlane → P2pId → P2pId → Timestamp → OwnerControlPlane × P2pResult ℕ
mark_serving_offline p leader serving now =
    append_as_leader p leader (revoke_serving_session serving) now

unfoldable pub is_serving_online : OwnerControlPlane → P2pId → Timestamp → Bool
is_serving_online p id now = elim (get id p.sessions) [ none ↦ false | some s ↦ is_online s now ]

unfoldable pub serving_online_expires_at : OwnerControlPlane → P2pId → Timestamp → Option Timestamp
serving_online_expires_at p id now = elim (get id p.sessions) [
  | none ↦ none
  | some s ↦ if is_online s now then some s.expires_at else none
]

unfoldable pub set_known_leader :
    OwnerControlPlane → P2pId → ℕ → OwnerControlPlane × P2pResult (Unit {0})
set_known_leader p leader term =
    if not (is_member p.membership leader)
    then (p, err P2pErrorCode.permission_denied)
    else (record p { current_term = max p.current_term term; leader_id = some leader }, ok tt)

unfoldable pub apply_committed_session_entry :
    OwnerControlPlane → P2pId → ℕ → OwnerSessionEntry → Timestamp → OwnerControlPlane × P2pResult ℕ
apply_committed_session_entry p leader term entry now =
    if not (is_member p.membership leader)
    then (p, err P2pErrorCode.permission_denied)
    else let q = record p { current_term = max p.current_term term; leader_id = some leader } in
      (commit q entry now, ok (length (p.log ++ entry ∷ [])))
