-- ===== src/Directory/ControlPlane/Sessions.antt =====
-- p2p-frame/src/sn/directory/control_plane.rs: when a serving node counts as online, after the
-- commits that renew and revoke its session.
use bucky_p2p.Base.{
  ℕ, ◌<◌, ◌≤◌, ◌≡◌, ◌≢◌, refl, Bool, true, false, Option, none, some, get, get-insert, ok,
  Timestamp, Duration, saturating_add, arith, HashMap,
}
use bucky_p2p.Identity.{P2pId, id_eq}
use bucky_p2p.Directory.Membership.{to_bucky_time}
use bucky_p2p.Directory.ControlPlane.{
  OwnerControlPlane, ServingSnSession, offline, revoke_serving_session, append_as_leader,
  apply_entry, online_session, is_online, is_serving_online, renew_serving_online,
  mark_serving_offline,
}

-- A renewal that the control plane accepts keeps the serving node online until the end of the
-- requested time.
pub renew_serving_online-is_serving_online :
    (p : OwnerControlPlane) (leader_id id : P2pId) (ttl : Duration) (now t index : ℕ)
    → (renew_serving_online p leader_id id ttl now).1 ≡ ok index
    → t < saturating_add now (to_bucky_time ttl)
    → is_serving_online (renew_serving_online p leader_id id ttl now).0 id t ≡ true
unfolding append_as_leader apply_entry is_serving_online
renew_serving_online-is_serving_online p leader_id id ttl now t index done lt =
    ground (arith, get-insert id id (online_session id ttl now) p.sessions)

-- A renewal never ends a session early: a node that is online at some time stays so, whoever is
-- renewed.
pub renew_serving_online_keeps :
    (p : OwnerControlPlane) (leader_id id other : P2pId) (ttl : Duration) (now t : ℕ)
    → is_serving_online p other t ≡ true
    → is_serving_online (renew_serving_online p leader_id id ttl now).0 other t ≡ true
unfolding append_as_leader apply_entry is_serving_online
renew_serving_online_keeps p leader_id id other ttl now t on =
    ground (arith, get-insert id other (online_session id ttl now) p.sessions)

abbrev online_at : Option ServingSnSession → Timestamp → Bool
online_at none t = false
online_at (some s) t = is_online s t

abbrev offline_at : ServingSnSession → Timestamp → ServingSnSession
offline_at s now = record s { state = offline; expires_at = now }

apply_entry-revoked :
    (sessions : HashMap P2pId ServingSnSession) (id : P2pId) (now t : ℕ)
    (found : Option ServingSnSession)
    → get id sessions ≡ found
    → now ≤ t
    → online_at (get id (apply_entry sessions (revoke_serving_session id) now)) t ≡ false
unfolding apply_entry
apply_entry-revoked sessions id now t none g le = ground arith
apply_entry-revoked sessions id now t (some s) g le =
    ground (arith, get-insert id id (offline_at s now) sessions)

apply_entry-revoked_other :
    (sessions : HashMap P2pId ServingSnSession) (id other : P2pId) (now : ℕ)
    (found : Option ServingSnSession)
    → get id sessions ≡ found
    → id ≢ other
    → get other (apply_entry sessions (revoke_serving_session id) now) ≡ get other sessions
unfolding apply_entry
apply_entry-revoked_other sessions id other now none g differs = ground arith
apply_entry-revoked_other sessions id other now (some s) g differs =
    ground (arith, get-insert id other (offline_at s now) sessions)

-- A revocation that the control plane accepts takes the serving node offline from its time on.
pub mark_serving_offline-is_serving_online :
    (p : OwnerControlPlane) (leader_id id : P2pId) (now t index : ℕ)
    → (mark_serving_offline p leader_id id now).1 ≡ ok index
    → now ≤ t
    → is_serving_online (mark_serving_offline p leader_id id now).0 id t ≡ false
unfolding append_as_leader is_serving_online
mark_serving_offline-is_serving_online p leader_id id now t index done le =
    ground (arith, apply_entry-revoked p.sessions id now t (get id p.sessions) refl le)

-- A revocation changes nothing for the other serving nodes.
pub mark_serving_offline_others :
    (p : OwnerControlPlane) (leader_id id other : P2pId) (now t : ℕ)
    → id ≢ other
    → is_serving_online (mark_serving_offline p leader_id id now).0 other t
      ≡ is_serving_online p other t
unfolding append_as_leader is_serving_online
mark_serving_offline_others p leader_id id other now t differs =
    ground
      (arith, apply_entry-revoked_other p.sessions id other now (get id p.sessions) refl differs)
