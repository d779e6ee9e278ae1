-- ===== src/Directory/Membership.antt =====
-- p2p-frame/src/sn/directory/membership.rs: leases, the owner members, the choice of the owners of a
-- peer and the health of the members. The score of a peer and a member is a parameter: it is computed
-- by the hasher of the standard library.
pub mod Laws
use bucky_p2p.Base.{
  ℕ, ◌+◌, ◌/◌, min, max, ◌≡◌, Bool, true, false, not, ◌&&◌, ◌||◌, Option, none, some, List, [], ◌∷◌,
  map, ltb, ◌==◌, ◌≟◌, if◌then◌else◌, length, take, keep, is_empty, HashMap, get, insert, ok, err,
  P2pResult, P2pErrorCode, Timestamp, Duration, from_secs, from_micros, as_micros, saturating_add,
  u64_max,
}
use bucky_p2p.Identity.{P2pId, id_eq, id_lt}
use bucky_p2p.Endpoint.{Endpoint}
use Prim.Native.String.{String}

abbrev pub default_owner_count : ℕ
default_owner_count = 1

abbrev pub default_lease_ttl : Duration
default_lease_ttl = from_secs 300

abbrev pub default_owner_member_health_ttl : Duration
default_owner_member_health_ttl = from_secs 60

-- `duration_to_bucky_time` and `bucky_time_to_duration`.
abbrev pub to_bucky_time : Duration → Timestamp
to_bucky_time d = min (as_micros d) u64_max

abbrev pub of_bucky_time : Timestamp → Duration
of_bucky_time delta = from_micros (max delta 1)

pub record ServingLease : Type 0 where
  pub peer_id : P2pId
  pub serving_sn_id : P2pId
  pub sequence : ℕ
  pub expires_at : Timestamp

abbrev pub new_lease : P2pId → P2pId → ℕ → Duration → Timestamp → ServingLease
new_lease peer serving sequence ttl now = record {
  peer_id = peer;
  serving_sn_id = serving;
  sequence = sequence;
  expires_at = saturating_add now (to_bucky_time ttl);
}

abbrev pub lease_is_fresh : ServingLease → Timestamp → Bool
lease_is_fresh lease now = ltb now lease.expires_at

pub record OwnerMember : Type 0 where
  pub sn_id : P2pId
  pub endpoints : List Endpoint
  pub name : Option String

pub record OwnerMembership : Type 0 where
  pub members : List OwnerMember
  pub owner_count : ℕ
  pub lease_ttl : Duration
  pub member_health_ttl : Duration

-- `sort_by` of the standard library is stable, as this insertion sort is.
unfoldable pub insert_sorted {ℓ} : {A : Type ℓ} → (A → A → Bool) → A → List A → List A
insert_sorted before x [] = x ∷ []
insert_sorted before x (y ∷ ys) =
    let rest = insert_sorted before x ys in if before y x then y ∷ rest else x ∷ y ∷ ys

unfoldable pub sort_by {ℓ} : {A : Type ℓ} → (A → A → Bool) → List A → List A
unfolding insert_sorted
sort_by before [] = []
sort_by before (x ∷ xs) = insert_sorted before x (sort_by before xs)

-- `dedup_by`: of a run of members with one id the first stays.
unfoldable pub dedup_after : OwnerMember → List OwnerMember → List OwnerMember
dedup_after kept [] = []
dedup_after kept (m ∷ ms) =
    let dropped = dedup_after kept ms in
    let next = dedup_after m ms in if m.sn_id ≟ kept.sn_id then dropped else m ∷ next

unfoldable pub dedup : List OwnerMember → List OwnerMember
unfolding dedup_after
dedup [] = []
dedup (m ∷ ms) = m ∷ dedup_after m ms

abbrev pub member_lt : OwnerMember → OwnerMember → Bool
member_lt a b = id_lt a.sn_id b.sn_id

unfoldable pub with_members : List OwnerMember → ℕ → Duration → P2pResult OwnerMembership
unfolding dedup sort_by
with_members members owner_count lease_ttl =
    let sorted = dedup (sort_by member_lt members) in
    if is_empty sorted
    then err P2pErrorCode.invalid_param
    else ok (record {
      members = sorted;
      owner_count = max owner_count 1;
      lease_ttl = lease_ttl;
      member_health_ttl = min lease_ttl default_owner_member_health_ttl;
    })

abbrev pub bare_member : P2pId → OwnerMember
bare_member id = record { sn_id = id; endpoints = []; name = none }

abbrev pub with_options : List P2pId → ℕ → Duration → P2pResult OwnerMembership
with_options ids owner_count lease_ttl = with_members (map bare_member ids) owner_count lease_ttl

abbrev pub membership_of : List P2pId → P2pResult OwnerMembership
membership_of ids = with_options ids default_owner_count default_lease_ttl

unfoldable pub find_member : P2pId → List OwnerMember → Option OwnerMember
find_member id [] = none
find_member id (m ∷ ms) = if m.sn_id ≟ id then some m else find_member id ms

abbrev pub is_some {ℓ} : {A : Type ℓ} → Option A → Bool
is_some none = false
is_some (some a) = true

-- `membership.member(id).is_some()`.
abbrev pub is_member : OwnerMembership → P2pId → Bool
is_member membership id = is_some (find_member id membership.members)

pub record OwnerMemberHealth : Type 0 where
  pub ttl : Duration
  pub fresh_until : HashMap P2pId Timestamp

abbrev pub new_health : Duration → OwnerMemberHealth
new_health ttl = record { ttl = ttl; fresh_until = [] }

unfoldable pub refresh_at : OwnerMemberHealth → P2pId → Timestamp → OwnerMemberHealth
refresh_at h id now = record h {
  fresh_until = insert id (saturating_add now (to_bucky_time h.ttl)) h.fresh_until;
}

unfoldable pub health_with_members : List OwnerMember → Duration → Timestamp → OwnerMemberHealth
unfolding refresh_at
health_with_members members ttl now = refresh_all (new_health ttl) members now
  where
    refresh_all : OwnerMemberHealth → List OwnerMember → Timestamp → OwnerMemberHealth
    refresh_all h [] now = h
    refresh_all h (m ∷ ms) now = refresh_all (refresh_at h m.sn_id now) ms now

unfoldable pub member_is_fresh : OwnerMemberHealth → P2pId → Timestamp → Bool
member_is_fresh h id now = elim (get id h.fresh_until) [
  | none ↦ false
  | some fresh_until ↦ ltb now fresh_until
]

module _ (owner_score : P2pId → P2pId → ℕ) where
  abbrev pub scored : P2pId → List OwnerMember → List (ℕ × P2pId)
  scored peer members = map (λ (m : OwnerMember). (owner_score peer m.sn_id, m.sn_id)) members

  -- Higher scores first, then smaller ids.
  abbrev pub score_before : ℕ × P2pId → ℕ × P2pId → Bool
  score_before (s, a) (t, b) = ltb t s || (s == t && id_lt a b)

  unfoldable pub static_owner_set : OwnerMembership → P2pId → List P2pId
  unfolding sort_by
  static_owner_set membership peer =
      map (λ (x : ℕ × P2pId). x.1)
        (take (min membership.owner_count (length membership.members))
          (sort_by score_before (scored peer membership.members)))

  abbrev pub is_usable_owner : Option OwnerMemberHealth → P2pId → Timestamp → P2pId → Bool
  is_usable_owner none local now member = true
  is_usable_owner (some h) local now member = member ≟ local || member_is_fresh h member now

  unfoldable pub owner_set_at :
      Option OwnerMembership → P2pId → P2pId → Option OwnerMemberHealth → Timestamp → List P2pId
  owner_set_at none peer local health now = local ∷ []
  owner_set_at (some membership) peer local health now =
      keep (is_usable_owner health local now) (static_owner_set membership peer)
