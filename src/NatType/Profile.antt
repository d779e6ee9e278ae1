-- ===== src/NatType/Profile.antt =====
-- p2p-frame/src/nat_type.rs: the profile of a NAT and the context of one tunnel attempt.
use bucky_p2p.Base.{
  ℕ, min, Bool, not, ◌&&◌, ◌||◌, Option, none, some, List, [], ◌∷◌, ltb, leb, ◌==◌, ◌≟◌,
  if◌then◌else◌, length, all, u16_max, u64_max, Timestamp, Duration, as_micros, saturating_add,
}
use bucky_p2p.Net.{addr_eq}
use bucky_p2p.Identity.{P2pId, id_eq}
use bucky_p2p.Endpoint.{Endpoint}
use bucky_p2p.NatType.Prediction.{
  NatMappingObservation, unknown, non_symmetric_like, symmetric_like, NatPredictionHint,
  observation_eq, hint_from_observations, is_usable_with,
}

abbrev pub nat_profile_version : ℕ
nat_profile_version = 1

abbrev pub nat_traversal_context_version : ℕ
nat_traversal_context_version = 1

pub record NatProfile : Type 0 where
  pub version : ℕ
  pub observation : NatMappingObservation
  pub observed_at : Timestamp
  pub valid_until : Timestamp
  pub prediction_hint : Option NatPredictionHint

-- `NatProfile::unknown`, the default.
abbrev pub unknown_profile : NatProfile
unknown_profile = record {
  version = nat_profile_version;
  observation = unknown;
  observed_at = 0;
  valid_until = 0;
  prediction_hint = none;
}

abbrev pub duration_to_bucky_time : Duration → Timestamp
duration_to_bucky_time d = min (as_micros d) u64_max

-- The profile of a non-empty list of observations.
abbrev pub classified : Endpoint → List Endpoint → Timestamp → Timestamp → NatProfile
classified a rest observed_at valid_until =
    if all (λ e. e.addr ≟ a.addr) (a ∷ rest)
    then record {
      version = nat_profile_version;
      observation = non_symmetric_like;
      observed_at = observed_at;
      valid_until = valid_until;
      prediction_hint = none;
    }
    else record {
      version = nat_profile_version;
      observation = symmetric_like;
      observed_at = observed_at;
      valid_until = valid_until;
      prediction_hint = hint_from_observations (a ∷ rest);
    }

-- `NatProfile::from_observations`.
unfoldable pub from_observations : List Endpoint → Timestamp → Duration → NatProfile
from_observations [] observed_at ttl = unknown_profile
from_observations (a ∷ rest) observed_at ttl =
    if ltb (length (a ∷ rest)) 2 || ltb u16_max (length (a ∷ rest)) || ttl == 0
    then unknown_profile
    else classified a rest observed_at (saturating_add observed_at (duration_to_bucky_time ttl))

abbrev pub is_supported : NatProfile → Bool
is_supported p = p.version == nat_profile_version

unfoldable pub is_fresh : NatProfile → Timestamp → Bool
is_fresh p now =
    is_supported p
    && not (p.observation ≟ unknown)
    && leb p.observed_at p.valid_until
    && leb p.observed_at now
    && leb now p.valid_until

unfoldable pub mapping_at : NatProfile → Timestamp → NatMappingObservation
unfolding is_fresh
mapping_at p now = if is_fresh p now then p.observation else unknown

abbrev filter_usable : Option NatPredictionHint → Option NatPredictionHint
filter_usable none = none
filter_usable (some h) = if is_usable_with h h.last_observed then some h else none

unfoldable pub usable_prediction_hint : NatProfile → Timestamp → Option NatPredictionHint
usable_prediction_hint p now =
    if not (mapping_at p now ≟ symmetric_like) then none else filter_usable p.prediction_hint

pub record NatTraversalContext : Type 0 where
  pub version : ℕ
  pub caller_peer_id : P2pId
  pub callee_peer_id : P2pId
  pub caller_profile : NatProfile
  pub callee_profile : NatProfile

abbrev pub context_is_supported : NatTraversalContext → Bool
context_is_supported c = c.version == nat_traversal_context_version

unfoldable pub is_valid_for : NatTraversalContext → P2pId → P2pId → Timestamp → Bool
unfolding is_fresh
is_valid_for c caller callee now =
    context_is_supported c
    && c.caller_peer_id ≟ caller
    && c.callee_peer_id ≟ callee
    && not (c.caller_peer_id ≟ c.callee_peer_id)
    && is_fresh c.caller_profile now
    && is_fresh c.callee_profile now
