-- ===== src/NatType/Freshness.antt =====
-- How long a profile of observations counts, and for what (NatType/Profile).
use bucky_p2p.Base.{
  ◌+◌, ◌≤◌, ◌<◌, ◌≡◌, ◌≢◌, some, List, [], ◌∷◌, arith, leb, ◌≟◌, if◌then◌else◌, length, All, all,
  u16_max, u64_max, Timestamp, Duration, as_micros,
}
use bucky_p2p.Net.{addr_eq}
use bucky_p2p.Endpoint.{Endpoint}
use bucky_p2p.NatType.Prediction.{
  NatMappingObservation, unknown, non_symmetric_like, symmetric_like, NatPredictionHint,
  hint_from_observations,
}
use bucky_p2p.NatType.Profile.{NatProfile, from_observations, mapping_at, usable_prediction_hint}
use bucky_p2p.NatType.Hints.{HasPort, hint_from_observations-usable}

-- A profile counts at most between its two times, and only with the version that this code knows:
-- outside of them, or in any other version, it is read as unknown and gives no hint.
pub mapping_at-known :
    (p : NatProfile) (now : Timestamp)
    → mapping_at p now ≢ unknown
    → (mapping_at p now ≡ p.observation)
      × (p.version ≡ 1)
      × (p.observed_at ≤ now)
      × (now ≤ p.valid_until)
unfolding mapping_at
mapping_at-known p now h = ground arith

-- The kind that the observations show: all at one address, or not.
abbrev pub kind_of : List Endpoint → NatMappingObservation
kind_of [] = unknown
kind_of (a ∷ rest) =
    if all (λ e. e.addr ≟ a.addr) (a ∷ rest) then non_symmetric_like else symmetric_like

-- From 2 to 65535 observations make a profile that is read as what they show from the time of
-- observation until the time to live has passed, and as unknown before and after.
pub mapping_at-from_observations :
    (obs : List Endpoint) (at : Timestamp) (ttl : Duration) (now : Timestamp)
    → 2 ≤ length obs
    → length obs ≤ u16_max
    → 0 < ttl
    → at + as_micros ttl ≤ u64_max
    → mapping_at (from_observations obs at ttl) now ≡ (
        if leb at now
        then (if leb now (at + as_micros ttl) then kind_of obs else unknown)
        else unknown)
unfolding mapping_at from_observations
mapping_at-from_observations [] at ttl now h2 hn ht hm = absurd (omega arith)
mapping_at-from_observations (a ∷ rest) at ttl now h2 hn ht hm = ground arith

symmetric_parts :
    (obs : List Endpoint) (at : Timestamp) (ttl : Duration) (now : Timestamp)
    → mapping_at (from_observations obs at ttl) now ≡ symmetric_like
    → ((from_observations obs at ttl).prediction_hint ≡ hint_from_observations obs)
      × (length obs ≤ u16_max)
unfolding mapping_at from_observations
symmetric_parts [] at ttl now m = ground arith
symmetric_parts (a ∷ rest) at ttl now m = ground arith

-- While such a profile is fresh, each hint that the observations give can be used by the peer.
pub usable_prediction_hint-from_observations :
    (obs : List Endpoint) (at : Timestamp) (ttl : Duration) (now : Timestamp)
    (h : NatPredictionHint)
    → All HasPort obs
    → mapping_at (from_observations obs at ttl) now ≡ symmetric_like
    → hint_from_observations obs ≡ some h
    → usable_prediction_hint (from_observations obs at ttl) now ≡ some h
unfolding usable_prediction_hint
usable_prediction_hint-from_observations obs at ttl now h ports m e =
    let (kept, short) = symmetric_parts obs at ttl now m in
    let usable = hint_from_observations-usable obs h ports short e in ground (arith, kept, usable)
