-- ===== src/NatProbe.antt =====
-- p2p-frame/src/sn/protocol/sn.rs: the directive by which an SN asks a peer to probe its NAT, and the
-- result that answers it. The scheduler of the directives is in the children.
pub mod Scheduler
pub mod Reports
pub mod Ports
pub mod Limits
pub mod Kept
pub mod Invariant
pub mod Results
pub mod Others
pub mod Waiting
pub mod Published
pub mod Directives
pub mod Answers
pub mod Asked
use bucky_p2p.Base.{
  ℕ, ◌≡◌, Bool, true, false, ◌&&◌, not, Option, none, some, List, [], ◌∷◌, leb, ◌==◌, ◌≟◌, Eq,
  ℕ_discrete, if◌then◌else◌, length, all, contains, Timestamp,
}
use bucky_p2p.Identity.{P2pId}
use bucky_p2p.NatType.Profile.{NatProfile, NatTraversalContext, is_supported, context_is_supported}

abbrev pub max_nat_probe_endpoints : ℕ
max_nat_probe_endpoints = 8

abbrev pub nat_probe_control_version : ℕ
nat_probe_control_version = 1

instance abbrev pub number_eq : Eq ℕ
number_eq = record { dec = ℕ_discrete }

-- Collecting into a `HashSet`.
abbrev pub collect_set : List ℕ → List ℕ
collect_set [] = []
collect_set (x ∷ xs) = let rest = collect_set xs in if contains x rest then rest else x ∷ rest

abbrev pub is_probe_count : ℕ → Bool
is_probe_count n = leb 2 n && leb n max_nat_probe_endpoints

abbrev pub supported_nat_probe_ports : List ℕ → Bool
supported_nat_probe_ports ports =
    is_probe_count (length ports)
    && all (λ port. not (port == 0)) ports
    && length (collect_set ports) == length ports

abbrev pub supported_nat_profile : Option NatProfile → Option NatProfile
supported_nat_profile none = none
supported_nat_profile (some p) = if is_supported p then some p else none

pub record NatProbeDirective : Type 0 where
  pub version : ℕ
  pub sn_peer_id : P2pId
  pub peer_id : P2pId
  pub registration_generation : ℕ
  pub request_id : ℕ
  pub probe_config_generation : ℕ
  pub expires_at : Timestamp
  pub ports : List ℕ

abbrev pub directive_is_supported : NatProbeDirective → Bool
directive_is_supported d =
    d.version == nat_probe_control_version && supported_nat_probe_ports d.ports

pub record NatProbeResult : Type 0 where
  pub version : ℕ
  pub sn_peer_id : P2pId
  pub peer_id : P2pId
  pub registration_generation : ℕ
  pub request_id : ℕ
  pub probe_config_generation : ℕ
  pub profile : NatProfile

abbrev pub from_directive : NatProbeDirective → NatProfile → NatProbeResult
from_directive directive profile = record {
  version = directive.version;
  sn_peer_id = directive.sn_peer_id;
  peer_id = directive.peer_id;
  registration_generation = directive.registration_generation;
  request_id = directive.request_id;
  probe_config_generation = directive.probe_config_generation;
  profile = profile;
}

abbrev pub result_is_supported : NatProbeResult → Bool
result_is_supported r = r.version == nat_probe_control_version && is_supported r.profile

-- The source compares the version and both profiles.
abbrev pub supported_nat_context : Option NatTraversalContext → Option NatTraversalContext
supported_nat_context none = none
supported_nat_context (some c) =
    if context_is_supported c && is_supported c.caller_profile && is_supported c.callee_profile
    then some c
    else none
