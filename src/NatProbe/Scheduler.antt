-- ===== src/NatProbe/Scheduler.antt =====
-- p2p-frame/src/sn/service/nat_probe_scheduler.rs: the registered peers of an SN and the probe that
-- each of them owes: expiry, results and directives. The reports are in NatProbe/Reports.
use bucky_p2p.Base.{
  ℕ, ◌+◌, ◌%◌, ◌^◌, max, Bool, true, false, not, ◌&&◌, ◌||◌, Option, none, some, List, [], ◌∷◌, map,
  ltb, leb, ◌==◌, ◌≟◌, Eq, ℕ_discrete, if◌then◌else◌, length, all, is_empty, countp, HashMap, get,
  insert, Timestamp, Duration, saturating_add, from_secs,
}
use bucky_p2p.Identity.{P2pId, id_eq}
use bucky_p2p.Net.{addr_eq}
use bucky_p2p.Endpoint.{Endpoint, tcp, protocol_eq}
use bucky_p2p.NatType.Prediction.{unknown, observation_eq}
use bucky_p2p.NatType.Profile.{NatProfile, is_fresh, duration_to_bucky_time}
use bucky_p2p.Directory.Membership.{sort_by}
use bucky_p2p.NatProbe.{
  NatProbeDirective, NatProbeResult, is_probe_count, nat_probe_control_version, result_is_supported,
}

abbrev pub nat_probe_period : Duration
nat_probe_period = from_secs 7200

abbrev pub nat_probe_directive_timeout : Duration
nat_probe_directive_timeout = from_secs 30

abbrev pub max_concurrent_nat_probes : ℕ
max_concurrent_nat_probes = 2048

-- The number that the command server gives to a command tunnel; it is only compared.
abbrev pub CmdTunnelId : Type 0
CmdTunnelId = ℕ

pub data NatProbeTriggerReason : Type 0 where
  online external_address : NatProbeTriggerReason

pub data NatProbeResultRejectReason : Type 0 where
  missing_authority capability_unsupported version_unsupported profile_stale :
      NatProbeResultRejectReason
  sn_mismatch peer_mismatch registration_generation_mismatch : NatProbeResultRejectReason
  config_generation_mismatch missing_in_flight request_mismatch : NatProbeResultRejectReason
  deadline_expired : NatProbeResultRejectReason

pub record InFlightProbe : Type 0 where
  pub request_id : ℕ
  pub expires_at : Timestamp

pub record PeerProbeState : Type 0 where
  pub authority_tunnel_id : CmdTunnelId
  pub remote_endpoint : Endpoint
  pub registration_generation : ℕ
  pub config_generation : ℕ
  pub in_flight : Option InFlightProbe
  pub next_periodic_at : Timestamp
  pub pending_trigger : Option NatProbeTriggerReason
  pub profile : Option NatProfile
  pub control_supported : Bool

-- `some none` takes the published profile back, `some (some p)` replaces it.
pub record ProbeTransition : Type 0 where
  pub directive : Option NatProbeDirective
  pub profile_update : Option (Option NatProfile)

abbrev pub no_transition : ProbeTransition
no_transition = record { directive = none; profile_update = none }

pub record NatProbeScheduler : Type 0 where
  pub sn_peer_id : P2pId
  pub ports : List ℕ
  pub config_generation : ℕ
  pub next_registration_generation : ℕ
  pub next_request_id : ℕ
  pub peers : HashMap P2pId PeerProbeState

abbrev pub new_scheduler : P2pId → NatProbeScheduler
new_scheduler sn = record {
  sn_peer_id = sn;
  ports = [];
  config_generation = 1;
  next_registration_generation = 1;
  next_request_id = 1;
  peers = [];
}

-- `wrapping_add(1).max(1)` on a `u64`.
abbrev pub next_generation : ℕ → ℕ
next_generation g = max ((g + 1) % 2 ^ 64) 1

abbrev pub differ : List ℕ → Bool
differ [] = true
differ (x ∷ []) = true
differ (x ∷ y ∷ ys) = not (x == y) && differ (y ∷ ys)

-- The ports of a configuration in order, or none when it is not valid.
unfoldable pub effective_ports : List ℕ → List ℕ
effective_ports ports =
    let sorted = sort_by ltb ports in
    if is_probe_count (length sorted) && all (λ port. not (port == 0)) sorted && differ sorted
    then sorted
    else []

instance abbrev pub ports_eq : Eq (List ℕ)
ports_eq = record { dec = hlevel ℕ_discrete }

-- The write of `set_ports` to every peer.
abbrev pub reconfigure : ℕ → HashMap P2pId PeerProbeState → HashMap P2pId PeerProbeState
reconfigure g [] = []
reconfigure g ((id, state) ∷ m) =
    (id, record state { config_generation = g; in_flight = none; profile = none }) ∷ reconfigure g m

-- The peers whose published profile is to be taken back come with the scheduler.
unfoldable pub set_ports : NatProbeScheduler → List ℕ → NatProbeScheduler × List P2pId
set_ports s ports =
    let effective = effective_ports ports in
    if effective ≟ s.ports
    then (s, [])
    else let g = next_generation s.config_generation in
      (
        record s { ports = effective; config_generation = g; peers = reconfigure g s.peers },
        map (λ x. x.0) s.peers,
      )

unfoldable pub set_sn_peer_id : NatProbeScheduler → P2pId → NatProbeScheduler
set_sn_peer_id s sn = if s.sn_peer_id ≟ sn then s else record s { sn_peer_id = sn; peers = [] }

abbrev pub is_udp : Endpoint → Bool
is_udp ep = not (ep.protocol ≟ tcp)

abbrev pub same_observed_path : Endpoint → Endpoint → Bool
same_observed_path registered reported =
    registered.protocol ≟ reported.protocol && registered.addr ≟ reported.addr

abbrev pub is_authoritative_report : PeerProbeState → CmdTunnelId → Endpoint → Bool
is_authoritative_report state tunnel remote =
    state.authority_tunnel_id == tunnel || same_observed_path state.remote_endpoint remote

abbrev pub is_late : Option InFlightProbe → Timestamp → Bool
is_late none now = false
is_late (some probe) now = ltb probe.expires_at now

abbrev pub next_period : Timestamp → Timestamp
next_period now = saturating_add now (duration_to_bucky_time nat_probe_period)

abbrev pub write_peer : NatProbeScheduler → P2pId → PeerProbeState → NatProbeScheduler
write_peer s id state = record s { peers = insert id state s.peers }

abbrev pub finish_known :
    NatProbeScheduler
    → P2pId
    → PeerProbeState
    → Timestamp
    → ProbeTransition
    → NatProbeScheduler × ProbeTransition
finish_known s id state now t =
    if is_late state.in_flight now
    then (
      write_peer s id (record state {
        in_flight = none;
        profile = none;
        pending_trigger = none;
        next_periodic_at = next_period now;
      }),
      record t { profile_update = some none },
    )
    else (s, t)

unfoldable pub finish_expired :
    NatProbeScheduler → P2pId → Timestamp → ProbeTransition → NatProbeScheduler × ProbeTransition
finish_expired s id now t = elim (get id s.peers) [
  | none ↦ (s, t)
  | some state ↦ finish_known s id state now t
]

-- The checks that need the probe in flight.
abbrev pub probe_rejection :
    Option InFlightProbe → NatProbeResult → Timestamp → Option NatProbeResultRejectReason
probe_rejection none result now = some missing_in_flight
probe_rejection (some probe) result now =
    if not (probe.request_id == result.request_id)
    then some request_mismatch
    else if ltb probe.expires_at now
    then some deadline_expired
    else none

unfoldable pub rejection :
    NatProbeScheduler
    → P2pId
    → PeerProbeState
    → NatProbeResult
    → Timestamp
    → Option NatProbeResultRejectReason
unfolding is_fresh
rejection s id state result now =
    if not state.control_supported
    then some capability_unsupported
    else if not (result_is_supported result)
    then some version_unsupported
    else if not (result.profile.observation ≟ unknown || is_fresh result.profile now)
    then some profile_stale
    else if not (result.sn_peer_id ≟ s.sn_peer_id)
    then some sn_mismatch
    else if not (result.peer_id ≟ id)
    then some peer_mismatch
    else if not (result.registration_generation == state.registration_generation)
    then some registration_generation_mismatch
    else if not (result.probe_config_generation == state.config_generation)
    then some config_generation_mismatch
    else probe_rejection state.in_flight result now

-- The profile that an accepted result publishes.
abbrev pub accepted_profile : NatProfile → Timestamp → Option NatProfile
accepted_profile profile now =
    if profile.observation ≟ unknown
    then none
    else some (record profile { valid_until = next_period now })

abbrev pub accept_known :
    NatProbeScheduler
    → P2pId
    → PeerProbeState
    → NatProbeResult
    → Timestamp
    → ProbeTransition
    → NatProbeScheduler × ProbeTransition
accept_known s id state result now t = (
  write_peer s id (record state {
    in_flight = none;
    pending_trigger = none;
    next_periodic_at = next_period now;
    profile = accepted_profile result.profile now;
  }),
  record t { profile_update = some (accepted_profile result.profile now) },
)

abbrev pub accept_checked :
    NatProbeScheduler
    → P2pId
    → PeerProbeState
    → NatProbeResult
    → Timestamp
    → ProbeTransition
    → NatProbeScheduler × ProbeTransition
accept_checked s id state result now t = elim (rejection s id state result now) [
  | some reason ↦ (s, t)
  | none ↦ accept_known s id state result now t
]

unfoldable pub accept_result :
    NatProbeScheduler
    → P2pId
    → NatProbeResult
    → Timestamp
    → ProbeTransition
    → NatProbeScheduler × ProbeTransition
accept_result s id result now t = elim (get id s.peers) [
  | none ↦ (s, t)
  | some state ↦ accept_checked s id state result now t
]

abbrev pub is_in_flight : P2pId × PeerProbeState → Bool
is_in_flight (id, state) = elim state.in_flight [ none ↦ false | some probe ↦ true ]

abbrev pub has_trigger : PeerProbeState → Bool
has_trigger state = elim state.pending_trigger [ none ↦ false | some trigger ↦ true ]

-- The checks before a directive is issued.
abbrev pub is_due : NatProbeScheduler → P2pId → PeerProbeState → Bool
is_due s id state =
    has_trigger state
    && not (is_empty s.ports)
    && state.control_supported
    && not (is_in_flight (id, state))
    && not (leb max_concurrent_nat_probes (countp is_in_flight s.peers))

abbrev pub deadline : Timestamp → Timestamp
deadline now = saturating_add now (duration_to_bucky_time nat_probe_directive_timeout)

abbrev pub directive_for :
    NatProbeScheduler → P2pId → PeerProbeState → Timestamp → NatProbeDirective
directive_for s id state now = record {
  version = nat_probe_control_version;
  sn_peer_id = s.sn_peer_id;
  peer_id = id;
  registration_generation = state.registration_generation;
  request_id = s.next_request_id;
  probe_config_generation = state.config_generation;
  expires_at = deadline now;
  ports = s.ports;
}

abbrev pub issue_known :
    NatProbeScheduler
    → P2pId
    → PeerProbeState
    → Timestamp
    → NatProbeScheduler × Option NatProbeDirective
issue_known s id state now =
    if is_due s id state
    then (
      record s {
        next_request_id = next_generation s.next_request_id;
        peers =
            insert id
              (record state {
                in_flight =
                    some (record { request_id = s.next_request_id; expires_at = deadline now });
                pending_trigger = none;
              })
              s.peers;
      },
      some (directive_for s id state now),
    )
    else (s, none)

unfoldable pub issue_if_due :
    NatProbeScheduler → P2pId → Timestamp → NatProbeScheduler × Option NatProbeDirective
issue_if_due s id now = elim (get id s.peers) [
  | none ↦ (s, none)
  | some state ↦ issue_known s id state now
]
