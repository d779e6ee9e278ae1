-- ===== src/NatProbe/Reports.antt =====
-- p2p-frame/src/sn/service/nat_probe_scheduler.rs: what the scheduler does on a report, a client
-- profile, a control message, the timer and a removal.
use bucky_p2p.Base.{
  ℕ, Bool, true, false, not, ◌&&◌, Option, none, some, List, [], ◌∷◌, map, ltb, ◌==◌, ◌≟◌,
  if◌then◌else◌, get, insert, remove, Timestamp,
}
use bucky_p2p.Identity.{P2pId, id_eq}
use bucky_p2p.Net.{addr_eq}
use bucky_p2p.Endpoint.{Endpoint}
use bucky_p2p.NatType.Profile.{NatProfile, is_fresh}
use bucky_p2p.NatProbe.{NatProbeResult, nat_probe_control_version}
use bucky_p2p.NatProbe.Scheduler.{
  NatProbeScheduler, PeerProbeState, ProbeTransition, CmdTunnelId, NatProbeTriggerReason, online,
  external_address, no_transition, next_generation, is_udp, is_authoritative_report, write_peer,
  finish_expired, accept_result, issue_if_due, next_period,
}

abbrev pub trigger_for : Option PeerProbeState → NatProbeTriggerReason
trigger_for none = online
trigger_for (some state) = external_address

abbrev pub profile_of : Option PeerProbeState → Option NatProfile
profile_of none = none
profile_of (some state) = state.profile

abbrev pub update_for : Option PeerProbeState → Option (Option NatProfile)
update_for none = some none
update_for (some state) = none

-- A new registration over the one before, if any: a known peer keeps its profile.
abbrev pub register :
    NatProbeScheduler
    → P2pId
    → Option PeerProbeState
    → CmdTunnelId
    → Endpoint
    → Bool
    → Timestamp
    → NatProbeScheduler × ProbeTransition
register s id previous tunnel remote supported now = (
  record s {
    next_registration_generation = next_generation s.next_registration_generation;
    peers =
        insert id
          (record {
            authority_tunnel_id = tunnel;
            remote_endpoint = remote;
            registration_generation = s.next_registration_generation;
            config_generation = s.config_generation;
            in_flight = none;
            next_periodic_at = now;
            pending_trigger = some (trigger_for previous);
            profile = profile_of previous;
            control_supported = supported;
          })
          s.peers;
  },
  record no_transition { profile_update = update_for previous },
)

-- A report over the registered address: only the capability can change.
abbrev pub observe_capability :
    NatProbeScheduler → P2pId → PeerProbeState → Bool → NatProbeScheduler × ProbeTransition
observe_capability s id state supported =
    if state.control_supported && not supported
    then (
      write_peer s id
          (record state { in_flight = none; profile = none; control_supported = supported }),
      record no_transition { profile_update = some none },
    )
    else (write_peer s id (record state { control_supported = supported }), no_transition)

unfoldable pub accept_given :
    Option NatProbeResult
    → NatProbeScheduler × ProbeTransition
    → P2pId
    → Timestamp
    → NatProbeScheduler × ProbeTransition
unfolding accept_result
accept_given none before id now = before
accept_given (some result) before id now = accept_result before.0 id result now before.1

-- What follows on a registration that is up to date: expiry, the result and the next directive.
unfoldable pub settle :
    NatProbeScheduler × ProbeTransition
    → P2pId
    → Option NatProbeResult
    → Timestamp
    → NatProbeScheduler × ProbeTransition
unfolding finish_expired issue_if_due
settle (s, t) id result now =
    let (s2, t2) = accept_given result (finish_expired s id now t) id now in
    let (s3, directive) = issue_if_due s2 id now in (s3, record t2 { directive = directive })

unfoldable pub remove_peer : NatProbeScheduler → P2pId → NatProbeScheduler × Bool
remove_peer s id = elim (get id s.peers) [
  | none ↦ (s, false)
  | some state ↦ (record s { peers = remove id s.peers }, true)
]

unfoldable pub observe_ineligible_report :
    NatProbeScheduler → P2pId → CmdTunnelId → NatProbeScheduler × ProbeTransition
observe_ineligible_report s id tunnel = elim (get id s.peers) [
  | none ↦ (s, no_transition)
  | some state ↦
      if state.authority_tunnel_id == tunnel
      then (
        record s { peers = remove id s.peers },
        record { directive = none; profile_update = some none },
      )
      else (s, no_transition)
]

-- The registration that a capable report leaves.
abbrev pub observe_registration :
    NatProbeScheduler
    → P2pId
    → PeerProbeState
    → CmdTunnelId
    → Endpoint
    → Bool
    → Timestamp
    → NatProbeScheduler × ProbeTransition
observe_registration s id state tunnel remote supported now =
    if not (state.remote_endpoint.addr ≟ remote.addr)
    then register s id (some state) tunnel remote supported now
    else observe_capability s id state supported

abbrev pub is_control_version : Option ℕ → Bool
is_control_version none = false
is_control_version (some version) = version == nat_probe_control_version

unfoldable pub observe_known :
    NatProbeScheduler
    → P2pId
    → PeerProbeState
    → CmdTunnelId
    → Endpoint
    → Bool
    → Option NatProbeResult
    → Timestamp
    → NatProbeScheduler × ProbeTransition
unfolding settle
observe_known s id state tunnel remote supported result now =
    if not (is_authoritative_report state tunnel remote)
    then (s, no_transition)
    else settle (observe_registration s id state tunnel remote supported now) id result now

unfoldable pub observe_capable_report :
    NatProbeScheduler
    → P2pId
    → CmdTunnelId
    → Endpoint
    → Option ℕ
    → Option NatProbeResult
    → Timestamp
    → NatProbeScheduler × ProbeTransition
unfolding observe_ineligible_report settle
observe_capable_report s id tunnel remote control_version result now =
    if not (is_udp remote) then observe_ineligible_report s id tunnel else elim (get id s.peers) [
      | none ↦
          settle (register s id none tunnel remote (is_control_version control_version) now) id
            result now
      | some state ↦
          observe_known s id state tunnel remote (is_control_version control_version) result now
    ]

unfoldable pub fresh_and_newer : Option NatProfile → NatProfile → Timestamp → Bool
unfolding is_fresh
fresh_and_newer none profile now = false
fresh_and_newer (some current) profile now =
    is_fresh current now && ltb profile.observed_at current.observed_at

unfoldable pub report_profile :
    NatProbeScheduler
    → P2pId
    → PeerProbeState
    → CmdTunnelId
    → Endpoint
    → NatProfile
    → Timestamp
    → NatProbeScheduler × ProbeTransition
unfolding is_fresh
report_profile s id state tunnel remote profile now =
    if not (is_udp remote)
    then (s, no_transition)
    else if not (is_authoritative_report state tunnel remote)
    then (s, no_transition)
    else if not (is_fresh profile now)
    then (s, no_transition)
    else if fresh_and_newer state.profile profile now
    then (s, no_transition)
    else (
      write_peer s id (record state { profile = some profile; next_periodic_at = next_period now }),
      record no_transition { profile_update = some (some profile) },
    )

unfoldable pub observe_reported_profile :
    NatProbeScheduler
    → P2pId
    → CmdTunnelId
    → Endpoint
    → NatProfile
    → Timestamp
    → NatProbeScheduler × ProbeTransition
observe_reported_profile s id tunnel remote profile now = elim (get id s.peers) [
  | none ↦ (s, no_transition)
  | some state ↦ report_profile s id state tunnel remote profile now
]

abbrev pub control_known :
    NatProbeScheduler
    → P2pId
    → PeerProbeState
    → CmdTunnelId
    → Endpoint
    → Timestamp
    → NatProbeScheduler × ProbeTransition
control_known s id state tunnel remote now =
    if not (state.remote_endpoint.addr ≟ remote.addr)
    then register s id (some state) tunnel remote state.control_supported now
    else (s, no_transition)

unfoldable pub finish_transition :
    NatProbeScheduler × ProbeTransition → P2pId → Timestamp → NatProbeScheduler × ProbeTransition
unfolding finish_expired
finish_transition (s, t) id now = finish_expired s id now t

unfoldable pub observe_control :
    NatProbeScheduler
    → P2pId
    → CmdTunnelId
    → Endpoint
    → Timestamp
    → NatProbeScheduler × ProbeTransition
unfolding observe_ineligible_report
observe_control s id tunnel remote now =
    if not (is_udp remote) then observe_ineligible_report s id tunnel else elim (get id s.peers) [
      | none ↦ finish_transition (register s id none tunnel remote false now) id now
      | some state ↦
          if not (is_authoritative_report state tunnel remote)
          then (s, no_transition)
          else finish_transition (control_known s id state tunnel remote now) id now
    ]

abbrev changed : ProbeTransition → Bool
changed t = elim t.profile_update [ none ↦ false | some update ↦ true ]

unfoldable pub expire_each :
    NatProbeScheduler → List P2pId → Timestamp → NatProbeScheduler × List P2pId
unfolding finish_expired
expire_each s [] now = (s, [])
expire_each s (id ∷ ids) now =
    let (s2, t) = finish_expired s id now no_transition in
    let (s3, rest) = expire_each s2 ids now in (s3, if changed t then id ∷ rest else rest)

-- The peers whose directive timed out come with the scheduler.
unfoldable pub expire_due : NatProbeScheduler → Timestamp → NatProbeScheduler × List P2pId
expire_due s now = expire_each s (map (λ x. x.0) s.peers) now

unfoldable pub only_fresh : Option NatProfile → Timestamp → Option NatProfile
unfolding is_fresh
only_fresh none now = none
only_fresh (some p) now = if is_fresh p now then some p else none

abbrev pub current_profile : NatProbeScheduler → P2pId → Timestamp → Option NatProfile
current_profile s id now = only_fresh (profile_of (get id s.peers)) now

abbrev pub tunnel_of : Option PeerProbeState → Option CmdTunnelId
tunnel_of none = none
tunnel_of (some state) = some state.authority_tunnel_id

abbrev pub endpoint_of : Option PeerProbeState → Option Endpoint
endpoint_of none = none
endpoint_of (some state) = some state.remote_endpoint

abbrev pub registration_of : Option PeerProbeState → Option (CmdTunnelId × ℕ)
registration_of none = none
registration_of (some state) = some (state.authority_tunnel_id, state.registration_generation)

abbrev pub authority_tunnel : NatProbeScheduler → P2pId → Option CmdTunnelId
authority_tunnel s id = tunnel_of (get id s.peers)

abbrev pub authority_observed_endpoint : NatProbeScheduler → P2pId → Option Endpoint
authority_observed_endpoint s id = endpoint_of (get id s.peers)

abbrev pub authority_registration : NatProbeScheduler → P2pId → Option (CmdTunnelId × ℕ)
authority_registration s id = registration_of (get id s.peers)

abbrev pub authorities : NatProbeScheduler → List (P2pId × CmdTunnelId)
authorities s = map (λ x. (x.0, x.1.authority_tunnel_id)) s.peers

abbrev pub matches_snapshot : Option PeerProbeState → CmdTunnelId → ℕ → Bool
matches_snapshot none tunnel generation = false
matches_snapshot (some state) tunnel generation =
    state.authority_tunnel_id == tunnel && state.registration_generation == generation

unfoldable pub remove_peer_if_authority :
    NatProbeScheduler → P2pId → CmdTunnelId → ℕ → NatProbeScheduler × Bool
unfolding remove_peer
remove_peer_if_authority s id tunnel generation =
    if not (matches_snapshot (get id s.peers) tunnel generation)
    then (s, false)
    else remove_peer s id
