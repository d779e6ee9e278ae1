-- ===== src/NatProbe/Kept.antt =====
-- The limits of the probe scheduler (NatProbe/Limits), kept by reports with their results and directives.
use bucky_p2p.Base.{
  ℕ, ◌≡◌, inl, inr, refl, Bool, Option, none, some, List, arith, All-get, All-insert,
  countp-insert-le, get, Timestamp, Option-cases, Bool-cases,
}
use bucky_p2p.Base.MapTotals.{NodupKeys-insert}
use bucky_p2p.Identity.{P2pId, id_eq}
use bucky_p2p.Endpoint.{Endpoint}
use bucky_p2p.NatProbe.{NatProbeResult}
use bucky_p2p.NatProbe.Scheduler.{
  NatProbeScheduler, PeerProbeState, ProbeTransition, CmdTunnelId, set_ports, effective_ports,
  next_generation, finish_expired, next_period, is_udp, is_due, is_in_flight, deadline, rejection,
  accept_known, accept_checked, accept_result, issue_known, issue_if_due, is_authoritative_report,
}
use bucky_p2p.NatProbe.Reports.{
  settle, accept_given, register, observe_registration, observe_known, observe_ineligible_report,
  is_control_version, observe_capable_report,
}
use bucky_p2p.NatProbe.Ports.{effective_ports-supported}
use bucky_p2p.NatProbe.Limits.{
  IsPeer, IsScheduler, reconfigure-IsScheduler, insert-IsScheduler, update-IsScheduler,
  remove-IsScheduler,
}

pub set_ports-IsScheduler :
    (s : NatProbeScheduler) (ports : List ℕ) → IsScheduler s → IsScheduler (set_ports s ports).0
unfolding set_ports
set_ports-IsScheduler s ports v = ground (
  arith,
  reconfigure-IsScheduler s (next_generation s.config_generation) (effective_ports ports) v
      (effective_ports-supported ports),
)

pub finish_expired-IsScheduler :
    (s : NatProbeScheduler) (id : P2pId) (now : Timestamp) (t : ProbeTransition)
    → IsScheduler s
    → IsScheduler (finish_expired s id now t).0
unfolding finish_expired
finish_expired-IsScheduler s id now t v = elim (Option-cases (get id s.peers)) [
  | inl e ↦ rw (e, finish_expired) v
  | inr (state, e) ↦
      let known = All-get (IsPeer s) id state s.peers v.peers_ok e in
      rw (e, finish_expired)
        (ground (
          arith,
          insert-IsScheduler s id
              (record state {
                in_flight = none;
                profile = none;
                pending_trigger = none;
                next_periodic_at = next_period now;
              })
              v,
        ))
]

accept_known-IsScheduler :
    (s : NatProbeScheduler) (id : P2pId) (state : PeerProbeState) (result : NatProbeResult)
    (now : Timestamp) (t : ProbeTransition)
    → IsScheduler s
    → IsPeer s (id, state)
    → IsScheduler (accept_known s id state result now t).0
accept_known-IsScheduler s id state result now t v k =
    insert-IsScheduler s id _ v (ground arith) refl

accept_result-IsScheduler :
    (s : NatProbeScheduler) (id : P2pId) (result : NatProbeResult) (now : Timestamp)
    (t : ProbeTransition)
    → IsScheduler s
    → IsScheduler (accept_result s id result now t).0
unfolding accept_result
accept_result-IsScheduler s id result now t v = elim (Option-cases (get id s.peers)) [
  | inl e ↦ rw (e, accept_result) v
  | inr (state, e) ↦
      let known = All-get (IsPeer s) id state s.peers v.peers_ok e in
      rw (e, accept_result)
        (elim (Option-cases (rejection s id state result now)) [
          | inl q ↦
              rw (q, accept_checked) (accept_known-IsScheduler s id state result now t v known)
          | inr (reason, q) ↦ rw (q, accept_checked) v
        ])
]

issue_known-IsScheduler :
    (s : NatProbeScheduler) (id : P2pId) (state : PeerProbeState) (now : Timestamp)
    → IsScheduler s
    → IsPeer s (id, state)
    → IsScheduler (issue_known s id state now).0
issue_known-IsScheduler s id state now v k = elim (Bool-cases (is_due s id state)) [
  | inl due ↦ rw due (record {
    unique = NodupKeys-insert id issued s.peers v.unique;
    peers_ok = All-insert (IsPeer s) id issued s.peers (ground arith) v.peers_ok;
    capacity = ground (arith, countp-insert-le is_in_flight id issued s.peers);
    ports_ok = v.ports_ok;
  })
  | inr not_due ↦ rw not_due v
]
  where
    issued : PeerProbeState
    issued = record state {
      in_flight = some (record { request_id = s.next_request_id; expires_at = deadline now });
      pending_trigger = none;
    }

issue_if_due-IsScheduler :
    (s : NatProbeScheduler) (id : P2pId) (now : Timestamp)
    → IsScheduler s
    → IsScheduler (issue_if_due s id now).0
unfolding issue_if_due
issue_if_due-IsScheduler s id now v = elim (Option-cases (get id s.peers)) [
  | inl e ↦ rw (e, issue_if_due) v
  | inr (state, e) ↦
      rw (e, issue_if_due)
        (issue_known-IsScheduler s id state now v
          (All-get (IsPeer s) id state s.peers v.peers_ok e))
]

-- The scheduler after expiry and the result, before the next directive.
abbrev pub settled :
    NatProbeScheduler
    → ProbeTransition
    → P2pId
    → Option NatProbeResult
    → Timestamp
    → NatProbeScheduler
settled s t id result now = (accept_given result (finish_expired s id now t) id now).0

pub settled-IsScheduler :
    (s : NatProbeScheduler) (t : ProbeTransition) (id : P2pId) (result : Option NatProbeResult)
    (now : Timestamp)
    → IsScheduler s
    → IsScheduler (settled s t id result now)
unfolding accept_given
settled-IsScheduler s t id none now v = finish_expired-IsScheduler s id now t v
settled-IsScheduler s t id (some result) now v =
    accept_result-IsScheduler _ id result now _ (finish_expired-IsScheduler s id now t v)

settle-IsScheduler :
    (s : NatProbeScheduler) (t : ProbeTransition) (id : P2pId) (result : Option NatProbeResult)
    (now : Timestamp)
    → IsScheduler s
    → IsScheduler (settle (s, t) id result now).0
unfolding settle
settle-IsScheduler s t id result now v =
    issue_if_due-IsScheduler (settled s t id result now) id now
      (settled-IsScheduler s t id result now v)

pub register-IsScheduler :
    (s : NatProbeScheduler) (id : P2pId) (previous : Option PeerProbeState) (tunnel : CmdTunnelId)
    (remote : Endpoint) (supported : Bool) (now : Timestamp)
    → IsScheduler s
    → IsScheduler (register s id previous tunnel remote supported now).0
register-IsScheduler s id previous tunnel remote supported now v =
    let w = insert-IsScheduler s id _ v refl refl in
    record {
      unique = w.unique;
      peers_ok = w.peers_ok;
      capacity = w.capacity;
      ports_ok = w.ports_ok;
    }

pub observe_registration-IsScheduler :
    (s : NatProbeScheduler) (id : P2pId) (state : PeerProbeState) (tunnel : CmdTunnelId)
    (remote : Endpoint) (supported : Bool) (now : Timestamp)
    → IsScheduler s
    → get id s.peers ≡ some state
    → IsScheduler (observe_registration s id state tunnel remote supported now).0
observe_registration-IsScheduler s id state tunnel remote supported now v e =
    let known = All-get (IsPeer s) id state s.peers v.peers_ok e in
    ground (
      arith,
      register-IsScheduler s id (some state) tunnel remote supported now v,
      insert-IsScheduler s id
          (record state { in_flight = none; profile = none; control_supported = supported }) v,
      update-IsScheduler s id state (record state { control_supported = supported }) v e,
    )

pub observe_ineligible_report-IsScheduler :
    (s : NatProbeScheduler) (id : P2pId) (tunnel : CmdTunnelId)
    → IsScheduler s
    → IsScheduler (observe_ineligible_report s id tunnel).0
unfolding observe_ineligible_report
observe_ineligible_report-IsScheduler s id tunnel v = elim (Option-cases (get id s.peers)) [
  | inl e ↦ rw (e, observe_ineligible_report) v
  | inr (state, e) ↦ rw (e, observe_ineligible_report) (ground (arith, remove-IsScheduler s id v))
]

observe_known-IsScheduler :
    (s : NatProbeScheduler) (id : P2pId) (state : PeerProbeState) (tunnel : CmdTunnelId)
    (remote : Endpoint) (supported : Bool) (result : Option NatProbeResult) (now : Timestamp)
    → IsScheduler s
    → get id s.peers ≡ some state
    → IsScheduler (observe_known s id state tunnel remote supported result now).0
unfolding observe_known
observe_known-IsScheduler s id state tunnel remote supported result now v e =
    elim (Bool-cases (is_authoritative_report state tunnel remote)) [
      | inr q ↦ rw (q, observe_known) v
      | inl q ↦
          rw (q, observe_known)
            (settle-IsScheduler _ _ id result now
              (observe_registration-IsScheduler s id state tunnel remote supported now v e))
    ]

pub observe_capable_report-IsScheduler :
    (s : NatProbeScheduler) (id : P2pId) (tunnel : CmdTunnelId) (remote : Endpoint)
    (version : Option ℕ) (result : Option NatProbeResult) (now : Timestamp)
    → IsScheduler s
    → IsScheduler (observe_capable_report s id tunnel remote version result now).0
unfolding observe_capable_report
observe_capable_report-IsScheduler s id tunnel remote version result now v =
    elim (Bool-cases (is_udp remote)) [
      | inr q ↦ rw q (observe_ineligible_report-IsScheduler s id tunnel v)
      | inl q ↦ rw q (elim (Option-cases (get id s.peers)) [
        | inl e ↦
            rw (e, observe_capable_report)
              (settle-IsScheduler _ _ id result now
                (register-IsScheduler s id none tunnel remote (is_control_version version) now v))
        | inr (state, e) ↦
            rw (e, observe_capable_report)
              (observe_known-IsScheduler s id state tunnel remote (is_control_version version)
                result now v e)
      ])
    ]
