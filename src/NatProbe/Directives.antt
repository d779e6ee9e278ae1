-- ===== src/NatProbe/Directives.antt =====
-- The directives that the probe scheduler issues on a report (NatProbe/Reports).
use bucky_p2p.Base.{
  ℕ, ◌≡◌, inl, inr, refl, Bool, true, Option, none, some, List, arith, get, Timestamp, Option-cases,
  Bool-cases,
}
use bucky_p2p.Identity.{P2pId, id_eq}
use bucky_p2p.Endpoint.{Endpoint}
use bucky_p2p.NatProbe.{NatProbeDirective, NatProbeResult, directive_is_supported}
use bucky_p2p.NatProbe.Scheduler.{
  NatProbeScheduler, PeerProbeState, ProbeTransition, CmdTunnelId, new_scheduler, issue_known,
  issue_if_due, is_udp, is_authoritative_report, deadline,
}
use bucky_p2p.NatProbe.Reports.{
  observe_capable_report, observe_known, observe_registration, settle, observe_ineligible_report,
  is_control_version,
}
use bucky_p2p.NatProbe.Limits.{IsScheduler}
use bucky_p2p.NatProbe.Kept.{
  settled, settled-IsScheduler, register-IsScheduler, observe_registration-IsScheduler,
}
use bucky_p2p.NatProbe.Invariant.{ProbeCall, serve_all, serve_all-IsScheduler}

-- A directive to this peer that it can carry out and has 30 seconds for.
abbrev pub IsDirective : P2pId → Timestamp → NatProbeDirective → Type 0
IsDirective id now d =
    (directive_is_supported d ≡ true) × (d.peer_id ≡ id) × (d.expires_at ≡ deadline now)

issue_known-IsDirective :
    (s : NatProbeScheduler) (id : P2pId) (state : PeerProbeState) (now : Timestamp)
    (d : NatProbeDirective)
    → IsScheduler s
    → (issue_known s id state now).1 ≡ some d
    → IsDirective id now d
issue_known-IsDirective s id state now d v h = let ok = v.ports_ok in ground arith

issue_if_due-IsDirective :
    (s : NatProbeScheduler) (id : P2pId) (now : Timestamp) (d : NatProbeDirective)
    → IsScheduler s
    → (issue_if_due s id now).1 ≡ some d
    → IsDirective id now d
unfolding issue_if_due
issue_if_due-IsDirective s id now d v = elim (Option-cases (get id s.peers)) [
  | inl e ↦ rw (e, issue_if_due) (λ h. absurd (cc h))
  | inr (state, e) ↦ rw (e, issue_if_due) (λ h. issue_known-IsDirective s id state now d v h)
]

settle-IsDirective :
    (s : NatProbeScheduler) (t : ProbeTransition) (id : P2pId) (result : Option NatProbeResult)
    (now : Timestamp) (d : NatProbeDirective)
    → IsScheduler s
    → (settle (s, t) id result now).1.directive ≡ some d
    → IsDirective id now d
unfolding settle
settle-IsDirective s t id result now d v h =
    issue_if_due-IsDirective (settled s t id result now) id now d
      (settled-IsScheduler s t id result now v) h

observe_known-IsDirective :
    (s : NatProbeScheduler) (id : P2pId) (state : PeerProbeState) (tunnel : CmdTunnelId)
    (remote : Endpoint) (supported : Bool) (result : Option NatProbeResult) (now : Timestamp)
    (d : NatProbeDirective)
    → IsScheduler s
    → get id s.peers ≡ some state
    → (observe_known s id state tunnel remote supported result now).1.directive ≡ some d
    → IsDirective id now d
unfolding observe_known
observe_known-IsDirective s id state tunnel remote supported result now d v e =
    elim (Bool-cases (is_authoritative_report state tunnel remote)) [
      | inr q ↦ rw (q, observe_known) (λ h. absurd (cc h))
      | inl q ↦
          rw (q, observe_known)
            (λ h.
              settle-IsDirective (observe_registration s id state tunnel remote supported now).0 _
                id result now d
                (observe_registration-IsScheduler s id state tunnel remote supported now v e) h)
    ]

observe_ineligible_report-directive :
    (s : NatProbeScheduler) (id : P2pId) (tunnel : CmdTunnelId)
    → (observe_ineligible_report s id tunnel).1.directive ≡ none
unfolding observe_ineligible_report
observe_ineligible_report-directive s id tunnel = elim (Option-cases (get id s.peers)) [
  | inl e ↦ rw (e, observe_ineligible_report) refl
  | inr (state, e) ↦ rw (e, observe_ineligible_report) (ground arith)
]

report-IsDirective :
    (s : NatProbeScheduler) (id : P2pId) (tunnel : CmdTunnelId) (remote : Endpoint)
    (version : Option ℕ) (result : Option NatProbeResult) (now : Timestamp) (d : NatProbeDirective)
    → IsScheduler s
    → (observe_capable_report s id tunnel remote version result now).1.directive ≡ some d
    → IsDirective id now d
unfolding observe_capable_report
report-IsDirective s id tunnel remote version result now d v = elim (Bool-cases (is_udp remote)) [
  | inr q ↦
      let none_issued = observe_ineligible_report-directive s id tunnel in
      rw q (λ h. absurd (cc (none_issued, h)))
  | inl q ↦ rw q (elim (Option-cases (get id s.peers)) [
    | inl e ↦
        rw (e, observe_capable_report)
          (λ h.
            settle-IsDirective _ _ id result now d
              (register-IsScheduler s id none tunnel remote (is_control_version version) now v) h)
    | inr (state, e) ↦
        rw (e, observe_capable_report)
          (λ h.
            observe_known-IsDirective s id state tunnel remote (is_control_version version) result
              now d v e h)
  ])
]

-- After any calls at any times, a directive that a report brings is for the reporting peer, expires in
-- 30 seconds and passes the check of the peer: the version is known, and 2 to 8 distinct ports, none of
-- them 0, are named.
pub serve_all-IsDirective :
    (sn : P2pId) (cs : List (Timestamp × ProbeCall)) (id : P2pId) (tunnel : CmdTunnelId)
    (remote : Endpoint) (version : Option ℕ) (result : Option NatProbeResult) (now : Timestamp)
    (d : NatProbeDirective)
    → (observe_capable_report
        (serve_all (new_scheduler sn) cs)
        id
        tunnel
        remote
        version
        result
        now).1.directive
      ≡ some d
    → IsDirective id now d
serve_all-IsDirective sn cs id tunnel remote version result now d h =
    report-IsDirective (serve_all (new_scheduler sn) cs) id tunnel remote version result now d
      (serve_all-IsScheduler sn cs) h
