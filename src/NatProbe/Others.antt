-- ===== src/NatProbe/Others.antt =====
-- What the probe scheduler (NatProbe/Reports) does for other peers leaves a probe that is out.
use bucky_p2p.Base.{
  ℕ, ◌≡◌, ◌≢◌, inl, inr, refl, ◌∙◌, Bool, false, Option, none, some, arith, get, get-insert,
  get-remove, Timestamp, Option-cases, Bool-cases,
}
use bucky_p2p.Identity.{P2pId, id_eq}
use bucky_p2p.Net.{addr_eq}
use bucky_p2p.Endpoint.{Endpoint}
use bucky_p2p.NatType.Profile.{NatProfile}
use bucky_p2p.NatProbe.{NatProbeResult}
use bucky_p2p.NatProbe.Scheduler.{
  NatProbeScheduler, PeerProbeState, ProbeTransition, CmdTunnelId, write_peer, finish_expired,
  accept_result, issue_if_due, is_udp, next_period, is_authoritative_report,
}
use bucky_p2p.NatProbe.Reports.{
  settle, accept_given, register, observe_registration, observe_known, observe_ineligible_report,
  is_control_version, observe_capable_report, report_profile, observe_reported_profile,
  control_known, finish_transition, observe_control, remove_peer, remove_peer_if_authority,
}
use bucky_p2p.NatProbe.Results.{issued, accept_result-cases}

module _ (id : P2pId) where
  -- Neither the peer nor the SN has changed.
  abbrev pub Untouched : NatProbeScheduler → NatProbeScheduler → Type 0
  Untouched s s' = (get id s'.peers ≡ get id s.peers) × (s'.sn_peer_id ≡ s.sn_peer_id)

  both : (s s' s'' : NatProbeScheduler) → Untouched s s' → Untouched s' s'' → Untouched s s''
  both s s' s'' u v = (v.0 ∙ u.0, v.1 ∙ u.1)

  module _ (peer : P2pId) (other : peer ≢ id) where
    write-Untouched :
        (s : NatProbeScheduler) (state : PeerProbeState) → Untouched s (write_peer s peer state)
    write-Untouched s state = ground (arith, get-insert peer id state s.peers)

    pub finish_expired-Untouched :
        (s : NatProbeScheduler) (now : Timestamp) (t : ProbeTransition)
        → Untouched s (finish_expired s peer now t).0
    unfolding finish_expired
    finish_expired-Untouched s now t = elim (Option-cases (get peer s.peers)) [
      | inl e ↦ rw (e, finish_expired) (refl, refl)
      | inr (state, e) ↦
          rw (e, finish_expired)
            (ground (
              arith,
              write-Untouched s (record state {
                in_flight = none;
                profile = none;
                pending_trigger = none;
                next_periodic_at = next_period now;
              }),
            ))
    ]

    accept_result-Untouched :
        (s : NatProbeScheduler) (r : NatProbeResult) (now : Timestamp) (t : ProbeTransition)
        → Untouched s (accept_result s peer r now t).0
    accept_result-Untouched s r now t = elim (accept_result-cases s peer r now t) [
      | inl q ↦ rw q (refl, refl)
      | inr (state, a, q) ↦ rw q (write-Untouched s _)
    ]

    accept_given-Untouched :
        (result : Option NatProbeResult) (s : NatProbeScheduler) (t : ProbeTransition)
        (now : Timestamp)
        → Untouched s (accept_given result (s, t) peer now).0
    unfolding accept_given
    accept_given-Untouched none s t now = (refl, refl)
    accept_given-Untouched (some result) s t now = accept_result-Untouched s result now t

    issue_if_due-Untouched :
        (s : NatProbeScheduler) (now : Timestamp) → Untouched s (issue_if_due s peer now).0
    unfolding issue_if_due
    issue_if_due-Untouched s now = elim (Option-cases (get peer s.peers)) [
      | inl e ↦ rw (e, issue_if_due) (refl, refl)
      | inr (state, e) ↦
          rw (e, issue_if_due)
            (ground (arith, get-insert peer id (issued s peer now state) s.peers))
    ]

    settle-Untouched :
        (s : NatProbeScheduler) (t : ProbeTransition) (result : Option NatProbeResult)
        (now : Timestamp)
        → Untouched s (settle (s, t) peer result now).0
    unfolding settle
    settle-Untouched s t result now =
        let expired = finish_expired s peer now t in
        let given = accept_given result expired peer now in
        both s given.0 (issue_if_due given.0 peer now).0
          (both s expired.0 given.0 (finish_expired-Untouched s now t)
            (accept_given-Untouched result expired.0 expired.1 now))
          (issue_if_due-Untouched given.0 now)

    register-Untouched :
        (s : NatProbeScheduler) (previous : Option PeerProbeState) (tunnel : CmdTunnelId)
        (remote : Endpoint) (supported : Bool) (now : Timestamp)
        → Untouched s (register s peer previous tunnel remote supported now).0
    register-Untouched s previous tunnel remote supported now = write-Untouched s _

    observe_registration-Untouched :
        (s : NatProbeScheduler) (state : PeerProbeState) (tunnel : CmdTunnelId) (remote : Endpoint)
        (supported : Bool) (now : Timestamp)
        → Untouched s (observe_registration s peer state tunnel remote supported now).0
    observe_registration-Untouched s state tunnel remote supported now = ground (
      arith,
      register-Untouched s (some state) tunnel remote supported now,
      write-Untouched s
          (record state { in_flight = none; profile = none; control_supported = supported }),
      write-Untouched s (record state { control_supported = supported }),
    )

    observe_ineligible_report-Untouched :
        (s : NatProbeScheduler) (tunnel : CmdTunnelId)
        → Untouched s (observe_ineligible_report s peer tunnel).0
    unfolding observe_ineligible_report
    observe_ineligible_report-Untouched s tunnel = elim (Option-cases (get peer s.peers)) [
      | inl e ↦ rw (e, observe_ineligible_report) (refl, refl)
      | inr (state, e) ↦
          rw (e, observe_ineligible_report) (ground (arith, get-remove peer id s.peers))
    ]

    observe_known-Untouched :
        (s : NatProbeScheduler) (state : PeerProbeState) (tunnel : CmdTunnelId) (remote : Endpoint)
        (supported : Bool) (result : Option NatProbeResult) (now : Timestamp)
        → Untouched s (observe_known s peer state tunnel remote supported result now).0
    unfolding observe_known
    observe_known-Untouched s state tunnel remote supported result now =
        elim (Bool-cases (is_authoritative_report state tunnel remote)) [
          | inr q ↦ rw (q, observe_known) (refl, refl)
          | inl q ↦
              let registered = observe_registration s peer state tunnel remote supported now in
              rw (q, observe_known)
                (both s registered.0 (settle registered peer result now).0
                  (observe_registration-Untouched s state tunnel remote supported now)
                  (settle-Untouched registered.0 registered.1 result now))
        ]

    pub observe_capable_report-Untouched :
        (s : NatProbeScheduler) (tunnel : CmdTunnelId) (remote : Endpoint) (version : Option ℕ)
        (result : Option NatProbeResult) (now : Timestamp)
        → Untouched s (observe_capable_report s peer tunnel remote version result now).0
    unfolding observe_capable_report
    observe_capable_report-Untouched s tunnel remote version result now =
        elim (Bool-cases (is_udp remote)) [
          | inr q ↦ rw q (observe_ineligible_report-Untouched s tunnel)
          | inl q ↦ rw q (elim (Option-cases (get peer s.peers)) [
            | inl e ↦
                let registered =
                  register s peer none tunnel remote (is_control_version version) now in
                rw (e, observe_capable_report)
                  (both s registered.0 (settle registered peer result now).0
                    (register-Untouched s none tunnel remote (is_control_version version) now)
                    (settle-Untouched registered.0 registered.1 result now))
            | inr (state, e) ↦
                rw (e, observe_capable_report)
                  (observe_known-Untouched s state tunnel remote (is_control_version version) result
                    now)
          ])
        ]

    pub observe_reported_profile-Untouched :
        (s : NatProbeScheduler) (tunnel : CmdTunnelId) (remote : Endpoint) (profile : NatProfile)
        (now : Timestamp)
        → Untouched s (observe_reported_profile s peer tunnel remote profile now).0
    unfolding observe_reported_profile report_profile
    observe_reported_profile-Untouched s tunnel remote profile now =
        elim (Option-cases (get peer s.peers)) [
          | inl e ↦ rw (e, observe_reported_profile) (refl, refl)
          | inr (state, e) ↦
              rw (e, observe_reported_profile)
                (ground (
                  arith,
                  write-Untouched s
                      (record state { profile = some profile; next_periodic_at = next_period now }),
                ))
        ]

    control_known-Untouched :
        (s : NatProbeScheduler) (state : PeerProbeState) (tunnel : CmdTunnelId) (remote : Endpoint)
        (now : Timestamp)
        → Untouched s (control_known s peer state tunnel remote now).0
    control_known-Untouched s state tunnel remote now =
        ground (arith, register-Untouched s (some state) tunnel remote state.control_supported now)

    pub observe_control-Untouched :
        (s : NatProbeScheduler) (tunnel : CmdTunnelId) (remote : Endpoint) (now : Timestamp)
        → Untouched s (observe_control s peer tunnel remote now).0
    unfolding observe_control finish_transition
    observe_control-Untouched s tunnel remote now = elim (Bool-cases (is_udp remote)) [
      | inr q ↦ rw q (observe_ineligible_report-Untouched s tunnel)
      | inl q ↦ rw q (elim (Option-cases (get peer s.peers)) [
        | inl e ↦
            let registered = register s peer none tunnel remote false now in
            rw (e, observe_control)
              (both s registered.0 (finish_expired registered.0 peer now registered.1).0
                (register-Untouched s none tunnel remote false now)
                (finish_expired-Untouched registered.0 now registered.1))
        | inr (state, e) ↦
            rw (e, observe_control)
              (elim (Bool-cases (is_authoritative_report state tunnel remote)) [
                | inr a ↦ rw a (refl, refl)
                | inl a ↦
                    let known = control_known s peer state tunnel remote now in
                    rw a (
                      both s known.0 (finish_expired known.0 peer now known.1).0
                        (control_known-Untouched s state tunnel remote now)
                        (finish_expired-Untouched known.0 now known.1))
              ])
      ])
    ]

    pub remove_peer-Untouched : (s : NatProbeScheduler) → Untouched s (remove_peer s peer).0
    unfolding remove_peer
    remove_peer-Untouched s = elim (Option-cases (get peer s.peers)) [
      | inl e ↦ rw (e, remove_peer) (refl, refl)
      | inr (state, e) ↦ rw (e, remove_peer) (ground (arith, get-remove peer id s.peers))
    ]

    pub remove_peer_if_authority-Untouched :
        (s : NatProbeScheduler) (tunnel : CmdTunnelId) (generation : ℕ)
        → Untouched s (remove_peer_if_authority s peer tunnel generation).0
    unfolding remove_peer_if_authority
    remove_peer_if_authority-Untouched s tunnel generation = ground (arith, remove_peer-Untouched s)
