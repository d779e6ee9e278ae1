-- ===== src/NatProbe/Asked.antt =====
-- A report (NatProbe/Reports) publishes no profile that the SN did not ask for.
use bucky_p2p.Base.{
  ℕ, ◌≡◌, ◌≢◌, inl, inr, refl, Bool, true, ◌&&◌, not, Option, none, some, arith, ap, sym, ◌∙◌, List,
  All, All-get, ◌≟◌, get, Timestamp, Option-cases, Bool-cases,
}
use bucky_p2p.Identity.{P2pId, id_eq}
use bucky_p2p.Net.{addr_eq}
use bucky_p2p.Endpoint.{Endpoint}
use bucky_p2p.NatType.Profile.{NatProfile}
use bucky_p2p.NatProbe.{NatProbeResult}
use bucky_p2p.NatProbe.Scheduler.{
  NatProbeScheduler, PeerProbeState, CmdTunnelId, no_transition, new_scheduler, write_peer, is_udp,
  is_authoritative_report,
}
use bucky_p2p.NatProbe.Reports.{
  observe_capable_report, observe_known, register, observe_capability, settle,
  observe_ineligible_report, is_control_version, update_for,
}
use bucky_p2p.NatProbe.Limits.{is_peer, IsPeer}
use bucky_p2p.NatProbe.Invariant.{ProbeCall, serve_all, serve_all-IsScheduler}
use bucky_p2p.NatProbe.Results.{IsAnswer}
use bucky_p2p.NatProbe.Answers.{written_peer, written-not_answered, Asked, Withdraws, settle-Asked}

register-not_asked :
    (s : NatProbeScheduler) (id : P2pId) (previous : Option PeerProbeState) (tunnel : CmdTunnelId)
    (remote : Endpoint) (supported : Bool) (result : Option NatProbeResult) (now : Timestamp)
    (p : NatProfile)
    → (settle (register s id previous tunnel remote supported now) id result now).1.profile_update
      ≢ some (some p)
register-not_asked s id previous tunnel remote supported result now p h =
    let (r, st, q, a, k) =
      settle-Asked (register s id previous tunnel remote supported now).0
        (register s id previous tunnel remote supported now).1 id result now p (withdraws previous)
        h in
    written-not_answered s _ id _ st r now refl refl a
  where
    withdraws :
        (o : Option PeerProbeState)
        → Withdraws (record { directive = none; profile_update = update_for o }) p
    withdraws none = ground arith
    withdraws (some state) = ground arith

kept_state-IsAnswer :
    (s : NatProbeScheduler) (id : P2pId) (state st : PeerProbeState) (supported : Bool)
    (r : NatProbeResult) (now : Timestamp)
    → get id s.peers ≡ some state
    → is_peer s (id, state) ≡ true
    → IsAnswer (write_peer s id (record state { control_supported = supported })) id st r now
    → IsAnswer s id state r now
kept_state-IsAnswer s id state st supported r now e ok a =
    let same =
      written_peer id (record state { control_supported = supported }) st s.peers a.registered in
    let probing = ap (λ (y : PeerProbeState). y.in_flight) same ∙ a.out in
    record {
      probe = a.probe;
      registered = e;
      out = probing;
      same_request = a.same_request;
      in_time = a.in_time;
      same_registration =
          a.same_registration ∙ sym (ap (λ (y : PeerProbeState). y.registration_generation) same);
      same_configuration =
          a.same_configuration ∙ sym (ap (λ (y : PeerProbeState). y.config_generation) same);
      same_sn = a.same_sn;
      same_peer = a.same_peer;
      version_one = a.version_one;
      capable = ground arith;
    }

observe_capability-Asked :
    (s : NatProbeScheduler) (id : P2pId) (state : PeerProbeState) (supported : Bool)
    (result : Option NatProbeResult) (now : Timestamp) (p : NatProfile)
    → get id s.peers ≡ some state
    → is_peer s (id, state) ≡ true
    → (settle (observe_capability s id state supported) id result now).1.profile_update
      ≡ some (some p)
    → Asked s id result now p
observe_capability-Asked s id state supported result now p e ok =
    elim (Bool-cases (state.control_supported && not supported)) [
      | inl q ↦ rw q (λ h.
          let (r, st, given, a, k) =
            settle-Asked
              (write_peer s id
                (record state { in_flight = none; profile = none; control_supported = supported }))
              (record no_transition { profile_update = some none }) id result now p (ground arith)
              h in
          absurd (written-not_answered s _ id _ st r now refl refl a))
      | inr q ↦ rw q (λ h.
          let (r, st, given, a, k) =
            settle-Asked (write_peer s id (record state { control_supported = supported }))
              no_transition id result now p (ground arith) h in
          (r, state, given, kept_state-IsAnswer s id state st supported r now e ok a, k))
    ]

observe_known-Asked :
    (s : NatProbeScheduler) (id : P2pId) (state : PeerProbeState) (tunnel : CmdTunnelId)
    (remote : Endpoint) (supported : Bool) (result : Option NatProbeResult) (now : Timestamp)
    (p : NatProfile)
    → get id s.peers ≡ some state
    → is_peer s (id, state) ≡ true
    → (observe_known s id state tunnel remote supported result now).1.profile_update ≡ some (some p)
    → Asked s id result now p
unfolding observe_known
observe_known-Asked s id state tunnel remote supported result now p e ok =
    elim (Bool-cases (is_authoritative_report state tunnel remote)) [
      | inr q ↦ rw (q, observe_known) (λ h. absurd (ground arith))
      | inl q ↦
          rw (q, observe_known)
            (elim (Bool-cases (state.remote_endpoint.addr ≟ remote.addr)) [
              | inl same ↦
                  rw same (λ h. observe_capability-Asked s id state supported result now p e ok h)
              | inr other ↦ rw other (λ h.
                  absurd
                    (register-not_asked s id (some state) tunnel remote supported result now p h))
            ])
    ]

observe_ineligible_report-Withdraws :
    (s : NatProbeScheduler) (id : P2pId) (tunnel : CmdTunnelId) (p : NatProfile)
    → Withdraws (observe_ineligible_report s id tunnel).1 p
unfolding observe_ineligible_report
observe_ineligible_report-Withdraws s id tunnel p = elim (Option-cases (get id s.peers)) [
  | inl e ↦ rw (e, observe_ineligible_report) (ground arith)
  | inr (state, e) ↦ rw (e, observe_ineligible_report) (ground arith)
]

report-Asked :
    (s : NatProbeScheduler) (id : P2pId) (tunnel : CmdTunnelId) (remote : Endpoint)
    (version : Option ℕ) (result : Option NatProbeResult) (now : Timestamp) (p : NatProfile)
    → All (IsPeer s) s.peers
    → (observe_capable_report s id tunnel remote version result now).1.profile_update
      ≡ some (some p)
    → Asked s id result now p
unfolding observe_capable_report
report-Asked s id tunnel remote version result now p v = elim (Bool-cases (is_udp remote)) [
  | inr q ↦ rw q (λ h. absurd (observe_ineligible_report-Withdraws s id tunnel p h))
  | inl q ↦ rw q (elim (Option-cases (get id s.peers)) [
    | inl e ↦
        rw (e, observe_capable_report)
          (λ h. absurd (
            register-not_asked s id none tunnel remote (is_control_version version) result now p h))
    | inr (state, e) ↦
        rw (e, observe_capable_report)
          (λ h.
            observe_known-Asked s id state tunnel remote (is_control_version version) result now p e
              (All-get (IsPeer s) id state s.peers v e) h)
  ])
]

-- After any calls at any times, a report publishes a profile only when it brings a result that answers
-- the directive which is out for this peer: the same request of the same registration, under the
-- configuration in force, for this SN and this peer, not after its deadline, from a peer with the
-- capability; and what is published is the profile of that result.
pub serve_all-Asked :
    (sn : P2pId) (cs : List (Timestamp × ProbeCall)) (id : P2pId) (tunnel : CmdTunnelId)
    (remote : Endpoint) (version : Option ℕ) (result : Option NatProbeResult) (now : Timestamp)
    (p : NatProfile)
    → (observe_capable_report
        (serve_all (new_scheduler sn) cs)
        id
        tunnel
        remote
        version
        result
        now).1.profile_update
      ≡ some (some p)
    → Asked (serve_all (new_scheduler sn) cs) id result now p
serve_all-Asked sn cs id tunnel remote version result now p h =
    let reached = serve_all-IsScheduler sn cs in
    report-Asked (serve_all (new_scheduler sn) cs) id tunnel remote version result now p
      reached.peers_ok h
