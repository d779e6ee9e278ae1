-- ===== src/NatProbe/Invariant.antt =====
-- The limits of the probe scheduler (NatProbe/Limits), over every sequence of its calls.
use bucky_p2p.Base.{
  ℕ, ◌≡◌, inl, inr, refl, false, Option, none, some, List, [], ◌∷◌, arith, ◌≟◌, All-get, get,
  Timestamp, Option-cases, Bool-cases,
}
use bucky_p2p.Identity.{P2pId, id_eq}
use bucky_p2p.Endpoint.{Endpoint}
use bucky_p2p.NatType.Profile.{NatProfile}
use bucky_p2p.NatProbe.{NatProbeResult}
use bucky_p2p.NatProbe.Scheduler.{
  NatProbeScheduler, PeerProbeState, CmdTunnelId, new_scheduler, set_ports, set_sn_peer_id,
  next_period, is_udp, is_authoritative_report, no_transition, finish_expired,
}
use bucky_p2p.NatProbe.Reports.{
  observe_capable_report, observe_reported_profile, report_profile, observe_control, expire_due,
  expire_each, remove_peer, remove_peer_if_authority, control_known, finish_transition,
}
use bucky_p2p.NatProbe.Limits.{IsPeer, IsScheduler, update-IsScheduler, remove-IsScheduler}
use bucky_p2p.NatProbe.Kept.{
  set_ports-IsScheduler, finish_expired-IsScheduler, register-IsScheduler,
  observe_ineligible_report-IsScheduler, observe_capable_report-IsScheduler,
}

-- A call of the scheduler, under its lock.
pub data ProbeCall : Type 0 where
  configures : List ℕ → ProbeCall
  identifies : P2pId → ProbeCall
  reports : P2pId → CmdTunnelId → Endpoint → Option ℕ → Option NatProbeResult → ProbeCall
  reports_profile : P2pId → CmdTunnelId → Endpoint → NatProfile → ProbeCall
  controls : P2pId → CmdTunnelId → Endpoint → ProbeCall
  expires : ProbeCall
  removes : P2pId → ProbeCall
  reconciles : P2pId → CmdTunnelId → ℕ → ProbeCall

unfoldable pub serve : NatProbeScheduler → Timestamp × ProbeCall → NatProbeScheduler
serve s (now, configures ports) = (set_ports s ports).0
serve s (now, identifies sn) = set_sn_peer_id s sn
serve s (now, reports id tunnel remote version result) =
    (observe_capable_report s id tunnel remote version result now).0
serve s (now, reports_profile id tunnel remote profile) =
    (observe_reported_profile s id tunnel remote profile now).0
serve s (now, controls id tunnel remote) = (observe_control s id tunnel remote now).0
serve s (now, expires) = (expire_due s now).0
serve s (now, removes id) = (remove_peer s id).0
serve s (now, reconciles id tunnel generation) = (remove_peer_if_authority s id tunnel generation).0

unfoldable pub serve_all : NatProbeScheduler → List (Timestamp × ProbeCall) → NatProbeScheduler
unfolding serve
serve_all s [] = s
serve_all s (c ∷ cs) = serve_all (serve s c) cs

set_sn_peer_id-IsScheduler :
    (s : NatProbeScheduler) (sn : P2pId) → IsScheduler s → IsScheduler (set_sn_peer_id s sn)
unfolding set_sn_peer_id
set_sn_peer_id-IsScheduler s sn v = elim (Bool-cases (s.sn_peer_id ≟ sn)) [
  | inl q ↦ rw q v
  | inr q ↦
      rw q (record { unique = tt; peers_ok = tt; capacity = omega arith; ports_ok = v.ports_ok })
]

report_profile-IsScheduler :
    (s : NatProbeScheduler) (id : P2pId) (state : PeerProbeState) (tunnel : CmdTunnelId)
    (remote : Endpoint) (profile : NatProfile) (now : Timestamp)
    → IsScheduler s
    → get id s.peers ≡ some state
    → IsScheduler (report_profile s id state tunnel remote profile now).0
unfolding report_profile
report_profile-IsScheduler s id state tunnel remote profile now v e =
    let known = All-get (IsPeer s) id state s.peers v.peers_ok e in
    ground (
      arith,
      update-IsScheduler s id state
          (record state { profile = some profile; next_periodic_at = next_period now }) v e known
          refl,
    )

observe_reported_profile-IsScheduler :
    (s : NatProbeScheduler) (id : P2pId) (tunnel : CmdTunnelId) (remote : Endpoint)
    (profile : NatProfile) (now : Timestamp)
    → IsScheduler s
    → IsScheduler (observe_reported_profile s id tunnel remote profile now).0
unfolding observe_reported_profile
observe_reported_profile-IsScheduler s id tunnel remote profile now v =
    elim (Option-cases (get id s.peers)) [
      | inl e ↦ rw (e, observe_reported_profile) v
      | inr (state, e) ↦
          rw (e, observe_reported_profile)
            (report_profile-IsScheduler s id state tunnel remote profile now v e)
    ]

control_known-IsScheduler :
    (s : NatProbeScheduler) (id : P2pId) (state : PeerProbeState) (tunnel : CmdTunnelId)
    (remote : Endpoint) (now : Timestamp)
    → IsScheduler s
    → IsScheduler (control_known s id state tunnel remote now).0
control_known-IsScheduler s id state tunnel remote now v =
    ground
      (arith, register-IsScheduler s id (some state) tunnel remote state.control_supported now v)

observe_control-IsScheduler :
    (s : NatProbeScheduler) (id : P2pId) (tunnel : CmdTunnelId) (remote : Endpoint)
    (now : Timestamp)
    → IsScheduler s
    → IsScheduler (observe_control s id tunnel remote now).0
unfolding observe_control finish_transition
observe_control-IsScheduler s id tunnel remote now v = elim (Bool-cases (is_udp remote)) [
  | inr q ↦ rw q (observe_ineligible_report-IsScheduler s id tunnel v)
  | inl q ↦ rw q (elim (Option-cases (get id s.peers)) [
    | inl e ↦
        rw (e, observe_control)
          (finish_expired-IsScheduler _ id now _
            (register-IsScheduler s id none tunnel remote false now v))
    | inr (state, e) ↦
        rw (e, observe_control)
          (elim (Bool-cases (is_authoritative_report state tunnel remote)) [
            | inr a ↦ rw a v
            | inl a ↦ rw a (
                finish_expired-IsScheduler _ id now _
                  (control_known-IsScheduler s id state tunnel remote now v))
          ])
  ])
]

expire_each-IsScheduler :
    (s : NatProbeScheduler) (ids : List P2pId) (now : Timestamp)
    → IsScheduler s
    → IsScheduler (expire_each s ids now).0
unfolding expire_each
expire_each-IsScheduler s [] now v = v
expire_each-IsScheduler s (id ∷ ids) now v =
    expire_each-IsScheduler (finish_expired s id now no_transition).0 ids now
      (finish_expired-IsScheduler s id now no_transition v)

remove_peer-IsScheduler :
    (s : NatProbeScheduler) (id : P2pId) → IsScheduler s → IsScheduler (remove_peer s id).0
unfolding remove_peer
remove_peer-IsScheduler s id v = elim (Option-cases (get id s.peers)) [
  | inl e ↦ rw (e, remove_peer) v
  | inr (state, e) ↦ rw (e, remove_peer) (remove-IsScheduler s id v)
]

remove_peer_if_authority-IsScheduler :
    (s : NatProbeScheduler) (id : P2pId) (tunnel : CmdTunnelId) (generation : ℕ)
    → IsScheduler s
    → IsScheduler (remove_peer_if_authority s id tunnel generation).0
unfolding remove_peer_if_authority
remove_peer_if_authority-IsScheduler s id tunnel generation v =
    ground (arith, remove_peer-IsScheduler s id v)

serve-IsScheduler :
    (s : NatProbeScheduler) (c : Timestamp × ProbeCall) → IsScheduler s → IsScheduler (serve s c)
unfolding serve expire_due
serve-IsScheduler s (now, configures ports) v = set_ports-IsScheduler s ports v
serve-IsScheduler s (now, identifies sn) v = set_sn_peer_id-IsScheduler s sn v
serve-IsScheduler s (now, reports id tunnel remote version result) v =
    observe_capable_report-IsScheduler s id tunnel remote version result now v
serve-IsScheduler s (now, reports_profile id tunnel remote profile) v =
    observe_reported_profile-IsScheduler s id tunnel remote profile now v
serve-IsScheduler s (now, controls id tunnel remote) v =
    observe_control-IsScheduler s id tunnel remote now v
serve-IsScheduler s (now, expires) v = expire_each-IsScheduler s _ now v
serve-IsScheduler s (now, removes id) v = remove_peer-IsScheduler s id v
serve-IsScheduler s (now, reconciles id tunnel generation) v =
    remove_peer_if_authority-IsScheduler s id tunnel generation v

serve_from-IsScheduler :
    (s : NatProbeScheduler) (cs : List (Timestamp × ProbeCall))
    → IsScheduler s
    → IsScheduler (serve_all s cs)
unfolding serve_all
serve_from-IsScheduler s [] v = v
serve_from-IsScheduler s (c ∷ cs) v =
    serve_from-IsScheduler (serve s c) cs (serve-IsScheduler s c v)

-- After any calls at any times, from the new scheduler on: the registered peers are distinct and have
-- the generation of the configuration; at most 2048 probes are out, each of a peer with the capability,
-- with no trigger waiting, under a configuration that has ports; and the ports, if any, are 2 to 8
-- distinct ports other than 0.
pub serve_all-IsScheduler :
    (sn : P2pId) (cs : List (Timestamp × ProbeCall)) → IsScheduler (serve_all (new_scheduler sn) cs)
serve_all-IsScheduler sn cs =
    serve_from-IsScheduler (new_scheduler sn) cs
      (record { unique = tt; peers_ok = tt; capacity = omega arith; ports_ok = refl })
