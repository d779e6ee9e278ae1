-- ===== src/NatProbe/Results.antt =====
-- Which results the probe scheduler accepts (NatProbe/Scheduler): the answer to its own directive, once.
use bucky_p2p.Base.{
  ◌≤◌, ◌≡◌, ◌⊎◌, inl, inr, refl, true, Option, none, some, arith, get, insert, get-insert,
  Timestamp, Option-cases,
}
use bucky_p2p.Identity.{P2pId, id_eq}
use bucky_p2p.NatType.Profile.{NatProfile, is_fresh}
use bucky_p2p.NatProbe.{NatProbeDirective, NatProbeResult, from_directive}
use bucky_p2p.NatProbe.Scheduler.{
  NatProbeScheduler, PeerProbeState, ProbeTransition, InFlightProbe, deadline, rejection,
  accept_known, accept_checked, accept_result, issue_known, issue_if_due, directive_for,
}

-- What a published profile shows: the peer is registered, and the result answers the probe that is out,
-- in time, from this SN's directive and of this configuration.
pub record IsAnswer (s : NatProbeScheduler) (id : P2pId) (state : PeerProbeState)
    (r : NatProbeResult) (now : Timestamp) : Type 0 where
  pub probe : InFlightProbe
  pub registered : get id s.peers ≡ some state
  pub out : state.in_flight ≡ some probe
  pub same_request : probe.request_id ≡ r.request_id
  pub in_time : now ≤ probe.expires_at
  pub same_registration : r.registration_generation ≡ state.registration_generation
  pub same_configuration : r.probe_config_generation ≡ state.config_generation
  pub same_sn : r.sn_peer_id ≡ s.sn_peer_id
  pub same_peer : r.peer_id ≡ id
  pub version_one : r.version ≡ 1
  pub capable : state.control_supported ≡ true

rejection-none :
    (s : NatProbeScheduler) (id : P2pId) (state : PeerProbeState) (r : NatProbeResult)
    (now : Timestamp)
    → get id s.peers ≡ some state
    → rejection s id state r now ≡ none
    → IsAnswer s id state r now
unfolding rejection
rejection-none s id state r now e h = elim (Option-cases state.in_flight) [
  | inl q ↦ absurd (ground arith)
  | inr (probe, q) ↦ record {
    probe = probe;
    registered = e;
    out = q;
    same_request = ground arith;
    in_time = ground arith;
    same_registration = ground arith;
    same_configuration = ground arith;
    same_sn = ground arith;
    same_peer = ground arith;
    version_one = ground arith;
    capable = ground arith;
  }
]

answer_accepted :
    (s : NatProbeScheduler) (id : P2pId) (state : PeerProbeState) (r : NatProbeResult)
    (now : Timestamp)
    → IsAnswer s id state r now
    → is_fresh r.profile now ≡ true
    → rejection s id state r now ≡ none
unfolding rejection is_fresh
answer_accepted s id state r now a f =
    let out = a.out in
    let q1 = a.same_request in
    let q2 = a.in_time in
    let q3 = a.same_registration in
    let q4 = a.same_configuration in
    let q5 = a.same_sn in
    let q6 = a.same_peer in let q7 = a.version_one in let q8 = a.capable in ground arith

-- A fresh result that answers the probe that is out is accepted.
pub accept_result-IsAnswer :
    (s : NatProbeScheduler) (id : P2pId) (state : PeerProbeState) (r : NatProbeResult)
    (now : Timestamp) (t : ProbeTransition)
    → IsAnswer s id state r now
    → is_fresh r.profile now ≡ true
    → accept_result s id r now t ≡ accept_known s id state r now t
unfolding accept_result
accept_result-IsAnswer s id state r now t a f =
    rw (a.registered, accept_result)
      (rw (answer_accepted s id state r now a f, accept_checked) refl)

-- A result is ignored, or it answers the probe that is out.
pub accept_result-cases :
    (s : NatProbeScheduler) (id : P2pId) (r : NatProbeResult) (now : Timestamp)
    (t : ProbeTransition)
    → (accept_result s id r now t ≡ (s, t))
      ⊎ ((state : PeerProbeState) × IsAnswer s id state r now
          × (accept_result s id r now t ≡ accept_known s id state r now t))
unfolding accept_result
accept_result-cases s id r now t = elim (Option-cases (get id s.peers)) [
  | inl e ↦ rw (e, accept_result) (inl refl)
  | inr (state, e) ↦ elim (Option-cases (rejection s id state r now)) [
    | inl q ↦ inr (
      state,
      rejection-none s id state r now e q,
      rw (e, accept_result) (rw (q, accept_checked) refl),
    )
    | inr (reason, q) ↦ inl (rw (e, accept_result) (rw (q, accept_checked) refl))
  ]
]

module _ (s : NatProbeScheduler) (id : P2pId) (now : Timestamp) where
  -- The peer once its directive is issued.
  abbrev pub issued : PeerProbeState → PeerProbeState
  issued state = record state {
    in_flight = some (record { request_id = s.next_request_id; expires_at = deadline now });
    pending_trigger = none;
  }

  issue_known-cases :
      (state : PeerProbeState) (d : NatProbeDirective)
      → (issue_known s id state now).1 ≡ some d
      → (d ≡ directive_for s id state now)
        × (state.control_supported ≡ true)
        × ((issue_known s id state now).0.peers ≡ insert id (issued state) s.peers)
        × ((issue_known s id state now).0.sn_peer_id ≡ s.sn_peer_id)
  issue_known-cases state d h = ground arith

  issue_known-IsAnswer :
      (state : PeerProbeState) (d : NatProbeDirective) (profile : NatProfile) (later : Timestamp)
      → (issue_known s id state now).1 ≡ some d
      → later ≤ d.expires_at
      → IsAnswer (issue_known s id state now).0 id (issued state) (from_directive d profile) later
  issue_known-IsAnswer state d profile later h w =
      let (same, capable, peers, sn) = issue_known-cases state d h in
      record {
        probe = record { request_id = s.next_request_id; expires_at = deadline now };
        registered = ground (arith, get-insert id id (issued state) s.peers);
        out = refl;
        same_request = ground arith;
        in_time = ground arith;
        same_registration = ground arith;
        same_configuration = ground arith;
        same_sn = ground arith;
        same_peer = ground arith;
        version_one = ground arith;
        capable = capable;
      }

  -- The answer to a directive, up to its deadline.
  pub issue_if_due-IsAnswer :
      (d : NatProbeDirective) (profile : NatProfile) (later : Timestamp)
      → (issue_if_due s id now).1 ≡ some d
      → later ≤ d.expires_at
      → (state : PeerProbeState) × IsAnswer
          (issue_if_due s id now).0
          id
          state
          (from_directive d profile)
          later
  unfolding issue_if_due
  issue_if_due-IsAnswer d profile later h w = issue_at (get id s.peers) refl h
    where
      issue_at :
          (o : Option PeerProbeState)
          → get id s.peers ≡ o
          → (issue_if_due s id now).1 ≡ some d
          → (state : PeerProbeState) × IsAnswer
              (issue_if_due s id now).0
              id
              state
              (from_directive d profile)
              later
      issue_at none e = rw (e, issue_if_due) (λ q. absurd (cc q))
      issue_at (some state) e =
          rw (e, issue_if_due) (λ q. (issued state, issue_known-IsAnswer state d profile later q w))
