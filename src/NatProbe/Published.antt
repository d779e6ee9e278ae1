-- ===== src/NatProbe/Published.antt =====
-- What the probe scheduler publishes for its peers (NatProbe/Reports), and what it does not.
use bucky_p2p.Base.{
  ℕ, ◌≤◌, ◌≡◌, ◌≢◌, ◌⊎◌, inl, inr, refl, ap, sym, ◌∙◌, true, false, Option, none, some, List, All,
  arith, get, remove, get-insert, Timestamp, Option-cases,
}
use bucky_p2p.Identity.{P2pId, id_eq}
use bucky_p2p.Endpoint.{Endpoint}
use bucky_p2p.NatType.Profile.{NatProfile, is_fresh}
use bucky_p2p.NatProbe.{NatProbeDirective, NatProbeResult, from_directive}
use bucky_p2p.NatProbe.Scheduler.{
  NatProbeScheduler, PeerProbeState, ProbeTransition, CmdTunnelId, next_period, accept_known,
  accept_result, issue_if_due, accepted_profile,
}
use bucky_p2p.NatProbe.Reports.{
  observe_reported_profile, report_profile, fresh_and_newer, current_profile, remove_peer,
  remove_peer_if_authority, authority_registration, registration_of, only_fresh, profile_of,
}
use bucky_p2p.NatProbe.Invariant.{ProbeCall, serve_all}
use bucky_p2p.NatProbe.Waiting.{IsOther, serve_all-IsAnswer}
use bucky_p2p.NatProbe.Results.{
  IsAnswer, accept_result-IsAnswer, accept_result-cases, issue_if_due-IsAnswer,
}

accept_known-publishes :
    (s : NatProbeScheduler) (id : P2pId) (state : PeerProbeState) (r : NatProbeResult)
    (now : Timestamp) (t : ProbeTransition)
    → is_fresh r.profile now ≡ true
    → (accept_known s id state r now t).1.profile_update
      ≡ some (some (record r.profile { valid_until = next_period now }))
unfolding is_fresh
accept_known-publishes s id state r now t f = ground arith

issue_if_due-answered :
    (s : NatProbeScheduler) (id : P2pId) (now : Timestamp) (d : NatProbeDirective)
    (profile : NatProfile) (later : Timestamp) (t : ProbeTransition)
    (calls : List (Timestamp × ProbeCall))
    → (issue_if_due s id now).1 ≡ some d
    → All (IsOther id d.expires_at) calls
    → is_fresh profile later ≡ true
    → later ≤ d.expires_at
    → (state : PeerProbeState) × IsAnswer
        (serve_all (issue_if_due s id now).0 calls)
        id
        state
        (from_directive d profile)
        later
issue_if_due-answered s id now d profile later t calls h others f w =
    let (state, a) = issue_if_due-IsAnswer s id now d profile d.expires_at h (omega arith) in
    let kept =
      serve_all-IsAnswer id state (from_directive d profile) d.expires_at (issue_if_due s id now).0
        calls others a in
    (
      state,
      record {
        probe = kept.probe;
        registered = kept.registered;
        out = kept.out;
        same_request = kept.same_request;
        in_time = omega (arith, kept.in_time, w);
        same_registration = kept.same_registration;
        same_configuration = kept.same_configuration;
        same_sn = kept.same_sn;
        same_peer = kept.same_peer;
        version_one = kept.version_one;
        capable = kept.capable;
      },
    )

-- A peer gets a directive, and until the deadline other peers are served and the timer runs, but this
-- peer is not, and neither the ports nor the SN's id are set. If it then answers, until the deadline,
-- with a profile that is fresh, that profile is published, and it counts for the next two hours.
pub issue_if_due-accept_result :
    (s : NatProbeScheduler) (id : P2pId) (now : Timestamp) (d : NatProbeDirective)
    (profile : NatProfile) (later : Timestamp) (t : ProbeTransition)
    (calls : List (Timestamp × ProbeCall))
    → (issue_if_due s id now).1 ≡ some d
    → All (IsOther id d.expires_at) calls
    → is_fresh profile later ≡ true
    → later ≤ d.expires_at
    → (accept_result
        (serve_all (issue_if_due s id now).0 calls)
        id
        (from_directive d profile)
        later
        t).1.profile_update
      ≡ some (some (record profile { valid_until = next_period later }))
issue_if_due-accept_result s id now d profile later t calls h others f w =
    let (state, a) = issue_if_due-answered s id now d profile later t calls h others f w in
    let s' = serve_all (issue_if_due s id now).0 calls in
    rw (accept_result-IsAnswer s' id state (from_directive d profile) later t a f)
      (accept_known-publishes s' id state (from_directive d profile) later t f)

-- No result answers for a peer whose probe is not out.
not_out :
    (s : NatProbeScheduler) (id : P2pId) (state : PeerProbeState) (r : NatProbeResult)
    (now : Timestamp) (t : ProbeTransition)
    → get id s.peers ≡ some state
    → state.in_flight ≡ none
    → accept_result s id r now t ≡ (s, t)
not_out s id state r now t e out = elim (accept_result-cases s id r now t) [
  | inl q ↦ q
  | inr (state2, a, q) ↦ let e2 = a.registered in let out2 = a.out in absurd (cc (e, out, e2, out2))
]

replay_ignored :
    (s : NatProbeScheduler) (id : P2pId) (state : PeerProbeState) (r r' : NatProbeResult)
    (now later : Timestamp) (t t' : ProbeTransition)
    → accept_result (accept_known s id state r now t).0 id r' later t'
      ≡ ((accept_known s id state r now t).0, t')
replay_ignored s id state r r' now later t t' =
    not_out (accept_known s id state r now t).0 id
      (record state {
        in_flight = none;
        pending_trigger = none;
        next_periodic_at = next_period now;
        profile = accepted_profile r.profile now;
      })
      r' later t'
      (ground (
        arith,
        get-insert id id
            (record state {
              in_flight = none;
              pending_trigger = none;
              next_periodic_at = next_period now;
              profile = accepted_profile r.profile now;
            })
            s.peers,
      ))
      refl

-- A result that was accepted closes the probe: the same result, and any other that comes before the
-- next directive, is ignored whenever it comes.
pub accept_result-twice :
    (s : NatProbeScheduler) (id : P2pId) (r r' : NatProbeResult) (now later : Timestamp)
    (t t' : ProbeTransition)
    → accept_result s id r now t ≢ (s, t)
    → accept_result (accept_result s id r now t).0 id r' later t'
      ≡ ((accept_result s id r now t).0, t')
accept_result-twice s id r r' now later t t' h = elim (accept_result-cases s id r now t) [
  | inl q ↦ absurd (h q)
  | inr (state, a, q) ↦ rw q (replay_ignored s id state r r' now later t t')
]

remove_peer_if_authority_at :
    (s : NatProbeScheduler) (id : P2pId) (tunnel : CmdTunnelId) (generation : ℕ)
    (o : Option PeerProbeState)
    → get id s.peers ≡ o
    → ((registration_of o ≡ some (tunnel, generation))
        × (remove_peer_if_authority s id tunnel generation
            ≡ (record s { peers = remove id s.peers }, true)))
      ⊎ ((registration_of o ≢ some (tunnel, generation))
          × (remove_peer_if_authority s id tunnel generation ≡ (s, false)))
unfolding remove_peer_if_authority remove_peer
remove_peer_if_authority_at s id tunnel generation none e =
    rw (e, remove_peer_if_authority) (inr (ground arith, refl))
remove_peer_if_authority_at s id tunnel generation (some state) e =
    rw (e, remove_peer_if_authority) (ground arith)

-- A removal with a snapshot of the registration takes the peer out when the registration is still that
-- one, and otherwise leaves the scheduler as it is.
pub remove_peer_if_authority_lem :
    (s : NatProbeScheduler) (id : P2pId) (tunnel : CmdTunnelId) (generation : ℕ)
    → ((authority_registration s id ≡ some (tunnel, generation))
        × (remove_peer_if_authority s id tunnel generation
            ≡ (record s { peers = remove id s.peers }, true)))
      ⊎ ((authority_registration s id ≢ some (tunnel, generation))
          × (remove_peer_if_authority s id tunnel generation ≡ (s, false)))
remove_peer_if_authority_lem s id tunnel generation =
    remove_peer_if_authority_at s id tunnel generation (get id s.peers) refl

report_profile-current :
    (s : NatProbeScheduler) (id : P2pId) (state : PeerProbeState) (tunnel : CmdTunnelId)
    (remote : Endpoint) (profile : NatProfile) (now : Timestamp) (c : NatProfile)
    → get id s.peers ≡ some state
    → only_fresh state.profile now ≡ some c
    → let after =
        profile_of (get id (report_profile s id state tunnel remote profile now).0.peers) in
      (after ≡ some c)
      ⊎ ((after ≡ some profile)
          × (is_fresh profile now ≡ true)
          × (c.observed_at ≤ profile.observed_at))
unfolding report_profile fresh_and_newer only_fresh
report_profile-current s id state tunnel remote profile now c e h =
    elim (Option-cases state.profile) [
      | inl q ↦ absurd (ground arith)
      | inr (p, q) ↦ ground (
        arith,
        get-insert id id
            (record state { profile = some profile; next_periodic_at = next_period now }) s.peers,
      )
    ]

-- A profile that a peer reports by itself replaces the current one only when it is fresh and not older.
pub observe_reported_profile-current_profile :
    (s : NatProbeScheduler) (id : P2pId) (tunnel : CmdTunnelId) (remote : Endpoint)
    (profile : NatProfile) (now : Timestamp) (c : NatProfile)
    → current_profile s id now ≡ some c
    → (current_profile (observe_reported_profile s id tunnel remote profile now).0 id now ≡ some c)
      ⊎ ((current_profile (observe_reported_profile s id tunnel remote profile now).0 id now
            ≡ some profile)
          × (c.observed_at ≤ profile.observed_at))
unfolding observe_reported_profile only_fresh
observe_reported_profile-current_profile s id tunnel remote profile now c h =
    elim (Option-cases (get id s.peers)) [
      | inl e ↦ absurd (cc (ap (λ o. only_fresh (profile_of o) now) e, h))
      | inr (state, e) ↦
          let kept = ap (λ o. only_fresh (profile_of o) now) (sym e) ∙ h in
          rw (e, observe_reported_profile)
            (elim (report_profile-current s id state tunnel remote profile now c e kept) [
              | inl q ↦ inl (ground arith)
              | inr (q, f, w) ↦ inr (ground arith, w)
            ])
    ]
