-- ===== src/Examples/Probes.antt =====
-- The theorems on the probe scheduler at concrete inputs.
use bucky_p2p.Base.{
  ℕ, ◌≡◌, ◌≢◌, ◌≤◌, ◌⊎◌, refl, ap, List, [], ◌∷◌, Option, none, some, Bool, true, false, arith,
  Timestamp, get, remove,
}
use bucky_p2p.Identity.{P2pId, id_eq}
use bucky_p2p.NatType.Prediction.{non_symmetric_like}
use bucky_p2p.NatType.Profile.{NatProfile, is_fresh}
use bucky_p2p.NatProbe.{NatProbeDirective, NatProbeResult, from_directive}
use bucky_p2p.NatProbe.Scheduler.{
  NatProbeScheduler, ProbeTransition, new_scheduler, no_transition, next_period, accept_result,
  issue_if_due,
}
use bucky_p2p.NatProbe.Reports.{
  matches_snapshot, observe_capable_report, observe_reported_profile, current_profile,
  authority_registration, remove_peer_if_authority, register,
}
use bucky_p2p.NatProbe.Limits.{IsScheduler}
use bucky_p2p.NatProbe.Invariant.{
  ProbeCall, configures, reports, expires, removes, serve_all, serve_all-IsScheduler,
}
use bucky_p2p.NatProbe.Directives.{IsDirective, serve_all-IsDirective}
use bucky_p2p.NatProbe.Answers.{Asked}
use bucky_p2p.NatProbe.Asked.{serve_all-Asked}
use bucky_p2p.NatProbe.Published.{
  issue_if_due-accept_result, accept_result-twice, observe_reported_profile-current_profile,
}
use bucky_p2p.Endpoint.{Endpoint}
use bucky_p2p.PeerManager.{PeerMap, new_peer}
use bucky_p2p.Examples.Samples.{alice, bob, carol, reflexive}

-- Carol's SN is configured with two ports.
abbrev configured : List (Timestamp × ProbeCall)
configured = (50, configures (5001 ∷ 5000 ∷ [])) ∷ []

-- Alice has reported, and her probe is out.
abbrev probing : List (Timestamp × ProbeCall)
probing =
    (50, configures (5001 ∷ 5000 ∷ [])) ∷ (100, reports alice 1 (reflexive 4000) (some 1) none) ∷ []

abbrev first_directive : NatProbeDirective
first_directive = record {
  version = 1;
  sn_peer_id = carol;
  peer_id = alice;
  registration_generation = 1;
  request_id = 1;
  probe_config_generation = 2;
  expires_at = 30_000_100;
  ports = 5000 ∷ 5001 ∷ [];
}

abbrev measured : NatProfile
measured = record {
  version = 1;
  observation = non_symmetric_like;
  observed_at = 150;
  valid_until = 900;
  prediction_hint = none;
}

abbrev published : NatProfile
published = record measured { valid_until = 7_200_000_200 }

serve_all-IsScheduler_example : IsScheduler (serve_all (new_scheduler carol) probing)
serve_all-IsScheduler_example = serve_all-IsScheduler carol probing

serve_all-IsDirective_example : IsDirective alice 100 first_directive
unfolding observe_capable_report bucky_p2p.Endpoint.Protocol-discrete get serve_all
    bucky_p2p.NatProbe.Scheduler.set_ports bucky_p2p.NatProbe.Scheduler.effective_ports
    bucky_p2p.Directory.Membership.sort_by bucky_p2p.NatProbe.Reports.accept_given
    bucky_p2p.Base.insert bucky_p2p.Identity.P2pId-discrete bucky_p2p.Base.ℕ_discrete
serve_all-IsDirective_example =
    serve_all-IsDirective carol configured alice 1 (reflexive 4000) (some 1) none 100
      first_directive refl

serve_all-Asked_example :
    Asked
      (serve_all (new_scheduler carol) probing)
      alice
      (some (from_directive first_directive measured))
      200
      published
unfolding observe_capable_report bucky_p2p.Endpoint.Protocol-discrete get serve_all
    bucky_p2p.NatProbe.Scheduler.set_ports bucky_p2p.NatProbe.Scheduler.effective_ports
    bucky_p2p.Directory.Membership.sort_by bucky_p2p.NatProbe.Reports.accept_given
    bucky_p2p.Base.insert bucky_p2p.Identity.P2pId-discrete bucky_p2p.Base.ℕ_discrete
    bucky_p2p.NatProbe.Reports.observe_known bucky_p2p.Net.SocketAddr-discrete
    bucky_p2p.NatProbe.Scheduler.rejection
    bucky_p2p.NatType.Prediction.NatMappingObservation-discrete
serve_all-Asked_example =
    serve_all-Asked carol probing alice 1 (reflexive 4000) (some 1)
      (some (from_directive first_directive measured)) 200 published refl

-- Alice is registered and has a probe due.
abbrev due : NatProbeScheduler
due =
    (register (serve_all (new_scheduler carol) configured) alice none 1 (reflexive 4000) true 100).0

-- While Alice's probe is out: Bob reports and goes, and the timer runs.
abbrev meanwhile : List (Timestamp × ProbeCall)
meanwhile =
    (110, reports bob 2 (reflexive 4001) (some 1) none) ∷ (120, expires) ∷ (130, removes bob) ∷ []

issue_if_due-accept_result_example :
    (accept_result
      (serve_all (issue_if_due due alice 100).0 meanwhile)
      alice
      (from_directive first_directive measured)
      200
      no_transition).1.profile_update
    ≡ some (some (record measured { valid_until = next_period 200 }))
unfolding issue_if_due get bucky_p2p.Base.insert bucky_p2p.Identity.P2pId-discrete
    bucky_p2p.Base.ℕ_discrete serve_all bucky_p2p.NatProbe.Scheduler.set_ports
    bucky_p2p.NatProbe.Scheduler.effective_ports bucky_p2p.Directory.Membership.sort_by is_fresh
    bucky_p2p.NatType.Prediction.NatMappingObservation-discrete
issue_if_due-accept_result_example =
    issue_if_due-accept_result due alice 100 first_directive measured 200 no_transition meanwhile
      refl (λ q. cc q, (omega arith, (λ q. cc q, tt))) refl (omega arith)

abbrev answer : NatProbeResult
answer = from_directive first_directive measured

accept_result-twice_example :
    accept_result
      (accept_result (issue_if_due due alice 100).0 alice answer 200 no_transition).0
      alice
      answer
      300
      no_transition
    ≡ (
      (accept_result (issue_if_due due alice 100).0 alice answer 200 no_transition).0,
      no_transition,
    )
unfolding issue_if_due get bucky_p2p.Base.insert bucky_p2p.Identity.P2pId-discrete
    bucky_p2p.Base.ℕ_discrete serve_all bucky_p2p.NatProbe.Scheduler.set_ports
    bucky_p2p.NatProbe.Scheduler.effective_ports bucky_p2p.Directory.Membership.sort_by is_fresh
    bucky_p2p.NatType.Prediction.NatMappingObservation-discrete
accept_result-twice_example =
    accept_result-twice (issue_if_due due alice 100).0 alice answer answer 200 300 no_transition
      no_transition
      (λ q. cc (
        ap (λ (x : NatProbeScheduler × ProbeTransition). x.1.profile_update) q,
        issue_if_due-accept_result due alice 100 first_directive measured 200 no_transition [] refl
            tt refl (omega arith),
      ))

-- Alice's profile is published.
abbrev answered : NatProbeScheduler
answered = (accept_result (issue_if_due due alice 100).0 alice answer 200 no_transition).0

observe_reported_profile-current_profile_example :
    (current_profile
        (observe_reported_profile answered alice 1 (reflexive 4000) measured 300).0
        alice
        300
      ≡ some published)
    ⊎ ((current_profile
            (observe_reported_profile answered alice 1 (reflexive 4000) measured 300).0
            alice
            300
          ≡ some measured)
        × (published.observed_at ≤ measured.observed_at))
unfolding bucky_p2p.NatProbe.Reports.only_fresh get accept_result issue_if_due bucky_p2p.Base.insert
    bucky_p2p.Identity.P2pId-discrete bucky_p2p.Base.ℕ_discrete serve_all
    bucky_p2p.NatProbe.Scheduler.set_ports bucky_p2p.NatProbe.Scheduler.effective_ports
    bucky_p2p.Directory.Membership.sort_by bucky_p2p.NatProbe.Scheduler.rejection
    bucky_p2p.NatType.Prediction.NatMappingObservation-discrete
observe_reported_profile-current_profile_example =
    observe_reported_profile-current_profile answered alice 1 (reflexive 4000) measured 300
      published refl

abbrev listed : List Endpoint → List Endpoint
listed cert = cert

-- The table has Alice's profile, and her authority's path is gone.
abbrev known_alice : PeerMap listed
known_alice = (alice, record (new_peer listed [] 10) { net_profile = measured }) ∷ []
