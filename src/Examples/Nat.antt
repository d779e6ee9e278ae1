-- ===== src/Examples/Nat.antt =====
-- The theorems on NAT profiles and connect plans at concrete inputs.
use bucky_p2p.Base.{
  ℕ, ◌+◌, ◌≡◌, ◌≢◌, ◌≤◌, ◌<◌, ◌⊎◌, refl, List, [], ◌∷◌, Option, none, some, true, false, arith, All,
  min, Timestamp, leb, if◌then◌else◌, as_micros, from_secs, u16_max, length,
}
use bucky_p2p.Base.Int.{pos}
use bucky_p2p.Endpoint.{Endpoint}
use bucky_p2p.NatType.Prediction.{
  NatPredictionHint, NatMappingObservation, unknown, symmetric_like, same, hint_from_observations,
  is_usable_with, predicted_ports, port_of,
}
use bucky_p2p.NatType.Profile.{NatProfile, NatTraversalContext, from_observations}
use bucky_p2p.NatType.Ports.{Line, predicted_ports-Line}
use bucky_p2p.NatType.Hints.{hint_from_observations-usable}
use bucky_p2p.ConnectPlan.{
  ConnectPlan, caller, PlanAction, action_for, rendezvous_plan, select_connect_plan, RendezvousPlan,
}
use bucky_p2p.ConnectPlan.Laws.{CarriesOut, rendezvous_plan-actions}
use bucky_p2p.Examples.Samples.{alice, bob, reflexive}

abbrev observed : List Endpoint
observed = reflexive 4000 ∷ reflexive 4002 ∷ reflexive 4004 ∷ []

abbrev sample_hint : NatPredictionHint
sample_hint = record {
  first_observed = reflexive 4000;
  last_observed = reflexive 4004;
  sample_count = 3;
  port_delta = pos 2;
  parity = same;
}

abbrev sample_profile : NatProfile
sample_profile = from_observations observed 100 (from_secs 60)

abbrev sample_context : NatTraversalContext
sample_context = record {
  version = 1;
  caller_peer_id = alice;
  callee_peer_id = bob;
  caller_profile = sample_profile;
  callee_profile = sample_profile;
}

predicted_ports-Line_example :
    Line 4004 (pos 2) 1 (min 5 8) (predicted_ports sample_hint (reflexive 4004) 5)
unfolding is_usable_with bucky_p2p.Net.IpAddr-discrete bucky_p2p.Base.ℕ_discrete
    bucky_p2p.Base.Int.checked bucky_p2p.Base.Int.◌*ℤ◌
predicted_ports-Line_example =
    predicted_ports-Line sample_hint (reflexive 4004) 5 refl (omega arith)
      (omega arith, omega arith)

hint_from_observations-usable_example : is_usable_with sample_hint sample_hint.last_observed ≡ true
unfolding hint_from_observations bucky_p2p.Net.IpAddr-discrete bucky_p2p.Base.ℕ_discrete
    bucky_p2p.NatType.Prediction.constant_step
hint_from_observations-usable_example =
    hint_from_observations-usable observed sample_hint
      (omega arith, (omega arith, (omega arith, tt))) (omega arith) refl

abbrev sample_plan : ConnectPlan
sample_plan = select_connect_plan sample_context 150 false false

rendezvous_plan-actions_example :
    ((rendezvous_plan sample_plan ≡ none) × (action_for sample_plan caller ≡ PlanAction.legacy))
    ⊎ ((r : RendezvousPlan) × (rendezvous_plan sample_plan ≡ some r) × CarriesOut sample_plan r)
rendezvous_plan-actions_example = rendezvous_plan-actions sample_plan
