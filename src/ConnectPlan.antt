-- ===== src/ConnectPlan.antt =====
-- p2p-frame/src/tunnel/nat_connect_plan.rs: who connects, with which candidates, and what each side
-- does for it.
pub mod Laws
use bucky_p2p.Base.{
  Bool, true, false, not, ◌&&◌, ◌||◌, Option, none, some, Eq, ◌≟◌, if◌then◌else◌, Timestamp,
}
use bucky_p2p.Rendezvous.Protocol.{
  SnTunnelRendezvousOperation, punch_only, punch_and_reverse_connect, reverse_connect_only,
}
use bucky_p2p.NatType.Prediction.{
  NatMappingObservation, unknown, non_symmetric_like, symmetric_like, observation_eq,
}
use bucky_p2p.NatType.Profile.{
  NatTraversalContext, context_is_supported, mapping_at, usable_prediction_hint,
}

pub data PlanParty : Type 0 where
  caller callee : PlanParty

pub data CandidateMode : Type 0 where
  base predicted : CandidateMode

pub data ConnectStrategy : Type 0 where
  legacy public matrix bounded_best_effort : ConnectStrategy

pub data PlanFallback : Type 0 where
  legacy proxy : PlanFallback

pub data PlanAction : Type 0 where
  legacy : PlanAction
  connect : CandidateMode → Bool → PlanAction
  punch_then_wait : CandidateMode → PlanAction
  wait_incoming : PlanAction

pub record ConnectPlan : Type 0 where
  pub strategy : ConnectStrategy
  pub connector : Option PlanParty
  pub connector_candidates : CandidateMode
  pub peer_candidates : Option CandidateMode
  pub reverse : Bool
  pub fallback : PlanFallback

pub data RendezvousCallerAction : Type 0 where
  connect : Bool → RendezvousCallerAction
  punch_then_wait : Bool → RendezvousCallerAction
  wait_incoming : RendezvousCallerAction

pub record RendezvousPlan : Type 0 where
  pub operation : SnTunnelRendezvousOperation
  pub request_candidates : Option CandidateMode
  pub need_predict_endpoint : Bool
  pub caller_action : RendezvousCallerAction

unfoldable pub PlanParty-discrete : Discrete PlanParty
PlanParty-discrete = hlevel

instance abbrev pub party_eq : Eq PlanParty
party_eq = record { dec = PlanParty-discrete }

abbrev pub is_predicted : CandidateMode → Bool
is_predicted base = false
is_predicted predicted = true

-- `ConnectPlan::legacy`.
abbrev pub legacy_plan : ConnectPlan
legacy_plan = record {
  strategy = ConnectStrategy.legacy;
  connector = none;
  connector_candidates = base;
  peer_candidates = none;
  reverse = false;
  fallback = PlanFallback.legacy;
}

abbrev peer_action : Option CandidateMode → PlanAction
peer_action (some mode) = PlanAction.punch_then_wait mode
peer_action none = PlanAction.wait_incoming

unfoldable pub action_for : ConnectPlan → PlanParty → PlanAction
action_for plan party = elim plan.connector [
  | none ↦ PlanAction.legacy
  | some connector ↦
      if connector ≟ party
      then PlanAction.connect plan.connector_candidates plan.reverse
      else peer_action plan.peer_candidates
]

abbrev caller_plan : ConnectPlan → Option CandidateMode → RendezvousPlan
caller_plan plan request = record {
  operation = elim request [
    | some mode ↦ punch_only
    | none ↦ SnTunnelRendezvousOperation.wait_incoming
  ];
  request_candidates = request;
  need_predict_endpoint = is_predicted plan.connector_candidates;
  caller_action = RendezvousCallerAction.connect (is_predicted plan.connector_candidates);
}

abbrev callee_plan : ConnectPlan → Option CandidateMode → RendezvousPlan
callee_plan plan punch = record {
  operation = elim punch [ some mode ↦ punch_and_reverse_connect | none ↦ reverse_connect_only ];
  request_candidates = some plan.connector_candidates;
  need_predict_endpoint = elim punch [ some mode ↦ is_predicted mode | none ↦ false ];
  caller_action = elim punch [
    | some mode ↦ RendezvousCallerAction.punch_then_wait (is_predicted mode)
    | none ↦ RendezvousCallerAction.wait_incoming
  ];
}

unfoldable pub rendezvous_plan : ConnectPlan → Option RendezvousPlan
rendezvous_plan plan = elim plan.connector [
  | none ↦ none
  | some caller ↦ some (caller_plan plan plan.peer_candidates)
  | some callee ↦ some (callee_plan plan plan.peer_candidates)
]

abbrev is_callee : PlanParty → Bool
is_callee callee = true
is_callee caller = false

abbrev pub public_plan : PlanParty → ConnectPlan
public_plan connector = record {
  strategy = public;
  connector = some connector;
  connector_candidates = base;
  peer_candidates = none;
  reverse = is_callee connector;
  fallback = PlanFallback.proxy;
}

abbrev pub matrix_plan : ConnectStrategy → PlanParty → CandidateMode → CandidateMode → ConnectPlan
matrix_plan strategy connector connector_candidates peer_candidates = record {
  strategy = strategy;
  connector = some connector;
  connector_candidates = connector_candidates;
  peer_candidates = some peer_candidates;
  reverse = is_callee connector;
  fallback = PlanFallback.proxy;
}

abbrev pub prediction_or_base : Bool → CandidateMode
prediction_or_base true = predicted
prediction_or_base false = base

-- The `match` on both observations.
unfoldable pub plan_of :
    ConnectStrategy → Bool → Bool → NatMappingObservation → NatMappingObservation → ConnectPlan
plan_of strategy caller_ok callee_ok non_symmetric_like non_symmetric_like =
    matrix_plan strategy caller base base
plan_of strategy caller_ok callee_ok non_symmetric_like symmetric_like =
    matrix_plan strategy callee base (prediction_or_base callee_ok)
plan_of strategy caller_ok callee_ok symmetric_like non_symmetric_like =
    matrix_plan strategy caller base (prediction_or_base caller_ok)
plan_of strategy caller_ok callee_ok symmetric_like symmetric_like =
    matrix_plan strategy caller (prediction_or_base callee_ok) (prediction_or_base caller_ok)
plan_of strategy caller_ok callee_ok _ _ = legacy_plan

abbrev is_some {ℓ} : {A : Type ℓ} → Option A → Bool
is_some none = false
is_some (some a) = true

unfoldable pub select_connect_plan : NatTraversalContext → Timestamp → Bool → Bool → ConnectPlan
unfolding plan_of
select_connect_plan context now caller_public callee_public =
    if callee_public
    then public_plan caller
    else if caller_public
    then public_plan callee
    else if not (context_is_supported context)
    then legacy_plan
    else let at_caller = mapping_at context.caller_profile now in
      let at_callee = mapping_at context.callee_profile now in
      let caller_ok =
        not (at_caller ≟ symmetric_like)
        || is_some (usable_prediction_hint context.caller_profile now) in
      let callee_ok =
        not (at_callee ≟ symmetric_like)
        || is_some (usable_prediction_hint context.callee_profile now) in
      if at_caller ≟ unknown || at_callee ≟ unknown
      then legacy_plan
      else plan_of (if caller_ok && callee_ok then matrix else bounded_best_effort) caller_ok
          callee_ok at_caller at_callee
