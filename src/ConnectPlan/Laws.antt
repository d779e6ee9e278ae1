-- ===== src/ConnectPlan/Laws.antt =====
-- What a connect plan promises (ConnectPlan).
use bucky_p2p.Base.{
  ◌≡◌, ◌≢◌, ◌⊎◌, ◌↔◌, inl, inr, refl, Bool, false, Option, none, some, arith, Timestamp,
}
use bucky_p2p.Rendezvous.Protocol.{
  SnTunnelRendezvousOperation, punch_only, punch_and_reverse_connect, reverse_connect_only,
}
use bucky_p2p.NatType.Prediction.{unknown, symmetric_like, NatPredictionHint}
use bucky_p2p.NatType.Profile.{
  NatTraversalContext, mapping_at, usable_prediction_hint, context_is_supported,
}
use bucky_p2p.ConnectPlan.{
  PlanParty, caller, callee, CandidateMode, predicted, ConnectStrategy, PlanAction,
  PlanParty-discrete, PlanFallback, RendezvousCallerAction, ConnectPlan, RendezvousPlan, action_for,
  rendezvous_plan, select_connect_plan, is_predicted,
}

abbrev pub other : PlanParty → PlanParty
other caller = callee
other callee = caller

abbrev pub Connects : PlanAction → Type 0
Connects (PlanAction.connect mode reverse) = Unit
Connects _ = ⊥

-- One of the two sides connects and the other waits for it, or both run the legacy procedure: no
-- plan makes both sides connect, or both wait.
pub action_for_complementary :
    (plan : ConnectPlan) (p : PlanParty)
    → ((action_for plan p ≡ PlanAction.legacy) × (action_for plan (other p) ≡ PlanAction.legacy))
      ⊎ (Connects (action_for plan p) × (¬ Connects (action_for plan (other p))))
      ⊎ ((¬ Connects (action_for plan p)) × Connects (action_for plan (other p)))
unfolding action_for
action_for_complementary plan caller = ground arith
action_for_complementary plan callee = ground arith

abbrev pub ConnectsWith : CandidateMode → PlanAction → Type 0
ConnectsWith m a = (r : Bool) × (a ≡ PlanAction.connect m r)

-- The two actions that an operation stands for, the callee's and the caller's, and the candidates that
-- the request carries for the callee's part.
abbrev pub Asks :
    SnTunnelRendezvousOperation → Option CandidateMode → PlanAction → PlanAction → Type 0
Asks punch_only request at_callee at_caller =
    (k : CandidateMode) × (m : CandidateMode) × (request ≡ some k)
    × (at_callee ≡ PlanAction.punch_then_wait k)
    × ConnectsWith m at_caller
Asks SnTunnelRendezvousOperation.wait_incoming request at_callee at_caller =
    (m : CandidateMode) × (request ≡ none)
    × (at_callee ≡ PlanAction.wait_incoming)
    × ConnectsWith m at_caller
Asks punch_and_reverse_connect request at_callee at_caller =
    (k : CandidateMode) × (m : CandidateMode) × (request ≡ some k)
    × ConnectsWith k at_callee
    × (at_caller ≡ PlanAction.punch_then_wait m)
Asks reverse_connect_only request at_callee at_caller =
    (k : CandidateMode) × (request ≡ some k)
    × ConnectsWith k at_callee
    × (at_caller ≡ PlanAction.wait_incoming)

-- What the rendezvous has the caller do, as an action.
abbrev pub Does : RendezvousCallerAction → PlanAction → Type 0
Does (RendezvousCallerAction.connect p) a =
    (r : Bool) × (m : CandidateMode) × (a ≡ PlanAction.connect m r) × (p ≡ is_predicted m)
Does (RendezvousCallerAction.punch_then_wait p) a =
    (m : CandidateMode) × (a ≡ PlanAction.punch_then_wait m) × (p ≡ is_predicted m)
Does RendezvousCallerAction.wait_incoming a = a ≡ PlanAction.wait_incoming

-- An action that sends to predicted endpoints of the other side.
abbrev pub predicts : PlanAction → Bool
predicts PlanAction.legacy = false
predicts (PlanAction.connect m r) = is_predicted m
predicts (PlanAction.punch_then_wait m) = is_predicted m
predicts PlanAction.wait_incoming = false

-- A rendezvous carries out the two actions of a plan.
abbrev pub CarriesOut : ConnectPlan → RendezvousPlan → Type 0
CarriesOut plan r =
    Asks r.operation r.request_candidates (action_for plan callee) (action_for plan caller)
    × Does r.caller_action (action_for plan caller)
    × (r.need_predict_endpoint ≡ predicts (action_for plan caller))

parts :
    (s : ConnectStrategy) (o : Option PlanParty) (m : CandidateMode) (q : Option CandidateMode)
    (v : Bool) (f : PlanFallback)
    → let plan : ConnectPlan = record {
      strategy = s;
      connector = o;
      connector_candidates = m;
      peer_candidates = q;
      reverse = v;
      fallback = f;
    } in
      ((rendezvous_plan plan ≡ none) × (action_for plan caller ≡ PlanAction.legacy))
      ⊎ ((r : RendezvousPlan) × (rendezvous_plan plan ≡ some r) × CarriesOut plan r)
unfolding rendezvous_plan action_for PlanParty-discrete
parts s none m q v f = inl (refl, refl)
parts s (some caller) m none v f =
    inr (_, refl, ((m, refl, refl, (v, refl)), (v, m, refl, refl), refl))
parts s (some caller) m (some k) v f =
    inr (_, refl, ((k, m, refl, refl, (v, refl)), (v, m, refl, refl), refl))
parts s (some callee) m none v f = inr (_, refl, ((m, refl, (v, refl), refl), refl, refl))
parts s (some callee) m (some k) v f =
    inr (_, refl, ((m, k, refl, (v, refl), refl), (k, refl, refl), refl))

-- The rendezvous plan carries the two actions out. The operation says whether the callee is to punch,
-- to connect or to wait, and whether the caller punches meanwhile, as the two actions say; the request
-- carries the kind of candidates that the callee's action has, and none if the callee only waits; the
-- caller's part is the caller's action with the same kind of candidates, and predicted endpoints are
-- asked for exactly if it sends to such. There is no rendezvous only where the plan is the legacy one.
pub rendezvous_plan-actions :
    (plan : ConnectPlan)
    → ((rendezvous_plan plan ≡ none) × (action_for plan caller ≡ PlanAction.legacy))
      ⊎ ((r : RendezvousPlan) × (rendezvous_plan plan ≡ some r) × CarriesOut plan r)
rendezvous_plan-actions plan =
    parts plan.strategy plan.connector plan.connector_candidates plan.peer_candidates plan.reverse
      plan.fallback

abbrev pub HasHint : Option NatPredictionHint → Type 0
HasHint o = o ≢ none

-- Predicted candidates of the connector: the caller connects, to a callee whose NAT looks symmetric
-- and whose profile has a usable hint.
pub select_connector_predicted :
    (c : NatTraversalContext) (now : Timestamp) (caller_public callee_public : Bool)
    → (select_connect_plan c now caller_public callee_public).connector_candidates ≡ predicted
    → ((select_connect_plan c now caller_public callee_public).connector ≡ some caller)
      × (mapping_at c.callee_profile now ≡ symmetric_like)
      × HasHint (usable_prediction_hint c.callee_profile now)
unfolding select_connect_plan
select_connector_predicted c now caller_public callee_public h = ground arith

-- Predicted candidates of the side that punches and waits: it punches towards the connector, whose
-- NAT looks symmetric and whose profile has a usable hint.
pub select_peer_predicted :
    (c : NatTraversalContext) (now : Timestamp) (caller_public callee_public : Bool)
    → (select_connect_plan c now caller_public callee_public).peer_candidates ≡ some predicted
    → (((select_connect_plan c now caller_public callee_public).connector ≡ some caller)
        × (mapping_at c.caller_profile now ≡ symmetric_like)
        × HasHint (usable_prediction_hint c.caller_profile now))
      ⊎ (((select_connect_plan c now caller_public callee_public).connector ≡ some callee)
          × (mapping_at c.callee_profile now ≡ symmetric_like)
          × HasHint (usable_prediction_hint c.callee_profile now))
unfolding select_connect_plan
select_peer_predicted c now caller_public callee_public h = ground arith

-- The legacy plan is chosen exactly when neither side is public and the context has another version
-- or one of the profiles says nothing now.
pub select_legacy_iff :
    (c : NatTraversalContext) (now : Timestamp) (caller_public callee_public : Bool)
    → ((select_connect_plan c now caller_public callee_public).connector ≡ none) ↔ (
        (caller_public ≡ false)
        × (callee_public ≡ false)
        × ((context_is_supported c ≡ false)
            ⊎ (mapping_at c.caller_profile now ≡ unknown)
            ⊎ (mapping_at c.callee_profile now ≡ unknown)))
unfolding select_connect_plan
select_legacy_iff c now caller_public callee_public = (λ h. ground arith, λ h. ground arith)
