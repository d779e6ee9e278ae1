-- ===== src/NatType/Prediction.antt =====
-- p2p-frame/src/nat_type.rs: the prediction hint and the ports that it predicts.
use bucky_p2p.Base.{
  ℕ, zero, suc, ◌+◌, ◌-◌, ◌%◌, min, Bool, true, false, not, ◌&&◌, ◌||◌, Option, none, some, List,
  [], ◌∷◌, ◌++◌, ltb, leb, ◌==◌, Eq, ◌≟◌, if◌then◌else◌, length, any, u16_max,
}
use bucky_p2p.Base.Int.{
  ℤ, pos, pos_part, sub_ℕ, ◌+ℤ◌, ◌*ℤ◌, ◌==ℤ◌, unsigned_abs, checked, i32_max, i64_max,
}
use bucky_p2p.Net.{port, ip, is_ipv4, ip_eq}
use bucky_p2p.Endpoint.{Endpoint}

abbrev pub max_nat_prediction_ports : ℕ
max_nat_prediction_ports = 8

pub data NatMappingObservation : Type 0 where
  unknown non_symmetric_like symmetric_like : NatMappingObservation

pub data NatPortParityRelation : Type 0 where
  same alternating : NatPortParityRelation

unfoldable pub NatMappingObservation-discrete : Discrete NatMappingObservation
NatMappingObservation-discrete = hlevel

instance abbrev pub observation_eq : Eq NatMappingObservation
observation_eq = record { dec = NatMappingObservation-discrete }

abbrev pub parity_eq : NatPortParityRelation → NatPortParityRelation → Bool
parity_eq same same = true
parity_eq alternating alternating = true
parity_eq _ _ = false

pub record NatPredictionHint : Type 0 where
  pub first_observed : Endpoint
  pub last_observed : Endpoint
  pub sample_count : ℕ
  pub port_delta : ℤ
  pub parity : NatPortParityRelation

abbrev pub port_of : Endpoint → ℕ
port_of e = port e.addr

-- `i32::from(b.port()) - i32::from(a.port())`, which cannot overflow.
abbrev pub step_of : Endpoint → Endpoint → ℤ
step_of a b = sub_ℕ (port_of b) (port_of a)

-- Every window of two differs by `delta`.
unfoldable pub constant_step : ℤ → Endpoint → List Endpoint → Bool
constant_step delta a [] = true
constant_step delta a (b ∷ rest) = step_of a b ==ℤ delta && constant_step delta b rest

unfoldable pub last_of : Endpoint → List Endpoint → Endpoint
last_of a [] = a
last_of a (b ∷ rest) = last_of b rest

-- `NatPredictionHint::from_observations`.
unfoldable pub hint_from_observations : List Endpoint → Option NatPredictionHint
unfolding last_of
hint_from_observations [] = none
hint_from_observations (a ∷ []) = none
hint_from_observations (a ∷ b ∷ rest) =
    let observations = a ∷ b ∷ rest in
    let delta = step_of a b in
    if any (λ e. not (is_ipv4 e.addr)) observations
    then none
    else if any (λ e. not (ip e.addr ≟ ip a.addr)) observations
    then none
    else if delta ==ℤ pos 0 || not (constant_step delta a (b ∷ rest))
    then none
    else some (record {
      first_observed = a;
      last_observed = last_of a (b ∷ rest);
      sample_count = min (length observations) u16_max;
      port_delta = delta;
      parity = if port_of a % 2 == port_of b % 2 then same else alternating;
    })

abbrev pub delta_parity : ℤ → NatPortParityRelation
delta_parity delta = if unsigned_abs delta % 2 == 0 then same else alternating

unfoldable pub is_usable_with : NatPredictionHint → Endpoint → Bool
is_usable_with h base =
    if ltb h.sample_count 2
      || h.port_delta ==ℤ pos 0
      || not (is_ipv4 h.first_observed.addr)
      || not (is_ipv4 h.last_observed.addr)
      || not (is_ipv4 base.addr)
      || not (ip h.first_observed.addr ≟ ip h.last_observed.addr)
      || not (ip base.addr ≟ ip h.last_observed.addr)
    then false
    else elim (checked i32_max (h.port_delta *ℤ pos (h.sample_count - 1))) [
      | none ↦ false
      | some expected_total_delta ↦
          if not (step_of h.first_observed h.last_observed ==ℤ expected_total_delta)
          then false
          else parity_eq h.parity (delta_parity h.port_delta)
    ]

abbrev pub contains_port : ℕ → List ℕ → Bool
contains_port p ports = any (λ q. q == p) ports

-- `(1..=u16::MAX).contains(&candidate)`.
abbrev pub in_range : ℤ → Bool
in_range c = leb 1 (pos_part c) && leb (pos_part c) u16_max

-- One candidate: `none` is the `break`.
unfoldable pub candidate : ℕ → ℤ → ℕ → Option ℕ
candidate base delta step = elim (checked i64_max (delta *ℤ pos step)) [
  | none ↦ none
  | some offset ↦ elim (checked i64_max (pos base +ℤ offset)) [
    | none ↦ none
    | some c ↦ if in_range c then some (pos_part c) else none
  ]
]

-- The loop over `step..=limit` with `left` rounds to go.
unfoldable pub predict_from : ℕ → ℤ → ℕ → ℕ → List ℕ → List ℕ
predict_from base delta step zero ports = ports
predict_from base delta step (suc left) ports = elim (candidate base delta step) [
  | none ↦ ports
  | some c ↦
      predict_from base delta (step + 1) left
        (if not (c == base) && not (contains_port c ports) then ports ++ c ∷ [] else ports)
]

unfoldable pub predicted_ports : NatPredictionHint → Endpoint → ℕ → List ℕ
predicted_ports h base limit =
    if not (is_usable_with h base)
    then []
    else predict_from (port_of base) h.port_delta 1 (min limit max_nat_prediction_ports) []
