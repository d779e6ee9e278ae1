-- ===== src/NatType/Hints.antt =====
-- Hints that are made of observations (NatType/Prediction) pass the test of the ones who use them.
use bucky_p2p.Base.{
  ℕ, suc, ◌+◌, ◌*◌, ◌%◌, ◌≤◌, ◌≡◌, min, true, false, not, some, List, [], ◌∷◌, arith, ◌==◌, ◌≟◌,
  if◌then◌else◌, length, All, any, u16_max,
}
use bucky_p2p.Base.Int.{ℤ, pos, negsuc, sub_ℕ, ◌*ℤ◌, ◌==ℤ◌, checked, i32_max}
use bucky_p2p.Net.{ip, is_ipv4, ip_eq}
use bucky_p2p.Endpoint.{Endpoint}
use bucky_p2p.NatType.Prediction.{
  NatPredictionHint, same, alternating, port_of, step_of, constant_step, last_of,
  hint_from_observations, is_usable_with, delta_parity, parity_eq,
}

-- The hint of the observations `a`, `b` and `rest`.
abbrev hint_of : Endpoint → Endpoint → List Endpoint → NatPredictionHint
hint_of a b rest = record {
  first_observed = a;
  last_observed = last_of b rest;
  sample_count = min (length (a ∷ b ∷ rest)) u16_max;
  port_delta = step_of a b;
  parity = if port_of a % 2 == port_of b % 2 then same else alternating;
}

abbrev Sample : Endpoint → Endpoint → Type 0
Sample a e = (is_ipv4 e.addr ≡ true) × (ip e.addr ≡ ip a.addr)

Sample-tests :
    (a : Endpoint) (xs : List Endpoint)
    → any (λ e. not (is_ipv4 e.addr)) xs ≡ false
    → any (λ e. not (ip e.addr ≟ ip a.addr)) xs ≡ false
    → All (Sample a) xs
Sample-tests a [] h k = tt
Sample-tests a (x ∷ xs) h k = ground (arith, Sample-tests a xs)

hint_inversion :
    (a b : Endpoint) (rest : List Endpoint) (h : NatPredictionHint)
    → hint_from_observations (a ∷ b ∷ rest) ≡ some h
    → (h ≡ hint_of a b rest)
      × All (Sample a) (a ∷ b ∷ rest)
      × ((step_of a b ==ℤ pos 0) ≡ false)
      × (constant_step (step_of a b) a (b ∷ rest) ≡ true)
unfolding hint_from_observations
hint_inversion a b rest h e = ground (arith, Sample-tests a (a ∷ b ∷ rest))

last_of-Sample :
    (a x : Endpoint) (xs : List Endpoint) → Sample a x → All (Sample a) xs → Sample a (last_of x xs)
unfolding last_of
last_of-Sample a x [] h k = h
last_of-Sample a x (y ∷ xs) h k = last_of-Sample a y xs k.0 k.1

-- `k` steps of `delta` lead from the port `p` to the port `q`.
abbrev pub Steps : ℤ → ℕ → ℕ → ℕ → Type 0
Steps (pos d) k p q = q ≡ p + d * k
Steps (negsuc d) k p q = q + suc d * k ≡ p

constant_step-Steps :
    (delta : ℤ) (a : Endpoint) (xs : List Endpoint)
    → constant_step delta a xs ≡ true
    → Steps delta (length xs) (port_of a) (port_of (last_of a xs))
unfolding constant_step last_of
constant_step-Steps (pos d) a [] h = omega arith
constant_step-Steps (negsuc d) a [] h = omega arith
constant_step-Steps (pos d) a (b ∷ xs) h = ground (arith, constant_step-Steps (pos d) b xs)
constant_step-Steps (negsuc d) a (b ∷ xs) h = ground (arith, constant_step-Steps (negsuc d) b xs)

checked_total :
    (delta : ℤ) (k p q : ℕ)
    → p ≤ u16_max
    → q ≤ u16_max
    → Steps delta k p q
    → checked i32_max (delta *ℤ pos k) ≡ some (sub_ℕ q p)
unfolding checked ◌*ℤ◌
checked_total (pos d) k p q hp hq s = ground arith
checked_total (negsuc d) k p q hp hq s = ground arith

delta_parity-step :
    (p q : ℕ)
    → parity_eq (if p % 2 == q % 2 then same else alternating) (delta_parity (sub_ℕ q p)) ≡ true
delta_parity-step p q = ground arith

same_step : (x : ℤ) → (x ==ℤ x) ≡ true
same_step x = ground arith

hint_of-usable :
    (a b : Endpoint) (rest : List Endpoint)
    → port_of a ≤ u16_max
    → port_of (last_of b rest) ≤ u16_max
    → length (a ∷ b ∷ rest) ≤ u16_max
    → All (Sample a) (a ∷ b ∷ rest)
    → (step_of a b ==ℤ pos 0) ≡ false
    → Steps (step_of a b) (length (b ∷ rest)) (port_of a) (port_of (last_of b rest))
    → is_usable_with (hint_of a b rest) (last_of b rest) ≡ true
unfolding is_usable_with
hint_of-usable a b rest ha hl hn (sa, sbr) hz steps =
    let sl = last_of-Sample a b rest sbr.0 sbr.1 in
    ground (
      arith,
      sl,
      checked_total (step_of a b) (suc (length rest)) (port_of a) (port_of (last_of b rest)) ha hl
          steps,
      delta_parity-step (port_of a) (port_of b),
      same_step (step_of a (last_of b rest)),
    )

abbrev pub HasPort : Endpoint → Type 0
HasPort e = port_of e ≤ u16_max

last_of-HasPort :
    (x : Endpoint) (xs : List Endpoint) → HasPort x → All HasPort xs → HasPort (last_of x xs)
unfolding last_of
last_of-HasPort x [] h k = h
last_of-HasPort x (y ∷ xs) h k = last_of-HasPort y xs k.0 k.1

-- A hint that is derived from at most 65535 observations is usable with the last of them: the test
-- of the receiver (total delta, parity, same IPv4 address) accepts what the sender computed.
pub hint_from_observations-usable :
    (obs : List Endpoint) (h : NatPredictionHint)
    → All HasPort obs
    → length obs ≤ u16_max
    → hint_from_observations obs ≡ some h
    → is_usable_with h h.last_observed ≡ true
unfolding hint_from_observations
hint_from_observations-usable [] h ports n e = cc
hint_from_observations-usable (a ∷ []) h ports n e = cc
hint_from_observations-usable (a ∷ b ∷ rest) h (pa, pbr) n e =
    let (shape, samples, nonzero, constant) = hint_inversion a b rest h e in
    rw shape (
      hint_of-usable a b rest pa (last_of-HasPort b rest pbr.0 pbr.1) n samples nonzero
        (constant_step-Steps (step_of a b) a (b ∷ rest) constant))
