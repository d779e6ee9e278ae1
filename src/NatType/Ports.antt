-- ===== src/NatType/Ports.antt =====
-- The ports that a hint predicts (NatType/Prediction).
use mathlib.Core.List.{append-nil, append_assoc}
use bucky_p2p.Base.{
  ℕ, zero, suc, ◌+◌, ◌-◌, ◌*◌, ◌≤◌, ◌<◌, ◌≡◌, ◌≢◌, refl, min, true, false, none, some, List, [],
  ◌∷◌, ◌++◌, arith, ◌==◌, length, Bool-cases, Option-cases, inl, inr, All, ◌⊎◌, u16_max,
}
use bucky_p2p.Base.Int.{ℤ, pos, negsuc, pos_part, neg_part, ◌+ℤ◌, ◌*ℤ◌, ◌==ℤ◌, checked}
use bucky_p2p.Endpoint.{Endpoint}
use bucky_p2p.NatType.Prediction.{
  NatPredictionHint, port_of, is_usable_with, candidate, predict_from, predicted_ports,
  contains_port,
}

-- The arithmetic progression from the base port: `k` steps of `delta`, while they stay in range.
abbrev pub OnLine : ℕ → ℤ → ℕ → ℕ → Type 0
OnLine base (pos d) k c = c ≡ base + d * k
OnLine base (negsuc d) k c = c + suc d * k ≡ base

-- A delta of 32 bits and a base port of 16.
abbrev pub IsDelta : ℤ → Type 0
IsDelta delta = (pos_part delta ≤ 2_147_483_647) × (neg_part delta ≤ 2_147_483_648)

candidate-OnLine :
    (base : ℕ) (delta : ℤ) (k c : ℕ)
    → base ≤ u16_max
    → IsDelta delta
    → k ≤ 9
    → candidate base delta k ≡ some c
    → OnLine base delta k c × (1 ≤ c) × (c ≤ u16_max)
unfolding candidate checked ◌+ℤ◌ ◌*ℤ◌
candidate-OnLine base (pos d) k c hb hd hk h = ground arith
candidate-OnLine base (negsuc d) k c hb hd hk h = ground arith

abbrev pub LeavesRange : ℕ → ℤ → ℕ → Type 0
LeavesRange base (pos d) k = u16_max < base + d * k
LeavesRange base (negsuc d) k = base ≤ suc d * k

abbrev IsNonzero : ℤ → Type 0
IsNonzero (pos d) = 0 < d
IsNonzero (negsuc d) = Unit

mul_pos : (d k : ℕ) → 0 < d → 0 < k → 0 < d * k
mul_pos d k h j = grind arith

candidate-LeavesRange :
    (base : ℕ) (delta : ℤ) (k : ℕ)
    → base ≤ u16_max
    → IsDelta delta
    → IsNonzero delta
    → 0 < k
    → k ≤ 9
    → candidate base delta k ≡ none
    → LeavesRange base delta k
unfolding candidate checked ◌+ℤ◌ ◌*ℤ◌
candidate-LeavesRange base (pos d) k hb hd hz h0 hk h = ground (arith, mul_pos d k hz h0)
candidate-LeavesRange base (negsuc d) k hb hd hz h0 hk h = ground arith

-- The list goes through the progression from step `k` on, at most `n` steps far, and stops early
-- only where the next port would be out of range.
pub Line : ℕ → ℤ → ℕ → ℕ → List ℕ → Type 0
Line base delta k n [] = (n ≡ 0) ⊎ LeavesRange base delta k
Line base delta k n (c ∷ cs) =
    (0 < n) × OnLine base delta k c × (1 ≤ c) × (c ≤ u16_max) × Line base delta (k + 1) (n - 1) cs

-- A port that came before step `k`.
abbrev Before : ℕ → ℤ → ℕ → ℕ → Type 0
Before base (pos d) k p = p < base + d * k
Before base (negsuc d) k p = base < p + suc d * k

All-Before :
    (base : ℕ) (delta : ℤ) (k c : ℕ) (ports : List ℕ)
    → IsNonzero delta
    → OnLine base delta k c
    → All (Before base delta k) ports
    → All (Before base delta (k + 1)) (ports ++ c ∷ [])
All-Before base (pos d) k c [] z l h = (omega arith, tt)
All-Before base (negsuc d) k c [] z l h = (omega arith, tt)
All-Before base (pos d) k c (p ∷ ports) z l h =
    (omega arith, All-Before base (pos d) k c ports z l h.1)
All-Before base (negsuc d) k c (p ∷ ports) z l h =
    (omega arith, All-Before base (negsuc d) k c ports z l h.1)

not-contains_port :
    (base : ℕ) (delta : ℤ) (k c : ℕ) (ports : List ℕ)
    → OnLine base delta k c
    → All (Before base delta k) ports
    → contains_port c ports ≡ false
not-contains_port base delta k c [] l h = refl
not-contains_port base (pos d) k c (p ∷ ports) l h =
    ground (arith, not-contains_port base (pos d) k c ports l h.1)
not-contains_port base (negsuc d) k c (p ∷ ports) l h =
    ground (arith, not-contains_port base (negsuc d) k c ports l h.1)

OnLine-ne :
    (base : ℕ) (delta : ℤ) (k c : ℕ)
    → IsNonzero delta
    → OnLine base delta k c
    → 0 < k
    → (c == base) ≡ false
OnLine-ne base (pos d) k c z l h = grind arith
OnLine-ne base (negsuc d) k c z l h = grind arith

suc_sub : (n : ℕ) → suc n - 1 ≡ n
suc_sub n = omega arith

predict_from-Line :
    (base : ℕ) (delta : ℤ) (k left : ℕ) (ports : List ℕ)
    → base ≤ u16_max
    → IsDelta delta
    → IsNonzero delta
    → 0 < k
    → k + left ≤ 9
    → All (Before base delta k) ports
    → (rest : List ℕ) × (predict_from base delta k left ports ≡ ports ++ rest)
      × Line base delta k left rest
unfolding predict_from Line
predict_from-Line base delta k zero ports hb hd hz hk hl h = ([], rw append-nil, inl refl)
predict_from-Line base delta k (suc left) ports hb hd hz hk hl h =
    elim (Option-cases (candidate base delta k)) [
      | inl e ↦ (
        [],
        rw (e, predict_from, append-nil),
        inr (candidate-LeavesRange base delta k hb hd hz hk (omega arith) e),
      )
      | inr (c, e) ↦
          let l = candidate-OnLine base delta k c hb hd (omega arith) e in
          let (rest, eq, line) =
            predict_from-Line base delta (k + 1) left (ports ++ c ∷ []) hb hd hz (omega arith)
              (omega arith) (All-Before base delta k c ports hz l.0 h) in
          (
            c ∷ rest,
            rw (
              e,
              predict_from,
              OnLine-ne base delta k c hz l.0 hk,
              not-contains_port base delta k c ports l.0 h,
              eq,
              append_assoc,
            ),
            (omega arith, l.0, l.1, l.2, rw (suc_sub left) line),
          )
    ]

delta_tested :
    (h : NatPredictionHint) (base : Endpoint)
    → is_usable_with h base ≡ true
    → (h.port_delta ==ℤ pos 0) ≡ false
unfolding is_usable_with
delta_tested h base u = elim (Bool-cases (h.port_delta ==ℤ pos 0)) [
  | inl e ↦ ground arith
  | inr e ↦ e
]

predicted_ports_unusable :
    (h : NatPredictionHint) (base : Endpoint) (limit : ℕ)
    → is_usable_with h base ≡ false
    → predicted_ports h base limit ≡ []
unfolding predicted_ports
predicted_ports_unusable h base limit u = rw u

is_usable_with-IsNonzero :
    (h : NatPredictionHint) (base : Endpoint)
    → is_usable_with h base ≡ true
    → IsNonzero h.port_delta
is_usable_with-IsNonzero h base u = nonzero h.port_delta (delta_tested h base u)
  where
    nonzero : (delta : ℤ) → (delta ==ℤ pos 0) ≡ false → IsNonzero delta
    nonzero (pos d) e = ground arith
    nonzero (negsuc d) e = tt

-- A usable hint predicts the arithmetic progression of its delta from the base port: its ports are
-- the base port plus 1, 2, … deltas, each between 1 and 65535, up to the limit and to 8 at most, and
-- fewer only if the next one would leave the range of ports. (The delta fits 32 bits and the base
-- port 16, as their types say.)
pub predicted_ports-Line :
    (h : NatPredictionHint) (base : Endpoint) (limit : ℕ)
    → is_usable_with h base ≡ true
    → port_of base ≤ u16_max
    → IsDelta h.port_delta
    → Line (port_of base) h.port_delta 1 (min limit 8) (predicted_ports h base limit)
unfolding predicted_ports
predicted_ports-Line h base limit u hb hd =
    let (rest, eq, line) =
      predict_from-Line (port_of base) h.port_delta 1 (min limit 8) [] hb hd
        (is_usable_with-IsNonzero h base u) (omega arith) (omega arith) tt in
    rw (u, eq) line

abbrev pub Distinct : List ℕ → Type 0
Distinct [] = Unit
Distinct (p ∷ ports) = All (λ q. q ≢ p) ports × Distinct ports

abbrev After : ℕ → ℤ → ℕ → ℕ → Type 0
After base (pos d) k p = base + d * k ≤ p
After base (negsuc d) k p = p + suc d * k ≤ base

After-weaken :
    (base : ℕ) (delta : ℤ) (k : ℕ) (ports : List ℕ)
    → All (After base delta (k + 1)) ports
    → All (After base delta k) ports
After-weaken base delta k [] h = tt
After-weaken base (pos d) k (p ∷ ports) h = (omega arith, After-weaken base (pos d) k ports h.1)
After-weaken base (negsuc d) k (p ∷ ports) h =
    (omega arith, After-weaken base (negsuc d) k ports h.1)

Line-After :
    (base : ℕ) (delta : ℤ) (k n : ℕ) (ports : List ℕ)
    → Line base delta k n ports
    → All (After base delta k) ports
unfolding Line
Line-After base delta k n [] l = tt
Line-After base (pos d) k n (p ∷ ports) l = (
  omega arith,
  After-weaken base (pos d) k ports (Line-After base (pos d) (k + 1) (n - 1) ports l.4),
)
Line-After base (negsuc d) k n (p ∷ ports) l = (
  omega arith,
  After-weaken base (negsuc d) k ports (Line-After base (negsuc d) (k + 1) (n - 1) ports l.4),
)

After-ne :
    (base : ℕ) (delta : ℤ) (k c : ℕ) (ports : List ℕ)
    → IsNonzero delta
    → OnLine base delta k c
    → All (After base delta (k + 1)) ports
    → All (λ q. q ≢ c) ports
After-ne base delta k c [] z l h = tt
After-ne base (pos d) k c (p ∷ ports) z l h =
    (λ e. omega arith, After-ne base (pos d) k c ports z l h.1)
After-ne base (negsuc d) k c (p ∷ ports) z l h =
    (λ e. omega arith, After-ne base (negsuc d) k c ports z l h.1)

Line-Distinct :
    (base : ℕ) (delta : ℤ) (k n : ℕ) (ports : List ℕ)
    → IsNonzero delta
    → 0 < k
    → Line base delta k n ports
    → Distinct (base ∷ ports) × (length ports ≤ n) × All (λ p. (1 ≤ p) × (p ≤ u16_max)) ports
unfolding Line
Line-Distinct base delta k n [] z hk l = ((tt, tt), omega arith, tt)
Line-Distinct base delta k n (c ∷ ports) z hk (hn, on, lo, hi, l) =
    let rest = Line-Distinct base delta (k + 1) (n - 1) ports z (omega arith) l in
    (
      (
        (λ e. base_ne (OnLine-ne base delta k c z on hk) e, rest.0.0),
        (
          After-ne base delta k c ports z on (Line-After base delta (k + 1) (n - 1) ports l),
          rest.0.1,
        ),
      ),
      omega arith,
      ((lo, hi), rest.2),
    )
  where
    base_ne : (c == base) ≡ false → c ≢ base
    base_ne h e = ground arith

-- Usable or not, a hint never predicts the base port, nor a port twice, nor a port outside 1 to
-- 65535, nor more ports than the limit or than 8. (The delta fits 32 bits and the base port 16.)
pub predicted_ports_bounds :
    (h : NatPredictionHint) (base : Endpoint) (limit : ℕ)
    → port_of base ≤ u16_max
    → IsDelta h.port_delta
    → Distinct (port_of base ∷ predicted_ports h base limit)
      × (length (predicted_ports h base limit) ≤ min limit 8)
      × All (λ p. (1 ≤ p) × (p ≤ u16_max)) (predicted_ports h base limit)
predicted_ports_bounds h base limit hb hd = elim (Bool-cases (is_usable_with h base)) [
  | inl u ↦
      Line-Distinct (port_of base) h.port_delta 1 (min limit 8) (predicted_ports h base limit)
        (is_usable_with-IsNonzero h base u) (omega arith)
        (predicted_ports-Line h base limit u hb hd)
  | inr u ↦ rw (predicted_ports_unusable h base limit u) ((tt, tt), omega arith, tt)
]
