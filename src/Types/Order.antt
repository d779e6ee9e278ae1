-- ===== src/Types/Order.antt =====
-- The wrap-aware order of tunnel ids (Types).
use Prim.Native.Nat.{Ordering}
use bucky_p2p.Base.{ℕ, ◌+◌, ◌-◌, ◌≤◌, ◌<◌, ◌≡◌, ◌≢◌, ◌⊎◌, ◌↔◌, arith, wrap32, max, min}
use bucky_p2p.Types.{TunnelId, partial_cmp, cmp, half}

abbrev pub swap : Ordering → Ordering
swap Ordering.lt = Ordering.gt
swap Ordering.eq = Ordering.eq
swap Ordering.gt = Ordering.lt

-- Comparing the other way round gives the opposite answer, and only equal ids compare equal.
pub partial_cmp-swap :
    (a b : TunnelId)
    → (partial_cmp b a ≡ swap (partial_cmp a b)) × ((partial_cmp a b ≡ Ordering.eq) ↔ (a ≡ b))
unfolding partial_cmp
partial_cmp-swap a b = ground arith

-- An id counts as newer than each nonzero id that it follows by at most half the range, also where
-- the 32-bit counter has wrapped in between.
pub partial_cmp_later :
    (a d : ℕ)
    → 0 < a
    → a < 4_294_967_296
    → 0 < d
    → d ≤ half
    → 0 < wrap32 (a + d)
    → partial_cmp a (wrap32 (a + d)) ≡ Ordering.lt
unfolding partial_cmp
partial_cmp_later a d ha hb hd he hw = ground arith

-- `Ord::cmp` is derived: it disagrees with `partial_cmp` on every pair of nonzero ids that are
-- further apart than half the range, and only there.
pub cmp_disagrees :
    (a b : TunnelId)
    → (cmp a b ≢ partial_cmp a b) ↔ ((a ≢ 0) × (b ≢ 0) × (half < max a b - min a b))
unfolding partial_cmp
cmp_disagrees a b = (
  λ ne. far ne,
  λ (h : (a ≢ 0) × (b ≢ 0) × (half < max a b - min a b)) (e : cmp a b ≡ partial_cmp a b).
      ground arith,
)
  where
    near : (a ≡ 0) ⊎ (b ≡ 0) ⊎ (max a b - min a b ≤ half) → cmp a b ≡ partial_cmp a b
    near h = ground arith

    far : cmp a b ≢ partial_cmp a b → (a ≢ 0) × (b ≢ 0) × (half < max a b - min a b)
    far ne = ground (arith, near)

-- The order is not transitive: three nonzero ids, each at most half the range after the one before and
-- the last more than half of it after the first, form a cycle.
pub partial_cmp_cycle :
    (a b c : TunnelId)
    → 0 < a
    → a < b
    → b < c
    → b - a ≤ half
    → c - b ≤ half
    → half < c - a
    → (partial_cmp a b ≡ Ordering.lt)
      × (partial_cmp b c ≡ Ordering.lt)
      × (partial_cmp c a ≡ Ordering.lt)
unfolding partial_cmp
partial_cmp_cycle a b c h0 h1 h2 h3 h4 h5 = ground arith
