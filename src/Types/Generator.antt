-- ===== src/Types/Generator.antt =====
-- The identifiers that a generator hands out (Types).
use bucky_p2p.Base.{
  ℕ, zero, suc, ◌+◌, ◌-◌, ◌%◌, ◌≤◌, ◌<◌, ◌≡◌, ◌≢◌, refl, arith, if◌then◌else◌, ◌==◌,
}
use bucky_p2p.Types.{generate, after, nth}

abbrev pub period : ℕ
period = 4_294_967_295

-- A step of the cycle 1, 2, …, 2^32 - 1, 1.
abbrev succ_id : ℕ → ℕ
succ_id v = if v == period then 1 else v + 1

generate_lem :
    (cur : ℕ)
    → cur < 4_294_967_296
    → let (cur', v) = generate cur in
      (cur' < 4_294_967_296) × (0 < v) × (v ≤ period) × ((generate cur').1 ≡ succ_id v)
unfolding generate
generate_lem cur h = ground arith

after-lt : (n cur : ℕ) → cur < 4_294_967_296 → after n cur < 4_294_967_296
unfolding after
after-lt zero cur h = h
after-lt (suc n) cur h = after-lt n (generate cur).0 (generate_lem cur h).0

after-suc : (n cur : ℕ) → after (suc n) cur ≡ (generate (after n cur)).0
unfolding after
after-suc zero cur = refl
after-suc (suc n) cur = after-suc n (generate cur).0

-- The identifiers in closed form.
nth_closed : (n cur : ℕ) → cur < 4_294_967_296 → nth n cur ≡ (nth 0 cur - 1 + n) % period + 1
unfolding nth after
nth_closed zero cur h = ground (arith, generate_lem cur h)
nth_closed (suc n) cur h = ground (
  arith,
  generate_lem cur h,
  after-suc n cur,
  nth_closed n cur h,
  generate_lem (after n cur) (after-lt n cur h),
)

-- No identifier is 0, and each fits 32 bits, from any counter and after any number of calls.
pub nth_bounds : (n cur : ℕ) → cur < 4_294_967_296 → (0 < nth n cur) × (nth n cur < 4_294_967_296)
unfolding nth
nth_bounds n cur h = omega (arith, generate_lem (after n cur) (after-lt n cur h))

-- Two identifiers of one generator that are fewer than 2^32 - 1 calls apart differ, also where the
-- counter wraps between them.
nth_distinct :
    (i d cur : ℕ) → cur < 4_294_967_296 → 0 < d → d < period → nth i cur ≢ nth (i + d) cur
nth_distinct i d cur h lo hi e = omega (arith, nth_closed i cur h, nth_closed (i + d) cur h)
