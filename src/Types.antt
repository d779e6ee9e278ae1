-- ===== src/Types.antt =====
-- p2p-frame/src/types.rs: the 32-bit identifiers, their generators and the order of tunnel ids. A
-- generator is the value of its atomic counter; `generate` gives the new counter and the identifier.
pub mod Generator
pub mod Order
use Prim.Native.Nat.{compare, Ordering}
use bucky_p2p.Base.{
  ℕ, zero, suc, ◌+◌, ◌-◌, ◌%◌, max, min, Bool, true, false, ◌||◌, ltb, ◌==◌, if◌then◌else◌, wrap32,
}

-- `Sequence`, `TunnelId`, `TunnelCandidateId` and `SessionId` wrap a `u32`.
abbrev pub Sequence : Type 0
Sequence = ℕ

abbrev pub TunnelId : Type 0
TunnelId = ℕ

abbrev pub SessionId : Type 0
SessionId = ℕ

-- `fetch_add(1)`: the new counter and the old one.
unfoldable pub fetch_add : ℕ → ℕ × ℕ
fetch_add cur = (wrap32 (cur + 1), cur)

-- The generators of sequences, tunnel ids and candidate ids have the same body.
unfoldable pub generate : ℕ → ℕ × ℕ
unfolding fetch_add
generate cur = let (cur', v) = fetch_add cur in if v == 0 then fetch_add cur' else (cur', v)

unfoldable pub generate_session : ℕ → ℕ × SessionId
unfolding fetch_add
generate_session cur = let (cur', v) = fetch_add cur in (cur', wrap32 (v + 1))

-- The counter after `n` calls.
pub after : ℕ → ℕ → ℕ
after zero cur = cur
after (suc n) cur = after n (generate cur).0

-- The `n`-th identifier, counted from 0.
pub nth : ℕ → ℕ → ℕ
nth n cur = (generate (after n cur)).1

abbrev pub half : ℕ
half = 2_147_483_647

-- `PartialOrd` of `TunnelId`: nonzero ids that are further apart than half the range have wrapped.
unfoldable pub partial_cmp : TunnelId → TunnelId → Ordering
partial_cmp a b =
    if a == 0 || b == 0
    then compare a b
    else if ltb half (max a b - min a b)
    then (if ltb b a then Ordering.lt else Ordering.gt)
    else compare a b

-- The derived `Ord` of `TunnelId`.
abbrev pub cmp : TunnelId → TunnelId → Ordering
cmp a b = compare a b
