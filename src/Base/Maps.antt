-- ===== src/Base/Maps.antt =====
-- `HashMap` as an association list without order: the operations of the source, and their laws.
use Prim.Native.Nat.{suc, ◌≤◌}
use mathlib.Core.Path.{◌≡◌}
use mathlib.Core.Logic.{◌⊎◌, inl, inr}
use mathlib.Core.Bool.{Bool, true, false}
use mathlib.Core.List.{List, [], ◌∷◌}
use mathlib.Core.Option.{Option, none, some}
use native.Mathlib.Omega.{arith}
use bucky_p2p.Base.Tests.{Eq, ◌≟◌, if◌then◌else◌}
use bucky_p2p.Base.Lists.{length, countp, All}

abbrev pub HashMap {ℓ κ} : Type ℓ → Type κ → Type (ℓ ⊔ κ)
HashMap K V = List (K × V)

module _ {ℓ κ} {K : Type ℓ} {V : Type κ} ⦃e : Eq K⦄ where
  unfoldable pub get : K → HashMap K V → Option V
  get k [] = none
  get k ((j, v) ∷ m) = if j ≟ k then some v else get k m

  -- Every entry of the key goes, so that a key has one entry at most.
  unfoldable pub remove : K → HashMap K V → HashMap K V
  remove k [] = []
  remove k ((j, v) ∷ m) = let rest = remove k m in if j ≟ k then rest else (j, v) ∷ rest

  unfoldable pub insert : K → V → HashMap K V → HashMap K V
  unfolding remove
  insert k v m = (k, v) ∷ remove k m

  pub get-remove :
      (k j : K) (m : HashMap K V) → get j (remove k m) ≡ (if k ≟ j then none else get j m)
  unfolding get remove
  get-remove k j [] = ground arith
  get-remove k j ((i, w) ∷ m) = ground (arith, get-remove k j m)

  pub get-insert :
      (k j : K) (v : V) (m : HashMap K V)
      → get j (insert k v m) ≡ (if k ≟ j then some v else get j m)
  unfolding get insert
  get-insert k j v m = ground (arith, get-remove k j m)

  pub length-remove-le : (k : K) (m : HashMap K V) → length (remove k m) ≤ length m
  unfolding remove
  length-remove-le k [] = omega arith
  length-remove-le k ((i, w) ∷ m) = ground (arith, length-remove-le k m)

  pub countp-remove-le :
      (p : K × V → Bool) (k : K) (m : HashMap K V) → countp p (remove k m) ≤ countp p m
  unfolding remove
  countp-remove-le p k [] = omega arith
  countp-remove-le p k ((i, w) ∷ m) = ground (arith, countp-remove-le p k m)

  -- An entry that is found counts once less when its key is removed.
  pub countp-remove_found :
      (p : K × V → Bool) (k : K) (v : V) (m : HashMap K V)
      → get k m ≡ some v
      → p (k, v) ≡ true
      → suc (countp p (remove k m)) ≤ countp p m
  unfolding get remove
  countp-remove_found p k v [] g h = cc
  countp-remove_found p k v ((i, w) ∷ m) g h =
      ground (arith, countp-remove_found p k v m, countp-remove-le p k m)

  -- Writing again under a key, with an entry that counts as the old one did.
  pub countp-insert_found :
      (p : K × V → Bool) (k : K) (v w : V) (m : HashMap K V)
      → get k m ≡ some v
      → p (k, w) ≡ p (k, v)
      → countp p (insert k w m) ≤ countp p m
  unfolding insert
  countp-insert_found p k v w m g h =
      ground (arith, countp-remove_found p k v m g, countp-remove-le p k m)

  pub countp-insert-le :
      (p : K × V → Bool) (k : K) (v : V) (m : HashMap K V)
      → countp p (insert k v m) ≤ suc (countp p m)
  unfolding insert
  countp-insert-le p k v m = ground (arith, countp-remove-le p k m)

  pub countp-insert-false :
      (p : K × V → Bool) (k : K) (v : V) (m : HashMap K V)
      → p (k, v) ≡ false
      → countp p (insert k v m) ≤ countp p m
  unfolding insert
  countp-insert-false p k v m h = ground (arith, countp-remove-le p k m)

module _ {ℓ κ} {K : Type ℓ} {V : Type κ} ⦃e : Eq K⦄ where
  pub All-remove {μ} : (P : K × V → Type μ) (k : K) (m : HashMap K V) → All P m → All P (remove k m)
  unfolding remove
  All-remove P k [] h = tt
  All-remove P k ((i, w) ∷ m) h = ground (arith, All-remove P k m h.1)

  pub All-insert {μ} :
      (P : K × V → Type μ) (k : K) (v : V) (m : HashMap K V)
      → P (k, v)
      → All P m
      → All P (insert k v m)
  unfolding insert
  All-insert P k v m hk h = (hk, All-remove P k m h)

  get-cons :
      (k i : K) (v w : V) (m : HashMap K V)
      → get k ((i, w) ∷ m) ≡ some v
      → ((i ≡ k) × (w ≡ v)) ⊎ (get k m ≡ some v)
  unfolding get
  get-cons k i v w m g = ground arith

  pub All-get {μ} :
      (P : K × V → Type μ) (k : K) (v : V) (m : HashMap K V) → All P m → get k m ≡ some v → P (k, v)
  unfolding get
  All-get P k v [] h g = cc
  All-get P k v ((i, w) ∷ m) h g = elim (get-cons k i v w m g) [
    | inl (q, r) ↦ rw (← q, ← r) h.0
    | inr g' ↦ All-get P k v m h.1 g'
  ]
