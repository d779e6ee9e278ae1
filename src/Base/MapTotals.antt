-- ===== src/Base/MapTotals.antt =====
-- Maps whose keys are distinct, and sums over their entries.
use Prim.Native.Nat.{ℕ, ◌+◌}
use mathlib.Core.Path.{◌≡◌, refl}
use mathlib.Core.Bool.{Bool}
use mathlib.Core.List.{[], ◌∷◌}
use mathlib.Core.Option.{none, some}
use native.Mathlib.Omega.{arith}
use bucky_p2p.Base.Tests.{Eq}
use bucky_p2p.Base.Lists.{keep}
use bucky_p2p.Base.Maps.{HashMap, get, remove, insert, get-remove}

module _ {ℓ κ} {K : Type ℓ} {V : Type κ} ⦃e : Eq K⦄ where
  abbrev pub NodupKeys : HashMap K V → Type κ
  NodupKeys [] = Unit
  NodupKeys ((k, v) ∷ m) = (get k m ≡ none) × NodupKeys m

  get-keep-none :
      (p : K × V → Bool) (k : K) (m : HashMap K V) → get k m ≡ none → get k (keep p m) ≡ none
  unfolding get
  get-keep-none p k [] h = refl
  get-keep-none p k ((i, w) ∷ m) h = ground (arith, get-keep-none p k m)

  pub NodupKeys-keep : (p : K × V → Bool) (m : HashMap K V) → NodupKeys m → NodupKeys (keep p m)
  NodupKeys-keep p [] h = tt
  NodupKeys-keep p ((i, w) ∷ m) h = ground (arith, NodupKeys-keep p m h.1, get-keep-none p i m h.0)

  get-remove-none : (k j : K) (m : HashMap K V) → get j m ≡ none → get j (remove k m) ≡ none
  get-remove-none k j m h = ground (arith, get-remove k j m)

  pub NodupKeys-remove : (k : K) (m : HashMap K V) → NodupKeys m → NodupKeys (remove k m)
  unfolding remove
  NodupKeys-remove k [] h = tt
  NodupKeys-remove k ((i, w) ∷ m) h =
      ground (arith, NodupKeys-remove k m h.1, get-remove-none k i m h.0)

  pub get-remove_self : (k : K) (m : HashMap K V) → get k (remove k m) ≡ none
  get-remove_self k m = ground (arith, get-remove k k m)

  pub NodupKeys-insert : (k : K) (v : V) (m : HashMap K V) → NodupKeys m → NodupKeys (insert k v m)
  unfolding insert
  NodupKeys-insert k v m h = (get-remove_self k m, NodupKeys-remove k m h)

  abbrev pub total : (K × V → ℕ) → HashMap K V → ℕ
  total f [] = 0
  total f (x ∷ m) = f x + total f m

  pub total-remove-none :
      (f : K × V → ℕ) (k : K) (m : HashMap K V) → get k m ≡ none → total f (remove k m) ≡ total f m
  unfolding get remove
  total-remove-none f k [] h = refl
  total-remove-none f k ((i, w) ∷ m) h = ground (arith, total-remove-none f k m)

  pub total-remove_found :
      (f : K × V → ℕ) (k : K) (v : V) (m : HashMap K V)
      → NodupKeys m
      → get k m ≡ some v
      → total f m ≡ f (k, v) + total f (remove k m)
  unfolding get remove
  total-remove_found f k v [] n h = ground arith
  total-remove_found f k v ((i, w) ∷ m) n h =
      ground (arith, total-remove_found f k v m n.1, total-remove-none f k m)

  -- A write over an entry, and a write under a new key.
  pub total-insert_found :
      (f : K × V → ℕ) (k : K) (v w : V) (m : HashMap K V)
      → NodupKeys m
      → get k m ≡ some v
      → total f m + f (k, w) ≡ f (k, v) + total f (insert k w m)
  unfolding insert
  total-insert_found f k v w m n h = omega (arith, total-remove_found f k v m n h)

  pub total-insert-none :
      (f : K × V → ℕ) (k : K) (w : V) (m : HashMap K V)
      → get k m ≡ none
      → total f (insert k w m) ≡ f (k, w) + total f m
  unfolding insert
  total-insert-none f k w m h = omega (arith, total-remove-none f k m h)
