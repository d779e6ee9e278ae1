-- ===== src/NatProbe/Ports.antt =====
-- The ports of a valid configuration (NatProbe/Scheduler) as the peer checks them (NatProbe).
use bucky_p2p.Base.{
  ℕ, ◌<◌, ◌≡◌, refl, Bool, true, false, ◌&&◌, ◌||◌, List, [], ◌∷◌, arith, ltb, leb, length,
  contains, is_empty,
}
use bucky_p2p.Directory.Membership.{sort_by, insert_sorted}
use bucky_p2p.NatProbe.{collect_set, supported_nat_probe_ports, number_eq}
use bucky_p2p.NatProbe.Scheduler.{effective_ports, differ}

-- In order, each at most the next.
abbrev is_sorted : List ℕ → Bool
is_sorted [] = true
is_sorted (x ∷ []) = true
is_sorted (x ∷ y ∷ ys) = leb x y && is_sorted (y ∷ ys)

insert_sorted-is_sorted_cons :
    (a x : ℕ) (xs : List ℕ)
    → is_sorted (a ∷ xs) ≡ true
    → leb a x ≡ true
    → is_sorted (a ∷ insert_sorted ltb x xs) ≡ true
unfolding insert_sorted
insert_sorted-is_sorted_cons a x [] s h = ground arith
insert_sorted-is_sorted_cons a x (y ∷ ys) s h = ground (arith, insert_sorted-is_sorted_cons y x ys)

insert_sorted-is_sorted :
    (x : ℕ) (xs : List ℕ) → is_sorted xs ≡ true → is_sorted (insert_sorted ltb x xs) ≡ true
unfolding insert_sorted
insert_sorted-is_sorted x [] s = refl
insert_sorted-is_sorted x (y ∷ ys) s = ground (arith, insert_sorted-is_sorted_cons y x ys s)

sort_by-is_sorted : (xs : List ℕ) → is_sorted (sort_by ltb xs) ≡ true
unfolding sort_by
sort_by-is_sorted [] = refl
sort_by-is_sorted (x ∷ xs) = insert_sorted-is_sorted x (sort_by ltb xs) (sort_by-is_sorted xs)

contains-collect_set-below :
    (x y : ℕ) (ys : List ℕ)
    → x < y
    → is_sorted (y ∷ ys) ≡ true
    → contains x (collect_set (y ∷ ys)) ≡ false
contains-collect_set-below x y [] h s = ground arith
contains-collect_set-below x y (z ∷ zs) h s = ground (arith, contains-collect_set-below x z zs)

contains-collect_set-above :
    (x : ℕ) (xs : List ℕ)
    → (is_sorted (x ∷ xs) && differ (x ∷ xs)) ≡ true
    → contains x (collect_set xs) ≡ false
contains-collect_set-above x [] h = refl
contains-collect_set-above x (y ∷ ys) h =
    contains-collect_set-below x y ys (ground arith) (ground arith)

length-collect_set :
    (xs : List ℕ) → is_sorted xs ≡ true → differ xs ≡ true → length (collect_set xs) ≡ length xs
length-collect_set [] s d = refl
length-collect_set (x ∷ []) s d = refl
length-collect_set (x ∷ y ∷ ys) s d =
    ground (arith, length-collect_set (y ∷ ys), contains-collect_set-above x (y ∷ ys))

-- The ports that a configuration leaves, if any, are ports that a peer accepts.
pub effective_ports-supported :
    (ports : List ℕ)
    → (is_empty (effective_ports ports) || supported_nat_probe_ports (effective_ports ports)) ≡ true
unfolding effective_ports
effective_ports-supported ports =
    ground (arith, length-collect_set (sort_by ltb ports), sort_by-is_sorted ports)
