-- ===== src/Directory/Membership/Laws.antt =====
-- p2p-frame/src/sn/directory/membership.rs: the owners that are chosen for a peer.
use bucky_p2p.Base.{
  ℕ, zero, suc, ◌≤◌, min, ◌≡◌, refl, Bool, true, ◌||◌, some, List, [], ◌∷◌, map, ◌≟◌, length, take,
  keep, All, Timestamp, arith, length-keep-le,
}
use bucky_p2p.Directory.ControlPlane.{id_of}
use bucky_p2p.Directory.ControlPlane.Laws.{All-is_member}
use bucky_p2p.Identity.{P2pId, id_eq}
use bucky_p2p.Directory.Membership.{
  OwnerMember, OwnerMembership, OwnerMemberHealth, insert_sorted, sort_by, static_owner_set,
  owner_set_at, scored, score_before, is_member, member_is_fresh,
}

length-insert_sorted :
    {A : Type 0} (before : A → A → Bool) (x : A) (xs : List A)
    → length (insert_sorted before x xs) ≡ suc (length xs)
unfolding insert_sorted
length-insert_sorted before x [] = refl
length-insert_sorted before x (y ∷ ys) = ground (arith, length-insert_sorted before x ys)

length-sort_by :
    {A : Type 0} (before : A → A → Bool) (xs : List A) → length (sort_by before xs) ≡ length xs
unfolding sort_by
length-sort_by before [] = refl
length-sort_by before (x ∷ xs) =
    ground (arith, length-sort_by before xs, length-insert_sorted before x (sort_by before xs))

length-take : {A : Type 0} (n : ℕ) (xs : List A) → length (take n xs) ≡ min n (length xs)
length-take zero xs = omega arith
length-take (suc n) [] = omega arith
length-take (suc n) (x ∷ xs) = omega (arith, length-take n xs)

length-map : {A B : Type 0} (f : A → B) (xs : List A) → length (map f xs) ≡ length xs
length-map f [] = refl
length-map f (x ∷ xs) = omega (arith, length-map f xs)

All-insert_sorted :
    {A : Type 0} (P : A → Type 0) (before : A → A → Bool) (x : A) (xs : List A)
    → P x
    → All P xs
    → All P (insert_sorted before x xs)
unfolding insert_sorted
All-insert_sorted P before x [] h hs = (h, tt)
All-insert_sorted P before x (y ∷ ys) h hs = ground (arith, All-insert_sorted P before x ys)

All-sort_by :
    {A : Type 0} (P : A → Type 0) (before : A → A → Bool) (xs : List A)
    → All P xs
    → All P (sort_by before xs)
unfolding sort_by
All-sort_by P before [] hs = tt
All-sort_by P before (x ∷ xs) (h, hs) =
    All-insert_sorted P before x (sort_by before xs) h (All-sort_by P before xs hs)

All-take : {A : Type 0} (P : A → Type 0) (n : ℕ) (xs : List A) → All P xs → All P (take n xs)
All-take P zero xs hs = tt
All-take P (suc n) [] hs = tt
All-take P (suc n) (x ∷ xs) (h, hs) = (h, All-take P n xs hs)

-- A property of the images is one of the elements, and the other way round.
All-of_map :
    {A B : Type 0} (P : B → Type 0) (f : A → B) (xs : List A)
    → All P (map f xs)
    → All (λ x. P (f x)) xs
All-of_map P f [] hs = tt
All-of_map P f (x ∷ xs) (h, hs) = (h, All-of_map P f xs hs)

All-map :
    {A B : Type 0} (P : B → Type 0) (f : A → B) (xs : List A)
    → All (λ x. P (f x)) xs
    → All P (map f xs)
All-map P f [] hs = tt
All-map P f (x ∷ xs) (h, hs) = (h, All-map P f xs hs)

-- What is kept satisfies the test, and keeps its other property.
All-keep_test :
    {A : Type 0} (P : A → Type 0) (test : A → Bool) (xs : List A)
    → All P xs
    → All (λ x. P x × (test x ≡ true)) (keep test xs)
All-keep_test P test [] hs = tt
All-keep_test P test (x ∷ xs) hs = ground (arith, All-keep_test P test xs)

module _ (owner_score : P2pId → P2pId → ℕ) where
  -- The static owners of a peer are as many as the configuration asks for, or all the members if they
  -- are fewer.
  pub length-static_owner_set :
      (membership : OwnerMembership) (peer : P2pId)
      → length (static_owner_set owner_score membership peer)
        ≡ min membership.owner_count (length membership.members)
  unfolding static_owner_set
  length-static_owner_set membership peer = omega (
    arith,
    length-map {A = ℕ × P2pId} {B = P2pId} (λ x. x.1)
        (take (min membership.owner_count (length membership.members))
          (sort_by (score_before owner_score) (scored owner_score peer membership.members))),
    length-take (min membership.owner_count (length membership.members))
        (sort_by (score_before owner_score) (scored owner_score peer membership.members)),
    length-sort_by (score_before owner_score) (scored owner_score peer membership.members),
    length-map {A = OwnerMember} {B = ℕ × P2pId} (λ m. (owner_score peer m.sn_id, m.sn_id))
        membership.members,
  )

  All-scored :
      (membership : OwnerMembership) (peer : P2pId)
      → All (λ x. is_member membership x.1 ≡ true) (scored owner_score peer membership.members)
  All-scored membership peer =
      All-map (λ x. is_member membership x.1 ≡ true)
        (λ (m : OwnerMember). (owner_score peer m.sn_id, m.sn_id)) membership.members
        (All-of_map (λ id. is_member membership id ≡ true) id_of membership.members
          (All-is_member membership.members membership.members (λ id h. h)))

  All-static_owner_set :
      (membership : OwnerMembership) (peer : P2pId)
      → All (λ id. is_member membership id ≡ true) (static_owner_set owner_score membership peer)
  unfolding static_owner_set
  All-static_owner_set membership peer =
      All-map {A = ℕ × P2pId} (λ id. is_member membership id ≡ true) (λ x. x.1)
        (take (min membership.owner_count (length membership.members))
          (sort_by (score_before owner_score) (scored owner_score peer membership.members)))
        (All-take (λ x. is_member membership x.1 ≡ true)
          (min membership.owner_count (length membership.members))
          (sort_by (score_before owner_score) (scored owner_score peer membership.members))
          (All-sort_by (λ x. is_member membership x.1 ≡ true) (score_before owner_score)
            (scored owner_score peer membership.members) (All-scored membership peer)))

  -- With a membership, the owners that are asked for a peer are members, each the asking node itself or
  -- a member whose heartbeat is fresh, and at most as many as the configuration asks for.
  pub owner_set_at_sound :
      (membership : OwnerMembership) (peer local : P2pId) (health : OwnerMemberHealth)
      (now : Timestamp)
      → let owners = owner_set_at owner_score (some membership) peer local (some health) now in
        All
          (λ id.
            (is_member membership id ≡ true)
            × ((id ≟ local || member_is_fresh health id now) ≡ true))
          owners
        × (length owners ≤ membership.owner_count)
  unfolding owner_set_at
  owner_set_at_sound membership peer local health now =
      let static = static_owner_set owner_score membership peer in
      (
        All-keep_test (λ id. is_member membership id ≡ true)
            (λ id. id ≟ local || member_is_fresh health id now) static
            (All-static_owner_set membership peer),
        omega (
          arith,
          length-keep-le (λ id. id ≟ local || member_is_fresh health id now) static,
          length-static_owner_set membership peer,
        ),
      )
