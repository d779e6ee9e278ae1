-- ===== src/Identity.antt =====
-- p2p-frame/src/p2p_identity.rs: the peer id, a byte vector with the derived equality and order.
use bucky_p2p.Base.{
  ℕ, ◌≡◌, ◌≢◌, refl, not, arith, Bool, true, false, List, [], ◌∷◌, ℕ_discrete, Eq, ltb, ◌==◌,
  if◌then◌else◌, all,
}

pub record P2pId : Type 0 where
  pub bytes : List ℕ

unfoldable pub P2pId-discrete : Discrete P2pId
P2pId-discrete = hlevel ℕ_discrete

instance abbrev pub id_eq : Eq P2pId
id_eq = record { dec = P2pId-discrete }

abbrev pub is_default : P2pId → Bool
is_default id = all (λ b. b == 0) id.bytes

-- The derived `Ord` of `Vec<u8>`: `a < b` in the lexicographic order of the bytes.
unfoldable pub bytes_lt : List ℕ → List ℕ → Bool
bytes_lt [] [] = false
bytes_lt [] (y ∷ ys) = true
bytes_lt (x ∷ xs) [] = false
bytes_lt (x ∷ xs) (y ∷ ys) =
    let rest = bytes_lt xs ys in if ltb x y then true else if x == y then rest else false

-- Of two different byte vectors exactly one is less.
pub bytes_lt-other : (a b : List ℕ) → a ≢ b → bytes_lt a b ≡ not (bytes_lt b a)
unfolding bytes_lt
bytes_lt-other [] [] h = absurd (h refl)
bytes_lt-other [] (y ∷ ys) h = refl
bytes_lt-other (x ∷ xs) [] h = refl
bytes_lt-other (x ∷ xs) (y ∷ ys) h = ground (arith, bytes_lt-other xs ys)

pub bytes_lt_asymm : (a b : List ℕ) → bytes_lt a b ≡ true → bytes_lt b a ≡ false
unfolding bytes_lt
bytes_lt_asymm [] [] h = refl
bytes_lt_asymm [] (y ∷ ys) h = refl
bytes_lt_asymm (x ∷ xs) [] h = cc
bytes_lt_asymm (x ∷ xs) (y ∷ ys) h = ground (arith, bytes_lt_asymm xs ys)

unfoldable pub id_lt : P2pId → P2pId → Bool
unfolding bytes_lt
id_lt a b = bytes_lt a.bytes b.bytes
