-- ===== src/Graph/Sort/Listing.antt =====
-- Lists of nodes: what they hold, and what stands before a node.
use aaai.Prelude.{
  ◌≡◌, refl, ◌∙◌, String, true, false, ◌||◌, List, [], ◌∷◌, ◌++◌, ◌==◌, eq_iff, eq_refl,
  if◌then◌else◌, arith, All, Bool-cases, inl, inr,
}
use aaai.Contract.Extract.{is_listed}
use aaai.Buckets.Disjoint.{IsDistinct}

-- What stands before the first occurrence.
unfoldable pub before : String → List String → List String
before k [] = []
before k (x ∷ xs) = let rest = before k xs in if x == k then [] else x ∷ rest

pub is_listed-append :
    (x : String) (xs ys : List String) → is_listed x (xs ++ ys) ≡ (is_listed x xs || is_listed x ys)
unfolding is_listed
is_listed-append x [] ys = refl
is_listed-append x (y ∷ xs) ys = ground (arith, is_listed-append x xs ys)

pub IsDistinct-append :
    (xs ys : List String)
    → IsDistinct xs
    → IsDistinct ys
    → ((x : String) → is_listed x xs ≡ true → is_listed x ys ≡ false)
    → IsDistinct (xs ++ ys)
unfolding is_listed
IsDistinct-append [] ys d e h = e
IsDistinct-append (x ∷ xs) ys d e h = (
  is_listed-append x xs ys ∙ ground (arith, h x, eq_refl x, d.0),
  IsDistinct-append xs ys d.1 e λ y l. h y (ground arith),
)

pub All-listed :
    (P : String → Type 0) (xs : List String) (x : String) → All P xs → is_listed x xs ≡ true → P x
unfolding is_listed
All-listed P [] x h l = absurd (cc)
All-listed P (y ∷ xs) x h l = elim (Bool-cases (x == y)) [
  | inl e ↦ rw ((eq_iff x y).0 e) h.0
  | inr e ↦ All-listed P xs x h.1 (ground arith)
]

pub listed_All :
    (P : String → Type 0) (xs : List String)
    → ((x : String) → is_listed x xs ≡ true → P x)
    → All P xs
unfolding is_listed
listed_All P [] h = tt
listed_All P (x ∷ xs) h =
    (h x (ground (arith, eq_refl x)), listed_All P xs λ y l. h y (ground arith))

pub before-concat :
    (u k y : String) (xs : List String)
    → is_listed k xs ≡ true
    → is_listed u (before k xs) ≡ is_listed u (before k (xs ++ y ∷ []))
unfolding before is_listed
before-concat u k y [] h = absurd (cc)
before-concat u k y (x ∷ xs) h = ground (arith, before-concat u k y xs, eq_iff x k, eq_iff k x)

pub before-last :
    (k : String) (xs : List String) → is_listed k xs ≡ false → before k (xs ++ k ∷ []) ≡ xs
unfolding before is_listed
before-last k [] h = ground (arith, eq_refl k)
before-last k (x ∷ xs) h = ground (arith, before-last k xs, eq_iff x k, eq_iff k x)
