-- ===== src/Graph/Keys.antt =====
-- The keys of a dictionary, which are distinct, and the lists of keys that grow at their end.
use aaai.Prelude.{
  ◌≡◌, refl, sym, ◌∙◌, String, ◌||◌, List, [], ◌∷◌, ◌++◌, ◌==◌, eq_iff, Dict, get, put, keys,
  contains, get-put, arith, Bool-cases, inl, inr,
}
use aaai.Contract.Extract.{is_listed}
use aaai.Buckets.Disjoint.{IsDistinct}

pub is_listed-concat :
    (x y : String) (xs : List String) → is_listed x (xs ++ y ∷ []) ≡ (is_listed x xs || x == y)
unfolding is_listed
is_listed-concat x y [] = ground arith
is_listed-concat x y (z ∷ xs) = ground (arith, is_listed-concat x y xs)

pub contains-keys : {V : Type 0} (d : Dict V) (k : String) → contains d k ≡ is_listed k (keys d)
unfolding get keys is_listed
contains-keys [] k = refl
contains-keys ((j, v) ∷ d) k = ground (arith, contains-keys d k, eq_iff j k, eq_iff k j)

keys-put :
    {V : Type 0} (d : Dict V) (k x : String) (v : V)
    → is_listed x (keys (put d k v)) ≡ (is_listed x (keys d) || x == k)
keys-put d k x v =
    sym (contains-keys (put d k v) x)
    ∙ rw get-put (ground (arith, contains-keys d x, eq_iff k x, eq_iff x k))

pub put-IsDistinct :
    {V : Type 0} (d : Dict V) (k : String) (v : V)
    → IsDistinct (keys d)
    → IsDistinct (keys (put d k v))
unfolding put keys is_listed
put-IsDistinct [] k v h = (refl, tt)
put-IsDistinct ((j, w) ∷ d) k v h = elim (Bool-cases (j == k)) [
  | inl e ↦ rw e h
  | inr e ↦ rw e (keys-put d k j v ∙ ground (arith, h.0), put-IsDistinct d k v h.1)
]
