-- ===== src/Graph/Sort/Degrees.antt =====
-- relative_graph.py, `_pretty_result`: the in-degrees, as the number of edges from nodes not yet listed.
use aaai.Prelude.{
  ◌≡◌, refl, ◌∙◌, ℕ, suc, ◌+◌, ◌<◌, String, true, false, ◌||◌, List, [], ◌∷◌, ◌++◌, ◌==◌, eq_iff,
  eq_refl, Dict, get, keys, contains, get-put, or_else, if◌then◌else◌, arith, Bool-cases, inl, inr,
  ap, ltb,
}
use aaai.Prelude.Int.{ℤ, pos}
use aaai.Contract.Extract.{is_listed}
use aaai.Buckets.Disjoint.{IsDistinct}
use aaai.Graph.Keys.{contains-keys, is_listed-concat}
use aaai.Graph.Steps.Progress.{targets}
use aaai.Graph.Sort.{increment, ensure_zero, count_target, count_targets, count_edges}

unfoldable pub count : String → List String → ℕ
count k [] = 0
count k (x ∷ xs) = let rest = count k xs in if x == k then suc rest else rest

-- The edges into a node from the entries whose node is not listed as done.
unfoldable pub remaining : Dict (Dict ℕ) → List String → String → ℕ
unfolding count
remaining [] done k = 0
remaining ((u, v) ∷ g) done k =
    let rest = remaining g done k in if is_listed u done then rest else count k (keys v) + rest

pub count_listed : (k : String) (xs : List String) → is_listed k xs ≡ true → 0 < count k xs
unfolding count is_listed
count_listed k [] h = absurd (cc)
count_listed k (x ∷ xs) h = ground (arith, count_listed k xs, eq_iff k x, eq_iff x k)

pub listed_count : (k : String) (xs : List String) → 0 < count k xs → is_listed k xs ≡ true
unfolding count is_listed
listed_count k [] h = absurd (omega arith)
listed_count k (x ∷ xs) h = ground (arith, listed_count k xs, eq_iff k x, eq_iff x k)

unfoldable pub degree : Dict ℤ → String → ℤ
degree d k = or_else (get d k) (pos 0)

degree-ensure_zero : (d : Dict ℤ) (u k : String) → degree (ensure_zero d u) k ≡ degree d k
unfolding degree ensure_zero
degree-ensure_zero d u k = rw get-put (ground (arith, eq_iff u k))

degree-count_target :
    (d : Dict ℤ) (x k : String) (n : ℕ)
    → degree d k ≡ pos n
    → degree (count_target d x) k ≡ pos (if x == k then suc n else n)
unfolding degree count_target increment
degree-count_target d x k n h = rw get-put (ground (arith, eq_iff x k))

degree-count_targets :
    (ks : List String) (d : Dict ℤ) (k : String) (n m : ℕ)
    → degree d k ≡ pos n
    → count k ks + n ≡ m
    → degree (count_targets d ks) k ≡ pos m
unfolding count_targets count
degree-count_targets [] d k n m h e = h ∙ ap pos (omega arith)
degree-count_targets (x ∷ xs) d k n m h e =
    degree-count_targets xs (count_target d x) k (if x == k then suc n else n) m
      (degree-count_target d x k n h) (ground arith)

pub degree-count_edges :
    (g : Dict (Dict ℕ)) (d : Dict ℤ) (k : String) (n m : ℕ)
    → degree d k ≡ pos n
    → remaining g [] k + n ≡ m
    → degree (count_edges d g) k ≡ pos m
unfolding count_edges remaining is_listed
degree-count_edges [] d k n m h e = h ∙ ap pos (omega arith)
degree-count_edges ((u, v) ∷ g) d k n m h e =
    degree-count_edges g _ k (count k (keys v) + n) m
      (degree-count_targets (keys v) (ensure_zero d u) k n _ (degree-ensure_zero d u k ∙ h) refl)
      (omega arith)

-- The keys of the counted in-degrees.
contains-count_targets :
    (ks : List String) (d : Dict ℤ) (k : String)
    → contains (count_targets d ks) k ≡ (contains d k || is_listed k ks)
unfolding count_targets count_target is_listed
contains-count_targets [] d k = ground arith
contains-count_targets (x ∷ xs) d k =
    contains-count_targets xs (count_target d x) k
    ∙ rw get-put (ground (arith, eq_iff x k, eq_iff k x))

contains-ensure_zero :
    (d : Dict ℤ) (u k : String) → contains (ensure_zero d u) k ≡ (contains d k || k == u)
unfolding ensure_zero
contains-ensure_zero d u k = rw get-put (ground (arith, eq_iff u k, eq_iff k u))

listed_ltb : (k : String) (xs : List String) → is_listed k xs ≡ ltb 0 (count k xs)
listed_ltb k xs = ground (arith, count_listed k xs, listed_count k xs)

pub contains-count_edges :
    (g : Dict (Dict ℕ)) (d : Dict ℤ) (k : String)
    → contains (count_edges d g) k
      ≡ (contains d k || (is_listed k (keys g) || ltb 0 (remaining g [] k)))
unfolding count_edges remaining is_listed keys
contains-count_edges [] d k = ground arith
contains-count_edges ((u, v) ∷ g) d k =
    contains-count_edges g (count_targets (ensure_zero d u) (keys v)) k
    ∙ rw
        (
          contains-count_targets (keys v) (ensure_zero d u) k,
          contains-ensure_zero d u k,
          listed_ltb k (keys v),
        )
        (ground arith)

-- What `remaining` says of the edges into a node.
pub remaining_zero :
    (g : Dict (Dict ℕ)) (done : List String) (u k : String)
    → remaining g done k ≡ 0
    → contains (targets g u) k ≡ true
    → is_listed u done ≡ true
unfolding remaining get
remaining_zero [] done u k e h = absurd (cc)
remaining_zero ((j, v) ∷ g) done u k e h =
    ground
      (arith, remaining_zero g done u k, eq_iff j u, contains-keys v k, count_listed k (keys v))

get-behind :
    {V : Type 0} (g : Dict V) (j u : String) (v : V)
    → is_listed j (keys g) ≡ false
    → contains g u ≡ true
    → get ((j, v) ∷ g) u ≡ get g u
unfolding get
get-behind g j u v h c = ground (arith, contains-keys g u, eq_iff j u)

-- A node not yet done, with an edge to the given one.
abbrev pub Source : Dict (Dict ℕ) → List String → String → Type 0
Source g done k =
    (u : String) × (contains (targets g u) k ≡ true)
    × (is_listed u done ≡ false)
    × (contains g u ≡ true)

Source-behind :
    (g : Dict (Dict ℕ)) (done : List String) (k j : String) (v : Dict ℕ)
    → is_listed j (keys g) ≡ false
    → Source g done k
    → Source ((j, v) ∷ g) done k
Source-behind g done k j v d (u, c, n, b) =
    (u, rw (get-behind g j u v d b) c, n, rw (get-behind g j u v d b) b)

Source-here :
    (g : Dict (Dict ℕ)) (done : List String) (k j : String) (v : Dict ℕ)
    → is_listed j done ≡ false
    → is_listed k (keys v) ≡ true
    → Source ((j, v) ∷ g) done k
Source-here g done k j v n h = (
  j,
  unfold get in ground (arith, eq_refl j, contains-keys v k),
  n,
  unfold get in ground (arith, eq_refl j),
)

-- With distinct nodes an edge that is counted is an edge of the graph from a node not yet done.
pub remaining_pos :
    (g : Dict (Dict ℕ)) (done : List String) (k : String)
    → IsDistinct (keys g)
    → 0 < remaining g done k
    → Source g done k
unfolding remaining keys
remaining_pos [] done k d h = absurd (omega arith)
remaining_pos ((j, v) ∷ g) done k d h = elim (Bool-cases (is_listed j done)) [
  | inl e ↦ Source-behind g done k j v d.0 (remaining_pos g done k d.1 (ground arith))
  | inr e ↦ elim (Bool-cases (is_listed k (keys v))) [
    | inl f ↦ Source-here g done k j v e f
    | inr f ↦
        Source-behind g done k j v d.0
          (remaining_pos g done k d.1 (ground (arith, listed_count k (keys v))))
  ]
]

remaining-absent :
    (g : Dict (Dict ℕ)) (done : List String) (cur k : String)
    → is_listed cur (keys g) ≡ false
    → remaining g (done ++ cur ∷ []) k ≡ remaining g done k
unfolding remaining is_listed keys
remaining-absent [] done cur k h = refl
remaining-absent ((j, v) ∷ g) done cur k h =
    ground (
      arith,
      remaining-absent g done cur k,
      is_listed-concat j cur done,
      eq_iff j cur,
      eq_iff cur j,
    )

-- The edges of a node leave the count when it is done.
pub remaining-concat :
    (g : Dict (Dict ℕ)) (done : List String) (cur k : String)
    → IsDistinct (keys g)
    → is_listed cur done ≡ false
    → remaining g (done ++ cur ∷ []) k + count k (keys (targets g cur)) ≡ remaining g done k
unfolding remaining keys get count
remaining-concat [] done cur k d h = omega arith
remaining-concat ((j, v) ∷ g) done cur k d h = ground (
  arith,
  remaining-absent g done cur k,
  remaining-concat g done cur k d.1 h,
  is_listed-concat j cur done,
  eq_iff j cur,
)
