-- ===== src/Graph/Sort/Exact.antt =====
-- relative_graph.py, `_topo_sort`: the loop over the targets of a node, on exact in-degrees.
use mathlib.Core.List.{append_assoc, append-nil}
use aaai.Prelude.{
  ◌≡◌, refl, sym, ◌∙◌, ℕ, suc, ◌+◌, String, Bool, true, false, ◌||◌, Option, none, some, List, [],
  ◌∷◌, ◌++◌, ◌==◌, eq_iff, eq_refl, Dict, get, put, keys, contains, get-put, if◌then◌else◌, arith,
  Bool-cases, inl, inr, All, All-mono, ◌⊎◌, ap, ltb,
}
use aaai.Prelude.Int.{ℤ, pos}
use aaai.Contract.Extract.{is_listed}
use aaai.Buckets.Disjoint.{IsDistinct}
use aaai.Graph.Keys.{contains-keys}
use aaai.Graph.Steps.Progress.{IsClosed}
use aaai.Graph.Sort.{count_edges}
use aaai.Graph.Sort.Degrees.{
  degree, count, remaining, remaining_pos, contains-count_edges, degree-count_edges, count_listed,
  listed_count,
}
use aaai.Graph.Sort.{is_zero, is_ready, relax, decrement}

-- The in-degrees count, for each node, the edges from nodes that are not done.
abbrev pub IsExact : Dict (Dict ℕ) → (String → ℕ) → Dict ℤ → Type 0
IsExact g f d = (k : String) → get d k ≡ (if contains g k then some (pos (f k)) else none)

exact_get :
    (d : Dict ℤ) (k : String) (b : Bool) (n : ℕ)
    → degree d k ≡ pos n
    → contains d k ≡ b
    → get d k ≡ (if b then some (pos n) else none)
unfolding degree
exact_get d k b n h e = ground arith

contains-start :
    (g : Dict (Dict ℕ)) (k : String)
    → contains (count_edges [] g) k ≡ (is_listed k (keys g) || ltb 0 (remaining g [] k))
unfolding get
contains-start g k = contains-count_edges g [] k

pub count_edges-IsExact :
    (g : Dict (Dict ℕ))
    → IsDistinct (keys g)
    → IsClosed g
    → IsExact g (remaining g []) (count_edges [] g)
unfolding degree
count_edges-IsExact g d c k =
    exact_get (count_edges [] g) k (contains g k) (remaining g [] k)
      (degree-count_edges g [] k 0 (remaining g [] k) (unfold get in refl) (omega arith))
      (contains-start g k ∙ node (Bool-cases (ltb 0 (remaining g [] k))))
  where
    node :
        (ltb 0 (remaining g [] k) ≡ true) ⊎ (ltb 0 (remaining g [] k) ≡ false)
        → (is_listed k (keys g) || ltb 0 (remaining g [] k)) ≡ contains g k
    node (inl e) =
        let (u, t, n, b) = remaining_pos g [] k d (ground arith) in ground (arith, c u k t)
    node (inr e) = ground (arith, contains-keys g k)

-- What the loop over the targets `ks` makes of exact in-degrees: it puts the nodes behind the queue
-- that have lost their last edge.
pub record IsRelaxed (g : Dict (Dict ℕ)) (f : String → ℕ) (ks queue : List String)
    (result : Option (List String × Dict ℤ)) : Type 0 where
  pub added : List String
  pub in_degree : Dict ℤ
  pub result_eq : result ≡ some (queue ++ added, in_degree)
  pub exact : IsExact g f in_degree
  pub zero_now : All (λ x. (f x ≡ 0) × (contains g x ≡ true) × (is_listed x ks ≡ true)) added
  pub distinct : IsDistinct added
  pub complete :
      (k : String) → is_listed k ks ≡ true → f k ≡ 0 → (k == "") ≡ false → is_listed k added ≡ true

relax_step :
    (g : Dict (Dict ℕ)) (f : String → ℕ) (k : String) (ks : List String) (d : Dict ℤ)
    → IsExact g (λ x. f x + count x (k ∷ ks)) d
    → contains g k ≡ true
    → (get d k ≡ some (pos (suc (f k + count k ks))))
      × IsExact g (λ x. f x + count x ks) (put d k (pos (f k + count k ks)))
unfolding count
relax_step g f k ks d e c = (
  e k ∙ rw (c) (ap some (ap pos (ground (arith, eq_refl k)))),
  λ j. rw (get-put, e j) (ground (arith, eq_iff k j)),
)

absent_of :
    (ks xs : List String) (k : String)
    → All (λ x. is_listed x ks ≡ true) xs
    → is_listed k ks ≡ false
    → is_listed k xs ≡ false
unfolding is_listed
absent_of ks [] k h e = refl
absent_of ks (x ∷ xs) k h e = ground (arith, absent_of ks xs k h.1 e, h.0, eq_iff k x)

IsRelaxed-ready :
    (g : Dict (Dict ℕ)) (f : String → ℕ) (k : String) (ks queue : List String)
    (r : Option (List String × Dict ℤ))
    → contains g k ≡ true
    → is_ready k (pos (f k + count k ks)) ≡ true
    → IsRelaxed g f ks (queue ++ k ∷ []) r
    → IsRelaxed g f (k ∷ ks) queue r
unfolding is_ready is_zero is_listed
IsRelaxed-ready g f k ks queue r c e h =
    let zero_sum : f k + count k ks ≡ 0 = ground arith in
    record {
      added = k ∷ h.added;
      in_degree = h.in_degree;
      result_eq =
          h.result_eq ∙ ap (λ x. some (x, h.in_degree)) (append_assoc queue (k ∷ []) h.added);
      exact = h.exact;
      zero_now = (
        (omega arith, c, ground (arith, eq_refl k)),
        All-mono _ _ (λ x p. (p.0, p.1, ground arith)) h.added h.zero_now,
      );
      distinct = (
        absent_of ks h.added k (All-mono _ _ (λ x p. p.2) h.added h.zero_now)
            (ground (arith, count_listed k ks)),
        h.distinct,
      );
      complete = λ j l z n. ground (arith, h.complete j, eq_iff j k);
    }

IsRelaxed-unready :
    (g : Dict (Dict ℕ)) (f : String → ℕ) (k : String) (ks queue : List String)
    (r : Option (List String × Dict ℤ))
    → is_ready k (pos (f k + count k ks)) ≡ false
    → IsRelaxed g f ks queue r
    → IsRelaxed g f (k ∷ ks) queue r
unfolding is_ready is_zero is_listed
IsRelaxed-unready g f k ks queue r e h = record {
  added = h.added;
  in_degree = h.in_degree;
  result_eq = h.result_eq;
  exact = h.exact;
  zero_now = All-mono _ _ (λ x p. (p.0, p.1, ground arith)) h.added h.zero_now;
  distinct = h.distinct;
  complete = λ j l z n. ground (arith, h.complete j, eq_iff j k, listed_count k ks);
}

relax-cons :
    (k : String) (ks queue : List String) (d : Dict ℤ) (n : ℕ)
    → get d k ≡ some (pos (suc n))
    → relax (k ∷ ks) queue d
      ≡ relax ks (if is_ready k (pos n) then queue ++ k ∷ [] else queue) (put d k (pos n))
unfolding relax decrement
relax-cons k ks queue d n e = rw (relax, e) refl

pub relax-IsRelaxed :
    (g : Dict (Dict ℕ)) (f : String → ℕ) (ks queue : List String) (d : Dict ℤ)
    → IsExact g (λ x. f x + count x ks) d
    → All (λ k. contains g k ≡ true) ks
    → IsRelaxed g f ks queue (relax ks queue d)
unfolding relax count is_listed
relax-IsRelaxed g f [] queue d e c = record {
  added = [];
  in_degree = d;
  result_eq = ap (λ x. some (x, d)) (sym (append-nil queue));
  exact = λ k. e k ∙ ground arith;
  zero_now = tt;
  distinct = tt;
  complete = λ k l z n. absurd (cc);
}
relax-IsRelaxed g f (k ∷ ks) queue d e c =
    let (found, next) = relax_step g f k ks d e c.0 in
    rw (relax-cons k ks queue d _ found) (elim (Bool-cases (is_ready k (pos (f k + count k ks)))) [
      | inl r ↦ rw r (
          IsRelaxed-ready g f k ks queue _ c.0 r
            (relax-IsRelaxed g f ks (queue ++ k ∷ []) _ next c.1))
      | inr r ↦
          rw r (IsRelaxed-unready g f k ks queue _ r (relax-IsRelaxed g f ks queue _ next c.1))
    ])
