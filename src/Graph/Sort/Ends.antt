-- ===== src/Graph/Sort/Ends.antt =====
-- relative_graph.py, `_topo_sort`: what a round of the loop leaves to be done.
use aaai.Prelude.{
  ◌≡◌, refl, ℕ, zero, suc, ◌+◌, ◌≤◌, String, Bool, true, false, some, List, [], ◌∷◌, ◌++◌, eq_iff,
  Dict, get, put, if◌then◌else◌, arith, Option-cases, inl, inr, length, length-append,
}
use aaai.Prelude.Int.{ℤ, pos, negsuc}
use aaai.Graph.Sort.{decrement, is_zero, is_ready, first_queue, relax}

is_positive : ℤ → Bool
is_positive (pos (suc n)) = true
is_positive (pos zero) = false
is_positive (negsuc n) = false

-- The nodes that still have edges.
pub positives : Dict ℤ → ℕ
unfolding is_positive
positives [] = 0
positives ((k, v) ∷ d) = let rest = positives d in if is_positive v then suc rest else rest

decrement_positive :
    (v : ℤ)
    → ((is_positive (decrement v) ≡ true) → (is_positive v ≡ true))
      × ((is_zero (decrement v) ≡ true)
          → (is_positive v ≡ true) × (is_positive (decrement v) ≡ false))
unfolding decrement is_positive is_zero
decrement_positive (pos zero) = (λ h. cc, λ h. absurd (cc))
decrement_positive (pos (suc zero)) = (λ h. refl, λ h. (refl, refl))
decrement_positive (pos (suc (suc n))) = (λ h. refl, λ h. absurd (cc))
decrement_positive (negsuc n) = (λ h. cc, λ h. absurd (cc))

positives-put :
    (d : Dict ℤ) (k : String) (v : ℤ)
    → get d k ≡ some v
    → positives (put d k (decrement v)) + (if is_zero (decrement v) then 1 else 0) ≤ positives d
unfolding positives get put
positives-put [] k v e = absurd (cc)
positives-put ((j, w) ∷ d) k v e =
    ground (arith, positives-put d k v, decrement_positive v, eq_iff j k)

pub relax_measure :
    (ks queue : List String) (d : Dict ℤ) (queue' : List String) (d' : Dict ℤ)
    → relax ks queue d ≡ some (queue', d')
    → length queue' + positives d' ≤ length queue + positives d
unfolding relax is_ready
relax_measure [] queue d queue' d' e = ground arith
relax_measure (k ∷ ks) queue d queue' d' e = elim (Option-cases (get d k)) [
  | inl n ↦ absurd (ground arith)
  | inr (v, f) ↦ ground (
    arith,
    relax_measure ks (queue ++ k ∷ []) (put d k (decrement v)) queue' d',
    relax_measure ks queue (put d k (decrement v)) queue' d',
    positives-put d k v f,
    length-append queue (k ∷ []),
  )
]

pub first_queue_measure : (d : Dict ℤ) → length (first_queue d) + positives d ≤ length d
unfolding first_queue positives is_ready is_zero is_positive
first_queue_measure [] = omega arith
first_queue_measure ((k, v) ∷ d) = ground (arith, first_queue_measure d)
