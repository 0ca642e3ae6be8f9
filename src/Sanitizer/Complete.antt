-- ===== src/Sanitizer/Complete.antt =====
-- cact/bank_sanitizer.py, `sanitize`: which items are passed on.
use text.Mathlib.TextLemmas.{cons-append}
use Prim.Native.String.compare.{cons-nil}
use aaai.Prelude.{
  ℕ, ◌≡◌, refl, String, Bool, true, not, ◌&&◌, List, [], ◌∷◌, ◌==◌, ltb, Dict, All, All-append,
  Bool-cases, inl, inr, filter_by, arith, some, or_else, length,
}
use aaai.Float.{Float}
use aaai.Text.{text_append}
use aaai.Sanitizer.{
  Item, has_text, is_complete, partition_by_completeness, dedup_key, observations_of,
}
use aaai.Sanitizer.Dedup.{by_group, deduplicate}
use aaai.Sanitizer.Kept.{by_group-All, deduplicate-All}
use aaai.Sanitizer.Merge.{
  is_mergeable, can_merge, most_observed, generalize, remove_group, merge_items, merge_groups,
  merge_same_type, is_new, sanitize,
}

has_text-text_append : (t : String) → has_text (some (text_append "[GENERALIZED] " t)) ≡ true
unfolding has_text
has_text-text_append t = rw (cons-append, cons-nil) refl

module _ {F : Type 0} where
  abbrev pub IsComplete : Item F → Type 0
  IsComplete c = is_complete c ≡ true

  filter_by-All :
      (p : Item F → Bool) (xs : List (Item F)) → All IsComplete xs → All IsComplete (filter_by p xs)
  filter_by-All p [] h = tt
  filter_by-All p (x ∷ xs) h = elim (Bool-cases (p x)) [
    | inl e ↦ rw e (h.0, filter_by-All p xs h.1)
    | inr e ↦ rw e (filter_by-All p xs h.1)
  ]

  partition_by_completeness-All :
      (cs : List (Item F)) → All IsComplete (partition_by_completeness cs).0
  unfolding partition_by_completeness
  partition_by_completeness-All [] = tt
  partition_by_completeness-All (c ∷ cs) = elim (Bool-cases (is_complete c)) [
    | inl e ↦ rw (partition_by_completeness, e) (e, partition_by_completeness-All cs)
    | inr e ↦ rw (partition_by_completeness, e) (partition_by_completeness-All cs)
  ]

  most_observed-All :
      (best : Item F) (cs : List (Item F))
      → IsComplete best
      → All IsComplete cs
      → IsComplete (most_observed best cs)
  unfolding most_observed
  most_observed-All best [] p h = p
  most_observed-All best (c ∷ cs) p h =
      elim (Bool-cases (ltb (observations_of best) (observations_of c))) [
        | inl e ↦ rw (most_observed, e) (most_observed-All c cs h.0 h.1)
        | inr e ↦ rw (most_observed, e) (most_observed-All best cs p h.1)
      ]

  -- The gene of a generalised item is not empty, and the other fields are the base's.
  generalize-IsComplete :
      (show_count : ℕ → String) (c : Item F) (cs : List (Item F))
      → IsComplete c
      → All IsComplete cs
      → IsComplete (generalize show_count c cs)
  unfolding generalize is_complete has_text
  generalize-IsComplete show_count c cs p h = ground (
    arith,
    most_observed-All c cs p h,
    has_text-text_append (
        text_append (or_else (most_observed c cs).gene "")
          (text_append " (+" (text_append (show_count (length cs)) " similar)"))),
  )

  merge_items-All :
      (show_count : ℕ → String) (key : String) (items merged : List (Item F))
      → All IsComplete items
      → All IsComplete merged
      → All IsComplete (merge_items show_count key items merged).0
  unfolding merge_items remove_group
  merge_items-All show_count key [] merged h m = m
  merge_items-All show_count key (c ∷ cs) merged h m = elim (Bool-cases (can_merge (c ∷ cs))) [
    | inl e ↦
        rw (merge_items, e)
          (All-append IsComplete (remove_group key merged) (generalize show_count c cs ∷ [])
            (filter_by-All (λ x. not (is_mergeable x && dedup_key x == key)) merged m)
            (generalize-IsComplete show_count c cs h.0 h.1, tt))
    | inr e ↦ rw (merge_items, e) m
  ]

  merge_groups-All :
      (show_count : ℕ → String) (groups : Dict (List (Item F))) (merged : List (Item F))
      → All (λ e. All IsComplete e.1) groups
      → All IsComplete merged
      → All IsComplete (merge_groups show_count groups merged).0
  unfolding merge_groups
  merge_groups-All show_count [] merged g m = m
  merge_groups-All show_count ((key, items) ∷ groups) merged g m =
      merge_groups-All show_count groups (merge_items show_count key items merged).0 g.1
        (merge_items-All show_count key items merged g.0 m)

  merge_same_type-All :
      (show_count : ℕ → String) (cs : List (Item F))
      → All IsComplete cs
      → All IsComplete (merge_same_type show_count cs).0
  unfolding merge_same_type
  merge_same_type-All show_count cs h =
      merge_groups-All show_count (by_group (filter_by is_mergeable cs) []) cs
        (by_group-All IsComplete (filter_by is_mergeable cs) [] (filter_by-All is_mergeable cs h)
          tt)
        h

module _ {F : Type 0} ⦃o : Float F⦄ where
  -- Every item that the sanitiser passes on has all required fields, the generalised ones too.
  pub sanitize-IsComplete :
      (show_count : ℕ → String) (threshold : F) (candidates : List (Item F))
      (existing : List String)
      → All IsComplete (sanitize show_count threshold candidates existing).clean
  unfolding sanitize
  sanitize-IsComplete show_count threshold candidates existing =
      filter_by-All (is_new existing)
        (merge_same_type show_count
          (deduplicate threshold (partition_by_completeness candidates).0).0).0
        (merge_same_type-All show_count
          (deduplicate threshold (partition_by_completeness candidates).0).0
          (deduplicate-All IsComplete threshold (partition_by_completeness candidates).0
            (partition_by_completeness-All candidates)))
