-- ===== src/Sanitizer/Merge.antt =====
-- cact/bank_sanitizer.py: `_merge_same_type`, `_can_merge`, `_generalize` and `sanitize`. The text of a
-- count is an argument.
use aaai.Prelude.{
  ℕ, String, Bool, true, false, not, ◌&&◌, ◌||◌, Option, none, some, List, [], ◌∷◌, ◌++◌, ◌==◌,
  if◌then◌else◌, or_else, nat_eq, ltb, leb, length, filter_by, map, Dict,
}
use aaai.Float.{Float}
use aaai.Text.{join_bars, codes, strip, split_once, text_append}
use aaai.Contract.Extract.{is_listed}
use aaai.Sanitizer.{
  Item, SanitizerAction, has_text, id_of, partition_by_completeness, dedup_key, observations_of,
}
use aaai.Sanitizer.Dedup.{by_group, deduplicate}

-- The part of a precondition before its operator.
unfoldable pub precondition_pattern : String → String
precondition_pattern pc = elim (split_once (codes "==") pc) [
  | some (key, value) ↦ strip key
  | none ↦ elim (split_once (codes "not in") pc) [
    | some (key, values) ↦ strip key
    | none ↦ strip pc
  ]
]

unfoldable pub collect_patterns : List String → List String → List String
unfolding precondition_pattern
collect_patterns [] patterns = patterns
collect_patterns (pc ∷ pcs) patterns = collect_patterns pcs (
    if is_listed (precondition_pattern pc) patterns
    then patterns
    else precondition_pattern pc ∷ patterns)

-- `a <= b` of texts
text_leb : List ℕ → List ℕ → Bool
text_leb [] ys = true
text_leb (x ∷ xs) [] = false
text_leb (x ∷ xs) (y ∷ ys) = if nat_eq x y then text_leb xs ys else ltb x y

insert_text : String → List String → List String
unfolding text_leb
insert_text t [] = t ∷ []
insert_text t (u ∷ us) = if text_leb (codes t) (codes u) then t ∷ u ∷ us else u ∷ insert_text t us

sort_texts : List String → List String
unfolding insert_text
sort_texts [] = []
sort_texts (t ∷ ts) = insert_text t (sort_texts ts)

abbrev pub is_mergeable_type : String → Bool
is_mergeable_type t = t == "action_correction" || (t == "dependency_correction" || t == "remedy")

module _ {F : Type 0} where
  unfoldable pub is_mergeable : Item F → Bool
  is_mergeable c = is_mergeable_type (or_else c.type_name "")

  all_patterns : List (Item F) → List String → List String
  unfolding collect_patterns
  all_patterns [] patterns = patterns
  all_patterns (c ∷ cs) patterns = all_patterns cs (collect_patterns c.preconditions patterns)

  -- `{item.get("type") for item in items}` has one element.
  has_one_type : List (Item F) → Bool
  has_one_type [] = true
  has_one_type (c ∷ []) = true
  has_one_type (c ∷ d ∷ ds) =
      or_else c.type_name "" == or_else d.type_name "" && has_one_type (d ∷ ds)

  unfoldable pub can_merge : List (Item F) → Bool
  unfolding has_one_type all_patterns
  can_merge items =
      not (ltb (length items) 2) && has_one_type items && leb (length (all_patterns items [])) 3

  -- The first of the items with the most observations_of.
  unfoldable pub most_observed : Item F → List (Item F) → Item F
  most_observed best [] = best
  most_observed best (c ∷ cs) =
      most_observed (if ltb (observations_of best) (observations_of c) then c else best) cs

  -- The task groups that are there and not empty.
  unfoldable pub present_groups : List (Item F) → List String
  unfolding has_text
  present_groups [] = []
  present_groups (c ∷ cs) =
      let rest = present_groups cs in
      if has_text c.task_group && not (is_listed (or_else c.task_group "") rest)
      then or_else c.task_group "" ∷ rest
      else rest

  -- The groups joined where there is more than one, else the group of the base.
  unfoldable pub widened_group : Item F → List (Item F) → Option String
  unfolding sort_texts join_bars present_groups
  widened_group base items =
      if ltb 1 (length (present_groups items))
      then some (join_bars (sort_texts (present_groups items)))
      else base.task_group

  unfoldable pub generalize : (ℕ → String) → Item F → List (Item F) → Item F
  unfolding most_observed widened_group
  generalize show_count c cs =
      let base = most_observed c cs in
      record base {
        knowledge_id = some (text_append (or_else base.knowledge_id "merge") "_generalized");
        gene = some (
            text_append "[GENERALIZED] " (
              text_append (or_else base.gene "")
                (text_append " (+" (text_append (show_count (length cs)) " similar)"))));
        merge_sources = map (λ i. i.knowledge_id) (c ∷ cs);
        task_group = widened_group base (c ∷ cs);
      }

  unfoldable pub merge_actions : String → Item F → List (Item F) → List SanitizerAction
  merge_actions key generalized [] = []
  merge_actions key generalized (c ∷ cs) =
      record {
        knowledge_id = id_of c;
        action = "merge";
        reason = "";
        merge_group = key;
        merged_into = id_of generalized;
      }
      ∷ merge_actions key generalized cs

  -- The items of the group leave the list: `remove` takes out an equal item, and the equal items of a
  -- group are all in it.
  unfoldable pub remove_group : String → List (Item F) → List (Item F)
  unfolding is_mergeable
  remove_group key merged = filter_by (λ c. not (is_mergeable c && dedup_key c == key)) merged

  unfoldable pub merge_items :
      (ℕ → String) → String → List (Item F) → List (Item F) → List (Item F) × List SanitizerAction
  unfolding can_merge generalize remove_group merge_actions
  merge_items show_count key [] merged = (merged, [])
  merge_items show_count key (c ∷ cs) merged =
      if can_merge (c ∷ cs)
      then (
        remove_group key merged ++ generalize show_count c cs ∷ [],
        merge_actions key (generalize show_count c cs) (c ∷ cs),
      )
      else (merged, [])

  unfoldable pub merge_groups :
      (ℕ → String) → Dict (List (Item F)) → List (Item F) → List (Item F) × List SanitizerAction
  unfolding merge_items
  merge_groups show_count [] merged = (merged, [])
  merge_groups show_count ((key, items) ∷ groups) merged =
      let (merged1, actions1) = merge_items show_count key items merged in
      let (merged2, actions2) = merge_groups show_count groups merged1 in
      (merged2, actions1 ++ actions2)

  unfoldable pub merge_same_type :
      (ℕ → String) → List (Item F) → List (Item F) × List SanitizerAction
  unfolding merge_groups is_mergeable by_group
  merge_same_type show_count candidates =
      merge_groups show_count (by_group (filter_by is_mergeable candidates) []) candidates

  unfoldable pub quarantine_actions : List (Item F) → List SanitizerAction
  quarantine_actions [] = []
  quarantine_actions (q ∷ qs) =
      record {
        knowledge_id = id_of q;
        action = "quarantine";
        reason = "missing required fields";
        merge_group = "";
        merged_into = "";
      }
      ∷ quarantine_actions qs

  -- The marks that a quarantined item gets.
  unfoldable pub mark_quarantined : Item F → Item F
  mark_quarantined q = record q {
    sanitizer_action = some "quarantine";
    status = some "quarantined";
  }

  -- `m.get("knowledge_id") not in existing`
  unfoldable pub is_new : List String → Item F → Bool
  is_new existing m = elim m.knowledge_id [ none ↦ true | some k ↦ not (is_listed k existing) ]

-- The items that are returned, the quarantined items as they are marked, and the log.
pub record Sanitized (F : Type 0) : Type 0 where
  pub clean : List (Item F)
  pub quarantined : List (Item F)
  pub action_log : List SanitizerAction

module _ {F : Type 0} ⦃o : Float F⦄ where
  unfoldable pub sanitize : (ℕ → String) → F → List (Item F) → List String → Sanitized F
  unfolding partition_by_completeness deduplicate merge_same_type quarantine_actions
      mark_quarantined is_new
  sanitize show_count threshold candidates existing =
      let (complete, quarantined) = partition_by_completeness candidates in
      let (deduped, dropped) = deduplicate threshold complete in
      let (merged, merges) = merge_same_type show_count deduped in
      record {
        clean = filter_by (is_new existing) merged;
        quarantined = map mark_quarantined quarantined;
        action_log = quarantine_actions quarantined ++ (dropped ++ merges);
      }
