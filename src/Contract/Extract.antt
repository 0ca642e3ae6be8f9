-- ===== src/Contract/Extract.antt =====
-- cact/contract.py: `infer_type_from_xenon`, `infer_level_from_xenon` and the heuristics of
-- `ContractExtractor`, over the keywords of a knowledge text.
use aaai.Prelude.{
  ℕ, String, Bool, true, false, ◌||◌, List, [], ◌∷◌, ◌++◌, ◌==◌, if◌then◌else◌, leb, ltb,
}
use aaai.Text.{words_from, occurs, any_occurs, codes, lower}

-- `w in content.lower()`
unfoldable pub mentions : String → String → Bool
mentions content w = occurs (codes w) (lower content)

unfoldable pub mentions_any : String → List String → Bool
mentions_any content words = any_occurs words (lower content)

unfoldable pub infer_type_from_xenon : String → String
unfolding mentions
infer_type_from_xenon source =
    if mentions source "dependency"
    then "dependency_correction"
    else if mentions source "action" || mentions source "fam"
    then "action_correction"
    else if mentions source "failure"
    then "failure_memory"
    else if mentions source "remedy"
    then "remedy"
    else "skill"

-- `tier_order.get(task_tier, 1)`
tier_rank : String → ℕ
tier_rank tier =
    if tier == "wooden"
    then 0
    else if tier == "stone"
    then 1
    else if tier == "iron"
    then 2
    else if tier == "golden"
    then 3
    else if tier == "diamond"
    then 4
    else 1

unfoldable pub infer_level_from_xenon : String → String → String
unfolding mentions_any tier_rank
infer_level_from_xenon content tier =
    if mentions_any content
      ("nether" ∷ "before entering" ∷ "portal" ∷ "long chain" ∷ "multi-step" ∷ [])
    then "strategy"
    else if mentions_any content ("craft" ∷ "smelt" ∷ "equip" ∷ "build" ∷ [])
    then (if ltb 30 (words_from false content) then "functional" else "atomic_correction")
    else if mentions_any content
        ("requires" ∷ "prerequisite" ∷ "depends on" ∷ "needs" ∷ "obtain first" ∷ [])
    then "dependency"
    else if mentions_any content ("retry" ∷ "failed" ∷ "do not" ∷ "avoid" ∷ [])
    then "failure_memory"
    else if leb (tier_rank tier) 2
    then "atomic_correction"
    else "functional"

-- `if test: xs.append(x)`
append_if : Bool → String → List String → List String
append_if true x xs = xs ++ x ∷ []
append_if false x xs = xs

unfoldable pub extract_preconditions_heuristic : String → List String
unfolding mentions append_if
extract_preconditions_heuristic content =
    append_if (mentions content "fuel" || mentions content "coal") "has_fuel" (
      append_if (mentions content "crafting_table") "has_crafting_table" (
        append_if (mentions content "furnace") "has_furnace" (
          append_if (mentions content "diamond_pickaxe") "has_diamond_pickaxe"
            (append_if (mentions content "iron_pickaxe") "has_iron_pickaxe" []))))

unfoldable pub extract_postconditions_heuristic : String → String → List String
unfolding mentions append_if
extract_postconditions_heuristic content ktype = append_if (mentions content "mine") "block_mined" (
    append_if (mentions content "craft") "craft_completed" (
      append_if (ktype == "dependency_correction") "dependency_satisfied"
        (append_if (ktype == "action_correction" || ktype == "remedy") "failure_resolved" [])))

unfoldable pub is_listed : String → List String → Bool
is_listed x [] = false
is_listed x (y ∷ ys) = x == y || is_listed x ys

-- `if x not in safety: safety.append(x)`, where the test asks for it
unfoldable pub add_new : Bool → String → List String → List String
unfolding is_listed
add_new true x xs = if is_listed x xs then xs else xs ++ x ∷ []
add_new false x xs = xs

unfoldable pub infer_safety_contexts : String → List String → List String
unfolding mentions_any add_new
infer_safety_contexts content existing =
    add_new (mentions_any content ("diamond" ∷ "rare" ∷ "precious" ∷ []))
      "irreversible_resource_constraint"
      (add_new (mentions_any content ("combat" ∷ "mob" ∷ "zombie" ∷ "skeleton" ∷ []))
        "combat_active"
        (add_new (mentions_any content ("lava" ∷ "fire" ∷ [])) "lava_nearby" existing))
