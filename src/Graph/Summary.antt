-- ===== src/Graph/Summary.antt =====
-- relative_graph.py: `_get_recipe_with_number`, `dict_update`, `merge_graph` and `_compile_base`, on the
-- summary of quantities, which may fall below zero. `none` is a `KeyError`. An output count of zero,
-- at which Python raises, stands in no recipe file.
use aaai.Prelude.{
  ℕ, ◌/◌, String, Bool, not, ◌&&◌, Option, none, some, List, [], ◌∷◌, ◌==◌, if◌then◌else◌, or_else,
  nat_eq, Dict, get, put, keys, contains,
}
use aaai.Prelude.Int.{ℤ, pos, negsuc, ◌+ℤ◌, ◌-ℤ◌, ◌*ℤ◌, ltb_ℤ, leb_ℤ}
use aaai.Text.{codes, occurs}
use aaai.Graph.{Recipe, get_recipe}

infixl 5 ◌>>=◌
abbrev pub ◌>>=◌ {ℓ κ} : {A : Type ℓ} {B : Type κ} → Option A → (A → Option B) → Option B
none >>= f = none
some a >>= f = f a

-- `word in k`
abbrev pub has_word : String → String → Bool
has_word word k = occurs (codes word) (codes k)

-- `n // q`
unfoldable pub floor_div : ℤ → ℕ → ℤ
floor_div (pos n) q = pos (n / q)
floor_div (negsuc n) q = negsuc (n / q)

-- The ingredients of a number of runs; a furnace is left out, and one crafting table is enough.
scale_ingredients : ℤ → Dict ℕ → Dict ℤ → Dict ℤ
scale_ingredients runs [] res = res
scale_ingredients runs ((k, v) ∷ rest) res = scale_ingredients runs rest (
    if k == "furnace"
    then res
    else if k == "crafting_table"
    then put res k (pos 1)
    else put res k (or_else (get res k) (pos 0) +ℤ pos v *ℤ runs))

unfoldable pub get_recipe_with_number : Dict Recipe → String → ℤ → Dict ℤ
unfolding scale_ingredients floor_div
get_recipe_with_number graph item number = elim (get_recipe graph item) [
  | none ↦ (item, number) ∷ []
  | some r ↦
      scale_ingredients (floor_div (pos r.output_qty +ℤ number -ℤ pos 1) r.output_qty) r.ingredients
        []
]

-- `dst[k] -= n`
unfoldable pub subtract : String → ℕ → Dict ℤ → Option (Dict ℤ)
subtract k n dst = elim (get dst k) [ none ↦ none | some v ↦ some (put dst k (v -ℤ pos n)) ]

-- `dst[k] += v`
unfoldable pub add_to : String → ℤ → Dict ℤ → Option (Dict ℤ)
add_to k v dst = elim (get dst k) [ none ↦ none | some w ↦ some (put dst k (w +ℤ v)) ]

-- `if dst[k] > 1:` the material of a second tool is given back, and one tool is taken off.
give_back : String → String → ℤ → Dict ℤ → Option (Dict ℤ)
unfolding subtract
give_back k material have dst =
    if ltb_ℤ (pos 1) have
    then (do d1 ← subtract material 3 dst; d2 ← subtract "stick" 2 d1; subtract k 1 d2)
    else some dst

-- One entry of `src` whose key is in `dst`.
update_known : String → ℤ → ℤ → Dict ℤ → Option (Dict ℤ)
unfolding subtract add_to give_back
update_known k v have dst =
    if k == "crafting_table"
    then (if ltb_ℤ (pos 1) have
        then (do d1 ← subtract "planks" 4 dst; subtract k 1 d1)
        else some dst)
    else if k == "furnace"
    then (if leb_ℤ (pos 1) have then subtract "cobblestone" 8 dst else some dst)
    else if has_word "wooden_pickaxe" k
    then give_back k "planks" have dst
    else if has_word "stone_pickaxe" k
    then give_back k "cobblestone" have dst
    else if has_word "iron_pickaxe" k
    then (do d1 ← give_back k "iron_ingot" have dst; add_to k v d1)
    else add_to k v dst

unfoldable pub update_entry : String → ℤ → Dict ℤ → Option (Dict ℤ)
unfolding update_known
update_entry k v dst = elim (get dst k) [
  | none ↦ if k == "" then none else some (put dst k v)
  | some have ↦ update_known k v have dst
]

-- `dict_update`; the inventory that it is given is not used.
unfoldable pub dict_update : Dict ℤ → Dict ℤ → Option (Dict ℤ)
unfolding update_entry
dict_update [] dst = some dst
dict_update ((k, v) ∷ src) dst = do dst' ← update_entry k v dst; dict_update src dst'

-- `d.update(e)`
unfoldable pub update_dict {ℓ} : {V : Type ℓ} → Dict V → Dict V → Dict V
update_dict d [] = d
update_dict d ((k, v) ∷ e) = update_dict (put d k v) e

unfoldable pub merge_graph : Dict (Dict ℕ) → Dict (Dict ℕ) → Dict (Dict ℕ)
unfolding update_dict
merge_graph [] dst = dst
merge_graph ((u, v) ∷ src) dst =
    merge_graph src (put dst u (update_dict (or_else (get dst u) []) v))

-- `d.pop(k)`, of a key that is there
unfoldable pub pop {ℓ} : {V : Type ℓ} → String → Dict V → Dict V
pop k [] = []
pop k ((j, v) ∷ d) = let rest = pop k d in if j == k then rest else (j, v) ∷ rest

-- One pair of the double loop over the summary: an item that crafts nothing leaves, and so does one
-- that can be crafted from the first.
reduce_pair : Dict (Dict ℕ) → String → String → Dict ℤ → Dict ℤ
unfolding pop
reduce_pair number_graph item item2 reduced =
    if item == item2 then reduced else elim (get number_graph item) [
      | none ↦
          if contains reduced item && not (item == "coal_ore") && not (item == "charcoal")
          then pop item reduced
          else reduced
      | some uses ↦
          if not (nat_eq (or_else (get uses item2) 0) 0) && contains reduced item2
          then pop item2 reduced
          else reduced
    ]

reduce_row : Dict (Dict ℕ) → String → List String → Dict ℤ → Dict ℤ
unfolding reduce_pair
reduce_row number_graph item [] reduced = reduced
reduce_row number_graph item (item2 ∷ items) reduced =
    reduce_row number_graph item items (reduce_pair number_graph item item2 reduced)

reduce_rows : Dict (Dict ℕ) → List String → List String → Dict ℤ → Dict ℤ
unfolding reduce_row
reduce_rows number_graph [] all reduced = reduced
reduce_rows number_graph (item ∷ items) all reduced =
    reduce_rows number_graph items all (reduce_row number_graph item all reduced)

base_quantities : Dict Recipe → Dict ℤ → Dict ℤ → Option (Dict ℤ)
unfolding dict_update get_recipe_with_number
base_quantities graph [] res = some res
base_quantities graph ((base, num) ∷ reduced) res = do
  res' ← dict_update (get_recipe_with_number graph base num) res
  base_quantities graph reduced res'

-- `_compile_base`: the base items, and the summary with them.
unfoldable pub compile_base : Dict Recipe → Dict (Dict ℕ) → Dict ℤ → Option (Dict ℤ × Dict ℤ)
unfolding reduce_rows base_quantities update_dict
compile_base graph number_graph summary = do
  res ← base_quantities graph (reduce_rows number_graph (keys summary) (keys summary) summary) []
  some (res, update_dict summary res)
