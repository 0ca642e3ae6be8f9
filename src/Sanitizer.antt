-- ===== src/Sanitizer.antt =====
-- cact/bank_sanitizer.py: the raw items, `_is_complete`, `_partition_by_completeness` and
-- `_is_similar`. A field that is an `Option` is a key that the dictionary may lack; a list or a
-- dictionary that is missing is read as the empty one.
pub mod Dedup
pub mod Merge
pub mod Kept
pub mod Indexed
pub mod Clusters
pub mod Accounted
pub mod Complete
use aaai.Prelude.{
  ℕ, String, Bool, true, false, not, ◌&&◌, ◌||◌, Option, none, some, List, [], ◌∷◌, ◌++◌, ◌==◌,
  if◌then◌else◌, or_else, nat_eq, leb, is_nil, length, filter_by, Dict,
}
use aaai.Float.{Float, lit, ◌<?◌, ◌⊘◌}
use aaai.Text.{lower, same_codes, text_append}

pub record Item (F : Type 0) : Type 0 where
  pub knowledge_id : Option String
  pub type_name : Option String
  pub task_group : Option String
  pub group : Option String
  pub gene : Option String
  pub instruction : Option String
  pub correction : Option String
  pub full_text : Option String
  pub scope : Dict String
  pub claimed_context : Dict String
  pub hard_non_applicable_contexts : List String
  pub non_applicable_contexts : List String
  pub preconditions : List String
  pub postconditions : List String
  pub observation_count : Option ℕ
  pub n_observations : Option ℕ
  pub harm_count : Option ℕ
  pub harmful_count : Option ℕ
  pub timestamp : Option F
  pub merge_sources : List (Option String)
  pub status : Option String
  pub sanitizer_action : Option String

pub record SanitizerAction : Type 0 where
  pub knowledge_id : String
  pub action : String
  pub reason : String
  pub merge_group : String
  pub merged_into : String

-- A text that is there and not empty.
unfoldable pub has_text : Option String → Bool
has_text none = false
has_text (some t) = not (t == "")

module _ {F : Type 0} where
  -- `item.get("knowledge_id", "?")`
  unfoldable pub id_of : Item F → String
  id_of c = or_else c.knowledge_id "?"

  unfoldable pub is_complete : Item F → Bool
  unfolding has_text
  is_complete c =
      has_text c.gene
      && has_text c.type_name
      && (not (is_nil c.scope) || not (is_nil c.claimed_context))
      && (not (is_nil c.hard_non_applicable_contexts) || not (is_nil c.non_applicable_contexts))

  unfoldable pub partition_by_completeness : List (Item F) → List (Item F) × List (Item F)
  unfolding is_complete
  partition_by_completeness [] = ([], [])
  partition_by_completeness (c ∷ cs) =
      let (complete, quarantined) = partition_by_completeness cs in
      if is_complete c then (c ∷ complete, quarantined) else (complete, c ∷ quarantined)

  -- `c.get("task_group", c.get("group", ""))`
  unfoldable pub task_group_of : Item F → String
  task_group_of c = or_else c.task_group (or_else c.group "")

  -- The key of the grouping, type and task group.
  unfoldable pub dedup_key : Item F → String
  unfolding task_group_of
  dedup_key c = text_append (or_else c.type_name "") (text_append "|" (task_group_of c))

  -- `c.get("observation_count", c.get("n_observations", 0))`
  unfoldable pub observations_of : Item F → ℕ
  observations_of c = or_else c.observation_count (or_else c.n_observations 0)

-- The text as the codes of its words, `text.lower().split()`.
is_space : ℕ → Bool
is_space c = (nat_eq c 32 || (leb 9 c && leb c 13)) || (leb 28 c && leb c 31)

push_word : List ℕ → List (List ℕ) → List (List ℕ)
push_word w ws = if is_nil w then ws else w ∷ ws

-- The word that the text begins with, and those behind it.
split_words : List ℕ → List ℕ × List (List ℕ)
unfolding is_space push_word
split_words [] = ([], [])
split_words (c ∷ cs) =
    let (w, ws) = split_words cs in if is_space c then ([], push_word w ws) else (c ∷ w, ws)

is_word : List ℕ → List (List ℕ) → Bool
is_word w [] = false
is_word w (v ∷ vs) = same_codes w v || is_word w vs

-- `set(words)`
distinct_words : List (List ℕ) → List (List ℕ)
unfolding is_word
distinct_words [] = []
distinct_words (w ∷ ws) = let rest = distinct_words ws in if is_word w rest then rest else w ∷ rest

tokens : String → List (List ℕ)
unfolding split_words push_word distinct_words
tokens text = let (w, ws) = split_words (lower text) in distinct_words (push_word w ws)

module _ {F : Type 0} where
  -- The gene, the instruction and the correction of an item, in a row.
  token_text : Item F → String
  token_text c = text_append (or_else c.gene "") (
      text_append " " (
        text_append (or_else c.instruction "")
          (text_append " " (or_else c.correction (or_else c.full_text "")))))

module _ {F : Type 0} ⦃o : Float F⦄ where
  -- The Jaccard similarity of two sets of words.
  jaccard : List (List ℕ) → List (List ℕ) → F
  unfolding is_word
  jaccard a b =
      let common = filter_by (λ w. is_word w b) a in
      let new = filter_by (λ w. not (is_word w a)) b in
      lit (length common) 0 ⊘ lit (length (a ++ new)) 0

  unfoldable pub is_similar_item : F → Item F → Item F → Bool
  unfolding tokens token_text jaccard
  is_similar_item threshold a b =
      let tokens_a = tokens (token_text a) in
      let tokens_b = tokens (token_text b) in
      if is_nil tokens_a || is_nil tokens_b then false else threshold <? jaccard tokens_a tokens_b
