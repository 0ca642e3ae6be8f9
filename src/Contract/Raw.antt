-- ===== src/Contract/Raw.antt =====
-- cact/contract.py: `ContractExtractor.extract`, from a raw piece of knowledge to its contract.
use aaai.Prelude.{
  Dict, String, ◌&&◌, Option, none, some, List, [], ◌∷◌, if◌then◌else◌, ltb, or_else, is_nil, map,
}
use aaai.Float.{Float, lit}
use aaai.Text.{strip, rstrip_dots, lines_joined, split_from, text_length, text_take, codes}
use aaai.Contract.{KnowledgeContract}
use aaai.Contract.Extract.{
  mentions, infer_type_from_xenon, infer_level_from_xenon, extract_preconditions_heuristic,
  extract_postconditions_heuristic, infer_safety_contexts,
}

-- `_extract_gene`: the first sentence of more than 20 characters.
first_long : List String → Option String
first_long [] = none
first_long (s ∷ rest) =
    let found = first_long rest in
    if ltb 20 (text_length (strip s)) then some (rstrip_dots (strip s)) else found

unfoldable pub extract_gene : String → String
unfolding first_long
extract_gene content =
    or_else (first_long (split_from 0 (codes ". ") (lines_joined content))) (text_take 100 content)

-- A raw piece of knowledge: each field is a key that the dictionary may lack.
pub record RawKnowledge (F : Type 0) : Type 0 where
  pub type_name : Option String
  pub source : Option String
  pub correction : Option String
  pub text : Option String
  pub level : Option String
  pub gene : Option String
  pub task_tier : Option String
  pub task_group : Option String
  pub group : Option String
  pub subgoal_type : Option String
  pub failure_type : Option String
  pub preconditions : List String
  pub postconditions : List String
  pub non_applicable_contexts : List String
  pub expected_uplift : Option F
  pub risk_bound : Option F
  pub recovery_rule : Option String
  pub termination_condition : Option String
  pub min_use : Option F
  pub min_base : Option F
  pub max_harm_ucb : Option F
  pub episode_id : Option String

module _ {F : Type 0} where
  unfoldable pub content_of : RawKnowledge F → String
  content_of k = or_else k.correction (or_else k.text "")

  unfoldable pub type_of : RawKnowledge F → String
  type_of k = or_else k.type_name (infer_type_from_xenon (or_else k.source ""))

  -- The given preconditions, or those read off a text that speaks of requirements.
  unfoldable pub preconditions_of : RawKnowledge F → List String
  unfolding mentions
  preconditions_of k =
      if is_nil k.preconditions && mentions (content_of k) "requires"
      then extract_preconditions_heuristic (content_of k)
      else k.preconditions

  unfoldable pub postconditions_of : RawKnowledge F → List String
  postconditions_of k =
      if is_nil k.postconditions
      then extract_postconditions_heuristic (content_of k) (type_of k)
      else k.postconditions

  unfoldable pub place_of : RawKnowledge F → Dict String
  place_of k =
      ("subgoal_type", or_else k.subgoal_type "")
      ∷ ("failure_type", or_else k.failure_type "")
      ∷ ("task_tier", or_else k.task_tier "stone")
      ∷ []

module _ {F : Type 0} ⦃o : Float F⦄ where
  -- `extract`; the identifier, which the source draws from `uuid4`, is an argument.
  unfoldable pub extract : String → RawKnowledge F → KnowledgeContract F
  extract fresh_id k = record {
    knowledge_id = fresh_id;
    type_name = type_of k;
    level = or_else k.level (infer_level_from_xenon (content_of k) (or_else k.task_tier "stone"));
    gene = or_else k.gene (extract_gene (content_of k));
    full_text = content_of k;
    scope = ("task_group", or_else k.task_group (or_else k.group "")) ∷ place_of k;
    claimed_context = place_of k;
    preconditions = preconditions_of k;
    postconditions = postconditions_of k;
    hard_non_applicable_contexts = infer_safety_contexts (content_of k) k.non_applicable_contexts;
    non_applicable_contexts = [];
    details = record {
      source = or_else k.source "XENON_FAM";
      expected_uplift = or_else k.expected_uplift (lit 5 2);
      risk_bound = or_else k.risk_bound (lit 10 2);
      recovery_rule = or_else k.recovery_rule "";
      termination_condition = or_else k.termination_condition "";
      evidence_requirement =
          ("min_use", or_else k.min_use (lit 5 0))
          ∷ ("min_base", or_else k.min_base (lit 3 0))
          ∷ ("max_harm_ucb", or_else k.max_harm_ucb (lit 10 2))
          ∷ [];
      source_episode = or_else k.episode_id "";
      status = "candidate";
    };
  }

  -- `extract_batch`, with an identifier for each piece
  unfoldable pub extract_batch : List (String × RawKnowledge F) → List (KnowledgeContract F)
  extract_batch ks = map (λ k. extract k.0 k.1) ks
