-- ===== src/Controller.antt =====
-- cact/decision_controller.py: `DecisionController.decide`, its seven steps. A candidate is a contract
-- dictionary. The global generators of `random` and numpy are one state, `seed`. The boost that a
-- synergy gives to `synergy_score` is left out: nothing reads the score after it.
pub mod Choose
pub mod ActiveOps
pub mod Decide
pub mod Filter
pub mod Scoring
pub mod Active
pub mod Sound
pub mod Sorting
pub mod Best
pub mod Outcome
use aaai.Prelude.{
  ℕ, ◌+◌, String, Bool, true, false, not, ◌&&◌, ◌||◌, Option, none, some, List, [], ◌∷◌, ◌++◌, ◌==◌,
  if◌then◌else◌, or_else, is_nil, is_some, Dict, get, length, map, filter_by, leb,
}
use aaai.Float.{Float, Sampler, lit, ◌⊖◌, ◌<?◌}
use aaai.State.{State, is_set}
use aaai.Contract.{
  KnowledgeContract, ContractDict, check_scope_match, check_preconditions, check_hard_boundary,
}
use aaai.Gate.{TrustGate, GateInfo, Reason, probation_high_risk_blocked, evaluate}
use aaai.Store.{TrustStore, Method, ◌>>=◌, pure, gets, get_contract, get_stats, total_count, ess}
use aaai.Store.Record.{uplift_probability, uplift_lcb, harm_upper_bound, get_lifecycle_state}
use aaai.Interaction.{InteractionGate, ItemStats, PairFinding}
use aaai.Logging.{ActiveBaseLogger}
use aaai.Probe.{SafeThompsonProber}

pub data Decision : Type 0 where
  fallback reuse probe force_base : Decision

pub record DecisionResult (F : Type 0) : Type 0 where
  pub decision : Decision
  pub chosen_knowledge_id : String
  pub chosen_contract : Option (ContractDict F)
  pub pi_uplift : F
  pub harm_ucb : F
  pub uplift_lcb : F
  pub contract_satisfied_before : Bool
  pub interaction_safe : Bool
  pub interaction_state : String
  pub synergy_pairs : List (PairFinding F)
  pub tau_group_level : F
  pub delta_group_level : F
  pub harm_threshold_group_level : F
  pub propensity_reuse : F
  pub propensity_base : F
  pub lifecycle_state : String
  pub supervised : Bool
  pub filtered_count : ℕ
  pub scored_count : ℕ
  pub chain_length : ℕ

pub record DecisionController (F : Type 0) : Type 0 where
  pub store : TrustStore F
  pub gate : TrustGate F
  pub ig : InteractionGate F
  pub al : ActiveBaseLogger F
  pub tp : SafeThompsonProber F
  pub abl_contract : Bool
  pub abl_interaction : Bool
  pub abl_active_calib : Bool
  pub abl_thompson : Bool
  pub seed : ℕ

-- A candidate with its evidence and the verdict of the gate.
pub record Scored (F : Type 0) : Type 0 where
  pub knowledge_id : String
  pub contract : ContractDict F
  pub pi_uplift : F
  pub uplift_lcb : F
  pub harm_ucb : F
  pub lifecycle : String
  pub certified : Bool
  pub contract_ok : Bool
  pub gate_info : GateInfo F

-- `context.get("bucket", context.get("subgoal_type", "craft"))`
unfoldable pub context_key : Dict String → String
context_key context = or_else (get context "bucket") (or_else (get context "subgoal_type") "craft")

-- `context.get("risk_level") == "high"`
unfoldable pub at_high_risk : Dict String → Bool
at_high_risk context = or_else (get context "risk_level") "" == "high"

-- `context.get("risk_level", "medium")`
unfoldable pub risk_level : Dict String → String
risk_level context = or_else (get context "risk_level") "medium"

module _ {F : Type 0} where
  -- `_dict_to_contract`: the new fields `scope` and `hard_non_applicable_contexts` are not copied.
  unfoldable pub dict_to_contract : ContractDict F → KnowledgeContract F
  dict_to_contract d = record {
    knowledge_id = d.knowledge_id;
    type_name = d.type_name;
    level = d.level;
    gene = d.gene;
    full_text = or_else d.full_text d.gene;
    scope = [];
    claimed_context = d.claimed_context;
    preconditions = d.preconditions;
    postconditions = d.postconditions;
    hard_non_applicable_contexts = [];
    non_applicable_contexts = d.non_applicable_contexts;
    details = d.details;
  }

module _ {F : Type 0} ⦃o : Float F⦄ ⦃s : Sampler F⦄ where
  -- The three tests of `_contract_filter`, each made only where the dictionary has the field.
  unfoldable pub passes_contract : State F → Dict String → ContractDict F → Bool
  passes_contract st context u =
      (is_nil u.claimed_context || check_scope_match (dict_to_contract u) context)
      && (is_nil u.non_applicable_contexts || (check_hard_boundary (dict_to_contract u) st).0)
      && (is_nil u.preconditions || (check_preconditions (dict_to_contract u) st).0)

  unfoldable pub contract_filter :
      List (ContractDict F) → State F → Dict String → List (ContractDict F)
  contract_filter candidates st context = filter_by (passes_contract st context) candidates

  -- The registered contract's preconditions; an item without a contract passes.
  unfoldable pub contract_check : Option (ContractDict F) → State F → Bool
  contract_check none st = true
  contract_check (some c) st = (check_preconditions (dict_to_contract c) st).0

  -- The verdict on an item, from its evidence.
  unfoldable pub judge :
      TrustGate F
      → Option String
      → Dict String
      → ContractDict F
      → F
      → F
      → F
      → String
      → Bool
      → Scored F
  judge gate group context u pi ul hu lc contract_ok =
      let (allow, info) = evaluate gate pi ul hu group lc contract_ok true in
      let guarded = allow && lc == "probation" && at_high_risk context in
      record {
        knowledge_id = u.knowledge_id;
        contract = u;
        pi_uplift = pi;
        uplift_lcb = ul;
        harm_ucb = hu;
        lifecycle = lc;
        certified = if guarded then false else allow;
        contract_ok = contract_ok;
        gate_info = if guarded then record info { reason = probation_high_risk_blocked } else info;
      }

  -- One pass of the loop of step 3.
  unfoldable pub score_item :
      TrustGate F → Option String → State F → Dict String → ContractDict F → Method F (Scored F)
  score_item gate group st context u = do
    pi ← uplift_probability u.knowledge_id (context_key context) (lit 5 2)
    ul ← uplift_lcb u.knowledge_id (context_key context) (lit 5 2)
    hu ← harm_upper_bound u.knowledge_id (context_key context) (lit 95 2)
    lc ← gets (λ store. get_lifecycle_state store u.knowledge_id)
    ok ← gets (λ store. contract_check (get_contract store u.knowledge_id) st)
    pure (judge gate group context u pi ul hu lc ok)

  unfoldable pub score_all :
      TrustGate F
      → Option String
      → State F
      → Dict String
      → List (ContractDict F)
      → Method F (List (Scored F))
  score_all gate group st context [] = pure []
  score_all gate group st context (u ∷ rest) = do
    c ← score_item gate group st context u
    cs ← score_all gate group st context rest
    pure (c ∷ cs)

module _ {F : Type 0} ⦃o : Float F⦄ where
  -- `sorted(scored, key=lambda x: x["pi_uplift"], reverse=True)`: equal items keep their order.
  unfoldable pub insert_by_uplift : Scored F → List (Scored F) → List (Scored F)
  insert_by_uplift c [] = c ∷ []
  insert_by_uplift c (d ∷ ds) =
      if c.pi_uplift <? d.pi_uplift then d ∷ insert_by_uplift c ds else c ∷ d ∷ ds

  unfoldable pub sort_by_uplift : List (Scored F) → List (Scored F)
  sort_by_uplift [] = []
  sort_by_uplift (c ∷ cs) = insert_by_uplift c (sort_by_uplift cs)

  -- The statistics of each item of the chain, as the interaction check reads them.
  unfoldable pub item_stats : String → Scored F → Method F (ItemStats F)
  item_stats key c = do
    (a1, b1) ← get_stats c.knowledge_id key "use"
    (a2, b2) ← get_stats c.knowledge_id key "base"
    pure (record {
      knowledge_id = c.knowledge_id;
      use_alpha = a1;
      use_beta = b1;
      base_alpha = a2;
      base_beta = b2;
    })

  unfoldable pub chain_stats : String → List (Scored F) → Method F (List (ItemStats F))
  chain_stats key [] = pure []
  chain_stats key (c ∷ cs) = do x ← item_stats key c; xs ← chain_stats key cs; pure (x ∷ xs)
