-- ===== src/Tests/Data.antt =====
-- Concrete values over the fixed-point numbers, which the tests and the witnesses run the code on.
use aaai.Prelude.{ℕ, String, true, none, some, List, [], ◌∷◌}
use aaai.Prelude.Int.{ℤ}
use aaai.Float.{lit}
use aaai.Float.Scaled.{scaled_float, scaled_sampler}
use aaai.State.{State, flag}
use aaai.Contract.{ContractDict, KnowledgeContract, Details}
use aaai.Gate.{TrustGate, empty_gate}
use aaai.Logging.{default_logger}
use aaai.Probe.{Evidence, default_prober}
use aaai.Store.{TrustStore, Observation, empty_store, register_contract}
use aaai.Store.Record.{record_episode}
use aaai.Interaction.{InteractionGate, ItemStats, default_interaction_gate}
use aaai.Controller.{DecisionController}

abbrev pub details : Details ℤ
details = record {
  source = "xenon";
  expected_uplift = lit 15 2;
  risk_bound = lit 10 2;
  recovery_rule = "";
  termination_condition = "";
  evidence_requirement = [];
  source_episode = "";
  status = "candidate";
}

-- A contract that asks for a furnace and is ruled out near lava.
abbrev pub smelting : KnowledgeContract ℤ
smelting = record {
  knowledge_id = "smelt_iron";
  type_name = "skill";
  level = "functional";
  gene = "smelt iron ore in a furnace";
  full_text = "smelt iron ore in a furnace";
  scope = [];
  claimed_context = ("bucket", "iron") ∷ [];
  preconditions = "has_furnace" ∷ [];
  postconditions = "craft_completed" ∷ [];
  hard_non_applicable_contexts = [];
  non_applicable_contexts = "lava_nearby" ∷ [];
  details = details;
}

-- The same as a candidate, and one without conditions.
abbrev pub smelt_candidate : ContractDict ℤ
smelt_candidate = record {
  knowledge_id = "smelt_iron";
  type_name = "skill";
  level = "functional";
  gene = "smelt iron ore in a furnace";
  full_text = none;
  scope = [];
  claimed_context = ("bucket", "iron") ∷ [];
  preconditions = "has_furnace" ∷ [];
  postconditions = [];
  hard_non_applicable_contexts = [];
  non_applicable_contexts = "lava_nearby" ∷ [];
  details = details;
  group = some "crafting";
}

abbrev pub torch_candidate : ContractDict ℤ
torch_candidate = record {
  knowledge_id = "craft_torch";
  type_name = "skill";
  level = "atomic_correction";
  gene = "craft a torch";
  full_text = none;
  scope = [];
  claimed_context = [];
  preconditions = [];
  postconditions = [];
  hard_non_applicable_contexts = [];
  non_applicable_contexts = [];
  details = details;
  group = none;
}

abbrev pub at_furnace : State ℤ
at_furnace = record { entries = ("has_furnace", flag true) ∷ []; health = none }

abbrev pub iron_context : List (String × String)
iron_context = ("bucket", "iron") ∷ ("risk_level", "medium") ∷ []

abbrev pub danger_context : List (String × String)
danger_context = ("bucket", "iron") ∷ ("risk_level", "high") ∷ []

abbrev pub smelt_use : Observation ℤ
smelt_use = record {
  kid = "smelt_iron";
  context = "iron";
  used = true;
  success = lit 1 0;
  is_harmful = lit 0 0;
  propensity = some (lit 50 2);
  episode_id = "e1";
  postcondition_satisfied = none;
}

-- A store that knows the contract and has seen one successful use.
abbrev pub used_store : TrustStore ℤ
used_store = record_episode smelt_use (register_contract empty_store "smelt_iron" smelt_candidate)

abbrev pub controller : DecisionController ℤ
controller = record {
  store = used_store;
  gate = empty_gate;
  ig = default_interaction_gate;
  al = default_logger;
  tp = default_prober;
  abl_contract = true;
  abl_interaction = true;
  abl_active_calib = true;
  abl_thompson = true;
  seed = 7;
}

abbrev pub evidence : Evidence ℤ
evidence = record {
  use_alpha = lit 8 1;
  use_beta = lit 12 1;
  base_alpha = lit 6 1;
  base_beta = lit 14 1;
  harm_alpha = lit 1 2;
  harm_beta = lit 20 1;
  ess = lit 2 0;
  pi_uplift = lit 90 2;
  tau_threshold = lit 88 2;
  n_base = lit 1 0;
  ece = lit 0 0;
  precond_fail_rate = lit 0 0;
  interaction_state = "safe";
}

abbrev pub iron_stats : ItemStats ℤ
iron_stats = record {
  knowledge_id = "smelt_iron";
  use_alpha = lit 8 1;
  use_beta = lit 12 1;
  base_alpha = lit 6 1;
  base_beta = lit 14 1;
}

abbrev pub torch_stats : ItemStats ℤ
torch_stats = record {
  knowledge_id = "craft_torch";
  use_alpha = lit 8 1;
  use_beta = lit 12 1;
  base_alpha = lit 6 1;
  base_beta = lit 14 1;
}

-- A fixed-point literal, and the gate before any calibration.
abbrev pub fixed : ℕ → ℕ → ℤ
fixed n d = lit n d

abbrev pub fresh_gate : TrustGate ℤ
fresh_gate = empty_gate

abbrev pub fresh_interaction_gate : InteractionGate ℤ
fresh_interaction_gate = default_interaction_gate
