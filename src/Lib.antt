-- ===== src/Lib.antt =====
-- C-ACT, the admission control for evolved knowledge in the `cact` package of this repository.
--
-- An agent that plays Minecraft meets pieces of knowledge, each with a contract. Before a piece is
-- reused, `DecisionController.decide` filters the candidates by their contracts, reads their evidence
-- from the `TrustStore`, asks the `TrustGate` for a verdict on each, checks the pairs of the chain
-- with the `InteractionGate`, and chooses. Outside evaluation a choice may be turned into a forced
-- base run (`ActiveBaseLogger`) or a probe (`SafeThompsonProber`). What happened is recorded in the
-- store, which moves the item through its lifecycle (`LifecycleManager`) and ages its posteriors
-- (`TemporalDecay`) towards priors of its type and level (`EmpiricalBayes`).
--
-- An outcome is attributed to a cause before it counts (`OutcomeAttributor`). The protocol of the
-- experiments admits an opportunity by a calibrated policy with a budget of risk for each episode
-- (`AdmissionPolicyV2`). Apart from these the agent plans with a graph of crafting recipes
-- (`KnowledgeGraph`), whose compilation to ordered sub-goals is modelled.
--
-- The parts, with the source that each models:
--   Prelude, Text, State  Python's dictionaries, strings and observed values, as the code uses them
--   Float                 floating point numbers and random draws, the interface to doubles and scipy
--   Lifecycle             cact/lifecycle_manager.py
--   Gate                  cact/trust_gate.py (Gate/Calibrate: the search for thresholds)
--   Decay                 cact/temporal_decay.py
--   Logging               cact/active_logging.py
--   Probe                 cact/thompson_probe.py
--   Contract              cact/contract.py (Contract/Extract and Raw: the extractor)
--   Bayes                 cact/empirical_bayes.py
--   Store                 cact/trust_store.py (Store/Record: queries, episodes, decay; Store/Transfer:
--                         export and import)
--   Interaction           cact/interaction_gate.py (Interaction/Chain: the loop over the pairs)
--   Buckets               cact/context_bucket.py
--   Controller            cact/decision_controller.py (Choose, ActiveOps, Decide: its later steps)
--   Attribution           cact/attribution.py
--   Protocol              cact/protocol_v2.py (Names: the methods; Schema: the log of opportunities; Cap:
--                         the statistics; Calibrator: selection and audit; Admission: the decision;
--                         Applicability: the specs of items, and the randomised assignment)
--   Metrics               cact/metrics.py
--   Sanitizer             cact/bank_sanitizer.py (Dedup: near duplicates; Merge: merging and the pipeline)
--   Graph                 src/optimus1/memories/relative_graph.py (Steps: the compilation of recipes;
--                         Sort: the order of the sub-goals; Summary: sums of quantities and base
--                         items; Tools: the tools that these need, and the whole compilation)
--   Tests                 concrete runs
-- The other modules below these hold proofs, and are named for what they prove.
--
-- State and calls. Each class is a record of its attributes; a method that writes them is a function
-- to the result and the record after it. The methods of the store are composed with `do`, since a
-- read of a missing key writes its prior. A dictionary is an association list in insertion order; a
-- dictionary with fixed keys is a record; the dictionaries that are returned for logging are records
-- too. Names are those of the source, without a leading underscore.
--
-- Numbers. Counters are natural numbers. A float is an element of a type with the operations of
-- `Float`, and the theorems on bounds and thresholds take the laws `IsOrdered`, which hold of IEEE
-- doubles: NaN is the value that is not below itself, and no law speaks of exact arithmetic. What
-- scipy, numpy, random and hashlib compute is given by `Sampler`, of which nothing is assumed; a
-- generator's state is a number that goes through the calls in their order. Float/Scaled is a
-- concrete instance, on which the tests run.
--
-- Termination. Every loop over a list is a structural recursion; no
-- definition takes fuel, but for two of the recipe graph. `_compile_steps` calls itself along the
-- recipes; fuel beyond the number of recipes is enough, since an item on the path is not expanded
-- again. The queue loop of `_topo_sort` needs fuel of the number of in-degrees, since a node enters
-- the queue once. Out of fuel and `KeyError` are results of their own.
--
-- Not modelled: files (the JSON stores, the lifecycle file, the decision log, the calibration file)
-- and locks; exceptions of numpy and scipy; letters beyond ASCII in `lower`; the memory facade, the
-- splitting of context buckets, the AIPW estimator and the bootstrap of the protocol, the metrics that
-- sort or bin, the reading of recipe files, the agent's planner, environment, server and models.
pub mod Prelude
pub mod Float
pub mod Lifecycle
pub mod Gate
pub mod Decay
pub mod Logging
pub mod Probe
pub mod Text
pub mod State
pub mod Contract
pub mod Attribution
pub mod Bayes
pub mod Store
pub mod Interaction
pub mod Controller
pub mod Buckets
pub mod Graph
pub mod Protocol
pub mod Metrics
pub mod Sanitizer
pub mod Tests
