-- ===== src/Tests/Stores.antt =====
-- The theorems on the store, the contracts and the chain of items at concrete inputs.
use aaai.Prelude.{◌≡◌, refl, true, false, List, [], ◌∷◌, ◌↔◌, All, keys}
use aaai.Prelude.Int.{ℤ}
use aaai.Float.Scaled.{scaled_float, scaled_sampler, scaled-IsOrdered}
use aaai.Text.{has_bar}
use aaai.Contract.{
  check_scope_match, check_hard_boundary, check_preconditions, check_postconditions, from_dict,
  to_dict,
}
use aaai.Contract.Serial.{from_dict-to_dict}
use aaai.Lifecycle.{get_state}
use aaai.Store.{stats_of, ess}
use aaai.Store.Record.{uplift_probability, uplift_lcb, harm_upper_bound, record_episode, decay_all}
use aaai.Store.Frame.{record_episode-frame}
use aaai.Store.Episode.{after_episode, record_episode-after_episode}
use aaai.Store.Reads.{queries-stats_of}
use aaai.Store.Aging.{IsModerate, decay_all-IsModerate}
use aaai.Interaction.{ItemStats, interaction_safe}
use aaai.Interaction.Chain.{is_refusal, safe, recommendation, check_pairs, check_chain, pairs_of}
use aaai.Interaction.Report.{check_chain_report}
use aaai.Tests.Data.{
  smelting, at_furnace, iron_context, smelt_use, used_store, iron_stats, torch_stats, fixed,
  fresh_interaction_gate,
}

record_episode-frame_example :
    (stats_of (record_episode smelt_use used_store) "craft_torch" "iron" "use"
      ≡ stats_of used_store "craft_torch" "iron" "use")
    × (get_state (record_episode smelt_use used_store).lifecycle "craft_torch"
        ≡ get_state used_store.lifecycle "craft_torch")
unfolding has_bar
record_episode-frame_example =
    record_episode-frame smelt_use used_store "craft_torch" "iron" "use" refl refl refl

record_episode-after_episode_example :
    stats_of (record_episode smelt_use used_store) "smelt_iron" "iron" "use"
    ≡ after_episode smelt_use "iron" "use" (stats_of used_store "smelt_iron" "iron" "use")
unfolding has_bar
record_episode-after_episode_example =
    record_episode-after_episode smelt_use used_store "iron" "use" refl refl

queries-stats_of_example :
    (stats_of
        (uplift_probability "smelt_iron" "iron" (fixed 5 2) used_store).1
        "craft_torch"
        "iron"
        "use"
      ≡ stats_of used_store "craft_torch" "iron" "use")
    × (stats_of (uplift_lcb "smelt_iron" "iron" (fixed 5 2) used_store).1 "craft_torch" "iron" "use"
        ≡ stats_of used_store "craft_torch" "iron" "use")
    × (stats_of
          (harm_upper_bound "smelt_iron" "iron" (fixed 95 2) used_store).1
          "craft_torch"
          "iron"
          "use"
        ≡ stats_of used_store "craft_torch" "iron" "use")
    × (stats_of (ess "smelt_iron" "iron" used_store).1 "craft_torch" "iron" "use"
        ≡ stats_of used_store "craft_torch" "iron" "use")
unfolding has_bar
queries-stats_of_example =
    queries-stats_of "smelt_iron" "iron" used_store (fixed 5 2) (fixed 95 2) "craft_torch" "iron"
      "use" refl refl refl

decay_all-IsModerate_example :
    All IsModerate (decay_all used_store).posteriors
    × (keys (decay_all used_store).posteriors ≡ keys used_store.posteriors)
decay_all-IsModerate_example = decay_all-IsModerate scaled-IsOrdered used_store

from_dict-to_dict_example :
    (check_scope_match (from_dict (to_dict smelting)) iron_context
      ≡ check_scope_match smelting iron_context)
    × (check_hard_boundary (from_dict (to_dict smelting)) at_furnace
        ≡ check_hard_boundary smelting at_furnace)
    × (check_preconditions (from_dict (to_dict smelting)) at_furnace
        ≡ check_preconditions smelting at_furnace)
    × (check_postconditions (from_dict (to_dict smelting)) at_furnace at_furnace
        ≡ check_postconditions smelting at_furnace at_furnace)
from_dict-to_dict_example = from_dict-to_dict smelting iron_context at_furnace at_furnace

abbrev chain : List (ItemStats ℤ)
chain = iron_stats ∷ torch_stats ∷ []

check_chain_report_example :
    ((safe (check_chain fresh_interaction_gate [] iron_context chain 7).0 ≡ true)
      ↔ All
          (λ f. is_refusal f.1.recommendation ≡ false)
          (check_pairs fresh_interaction_gate [] iron_context (pairs_of chain) 7).0)
    × ((safe (check_chain fresh_interaction_gate [] iron_context chain 7).0 ≡ true) ↔ (
        recommendation (check_chain fresh_interaction_gate [] iron_context chain 7).0
        ≡ interaction_safe))
    × ((check_chain fresh_interaction_gate [] iron_context chain 7).0.conflict_pairs ≡ [])
check_chain_report_example = check_chain_report fresh_interaction_gate [] iron_context chain 7
