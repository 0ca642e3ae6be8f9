-- ===== src/Tests/Banks.antt =====
-- The sanitiser of a bank at concrete items.
use aaai.Prelude.{◌≡◌, ◌+◌, ℕ, String, none, some, List, [], ◌∷◌, All}
use aaai.Prelude.Int.{ℤ}
use aaai.Float.Scaled.{scaled_float}
use aaai.Sanitizer.{Item}
use aaai.Sanitizer.Merge.{sanitize}
use aaai.Sanitizer.Dedup.{deduplicate}
use aaai.Sanitizer.Accounted.{times, times_logged, deduplicate-times}
use aaai.Sanitizer.Complete.{IsComplete, sanitize-IsComplete}
use aaai.Tests.Data.{fixed}

abbrev remedy_for : String → String → ℕ → Item ℤ
remedy_for kid gene seen = record {
  knowledge_id = some kid;
  type_name = some "remedy";
  task_group = some "stone";
  group = none;
  gene = some gene;
  instruction = none;
  correction = none;
  full_text = none;
  scope = ("task_tier", "stone") ∷ [];
  claimed_context = [];
  hard_non_applicable_contexts = "lava" ∷ [];
  non_applicable_contexts = [];
  preconditions = "tool == pickaxe" ∷ [];
  postconditions = [];
  observation_count = some seen;
  n_observations = none;
  harm_count = none;
  harmful_count = none;
  timestamp = none;
  merge_sources = [];
  status = none;
  sanitizer_action = none;
}

-- Two near duplicates, another remedy, and an item without a gene.
abbrev bank : List (Item ℤ)
bank =
    remedy_for "r1" "dig down" 2
    ∷ remedy_for "r2" "dig down" 5
    ∷ remedy_for "r3" "climb" 1
    ∷ remedy_for "r4" "" 1
    ∷ []

sanitize-IsComplete_example :
    All IsComplete (sanitize (λ n. "1") (fixed 65 2) bank ("r9" ∷ [])).clean
sanitize-IsComplete_example = sanitize-IsComplete (λ n. "1") (fixed 65 2) bank ("r9" ∷ [])

deduplicate-times_example :
    times "r1" (deduplicate (fixed 65 2) bank).0
      + times_logged "r1" (deduplicate (fixed 65 2) bank).1
    ≡ times "r1" bank
deduplicate-times_example = deduplicate-times "r1" (fixed 65 2) bank
