-- ===== src/Protocol/Names.antt =====
-- cact/protocol_v2.py: the names of the methods, and the `ValueError` for any other.
use aaai.Prelude.{
  String, Bool, true, false, ◌||◌, ◌&&◌, Option, none, some, List, [], ◌∷◌, ◌++◌, if◌then◌else◌,
  or_else, Dict, get, map,
}
use aaai.Contract.Extract.{is_listed}
use text.Mathlib.Text.{starts_with}

abbrev pub main_methods : List String
main_methods =
    "NoKnowledge" ∷ "NoGate" ∷ "FixedBayes" ∷ "PairwisePreferenceGate" ∷ "C-ACT-Pointwise" ∷ "C-ACT"
    ∷ []

abbrev pub online_main_methods : List String
online_main_methods =
    "Online-NoGate" ∷ "Online-FixedBayes" ∷ "Online-C-ACT-Pointwise" ∷ "Online-C-ACT" ∷ []

abbrev pub e4_ablation_methods : List String
e4_ablation_methods =
    "C-ACT" ∷ "C-ACT-IndependentMargins" ∷ "C-ACT-HardBackoff" ∷ "C-ACT-MyopicReserve" ∷ []

abbrev pub legacy_methods : List String
legacy_methods =
    "XENON-Original" ∷ "BankCuration" ∷ "LifecycleSuccessGate" ∷ "SuccessLifecycle" ∷ "ACT"
    ∷ "C-ACT-Full" ∷ "OracleGate" ∷ "ShuffledKnowledge" ∷ []

abbrev pub method_aliases : Dict String
method_aliases = ("C-ACT-Full", "C-ACT") ∷ ("SuccessLifecycle", "LifecycleSuccessGate") ∷ []

unfoldable pub canonical_method_name : String → String
canonical_method_name method = or_else (get method_aliases method) method

pub data Validated : Type 0 where
  valid : String → Validated
  -- the `ValueError`, with the name as it was given
  unsupported_method : String → Validated

-- `allowed_set` where no list of allowed methods is given
unfoldable pub known_methods : Bool → List String
known_methods false = main_methods
known_methods true =
    main_methods
    ++ (legacy_methods
        ++ (online_main_methods
            ++ (e4_ablation_methods ++ map canonical_method_name legacy_methods)))

-- The prefixes that pass where legacy names are allowed.
unfoldable pub is_variant_name : String → Bool
is_variant_name name = starts_with name "C-ACT-" || starts_with name "Online-C-ACT-"

unfoldable pub accepts_name : Option (List String) → Bool → String → Bool
accepts_name (some allowed) allow_legacy name = is_listed name (map canonical_method_name allowed)
accepts_name none allow_legacy name =
    (allow_legacy && is_variant_name name) || is_listed name (known_methods allow_legacy)

unfoldable pub validate_method_name : String → Option (List String) → Bool → Validated
validate_method_name method allowed allow_legacy =
    let canonical = canonical_method_name method in
    if accepts_name allowed allow_legacy canonical
    then valid canonical
    else unsupported_method method
