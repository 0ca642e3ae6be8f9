-- ===== src/Tests/Merges.antt =====
-- The grouping of buckets at concrete inputs.
use aaai.Prelude.{ℕ, ◌≡◌, refl, String, List, [], ◌∷◌, All, Dict}
use aaai.Prelude.Int.{ℤ, pos}
use aaai.Float.Scaled.{scaled_float}
use aaai.Buckets.{ContextBucket, Support, new_bucket, maybe_merge}
use aaai.Buckets.Groups.{IsGroup}
use aaai.Buckets.Disjoint.{flatten, IsDistinct}
use aaai.Buckets.Merging.{maybe_merge-IsGroup}
use aaai.Tests.Data.{fixed}

-- Stand-ins for the special functions: every two distributions are alike.
abbrev flat : ℤ → ℤ → ℤ
flat a b = pos 0

abbrev zero_at : ℤ → ℤ
zero_at a = pos 0

abbrev default_buckets : ContextBucket ℤ
default_buckets = new_bucket (fixed 15 2) (fixed 5 2) 10 3

abbrev supports : Dict (Support ℤ)
supports =
    ("skill|craft", record { alpha = fixed 2 0; beta = fixed 1 0; n = 1 })
    ∷ ("skill|mine", record { alpha = fixed 3 0; beta = fixed 1 0; n = 2 })
    ∷ ("remedy|mine", record { alpha = fixed 9 0; beta = fixed 1 0; n = 8 })
    ∷ []

abbrev names : List String
names = "skill|craft" ∷ "skill|mine" ∷ "remedy|mine" ∷ []

-- The two buckets with little support are merged.
merged-names :
    maybe_merge flat zero_at default_buckets names supports
    ≡ ("skill|craft" ∷ "skill|mine" ∷ []) ∷ []
unfolding maybe_merge aaai.Buckets.merge_from aaai.Buckets.grow aaai.Buckets.has_support
    aaai.Buckets.is_similar aaai.Buckets.support_of aaai.Buckets.beta_kl_divergence new_bucket
    aaai.Contract.Extract.is_listed aaai.Prelude.get aaai.Float.py_max
merged-names = refl

maybe_merge-IsGroup_example :
    All
      (IsGroup flat zero_at default_buckets supports)
      (maybe_merge flat zero_at default_buckets names supports)
    × IsDistinct (flatten (maybe_merge flat zero_at default_buckets names supports))
maybe_merge-IsGroup_example = maybe_merge-IsGroup flat zero_at default_buckets supports names
