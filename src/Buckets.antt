-- ===== src/Buckets.antt =====
-- cact/context_bucket.py: `ContextBucket`, the keys under which evidence is shared, and the grouping
-- of buckets that are alike. Left out are the search for a field to split by, `maybe_split`, and with
-- it `maintain`. scipy's `betaln` and `digamma` are arguments.
pub mod Groups
pub mod Disjoint
pub mod Merging
use aaai.Prelude.{
  ℕ, zero, suc, ◌*◌, String, Bool, true, false, ◌||◌, Option, none, some, List, [], ◌∷◌, ◌++◌, ◌==◌,
  if◌then◌else◌, or_else, length, Dict, get, put, leb, ltb,
}
use aaai.Float.{Float, lit, ◌⊕◌, ◌⊖◌, ◌⊗◌, ◌<?◌, py_max}
use aaai.Text.{join_bars, text_append}
use aaai.Contract.Extract.{is_listed}

-- The confidences and the outcomes of one bucket.
pub record BucketRecord (F : Type 0) : Type 0 where
  pub conf : List F
  pub out : List F

pub record ContextBucket (F : Type 0) : Type 0 where
  pub ece_threshold : F
  pub merge_threshold : F
  pub n_split_min : ℕ
  pub n_merge_min : ℕ
  pub bucket_stats : Dict (BucketRecord F)
  pub split_fields : List String

-- `(alpha, beta, n)` of one bucket
pub record Support (F : Type 0) : Type 0 where
  pub alpha : F
  pub beta : F
  pub n : ℕ

abbrev pub all_fields : List String
all_fields =
    "subgoal_type" ∷ "failure_type" ∷ "inventory_sig" ∷ "risk_level" ∷ "task_tier" ∷ "biome" ∷ []

-- `x or d`
or_default : String → String → String
or_default x d = if x == "" then d else x

module _ {F : Type 0} where
  unfoldable pub new_bucket : F → F → ℕ → ℕ → ContextBucket F
  new_bucket ece_threshold merge_threshold n_split_min n_merge_min = record {
    ece_threshold = ece_threshold;
    merge_threshold = merge_threshold;
    n_split_min = if ltb n_split_min 30 then 30 else n_split_min;
    n_merge_min = n_merge_min;
    bucket_stats = [];
    split_fields = all_fields;
  }

  -- `if name in self._split_fields: fields.append(value)`
  unfoldable pub field_if : ContextBucket F → String → String → List String
  field_if cb name value = if is_listed name cb.split_fields then value ∷ [] else []

  -- `encode`; `biome` is a parameter of the source that it never reads.
  unfoldable pub encode :
      ContextBucket F → String → String → String → String → String → String → String
  unfolding or_default
  encode cb ktype subgoal failure inventory risk tier = join_bars (
      ktype ∷ field_if cb "subgoal_type" (or_default subgoal "craft")
      ++ field_if cb "failure_type" (or_default failure "none")
      ++ field_if cb "inventory_sig" (or_default inventory "basic")
      ++ field_if cb "risk_level" risk
      ++ field_if cb "task_tier" tier)

  unfoldable pub accumulate : ContextBucket F → String → F → F → ContextBucket F
  accumulate cb key confidence outcome =
      let old = or_else (get cb.bucket_stats key) (record { conf = []; out = [] }) in
      record cb {
        bucket_stats =
            put cb.bucket_stats key
              (record { conf = old.conf ++ confidence ∷ []; out = old.out ++ outcome ∷ [] });
      }

module _ {F : Type 0} ⦃o : Float F⦄ where
  -- `bucket_stats.get(b, (1.0, 1.0, 0))`
  unfoldable pub support_of : Dict (Support F) → String → Support F
  support_of stats b = or_else (get stats b) (record { alpha = lit 10 1; beta = lit 10 1; n = 0 })

  -- `n >= self.n_merge_min * 2`
  unfoldable pub has_support : ContextBucket F → Dict (Support F) → String → Bool
  has_support cb stats b = leb (cb.n_merge_min * 2) (support_of stats b).n

module _ {F : Type 0} ⦃o : Float F⦄ (betaln : F → F → F) (digamma : F → F) where
  unfoldable pub beta_kl_divergence : F → F → F → F → F
  beta_kl_divergence a1 b1 a2 b2 = py_max (lit 0 0) (
      betaln a2 b2
      ⊖ betaln a1 b1
      ⊕ (a1 ⊖ a2) ⊗ digamma a1
      ⊕ (b1 ⊖ b2) ⊗ digamma b1
      ⊕ (a2 ⊖ a1 ⊕ b2 ⊖ b1) ⊗ digamma (a1 ⊕ b1))

  -- `kl < self.merge_threshold`, from the first bucket to the second
  unfoldable pub is_similar : ContextBucket F → Dict (Support F) → String → String → Bool
  is_similar cb stats b1 b2 =
      let s1 = support_of stats b1 in
      let s2 = support_of stats b2 in
      beta_kl_divergence s1.alpha s1.beta s2.alpha s2.beta <? cb.merge_threshold

  -- The inner loop: the group and the set `used` after the buckets behind the first.
  unfoldable pub grow :
      ContextBucket F
      → Dict (Support F)
      → String
      → List String × List String
      → List String
      → List String × List String
  grow cb stats b1 (group, used) [] = (group, used)
  grow cb stats b1 (group, used) (b2 ∷ rest) =
      grow cb stats b1
        (if is_listed b2 used
          then (group, used)
          else if has_support cb stats b2
          then (group, used)
          else if is_similar cb stats b1 b2
          then (group ++ b2 ∷ [], b2 ∷ used)
          else (group, used))
        rest

  -- The outer loop.
  unfoldable pub merge_from :
      ContextBucket F → Dict (Support F) → List String → List String → List (List String)
  merge_from cb stats used [] = []
  merge_from cb stats used (b1 ∷ rest) =
      let grown = grow cb stats b1 (b1 ∷ [], b1 ∷ used) rest in
      let skipped = merge_from cb stats used rest in
      let passed = merge_from cb stats (b1 ∷ used) rest in
      let others = merge_from cb stats grown.1 rest in
      if is_listed b1 used
      then skipped
      else if has_support cb stats b1
      then passed
      else if ltb 1 (length grown.0)
      then grown.0 ∷ others
      else others

  unfoldable pub maybe_merge : ContextBucket F → List String → Dict (Support F) → List (List String)
  maybe_merge cb buckets stats =
      let merges = merge_from cb stats [] buckets in if ltb (length buckets) 2 then [] else merges
