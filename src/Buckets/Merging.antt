-- ===== src/Buckets/Merging.antt =====
-- cact/context_bucket.py, `maybe_merge`: the groups that it returns.
use aaai.Prelude.{String, List, [], length, Dict, All, if_elim, ltb}
use aaai.Float.{Float}
use aaai.Buckets.{ContextBucket, Support, merge_from, maybe_merge}
use aaai.Buckets.Groups.{IsGroup, merge_from-IsGroup}
use aaai.Buckets.Disjoint.{flatten, IsDistinct, merge_from-IsApart}

-- Each group that `maybe_merge` returns has two buckets or more, all of them with little support, and
-- all behind the first similar to it; and no bucket stands in two groups or twice in one, whatever
-- the list of buckets.
pub maybe_merge-IsGroup :
    {F : Type 0} ⦃o : Float F⦄ (betaln : F → F → F) (digamma : F → F) (cb : ContextBucket F)
    (stats : Dict (Support F)) (buckets : List String)
    → All (IsGroup betaln digamma cb stats) (maybe_merge betaln digamma cb buckets stats)
      × IsDistinct (flatten (maybe_merge betaln digamma cb buckets stats))
unfolding maybe_merge
maybe_merge-IsGroup betaln digamma cb stats buckets =
    if_elim (λ groups. All (IsGroup betaln digamma cb stats) groups × IsDistinct (flatten groups))
      (ltb (length buckets) 2) [] (merge_from betaln digamma cb stats [] buckets) (tt, tt)
      (
        merge_from-IsGroup betaln digamma cb stats buckets [],
        (merge_from-IsApart betaln digamma cb stats buckets []).0,
      )
