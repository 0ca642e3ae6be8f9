-- ===== src/Store/Reads.antt =====
-- cact/trust_store.py: what a later read sees of a query.
use aaai.Prelude.{
  ◌∙◌, ap, ◌≡◌, refl, sym, String, Bool, true, false, Option, none, some, ◌==◌, eq_iff, get, put,
  get-put, contains, is_some, or_else, if◌then◌else◌,
}
use aaai.Float.{Float, Sampler}
use aaai.Text.{has_bar, before_bar, after_last_bar}
use aaai.Store.{
  TrustStore, make_key, get_contract, base_prior, effective_prior, stats_of, get_stats, total_count,
  ess,
}
use aaai.Store.Record.{lcb, ucb, uplift_probability, uplift_lcb, harm_upper_bound}
use aaai.Store.Framed.{before_bar-make_key, after_last_bar-make_key}

module _ {F : Type 0} ⦃o : Float F⦄ where
  -- Every read, of a key whose item and statistic hold no bar, returns the same from both stores.
  abbrev pub ReadsAlike : TrustStore F → TrustStore F → Type 0
  ReadsAlike st st' =
      (kid context stat : String)
      → has_bar kid ≡ false
      → has_bar stat ≡ false
      → stats_of st' kid context stat ≡ stats_of st kid context stat

  or_else-missing : (x : Option (F × F)) (p : F × F) → is_some x ≡ false → p ≡ or_else x p
  or_else-missing none p h = refl
  or_else-missing (some y) p h = cc

  get_stats-ReadsAlike :
      (kid context stat : String) (st : TrustStore F)
      → has_bar kid ≡ false
      → has_bar stat ≡ false
      → ReadsAlike st (get_stats kid context stat st).1
  unfolding get_stats
  get_stats-ReadsAlike kid context stat st hk hs kid' context' stat' hk' hs' =
      go (contains st.posteriors (make_key kid context stat)) refl
    where
      written : TrustStore F
      written = record st {
        posteriors = put st.posteriors (make_key kid context stat) (effective_prior st stat kid);
      }

      missing :
          is_some (get st.posteriors (make_key kid context stat)) ≡ false
          → (b : Bool) → (make_key kid context stat == make_key kid' context' stat') ≡ b
          → or_else
              (if b
                then some (effective_prior st stat kid)
                else get st.posteriors (make_key kid' context' stat'))
              (effective_prior st stat' kid')
            ≡ or_else
                (get st.posteriors (make_key kid' context' stat'))
                (effective_prior st stat' kid')
      missing e true same =
          let key : make_key kid context stat ≡ make_key kid' context' stat' =
            (eq_iff _ _).0 same in
          let item : kid ≡ kid' =
            sym (before_bar-make_key kid context stat hk)
            ∙ ap before_bar key
            ∙ before_bar-make_key kid' context' stat' hk' in
          let which : stat ≡ stat' =
            sym (after_last_bar-make_key kid context stat hs)
            ∙ ap after_last_bar key
            ∙ after_last_bar-make_key kid' context' stat' hs' in
          rw (item, which) (or_else-missing _ _ (rw key at e))
      missing e false same = refl

      go :
          (b : Bool)
          → contains st.posteriors (make_key kid context stat) ≡ b
          → stats_of (if b then st else written) kid' context' stat'
            ≡ stats_of st kid' context' stat'
      go true e = refl
      go false e =
          unfold stats_of effective_prior base_prior get_contract in (rw get-put (missing e _ refl))

  ReadsAlike-trans : (a b c : TrustStore F) → ReadsAlike a b → ReadsAlike b c → ReadsAlike a c
  ReadsAlike-trans a b c h k kid context stat x y = k kid context stat x y ∙ h kid context stat x y

  pub total_count-ReadsAlike :
      (kid context stat : String) (st : TrustStore F)
      → has_bar kid ≡ false
      → has_bar stat ≡ false
      → ReadsAlike st (total_count kid context stat st).1
  unfolding total_count
  total_count-ReadsAlike = get_stats-ReadsAlike

  ess-ReadsAlike :
      (kid context : String) (st : TrustStore F)
      → has_bar kid ≡ false
      → ReadsAlike st (ess kid context st).1
  unfolding ess has_bar
  ess-ReadsAlike kid context st h =
      ReadsAlike-trans st _ _ (total_count-ReadsAlike kid context "use" st h refl) (
        ReadsAlike-trans _ _ _ (total_count-ReadsAlike kid context "base" _ h refl)
          (total_count-ReadsAlike kid context "harm" _ h refl))

module _ {F : Type 0} ⦃o : Float F⦄ ⦃s : Sampler F⦄ (kid context : String) (st : TrustStore F) where
  -- The queries that a decision makes of an item write at most priors: whatever is read after one of
  -- them, of any item, is what would have been read before it, as long as the identifiers and the
  -- name of the statistic hold no bar.
  pub queries-stats_of :
      (delta q : F) (kid' context' stat : String)
      → has_bar kid ≡ false
      → has_bar kid' ≡ false
      → has_bar stat ≡ false
      → (stats_of (uplift_probability kid context delta st).1 kid' context' stat
          ≡ stats_of st kid' context' stat)
        × (stats_of (uplift_lcb kid context delta st).1 kid' context' stat
            ≡ stats_of st kid' context' stat)
        × (stats_of (harm_upper_bound kid context q st).1 kid' context' stat
            ≡ stats_of st kid' context' stat)
        × (stats_of (ess kid context st).1 kid' context' stat ≡ stats_of st kid' context' stat)
  unfolding uplift_probability uplift_lcb lcb ucb harm_upper_bound has_bar
  queries-stats_of delta q kid' context' stat h h' k =
      let two =
        ReadsAlike-trans st _ _ (get_stats-ReadsAlike kid context "use" st h refl)
          (get_stats-ReadsAlike kid context "base" (get_stats kid context "use" st).1 h refl) in
      (
        two kid' context' stat h' k,
        two kid' context' stat h' k,
        get_stats-ReadsAlike kid context "harm" st h refl kid' context' stat h' k,
        ess-ReadsAlike kid context st h kid' context' stat h' k,
      )
