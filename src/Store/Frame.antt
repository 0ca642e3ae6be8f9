-- ===== src/Store/Frame.antt =====
-- cact/trust_store.py: what an operation on one item does to the others.
use aaai.Prelude.{
  ◌≡◌, refl, String, false, Option, none, some, List, ◌==◌, eq_iff, contains, arith, if_elim,
}
use aaai.Float.{Float, Sampler}
use aaai.Text.{has_bar}
use aaai.Lifecycle.{LifecycleState, get_state, member, transition, evaluate_auto_transition}
use aaai.Lifecycle.Order.{auto_transition-accepted}
use aaai.Store.{
  TrustStore, Observation, make_key, get_contract, base_prior, effective_prior, stats_of, get_stats,
  add_evidence, record_use, record_base, record_harm, total_count,
}
use aaai.Store.Record.{
  ucb, uplift_probability, harm_upper_bound, add_episode, append_observation, auto_transition,
  update_lifecycle, record_episode, transition_thresholds,
}
use aaai.Store.Framed.{before_bar-make_key, IsFramed, IsFramed-refl, IsFramed-trans, put-IsFramed}

module _ {F : Type 0} ⦃o : Float F⦄ (kid : String) (bar_free : has_bar kid ≡ false) where
  get_stats-IsFramed :
      (context stat : String) (st : TrustStore F)
      → IsFramed kid st (get_stats kid context stat st).1
  unfolding get_stats
  get_stats-IsFramed context stat st =
      if_elim (IsFramed kid st) (contains st.posteriors (make_key kid context stat)) _ _
        (IsFramed-refl kid st) (put-IsFramed kid context stat st _ bar_free)

  add_evidence-IsFramed :
      (context stat : String) (x weight : F) (st : TrustStore F)
      → IsFramed kid st (add_evidence kid context stat x weight st)
  unfolding add_evidence
  add_evidence-IsFramed context stat x weight st = put-IsFramed kid context stat st _ bar_free

module _ {F : Type 0} ⦃o : Float F⦄ ⦃s : Sampler F⦄ where
  add_episode-IsFramed :
      (ob : Observation F) (st : TrustStore F)
      → has_bar ob.kid ≡ false
      → IsFramed ob.kid st (add_episode ob st)
  unfolding add_episode record_use record_harm record_base
  add_episode-IsFramed ob st h =
      if_elim (IsFramed ob.kid st) (ob.used) _ _
        (IsFramed-trans ob.kid st _ _ (add_evidence-IsFramed ob.kid h ob.context "use" _ _ st)
          (add_evidence-IsFramed ob.kid h ob.context "harm" _ _ _))
        (add_evidence-IsFramed ob.kid h ob.context "base" _ _ st)

  total_count-IsFramed :
      (kid context : String) (st : TrustStore F)
      → has_bar kid ≡ false
      → IsFramed kid st (total_count kid context "use" st).1
  unfolding total_count
  total_count-IsFramed kid context st h = get_stats-IsFramed kid h context "use" st

  uplift_probability-IsFramed :
      (kid context : String) (delta : F) (st : TrustStore F)
      → has_bar kid ≡ false
      → IsFramed kid st (uplift_probability kid context delta st).1
  unfolding uplift_probability
  uplift_probability-IsFramed kid context delta st h =
      IsFramed-trans kid st _ _ (get_stats-IsFramed kid h context "use" st)
        (get_stats-IsFramed kid h context "base" _)

  harm_upper_bound-IsFramed :
      (kid context : String) (q : F) (st : TrustStore F)
      → has_bar kid ≡ false
      → IsFramed kid st (harm_upper_bound kid context q st).1
  unfolding harm_upper_bound ucb
  harm_upper_bound-IsFramed kid context q st h = get_stats-IsFramed kid h context "harm" st

  auto_transition-IsFramed :
      (kid : String) (n pi hu : F) (st : TrustStore F)
      → IsFramed kid st (auto_transition kid n pi hu st)
  unfolding auto_transition
  auto_transition-IsFramed kid n pi hu st = go _ refl
    where
      go :
          (x : Option LifecycleState)
          → evaluate_auto_transition st.lifecycle kid pi hu
              (transition_thresholds st kid).0
              (transition_thresholds st kid).1
              (o.trunc n)
              0
              0
            ≡ x
          → IsFramed kid st (elim x [
            | none ↦ st
            | some new ↦ record st {
              lifecycle =
                  (transition st.lifecycle kid (member new) "auto_after_observation" List.[]).0;
            }
          ])
      go none e = IsFramed-refl kid st
      go (some new) e = record {
        contracts = refl;
        strength = refl;
        bayes = refl;
        by_level = refl;
        entries = λ k h. refl;
        states = λ j ne.
            rw ne at
              (auto_transition-accepted st.lifecycle kid j new pi hu _ _ _ 0 0
                "auto_after_observation" List.[] e).0;
      }

  append_observation-IsFramed :
      (ob : Observation F) (st : TrustStore F) → IsFramed ob.kid st (append_observation ob st)
  unfolding append_observation
  append_observation-IsFramed ob st = record {
    contracts = refl;
    strength = refl;
    bayes = refl;
    by_level = refl;
    entries = λ k h. refl;
    states = λ j h. refl;
  }

  update_lifecycle-IsFramed :
      (kid context : String) (st : TrustStore F)
      → has_bar kid ≡ false
      → IsFramed kid st (update_lifecycle kid context st)
  unfolding update_lifecycle
  update_lifecycle-IsFramed kid context st h =
      IsFramed-trans kid st _ _ (total_count-IsFramed kid context st h) (
        IsFramed-trans kid _ _ _ (uplift_probability-IsFramed kid context _ _ h) (
          IsFramed-trans kid _ _ _ (harm_upper_bound-IsFramed kid context _ _ h)
            (auto_transition-IsFramed kid _ _ _ _)))

  record_episode-IsFramed :
      (ob : Observation F) (st : TrustStore F)
      → has_bar ob.kid ≡ false
      → IsFramed ob.kid st (record_episode ob st)
  unfolding record_episode
  record_episode-IsFramed ob st h =
      let recorded =
        IsFramed-trans ob.kid st _ _ (add_episode-IsFramed ob st h)
          (append_observation-IsFramed ob (add_episode ob st)) in
      if_elim (IsFramed ob.kid st) _ _ _
        (IsFramed-trans ob.kid st _ _ recorded (update_lifecycle-IsFramed ob.kid ob.context _ h))
        recorded

  -- Recording an episode of one item changes no posterior, prior or lifecycle state of any other item,
  -- in any context, as long as the identifiers of both hold no bar.
  pub record_episode-frame :
      (ob : Observation F) (st : TrustStore F) (kid context stat : String)
      → has_bar ob.kid ≡ false
      → has_bar kid ≡ false
      → (ob.kid == kid) ≡ false
      → (stats_of (record_episode ob st) kid context stat ≡ stats_of st kid context stat)
        × (get_state (record_episode ob st).lifecycle kid ≡ get_state st.lifecycle kid)
  unfolding stats_of effective_prior base_prior get_contract
  record_episode-frame ob st kid context stat h k ne =
      let f = record_episode-IsFramed ob st h in
      (
        rw (
          f.entries (make_key kid context stat) (
              ground (
                arith,
                before_bar-make_key kid context stat k,
                eq_iff kid ob.kid,
                eq_iff ob.kid kid,
              )),
          f.contracts,
          f.strength,
          f.bayes,
          f.by_level,
        ),
        f.states kid ne,
      )
