-- ===== src/Store/Framed.antt =====
-- cact/trust_store.py: the parts of a key, and the relation of two stores that differ in one item alone.
use aaai.Prelude.{◌∙◌, ◌≡◌, refl, String, false, ◌==◌, eq_iff, get, put, get-put, arith}
use aaai.Float.{Float}
use aaai.Text.{has_bar, before_bar, after_last_bar}
use aaai.Text.Keys.{before_bar-append, has_bar-append, after_last_bar-append, after_last_bar-skip}
use aaai.Lifecycle.{get_state}
use aaai.Store.{TrustStore, make_key}

pub before_bar-make_key :
    (kid context stat : String) → has_bar kid ≡ false → before_bar (make_key kid context stat) ≡ kid
unfolding make_key
before_bar-make_key kid context stat h = before_bar-append kid _ h

pub after_last_bar-make_key :
    (kid context stat : String)
    → has_bar stat ≡ false
    → after_last_bar (make_key kid context stat) ≡ stat
unfolding make_key
after_last_bar-make_key kid context stat h =
    after_last_bar-skip kid _ (has_bar-append context stat) ∙ after_last_bar-append context stat h

module _ {F : Type 0} ⦃o : Float F⦄ where
  -- From one store to the next, nothing has changed but what belongs to the item.
  pub record IsFramed (kid : String) (st st' : TrustStore F) : Type 0 where
    pub contracts : st'.contracts ≡ st.contracts
    pub strength : st'.prior_strength ≡ st.prior_strength
    pub bayes : st'.empirical_bayes ≡ st.empirical_bayes
    pub by_level : st'.abl_level_prior ≡ st.abl_level_prior
    pub entries :
        (k : String) → (before_bar k == kid) ≡ false → get st'.posteriors k ≡ get st.posteriors k
    pub states :
        (j : String) → (kid == j) ≡ false → get_state st'.lifecycle j ≡ get_state st.lifecycle j

  pub IsFramed-refl : (kid : String) (st : TrustStore F) → IsFramed kid st st
  IsFramed-refl kid st = record {
    contracts = refl;
    strength = refl;
    bayes = refl;
    by_level = refl;
    entries = λ k h. refl;
    states = λ j h. refl;
  }

  pub IsFramed-trans :
      (kid : String) (a b c : TrustStore F) → IsFramed kid a b → IsFramed kid b c → IsFramed kid a c
  IsFramed-trans kid a b c h k = record {
    contracts = k.contracts ∙ h.contracts;
    strength = k.strength ∙ h.strength;
    bayes = k.bayes ∙ h.bayes;
    by_level = k.by_level ∙ h.by_level;
    entries = λ x e. k.entries x e ∙ h.entries x e;
    states = λ j e. k.states j e ∙ h.states j e;
  }

  -- A write to a key of the item.
  pub put-IsFramed :
      (kid context stat : String) (st : TrustStore F) (v : F × F)
      → has_bar kid ≡ false
      → IsFramed kid st (record st { posteriors = put st.posteriors (make_key kid context stat) v })
  put-IsFramed kid context stat st v h = record {
    contracts = refl;
    strength = refl;
    bayes = refl;
    by_level = refl;
    entries = λ k e. rw get-put (
        ground (
          arith,
          eq_iff (make_key kid context stat) k,
          eq_iff (before_bar k) kid,
          before_bar-make_key kid context stat h,
        ));
    states = λ j e. refl;
  }
