-- ===== src/Store/Evidence.antt =====
-- cact/trust_store.py: what a read sees of one addition of evidence.
use text.Mathlib.TextLemmas.{append_cancel_left, append_cancel_right}
use aaai.Prelude.{
  ◌∙◌, ap, ◌≡◌, refl, sym, String, Bool, true, false, ◌&&◌, Option, none, some, ◌==◌, eq_iff,
  eq_refl, get, get-put, or_else, if◌then◌else◌, Bool-cases, inl, inr, arith,
}
use aaai.Float.{Float, lit, ◌⊕◌, ◌⊖◌, ◌⊗◌}
use aaai.Text.{has_bar, before_bar, after_last_bar, text_append}
use aaai.Contract.{ContractDict}
use aaai.Store.{
  TrustStore, make_key, get_contract, base_prior, effective_prior, stats_of, add_evidence,
}
use aaai.Store.Framed.{before_bar-make_key, after_last_bar-make_key}

context_inj : (kid stat c c' : String) → make_key kid c stat ≡ make_key kid c' stat → c ≡ c'
unfolding make_key
context_inj kid stat c c' h =
    append_cancel_right c c' (text_append "|" stat)
      (append_cancel_left "|" _ _ (append_cancel_left kid _ _ h))

-- Keys are the same only of the same item, context and statistic.
make_key_inj :
    (kid context stat kid' context' stat' : String)
    → has_bar kid ≡ false
    → has_bar kid' ≡ false
    → has_bar stat ≡ false
    → has_bar stat' ≡ false
    → make_key kid context stat ≡ make_key kid' context' stat'
    → (kid ≡ kid') × (context ≡ context') × (stat ≡ stat')
make_key_inj kid context stat kid' context' stat' hk hk' hs hs' key =
    let item : kid ≡ kid' =
      sym (before_bar-make_key kid context stat hk)
      ∙ ap before_bar key
      ∙ before_bar-make_key kid' context' stat' hk' in
    let which : stat ≡ stat' =
      sym (after_last_bar-make_key kid context stat hs)
      ∙ ap after_last_bar key
      ∙ after_last_bar-make_key kid' context' stat' hs' in
    (item, context_inj kid' stat' context context' (rw (item, which) at key), which)

make_key_eq :
    (kid context stat kid' context' stat' : String)
    → has_bar kid ≡ false
    → has_bar kid' ≡ false
    → has_bar stat ≡ false
    → has_bar stat' ≡ false
    → (make_key kid context stat == make_key kid' context' stat')
      ≡ (kid == kid' && (context == context' && stat == stat'))
make_key_eq kid context stat kid' context' stat' hk hk' hs hs' =
    elim (Bool-cases (make_key kid context stat == make_key kid' context' stat')) [
      | inl e ↦
          let same =
            make_key_inj kid context stat kid' context' stat' hk hk' hs hs' ((eq_iff _ _).0 e) in
          ground (arith, e, same, eq_iff kid kid', eq_iff context context', eq_iff stat stat')
      | inr e ↦ ground (
        arith,
        e,
        eq_iff kid kid',
        eq_iff context context',
        eq_iff stat stat',
        eq_refl (make_key kid context stat),
      )
    ]

module _ {F : Type 0} ⦃o : Float F⦄ where
  -- `(a, b)` with the evidence `x` of a weight.
  abbrev pub with_evidence : F → F → F × F → F × F
  with_evidence weight x (a, b) = (a ⊕ weight ⊗ x, b ⊕ weight ⊗ (lit 10 1 ⊖ x))

  -- The priors stay.
  prior-add_evidence :
      (kid context stat : String) (x weight : F) (st : TrustStore F) (kid' stat' : String)
      → effective_prior (add_evidence kid context stat x weight st) stat' kid'
        ≡ effective_prior st stat' kid'
  unfolding effective_prior get_contract add_evidence
  prior-add_evidence kid context stat x weight st kid' stat' =
      ap
        (λ (p : F × F). (
          lit 10 1 ⊕ st.prior_strength ⊗ (p.0 ⊖ lit 10 1),
          lit 10 1 ⊕ st.prior_strength ⊗ (p.1 ⊖ lit 10 1),
        ))
        (same (get st.contracts kid'))
    where
      same :
          (c : Option (ContractDict F))
          → base_prior (add_evidence kid context stat x weight st) kid' c stat'
            ≡ base_prior st kid' c stat'
      same none = unfold base_prior in refl
      same (some c) = unfold base_prior add_evidence in refl

  read_back :
      (b : Bool) (v : F × F) (x : Option (F × F)) (p q : F × F)
      → p ≡ q
      → or_else (if b then some v else x) p ≡ (if b then v else or_else x q)
  read_back true v x p q e = refl
  read_back false v x p q e = ap (or_else x) e

  add_evidence-stats_of :
      (kid context stat : String) (x weight : F) (st : TrustStore F) (kid' context' stat' : String)
      → has_bar kid ≡ false
      → has_bar kid' ≡ false
      → has_bar stat ≡ false
      → has_bar stat' ≡ false
      → stats_of (add_evidence kid context stat x weight st) kid' context' stat' ≡ (
          if kid == kid' && (context == context' && stat == stat')
          then with_evidence weight x (stats_of st kid context stat)
          else stats_of st kid' context' stat')
  unfolding stats_of add_evidence
  add_evidence-stats_of kid context stat x weight st kid' context' stat' hk hk' hs hs' =
      rw (get-put, make_key_eq kid context stat kid' context' stat' hk hk' hs hs')
        (read_back (kid == kid' && (context == context' && stat == stat')) _ _ _ _
          (prior-add_evidence kid context stat x weight st kid' stat'))

  pub add_evidence-read :
      (kid context stat : String) (x weight : F) (st : TrustStore F) (context' stat' : String)
      → has_bar kid ≡ false
      → has_bar stat ≡ false
      → has_bar stat' ≡ false
      → stats_of (add_evidence kid context stat x weight st) kid context' stat' ≡ (
          if context == context' && stat == stat'
          then with_evidence weight x (stats_of st kid context' stat')
          else stats_of st kid context' stat')
  add_evidence-read kid context stat x weight st context' stat' hk hs hs' = ground (
    arith,
    add_evidence-stats_of kid context stat x weight st kid context' stat' hk hk hs hs',
    eq_refl kid,
    eq_iff context context',
    eq_iff stat stat',
  )
