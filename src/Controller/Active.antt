-- ===== src/Controller/Active.antt =====
-- cact/decision_controller.py, step 7: what active logging and probing can make of a decision.
use aaai.Prelude.{
  if_elim, String, ◌≡◌, refl, true, false, not, ◌&&◌, Option, none, some, List, [], ◌∷◌, ◌==◌, ◌⊎◌,
  Dict, get, or_else, arith, if◌then◌else◌, inl, inr,
}
use aaai.Prelude.{ℕ}
use aaai.Float.{Float, Sampler}
use aaai.State.{State}
use aaai.Logging.{ActiveBaseLogger, should_force_base}
use aaai.Probe.{SafeThompsonProber, Evidence, should_probe}
use aaai.Controller.{
  Decision, fallback, reuse, probe, force_base, DecisionResult, DecisionController, Scored,
  at_high_risk, risk_level, sort_by_uplift,
}
use aaai.Controller.ActiveOps.{maybe_force_base, probe_items, apply_active_ops}

risk_level-high :
    (context : Dict String) → at_high_risk context ≡ true → (risk_level context == "high") ≡ true
unfolding at_high_risk risk_level
risk_level-high context h = go (get context "risk_level") h
  where
    go :
        (x : Option String)
        → (or_else x "" == "high") ≡ true
        → (or_else x "medium" == "high") ≡ true
    go none h = cc
    go (some x) h = h

module _ {F : Type 0} where
  -- The result is the old one, a probe or a forced base run.
  abbrev pub Becomes : DecisionResult F → DecisionResult F → Type 0
  Becomes r x = (x ≡ r) ⊎ (x.decision ≡ probe) ⊎ (x.decision ≡ force_base)

module _ {F : Type 0} ⦃o : Float F⦄ ⦃s : Sampler F⦄ where
  should_force_base-high :
      (l : ActiveBaseLogger F) (u b d : F) (level : String) (seed : ℕ)
      → (level == "high") ≡ true
      → (should_force_base l u b d level seed).0 ≡ false
  unfolding should_force_base
  should_force_base-high l u b d level seed h = ground arith

  should_probe-high :
      (p : SafeThompsonProber F) (e : Evidence F) (level : String) (seed : ℕ)
      → (level == "high") ≡ true
      → (should_probe p e level false seed).0 ≡ false
  unfolding should_probe
  should_probe-high p e level seed h = ground arith

module _ {F : Type 0} ⦃o : Float F⦄ ⦃s : Sampler F⦄ (r : DecisionResult F) (st : State F)
    (context : Dict String) where
  maybe_force_base-Becomes :
      (ctl : DecisionController F) → Becomes r (maybe_force_base ctl r st context).0
  unfolding maybe_force_base
  maybe_force_base-Becomes ctl = ground arith

  maybe_force_base-high :
      (ctl : DecisionController F)
      → at_high_risk context ≡ true
      → (maybe_force_base ctl r st context).0 ≡ r
  unfolding maybe_force_base
  maybe_force_base-high ctl h =
      rw (should_force_base-high _ _ _ _ (risk_level context) _ (risk_level-high context h))

  probe_items-Becomes :
      (cs : List (Scored F)) (ctl : DecisionController F)
      → Becomes r (probe_items ctl r context cs).0
  unfolding probe_items
  probe_items-Becomes [] ctl = inl refl
  probe_items-Becomes (c ∷ cs) ctl =
      if_elim {A = DecisionResult F × DecisionController F} (λ x. Becomes r x.0) _ _ _
        (inr (inl refl)) (probe_items-Becomes cs _)

  probe_items-high :
      (cs : List (Scored F)) (ctl : DecisionController F)
      → at_high_risk context ≡ true
      → (probe_items ctl r context cs).0 ≡ r
  unfolding probe_items
  probe_items-high [] ctl h = refl
  probe_items-high (c ∷ cs) ctl h =
      rw (should_probe-high _ _ (risk_level context) _ (risk_level-high context h))
        (probe_items-high cs _ h)

module _ {F : Type 0} ⦃o : Float F⦄ ⦃s : Sampler F⦄ (r : DecisionResult F)
    (scored : List (Scored F)) (st : State F) (context : Dict String) where
  apply_active_ops-by :
      (P : DecisionResult F × DecisionController F → Type 0) (ctl : DecisionController F)
      → P (r, ctl)
      → P (maybe_force_base ctl r st context)
      → P (probe_items ctl r context (sort_by_uplift scored))
      → P (apply_active_ops ctl r scored st context)
  unfolding apply_active_ops
  apply_active_ops-by P ctl a b c = go (r.decision)
    where
      go :
          (d : Decision)
          → P (elim d [
            | reuse ↦
                if ctl.abl_active_calib && not (r.chosen_knowledge_id == "")
                then maybe_force_base ctl r st context
                else (r, ctl)
            | fallback ↦
                if ctl.abl_thompson
                then probe_items ctl r context (sort_by_uplift scored)
                else (r, ctl)
            | _ ↦ (r, ctl)
          ])
      go reuse = if_elim P _ _ _ b a
      go fallback = if_elim P _ _ _ c a
      go probe = a
      go force_base = a

  pub apply_active_ops-Becomes :
      (ctl : DecisionController F) → Becomes r (apply_active_ops ctl r scored st context).0
  apply_active_ops-Becomes ctl =
      apply_active_ops-by (λ x. Becomes r x.0) ctl (inl refl)
        (maybe_force_base-Becomes r st context ctl)
        (probe_items-Becomes r st context (sort_by_uplift scored) ctl)

  pub apply_active_ops-high :
      (ctl : DecisionController F)
      → at_high_risk context ≡ true
      → (apply_active_ops ctl r scored st context).0 ≡ r
  apply_active_ops-high ctl h =
      apply_active_ops-by (λ x. x.0 ≡ r) ctl refl (maybe_force_base-high r st context ctl h)
        (probe_items-high r st context (sort_by_uplift scored) ctl h)
