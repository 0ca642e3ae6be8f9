-- ===== src/Contract/Boundaries.antt =====
-- cact/contract.py: the safety boundaries that `extract` infers from a text, and the checker.
use aaai.Prelude.{
  ◌⊎◌, inl, inr, ◌≡◌, String, Bool, true, false, List, [], ◌∷◌, ◌++◌, eq_iff, eq_refl, is_nil,
  filter_by, arith,
}
use aaai.Float.{Float}
use aaai.State.{State, is_set}
use aaai.Contract.{
  check_hard_boundary, triggered, eval_context_flag, get_safety_boundaries, or_if_nil,
}
use aaai.Contract.Extract.{is_listed, add_new, infer_safety_contexts, mentions_any}
use aaai.Contract.Raw.{RawKnowledge, content_of, extract}

is_listed-snoc : (x : String) (xs : List String) → is_listed x (xs ++ x ∷ []) ≡ true
unfolding is_listed
is_listed-snoc x [] = ground (arith, eq_refl x)
is_listed-snoc x (y ∷ ys) = ground (arith, is_listed-snoc x ys)

is_listed-append :
    (x y : String) (xs : List String) → is_listed x xs ≡ true → is_listed x (xs ++ y ∷ []) ≡ true
unfolding is_listed
is_listed-append x y [] h = cc h
is_listed-append x y (z ∷ zs) h = ground (arith, is_listed-append x y zs)

is_listed-add_new :
    (b : Bool) (x y : String) (xs : List String)
    → is_listed x xs ≡ true
    → is_listed x (add_new b y xs) ≡ true
unfolding add_new
is_listed-add_new true x y xs h = ground (arith, is_listed-append x y xs h)
is_listed-add_new false x y xs h = h

add_new-listed :
    (b : Bool) (x : String) (xs : List String) → b ≡ true → is_listed x (add_new b x xs) ≡ true
unfolding add_new
add_new-listed true x xs h = ground (arith, is_listed-snoc x xs)
add_new-listed false x xs h = cc h

is_nil-listed :
    (p : String → Bool) (x : String) (xs : List String)
    → is_listed x xs ≡ true
    → p x ≡ true
    → is_nil (filter_by p xs) ≡ false
unfolding is_listed
is_nil-listed p x [] h k = cc h
is_nil-listed p x (y ∷ ys) h k = ground (arith, is_nil-listed p x ys, eq_iff x y)

-- The words that `_infer_safety_contexts` looks for.
abbrev pub fire_words : List String
fire_words = "lava" ∷ "fire" ∷ []

abbrev pub fight_words : List String
fight_words = "combat" ∷ "mob" ∷ "zombie" ∷ "skeleton" ∷ []

abbrev pub rare_words : List String
rare_words = "diamond" ∷ "rare" ∷ "precious" ∷ []

-- The boundaries after the first of the three tests.
abbrev after_fire : String → List String → List String
after_fire content existing = add_new (mentions_any content fire_words) "lava_nearby" existing

module _ {F : Type 0} ⦃o : Float F⦄ (st : State F) where
  -- The text speaks of a danger that the state shows.
  abbrev pub IsEndangered : String → Type 0
  IsEndangered content =
      ((mentions_any content fire_words ≡ true) × (is_set st "near_lava" ≡ true))
      ⊎ ((mentions_any content fight_words ≡ true) × (is_set st "in_combat" ≡ true))
      ⊎ ((mentions_any content rare_words ≡ true) × (is_set st "resource_critical" ≡ true))

  boundary-enforced :
      (content name : String) (existing : List String)
      → is_listed name (infer_safety_contexts content existing) ≡ true
      → eval_context_flag name st ≡ true
      → is_nil (triggered (or_if_nil (infer_safety_contexts content existing) []) st) ≡ false
  unfolding triggered or_if_nil
  boundary-enforced content name existing h k =
      go (infer_safety_contexts content existing) h
        (is_nil-listed (λ b. eval_context_flag b st) name _ h k)
    where
      go :
          (xs : List String)
          → is_listed name xs ≡ true
          → is_nil (filter_by (λ b. eval_context_flag b st) xs) ≡ false
          → is_nil (filter_by (λ b. eval_context_flag b st) (or_if_nil xs [])) ≡ false
      go [] q r = r
      go (x ∷ xs) q r = r

  enforced :
      (content : String) (existing : List String)
      → IsEndangered content
      → is_nil (triggered (or_if_nil (infer_safety_contexts content existing) []) st) ≡ false
  unfolding infer_safety_contexts eval_context_flag
  enforced content existing (inl h) =
      boundary-enforced content "lava_nearby" existing
        (is_listed-add_new (mentions_any content rare_words) "lava_nearby"
          "irreversible_resource_constraint"
          (add_new (mentions_any content fight_words) "combat_active" (after_fire content existing))
          (is_listed-add_new (mentions_any content fight_words) "lava_nearby" "combat_active"
            (after_fire content existing)
            (add_new-listed (mentions_any content fire_words) "lava_nearby" existing h.0)))
        h.1
  enforced content existing (inr (inl h)) =
      boundary-enforced content "combat_active" existing
        (is_listed-add_new (mentions_any content rare_words) "combat_active"
          "irreversible_resource_constraint"
          (add_new (mentions_any content fight_words) "combat_active" (after_fire content existing))
          (add_new-listed (mentions_any content fight_words) "combat_active"
            (after_fire content existing) h.0))
        h.1
  enforced content existing (inr (inr h)) =
      boundary-enforced content "irreversible_resource_constraint" existing
        (add_new-listed (mentions_any content rare_words) "irreversible_resource_constraint"
          (add_new (mentions_any content fight_words) "combat_active" (after_fire content existing))
          h.0)
        h.1

  -- The contract that is extracted from a text on lava or fire, on fights, or on rare things is ruled
  -- out by its hard boundaries near lava, in combat, or short of a critical resource.
  pub extract-boundaries :
      (fresh_id : String) (k : RawKnowledge F)
      → IsEndangered (content_of k)
      → (check_hard_boundary (extract fresh_id k) st).0 ≡ false
  unfolding check_hard_boundary get_safety_boundaries extract
  extract-boundaries fresh_id k h = enforced (content_of k) k.non_applicable_contexts h
