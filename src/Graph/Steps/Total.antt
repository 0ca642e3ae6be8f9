-- ===== src/Graph/Steps/Total.antt =====
-- relative_graph.py, `_compile_steps`: the recursion, which walks a graph of recipes that may have cycles.
use aaai.Prelude.{
  ◌≡◌, refl, ℕ, zero, suc, ◌*◌, ◌≤◌, ◌<◌, String, true, false, ◌||◌, Option, none, some, List, [],
  ◌∷◌, ◌++◌, eq_iff, eq_refl, Dict, get, put, contains, or_else, if◌then◌else◌, if_elim, arith,
  Bool-cases, Option-cases, inl, inr, nat_eq, leb, All,
}
use aaai.Contract.Extract.{is_listed}
use aaai.Graph.Keys.{is_listed-concat}
use aaai.Graph.{Recipe, is_station, runs_for}
use aaai.Graph.Steps.{
  CompileState, Outcome, running, returned, block, add_summary, as_logs, ensure_node, ensure_degree,
  add_edge, stock, count_base, after_call, expand, compile_ingredient, compile_ingredients, craft,
  compile_recipe, compile_item, compile_steps,
}
use aaai.Graph.Steps.Progress.{
  IsProgress, IsProgress-refl, Yields, Yields-called, Yields->>=, Yields-IsProgress,
  ensure_node-IsProgress, add_edge-IsProgress, take_stock-IsProgress, drain_stock-IsProgress,
  count_base-IsProgress, contains-ensure_node,
}

-- Each recipe makes something, and of something.
abbrev pub IsMaking : Recipe → Type 0
IsMaking r = (0 < r.output_qty) × All (λ (e : String × ℕ). 0 < e.1) r.ingredients

abbrev pub AreMaking : Dict Recipe → Type 0
AreMaking graph = All (λ (e : String × Recipe). IsMaking e.1) graph

AreMaking-get :
    (graph : Dict Recipe) (i : String) (r : Recipe)
    → AreMaking graph
    → get graph i ≡ some r
    → IsMaking r
unfolding get
AreMaking-get [] i r h e = absurd (cc)
AreMaking-get ((k, q) ∷ graph) i r h e = ground (arith, AreMaking-get graph i r h.1)

-- The items with a recipe that are not on the path.
unfoldable pub unvisited : Dict Recipe → List String → ℕ
unvisited [] path = 0
unvisited ((k, r) ∷ graph) path =
    let rest = unvisited graph path in if is_listed k path then rest else suc rest

unvisited-le :
    (graph : Dict Recipe) (path : List String) (i : String)
    → unvisited graph (path ++ i ∷ []) ≤ unvisited graph path
unfolding unvisited
unvisited-le [] path i = omega arith
unvisited-le ((k, r) ∷ graph) path i =
    ground (arith, unvisited-le graph path i, is_listed-concat k i path)

unvisited-lt :
    (graph : Dict Recipe) (path : List String) (i : String) (r : Recipe)
    → get graph i ≡ some r
    → is_listed i path ≡ false
    → unvisited graph (path ++ i ∷ []) < unvisited graph path
unfolding unvisited get
unvisited-lt [] path i r e h = absurd (cc)
unvisited-lt ((k, q) ∷ graph) path i r e h = ground (
  arith,
  unvisited-lt graph path i r,
  unvisited-le graph path i,
  is_listed-concat k i path,
  eq_iff k i,
  eq_refl i,
)

mul_pos : (a b : ℕ) → 0 < a → 0 < b → 0 < a * b
mul_pos (suc a) (suc b) h k = omega arith
mul_pos zero b h k = absurd (omega arith)
mul_pos (suc a) zero h k = absurd (omega arith)

runs_for_pos :
    (quantity produced : ℕ) → 0 < quantity → 0 < produced → 0 < runs_for quantity produced
unfolding runs_for
runs_for_pos q p h k = ground arith

module _ (self : String → ℕ → CompileState → Outcome) (graph : Dict Recipe) (item : String)
    (calls : (i : String) (n : ℕ) (st : CompileState)
      → 0 < n
      → Yields (IsProgress st) (self i n st)) where
  after_call-Yields :
      (i : String) (n : ℕ) (st : CompileState)
      → Yields (IsProgress st) (after_call self graph item i n st)
  unfolding after_call block
  after_call-Yields i n st =
      if_elim (Yields (IsProgress st)) (is_listed i st.blocked) (returned (block item st))
        (running (count_base graph i n st)) (IsProgress-refl st (block item st) refl refl)
        (count_base-IsProgress graph i n st)

  expand-Yields :
      (i : String) (needed : ℕ) (st : CompileState)
      → contains st.sub_graph item ≡ true
      → stock st i < needed
      → Yields (IsProgress st) (expand self graph item i needed st)
  unfolding expand
  expand-Yields i needed st c h =
      Yields->>= st _ _
        (Yields->>= st _ _
          (Yields-IsProgress (add_edge-IsProgress i item st c) _
            (drain_stock-IsProgress i (add_edge i item st)))
          λ st1 p. Yields-called (IsProgress st1) _ (calls i _ st1 (omega arith)))
        λ st2 p. after_call-Yields i _ st2

  compile_ingredient-Yields :
      (runs : ℕ) (name : String) (qty : ℕ) (st : CompileState)
      → 0 < runs
      → 0 < qty
      → contains st.sub_graph item ≡ true
      → Yields (IsProgress st) (compile_ingredient self graph item runs name qty st)
  unfolding compile_ingredient
  compile_ingredient-Yields runs name qty st hr hq c =
      let some_needed = mul_pos qty runs hq hr in
      elim (Bool-cases (leb (qty * runs) (stock st (as_logs name)))) [
        | inl e ↦ elim (Option-cases (get st.cur_inventory (as_logs name))) [
          | inl f ↦ absurd (ground arith)
          | inr (have, f) ↦ rw e (take_stock-IsProgress (as_logs name) _ have st f)
        ]
        | inr e ↦ rw e (expand-Yields (as_logs name) (qty * runs) st c (ground arith))
      ]

  compile_ingredients-Yields :
      (runs : ℕ) (ingredients : Dict ℕ) (st : CompileState)
      → 0 < runs
      → All (λ (e : String × ℕ). 0 < e.1) ingredients
      → contains st.sub_graph item ≡ true
      → Yields (IsProgress st) (compile_ingredients self graph item runs ingredients st)
  unfolding compile_ingredients
  compile_ingredients-Yields runs [] st hr h c = IsProgress-refl st st refl refl
  compile_ingredients-Yields runs ((name, qty) ∷ rest) st hr h c =
      Yields->>= st _ _ (compile_ingredient-Yields runs name qty st hr h.0 c)
        λ st1 p. compile_ingredients-Yields runs rest st1 hr h.1 (p.nodes item c)

  craft-Yields :
      (r : Recipe) (quantity : ℕ) (st : CompileState)
      → IsMaking r
      → 0 < quantity
      → contains st.sub_graph item ≡ true
      → Yields (IsProgress st) (craft self graph item r quantity st)
  unfolding craft ensure_degree
  craft-Yields r quantity st m h c =
      Yields->>= st _ _
        (Yields-IsProgress (IsProgress-refl st (ensure_degree item st) refl refl) _ (
          compile_ingredients-Yields _ r.ingredients (ensure_degree item st)
            (runs_for_pos quantity r.output_qty h m.0) m.1 c))
        λ st1 p. IsProgress-refl st1 _ refl refl

  compile_recipe-Yields :
      (r : Recipe) (quantity : ℕ) (st : CompileState)
      → IsMaking r
      → 0 < quantity
      → contains st.sub_graph item ≡ true
      → Yields (IsProgress st) (compile_recipe self graph item r quantity st)
  unfolding compile_recipe add_summary
  compile_recipe-Yields r quantity st m h c =
      let counted = add_summary item 0 st in
      let kept = IsProgress-refl st counted refl refl in
      if_elim (Yields (IsProgress st)) (is_station item) _ _
        (if_elim (Yields (IsProgress st))
          (contains st.cur_inventory item || nat_eq (or_else (get counted.summary item) 0) 1)
          (returned counted) _ kept
          (Yields-IsProgress (IsProgress-refl st _ refl refl) _ (
            craft-Yields r 1 (record counted { summary = put counted.summary item 1 }) m
              (omega arith) c)))
        (Yields-IsProgress (IsProgress-refl st _ refl refl) _
          (craft-Yields r quantity (add_summary item quantity counted) m h c))

-- The recursive calls are made for an item with a recipe alone.
compile_item-Yields :
    (self : String → ℕ → CompileState → Outcome) (graph : Dict Recipe) (item : String)
    (quantity : ℕ) (st : CompileState)
    → ((r : Recipe)
        → get graph item ≡ some r
        → (i : String) (n : ℕ) (st : CompileState) → 0 < n
        → Yields (IsProgress st) (self i n st))
    → AreMaking graph
    → 0 < quantity
    → Yields (IsProgress st) (compile_item self graph item quantity st)
unfolding compile_item
compile_item-Yields self graph item quantity st calls m h = go _ refl
  where
    made : IsProgress st (ensure_node item st)
    made = ensure_node-IsProgress item st

    go :
        (x : Option Recipe)
        → get graph item ≡ x
        → Yields (IsProgress st) (elim x [
          | none ↦ returned (ensure_node item st)
          | some r ↦ compile_recipe self graph item r quantity (ensure_node item st)
        ])
    go none e = made
    go (some r) e = Yields-IsProgress made _ (
        compile_recipe-Yields self graph item (calls r e) r quantity (ensure_node item st)
          (AreMaking-get graph item r m e) h (contains-ensure_node item st))

-- On any graph of recipes, with cycles or not, whose quantities are positive, with fuel beyond the
-- number of the items with a recipe that are not on the path, `_compile_steps` ends, with no
-- `KeyError`, for any positive quantity. It loses and doubles no node of the dependency graph and loses
-- no edge; the edges still lead to nodes if they did before; and it raises no stock.
pub compile_steps-Yields :
    (fuel : ℕ) (graph : Dict Recipe) (item : String) (quantity : ℕ) (path : List String)
    (st : CompileState)
    → AreMaking graph
    → 0 < quantity
    → unvisited graph path < fuel
    → Yields (IsProgress st) (compile_steps fuel graph item quantity path st)
unfolding compile_steps
compile_steps-Yields zero graph item quantity path st m h f = absurd (omega arith)
compile_steps-Yields (suc fuel) graph item quantity path st m h f =
    elim (Bool-cases (is_listed item path || is_listed item st.blocked)) [
      | inl e ↦ rw e (unfold block add_summary in IsProgress-refl st _ refl refl)
      | inr e ↦ rw e (
          compile_item-Yields (λ i n s. compile_steps fuel graph i n (path ++ item ∷ []) s) graph
            item quantity st
            (λ r g i n s p.
              compile_steps-Yields fuel graph i n (path ++ item ∷ []) s m p
                (let shorter = unvisited-lt graph path item r g (ground arith) in omega arith))
            m h)
    ]
