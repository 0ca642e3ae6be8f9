-- ===== src/Graph/Steps/Progress.antt =====
-- relative_graph.py, `_compile_steps`: what the writes to the shared dictionaries keep.
use aaai.Prelude.{
  ◌≡◌, refl, ℕ, ◌≤◌, String, true, none, some, [], ◌==◌, eq_iff, eq_refl, Dict, get, put, contains,
  keys, get-put, get-nil, or_else, if◌then◌else◌, arith, Bool-cases, Option-cases, inl, inr, nat_eq,
}
use aaai.Buckets.Disjoint.{IsDistinct}
use aaai.Graph.Keys.{put-IsDistinct}
use aaai.Graph.{Recipe}
use aaai.Graph.Steps.{
  CompileState, Outcome, running, returned, key_error, out_of_fuel, ◌>>=◌, called, add_summary,
  ensure_node, add_edge, stock, take_stock, drain_stock, count_base,
}

-- The edges out of a node, and whether every edge leads to a node.
abbrev pub targets : Dict (Dict ℕ) → String → Dict ℕ
targets g u = or_else (get g u) []

abbrev pub IsClosed : Dict (Dict ℕ) → Type 0
IsClosed g = (u v : String) → contains (targets g u) v ≡ true → contains g v ≡ true

-- From one state to a later one no node is lost or doubled and no edge is lost, every edge still leads
-- to a node, and no stock has grown.
pub record IsProgress (st st' : CompileState) : Type 0 where
  pub nodes : (u : String) → contains st.sub_graph u ≡ true → contains st'.sub_graph u ≡ true
  pub edges :
      (u v : String)
      → contains (targets st.sub_graph u) v ≡ true
      → contains (targets st'.sub_graph u) v ≡ true
  pub closed : IsClosed st.sub_graph → IsClosed st'.sub_graph
  pub distinct : IsDistinct (keys st.sub_graph) → IsDistinct (keys st'.sub_graph)
  pub stocks : (k : String) → stock st' k ≤ stock st k

-- Where the graph and the inventory are left alone.
pub IsProgress-refl :
    (st st' : CompileState)
    → st'.sub_graph ≡ st.sub_graph
    → st'.cur_inventory ≡ st.cur_inventory
    → IsProgress st st'
IsProgress-refl st st' e f = record {
  nodes = λ u h. rw e h;
  edges = λ u v h. rw e h;
  closed = λ h. rw e h;
  distinct = λ h. rw e h;
  stocks = λ k. rw f (omega arith);
}

pub IsProgress-trans : (a b c : CompileState) → IsProgress a b → IsProgress b c → IsProgress a c
IsProgress-trans a b c h k = record {
  nodes = λ u e. k.nodes u (h.nodes u e);
  edges = λ u v e. k.edges u v (h.edges u v e);
  closed = λ e. k.closed (h.closed e);
  distinct = λ e. k.distinct (h.distinct e);
  stocks = λ i. omega (arith, h.stocks i, k.stocks i);
}

-- A call ends, in a state with the property.
abbrev pub Yields : (CompileState → Type 0) → Outcome → Type 0
Yields P (running st) = P st
Yields P (returned st) = P st
Yields P (key_error k) = ⊥
Yields P out_of_fuel = ⊥

pub Yields-called : (P : CompileState → Type 0) (o : Outcome) → Yields P o → Yields P (called o)
Yields-called P (running st) h = h
Yields-called P (returned st) h = h
Yields-called P (key_error _) h = elim h [ ]
Yields-called P out_of_fuel h = elim h [ ]

pub Yields-IsProgress :
    {st st1 : CompileState}
    → IsProgress st st1
    → (o : Outcome) → Yields (IsProgress st1) o
    → Yields (IsProgress st) o
Yields-IsProgress {st} {st1} h (running st2) e = IsProgress-trans st st1 st2 h e
Yields-IsProgress {st} {st1} h (returned st2) e = IsProgress-trans st st1 st2 h e
Yields-IsProgress h (key_error _) e = elim e [ ]
Yields-IsProgress h out_of_fuel e = elim e [ ]

pub Yields->>= :
    (st : CompileState) (o : Outcome) (f : CompileState → Outcome)
    → Yields (IsProgress st) o
    → ((st1 : CompileState) → IsProgress st st1 → Yields (IsProgress st1) (f st1))
    → Yields (IsProgress st) (o >>= f)
Yields->>= st (returned st1) f h k = h
Yields->>= st (running st1) f h k = Yields-IsProgress h _ (k st1 h)
Yields->>= st (key_error _) f h k = elim h [ ]
Yields->>= st out_of_fuel f h k = elim h [ ]

pub contains-put :
    (g : Dict (Dict ℕ)) (u v : String) (e : Dict ℕ)
    → contains (put g u e) v ≡ (if u == v then true else contains g v)
contains-put g u v e = rw get-put (ground arith)

-- A new node without edges, and an edge from a node to a node.
IsClosed-node :
    (g : Dict (Dict ℕ)) (i : String) → get g i ≡ none → IsClosed g → IsClosed (put g i [])
IsClosed-node g i e h u v = simp get-put λ c. ground (arith, h u v, get-nil {V = ℕ} v)

IsClosed-edge :
    (g : Dict (Dict ℕ)) (i j : String)
    → contains g j ≡ true
    → IsClosed g
    → IsClosed (put g i (put (targets g i) j 1))
IsClosed-edge g i j e h u v =
    simp get-put
      λ c. ground (arith, h u v, h i v, get-put (targets g i) j v 1, eq_iff i u, eq_iff j v)

-- Neither loses an edge.
node-edges :
    (g : Dict (Dict ℕ)) (i : String)
    → get g i ≡ none
    → (u v : String) → contains (targets g u) v ≡ true
    → contains (targets (put g i []) u) v ≡ true
node-edges g i e u v h = simp get-put (ground (arith, eq_iff i u, get-nil {V = ℕ} v))

edge-edges :
    (g : Dict (Dict ℕ)) (i j u v : String)
    → contains (targets g u) v ≡ true
    → contains (targets (put g i (put (targets g i) j 1)) u) v ≡ true
edge-edges g i j u v h = simp get-put (ground (arith, eq_iff i u, get-put (targets g i) j v 1))

pub ensure_node-IsProgress : (i : String) (st : CompileState) → IsProgress st (ensure_node i st)
unfolding ensure_node
ensure_node-IsProgress i st = elim (Option-cases (get st.sub_graph i)) [
  | inl e ↦ rw e (record {
    nodes = λ u h. rw get-put (ground arith);
    edges = node-edges st.sub_graph i e;
    closed = IsClosed-node st.sub_graph i e;
    distinct = put-IsDistinct st.sub_graph i _;
    stocks = λ k. omega arith;
  })
  | inr (r, e) ↦ rw e (IsProgress-refl st _ refl refl)
]

pub add_edge-IsProgress :
    (i j : String) (st : CompileState)
    → contains st.sub_graph j ≡ true
    → IsProgress st (add_edge i j st)
unfolding add_edge
add_edge-IsProgress i j st h =
    let made = ensure_node-IsProgress i st in
    IsProgress-trans st (ensure_node i st) _ made (record {
      nodes = λ u c. rw get-put (ground arith);
      edges = edge-edges (ensure_node i st).sub_graph i j;
      closed = IsClosed-edge (ensure_node i st).sub_graph i j (made.nodes j h);
      distinct = put-IsDistinct (ensure_node i st).sub_graph i _;
      stocks = λ k. omega arith;
    })

pub take_stock-IsProgress :
    (i : String) (n have : ℕ) (st : CompileState)
    → get st.cur_inventory i ≡ some have
    → Yields (IsProgress st) (take_stock i n st)
unfolding take_stock
take_stock-IsProgress i n have st e =
    rw (Yields, e)
      (record {
        nodes = λ u c. c;
        edges = λ u v c. c;
        closed = λ c. c;
        distinct = λ c. c;
        stocks = λ k. rw get-put (ground (arith, eq_iff i k));
      })

pub drain_stock-IsProgress :
    (i : String) (st : CompileState) → Yields (IsProgress st) (drain_stock i st)
unfolding drain_stock
drain_stock-IsProgress i st = elim (Bool-cases (nat_eq (stock st i) 0)) [
  | inl e ↦ rw e (IsProgress-refl st st refl refl)
  | inr e ↦ elim (Option-cases (get st.cur_inventory i)) [
    | inl f ↦ absurd (ground arith)
    | inr (have, f) ↦ rw e (take_stock-IsProgress i _ have st f)
  ]
]

pub count_base-IsProgress :
    (graph : Dict Recipe) (i : String) (n : ℕ) (st : CompileState)
    → IsProgress st (count_base graph i n st)
unfolding count_base add_summary
count_base-IsProgress graph i n st = elim (Option-cases (get graph i)) [
  | inl e ↦ rw (count_base, e) (IsProgress-refl st _ refl refl)
  | inr (r, e) ↦ rw (count_base, e) (IsProgress-refl st _ refl refl)
]

pub contains-ensure_node :
    (i : String) (st : CompileState) → contains (ensure_node i st).sub_graph i ≡ true
unfolding ensure_node
contains-ensure_node i st = elim (Option-cases (get st.sub_graph i)) [
  | inl e ↦ rw (e, get-put) (ground (arith, eq_refl i))
  | inr (r, e) ↦ rw (e, e) refl
]
