-- ===== src/Agents/Pipeline.antt =====
-- services/agents/graph.py: the graph of the pipeline. The builder of graphs is a third-party library;
-- a graph here is what the calls on it say. The nodes are stubs that raise.
use agnostix_ai_quant_fund.Prelude.{
  Has, ◌≡◌, ◌⊎◌, inl, inr, refl, sym, ap, subst, List, [], ◌∷◌, ◌++◌,
}
use agnostix_ai_quant_fund.Prelude.Outcome.{Outcome, raises}

pub data Node : Type 0 where
  signal critic risk human_gate execution end_node : Node

pub record StateGraph : Type 0 where
  pub nodes : List Node
  pub entry_point : List Node
  pub edges : List (Node × Node)

abbrev empty_graph : StateGraph
empty_graph = record { nodes = []; entry_point = []; edges = [] }

abbrev add_node : Node → StateGraph → StateGraph
add_node n g = record g { nodes = g.nodes ++ (n ∷ []) }

abbrev set_entry_point : Node → StateGraph → StateGraph
set_entry_point n g = record g { entry_point = n ∷ [] }

abbrev add_edge : Node → Node → StateGraph → StateGraph
add_edge a b g = record g { edges = g.edges ++ ((a, b) ∷ []) }

-- the functions of the nodes
pub run_node : {S : Type 0} → Node → S → Outcome S
run_node n s = raises "NotImplementedError"

unfoldable pub build_pipeline_graph : StateGraph
build_pipeline_graph =
    let g =
      add_node execution
        (add_node human_gate (add_node risk (add_node critic (add_node signal empty_graph)))) in
    let g1 = add_edge signal critic (set_entry_point signal g) in
    let g2 = add_edge human_gate execution (add_edge risk human_gate (add_edge critic risk g1)) in
    add_edge execution end_node g2

abbrev IsEdge : Node → Node → List (Node × Node) → Type 0
IsEdge a b [] = ⊥
IsEdge a b ((c, d) ∷ es) = ((a ≡ c) × (b ≡ d)) ⊎ IsEdge a b es

-- a walk through a graph, with the nodes that it enters
pub data Walk (g : StateGraph) : Node → List Node → Node → Type 0 where
  stay : {a : Node} → Walk g a [] a
  go : {a b c : Node} {ns : List Node} → IsEdge a b g.edges → Walk g b ns c → Walk g a (b ∷ ns) c

-- what a walk to the execution enters from a node on
abbrev Route : Node → List Node → Type 0
Route signal ns = ns ≡ critic ∷ risk ∷ human_gate ∷ execution ∷ []
Route critic ns = ns ≡ risk ∷ human_gate ∷ execution ∷ []
Route risk ns = ns ≡ human_gate ∷ execution ∷ []
Route human_gate ns = ns ≡ execution ∷ []
Route execution ns = ns ≡ []
Route end_node ns = ⊥

-- an edge that continues the route of its target
onward :
    (a b c d : Node) (ns : List Node)
    → (a ≡ c) × (b ≡ d)
    → (Route d ns → Route c (d ∷ ns))
    → Route b ns
    → Route a (b ∷ ns)
onward a b c d ns (p, q) more h =
    subst (λ x. Route x (b ∷ ns)) (sym p)
      (subst (λ y. Route c (y ∷ ns)) (sym q) (more (subst (λ y. Route y ns) q h)))

step_routed :
    (a b : Node) (ns : List Node)
    → IsEdge a b build_pipeline_graph.edges
    → Route b ns
    → Route a (b ∷ ns)
unfolding build_pipeline_graph
step_routed a b ns (inl e) h = onward a b signal critic ns e (λ r. ap (◌∷◌ critic) r) h
step_routed a b ns (inr (inl e)) h = onward a b critic risk ns e (λ r. ap (◌∷◌ risk) r) h
step_routed a b ns (inr (inr (inl e))) h =
    onward a b risk human_gate ns e (λ r. ap (◌∷◌ human_gate) r) h
step_routed a b ns (inr (inr (inr (inl e)))) h =
    onward a b human_gate execution ns e (λ r. ap (◌∷◌ execution) r) h
step_routed a b ns (inr (inr (inr (inr (inl e))))) h =
    onward a b execution end_node ns e (λ r. absurd r) h
step_routed a b ns (inr (inr (inr (inr (inr e))))) h = absurd e

Walk-routed :
    {a c : Node} {ns : List Node} → Walk build_pipeline_graph a ns c → c ≡ execution → Route a ns
Walk-routed stay e = subst (λ x. Route x []) (sym e) refl
Walk-routed (go edge w) e = step_routed _ _ _ edge (Walk-routed w e)

-- Every walk of the pipeline from an entry point of its graph to the execution starts at the signal and
-- passes the critic, the risk engine and the human gate, in this order, and nothing else.
pub Walk-gated :
    {start : Node} {ns : List Node}
    → Has start build_pipeline_graph.entry_point
    → Walk build_pipeline_graph start ns execution
    → start ∷ ns ≡ signal ∷ critic ∷ risk ∷ human_gate ∷ execution ∷ []
unfolding build_pipeline_graph
Walk-gated {start} {ns} (inl is_signal) w =
    subst (λ n. n ∷ ns ≡ signal ∷ critic ∷ risk ∷ human_gate ∷ execution ∷ []) is_signal
      (ap (λ x. signal ∷ x) (subst (λ n. Route n ns) (sym is_signal) (Walk-routed w refl)))
Walk-gated (inr none_left) w = absurd none_left
