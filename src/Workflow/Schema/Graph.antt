-- ===== src/Workflow/Schema/Graph.antt =====
-- Repairing the arrows of a flow: `mapEdges`, the arrows to steps that do not exist, the gaps, and
-- the steps made for the gaps.
use wppflow_backend.Common.{
  ℕ, zero, suc, ◌+◌, Bool, true, false, not, ◌&&◌, Option, none, some, List, [], ◌∷◌, ◌++◌, map,
  Text, is_empty, show_nat, if◌then◌else◌, is_some, any,
}
use wppflow_backend.Workflow.Node.{
  by_label, by_hours, by_var, unclear, Node, say, ask, collect, meeting, branch, agent, label,
  notify, assign, lead, task, handoff, finish, bare, get, with_inherited, edges_of,
}

abbrev pub Nodes : Type 0
Nodes = List (Text × Node)

abbrev map_arrows :
    (Option Text → Option Text) → List (Text × Option Text) → List (Text × Option Text)
map_arrows f = map (λ e. (e.0, f e.1))

-- The same step with every place it can go passed through `f`.
unfoldable pub map_edges : (Option Text → Option Text) → Node → Node
map_edges f (ask q) = ask (record q { next = map_arrows f q.next; on_unsure = f q.on_unsure })
map_edges f (branch (by_var v cases otherwise)) =
    branch (by_var v (map_arrows f cases) (f otherwise))
map_edges f (branch (by_label l y n)) = branch (by_label l (f y) (f n))
map_edges f (branch (by_hours h y n)) = branch (by_hours h (f y) (f n))
map_edges f (say t next) = say t (f next)
map_edges f (collect q s next) = collect q s (f next)
map_edges f (meeting m) = meeting (record m { next = f m.next })
map_edges f (label a next) = label a (f next)
map_edges f (notify w c t x next) = notify w c t x (f next)
map_edges f (assign t next) = assign t (f next)
map_edges f (lead s next) = lead s (f next)
map_edges f (task t d next) = task t d (f next)
map_edges f (agent g p) = agent g p
map_edges f (handoff r) = handoff r
map_edges f finish = finish
map_edges f bare = bare

abbrev pub map_nodes : (Node → Node) → Nodes → Nodes
map_nodes f = map (λ e. (e.0, f e.1))

-- An arrow to a step that does not exist becomes null.
unfoldable pub unmissing : Nodes → Option Text → Option Text
unmissing nodes none = none
unmissing nodes (some v) =
    if is_empty v then some v else if is_some (get v (with_inherited nodes)) then some v else none

unfoldable pub repair : Nodes → Nodes
unfolding unmissing map_edges
repair nodes = map_nodes (map_edges (unmissing nodes)) nodes

unfoldable pub is_finish : Node → Bool
is_finish finish = true
is_finish n = false

unfoldable pub is_unclear : Node → Bool
is_unclear (handoff unclear) = true
is_unclear n = false

unfoldable pub is_ask : Node → Bool
is_ask (ask q) = true
is_ask n = false

-- A name is free if no step has it, or a step that was made for the same purpose.
unfoldable pub is_free : Nodes → (Node → Bool) → Text → Bool
is_free nodes made id = elim (get id nodes) [ none ↦ true | some n ↦ made n ]

-- The loop of `freeId`: base, base2, base3, ... The fuel is one more than the number of steps.
unfoldable pub free_id : ℕ → Nodes → (Node → Bool) → Text → ℕ → Text → Option Text
unfolding is_free
free_id zero nodes made base i id = none
free_id (suc f) nodes made base i id =
    let rest = free_id f nodes made base (i + 1) (base ++ show_nat i) in
    if is_free nodes made id then some id else rest

-- What a null arrow becomes: an answer nobody planned for goes to a person, any other gap ends.
unfoldable pub fill_gap : Text → Option Text → Option Text
fill_gap to none = some to
fill_gap to (some []) = some to
fill_gap to (some (c ∷ s)) = some (c ∷ s)

unfoldable pub fill_node : Text → Text → Node → Node
unfolding fill_gap map_edges is_ask
fill_node end_id unclear_id n = map_edges (fill_gap (if is_ask n then unclear_id else end_id)) n

abbrev is_gap : Option Text → Bool
is_gap none = true
is_gap (some v) = is_empty v

-- `needUnclear` and `needEnd`.
unfoldable pub needs : (Node → Bool) → Nodes → Bool
needs kind = any (λ e. kind e.1 && any is_gap (edges_of e.1))

unfoldable pub add_missing : Bool → Text → Node → Nodes → Nodes
add_missing false id n nodes = nodes
add_missing true id n nodes = if is_some (get id nodes) then nodes else nodes ++ (id, n) ∷ []

unfoldable pub fill_gaps : Text → Text → Nodes → Nodes
unfolding fill_node needs add_missing
fill_gaps end_id unclear_id nodes =
    let filled = map_nodes (fill_node end_id unclear_id) nodes in
    let with_end = add_missing (needs (λ n. not (is_ask n)) nodes) end_id finish filled in
    add_missing (needs is_ask nodes) unclear_id (handoff unclear) with_end
