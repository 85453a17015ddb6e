-- ===== src/Workflow/Turns.antt =====
-- What can be relied on of a flow that was saved: it has a first step, every way through it is
-- short, and so every turn of it ends.
use wppflow_backend.Common.{
  ℕ, ◌≤◌, Bool, ◌≡◌, refl, ◌⊎◌, inl, inr, Option, none, some, [], ◌∷◌, map, Text, is_some, length,
  length-append, ltb, or_else, find, All, arith, Bool-cases, Option-cases,
}
use wppflow_backend.Workflow.Node.{
  Node, Question, Answer, get, inherited, with_inherited, Flow, edges_of,
}
use wppflow_backend.Workflow.Fill.{Vars}
use wppflow_backend.Workflow.Core.{
  Ctx, Place, Turn, begin, resume, resume_at, resume_on, awaiting, max_rounds, asked, booked,
  is_choice, present, ask_again,
}
use wppflow_backend.Workflow.Schema.Graph.{Nodes, repair, fill_gaps}
use wppflow_backend.Workflow.Schema.Walk.{saved, check_filled, check_ids, check_flow}
use wppflow_backend.Workflow.Schema.Sound.{Goes, Within, Within-mono}
use wppflow_backend.Workflow.Saved.{IsShort, conclude-IsShort, length-map_nodes, length-fill_gaps}
use wppflow_backend.Workflow.Ends.{found_of, last_of, run_ends}

-- WORKFLOW.maxNodes: `cleanWorkflow` refuses a flow with more steps before it looks at the arrows.
abbrev pub max_nodes : ℕ
max_nodes = 20

pub check_ids-IsShort :
    (nodes : Nodes) (start : Text) (quiet : Bool) (a b : Option Text) (w : Flow)
    → length nodes ≤ max_nodes
    → check_ids nodes start quiet a b ≡ saved w
    → IsShort 24 w × Within (with_inherited w.nodes) 24 w.start
unfolding check_ids check_filled
check_ids-IsShort nodes start quiet (some a) (some b) w le e =
    let filled = fill_gaps a b nodes in
    let few : length (with_inherited filled) ≤ 24 =
      omega (arith, length-fill_gaps a b nodes, length-append filled inherited) in
    let (short, first) = conclude-IsShort filled start quiet _ w refl e in
    (
      λ id n q.
          Within-mono (with_inherited w.nodes) (length (with_inherited filled)) 24 id few
            (short id n q),
      Within-mono (with_inherited w.nodes) (length (with_inherited filled)) 24 w.start few first,
    )
check_ids-IsShort nodes start quiet none b w le e = cc
check_ids-IsShort nodes start quiet (some a) none w le e = cc

-- Every way through a flow that was saved, and that had at most 20 steps when it was given, has at most
-- 24 steps, and each of them is found at its name: it is a step of the flow, or what every JavaScript
-- object has under the name `constructor` or `__proto__`, where the way ends.
pub check_flow-IsShort :
    (nodes : Nodes) (start : Text) (quiet : Bool) (w : Flow)
    → length nodes ≤ max_nodes
    → check_flow nodes start quiet ≡ saved w
    → IsShort 24 w × Within (with_inherited w.nodes) 24 w.start
unfolding check_flow
check_flow-IsShort nodes start quiet w le e =
    elim (Bool-cases (is_some (get start (with_inherited nodes)))) [
      | inl found ↦
          let le' : length (repair nodes) ≤ max_nodes =
            unfold repair in
            omega (
              arith,
              length-map_nodes
                  (wppflow_backend.Workflow.Schema.Graph.map_edges
                    (wppflow_backend.Workflow.Schema.Graph.unmissing nodes))
                  nodes,
            ) in
          check_ids-IsShort (repair nodes) start quiet _ _ w le' (rw found at e)
      | inr absent ↦ cc (rw absent at e)
    ]

Within-Goes :
    (nodes : Nodes) (k : ℕ) (id : Text) → Within nodes k id → Goes (Within nodes k) (some id)
Within-Goes nodes k [] h = tt
Within-Goes nodes k (c ∷ id) h = h

-- A flow that was saved can be begun: the error "The workflow ran for too many steps" is not thrown.
pub begin_ends :
    (nodes : Nodes) (start : Text) (quiet : Bool) (w : Flow) (ctx : Ctx) (vars : Vars)
    → length nodes ≤ max_nodes
    → check_flow nodes start quiet ≡ saved w
    → (t : Turn) × (begin w ctx vars ≡ some t)
unfolding begin
begin_ends nodes start quiet w ctx vars le e = run_ends w 24 (some w.start) vars ctx (omega arith) (
    Within-Goes (with_inherited w.nodes) 24 w.start (check_flow-IsShort nodes start quiet w le e).1)

booked_ends :
    (id : Text) (m : wppflow_backend.Workflow.Node.Meeting) (vars : Vars) (o : Option Turn)
    → (t : Turn) × (o ≡ some t)
    → (t : Turn) × (booked id m vars o ≡ some t)
unfolding booked
booked_ends id m vars none (t, e) = cc
booked_ends id m vars (some first) h = (_, refl)

-- A question comes to a turn, whatever was chosen.
asked_ends :
    (w : Flow) (k : ℕ) (ctx : Ctx) (state : Place) (vars : Vars) (id : Text) (q : Question)
    (o : Option Answer)
    → k ≤ max_rounds
    → All (Goes (Within (with_inherited w.nodes) k)) (edges_of (Node.ask q))
    → (t : Turn) × (asked w ctx state vars id q o ≡ some t)
unfolding asked edges_of
asked_ends w k ctx state vars id q (some o) le h =
    run_ends w k (or_else (get o.key q.next) none) _ ctx le
      (found_of (Within (with_inherited w.nodes) k) o.key q.next _ h)
asked_ends w k ctx state vars id q none le h = elim (Bool-cases (ltb state.attempts 1)) [
  | inl again ↦ (ask_again state id vars q, rw again)
  | inr enough ↦ rw enough (
      run_ends w k q.on_unsure vars ctx le
        (last_of (Within (with_inherited w.nodes) k) (map (λ e. e.1) q.next) _ h))
]

resume_at_ends :
    (w : Flow) (k : ℕ) (ctx : Ctx) (state : Place) (said : Text) (choice : Option Text)
    (vars : Vars) (id : Text) (n : Node)
    → k ≤ max_rounds
    → All (Goes (Within (with_inherited w.nodes) k)) (edges_of n)
    → (t : Turn) × (resume_at w ctx state said choice vars id n ≡ some t)
unfolding resume_at edges_of
resume_at_ends w k ctx state said choice vars id (Node.ask q) le h =
    asked_ends w k ctx state vars id q (find (is_choice choice) q.options) le h
resume_at_ends w k ctx state said choice vars id (Node.collect question save_as next) le h =
    run_ends w k next _ ctx le h.0
resume_at_ends w k ctx state said choice vars id (Node.meeting m) le h =
    booked_ends id m _ _ (run_ends w k m.next _ ctx le h.0)
resume_at_ends w k ctx state said choice vars id n le h = (_, refl)

awaiting_cases :
    (w : Flow) (state : Place)
    → (awaiting w state ≡ none)
      ⊎ ((id : Text) × (n : Node) × (awaiting w state ≡ some n)
          × (get id (with_inherited w.nodes) ≡ some n))
unfolding awaiting
awaiting_cases w state = elim (Option-cases (present state.node)) [
  | inl nothing ↦ inl (rw (nothing, awaiting))
  | inr (id, there) ↦ elim (Option-cases (get id (with_inherited w.nodes))) [
    | inl gone ↦ inl (rw (there, awaiting) (rw gone))
    | inr (n, found) ↦ inr (id, n, rw (there, awaiting) found, found)
  ]
]

resume_on_ends :
    (w : Flow) (ctx : Ctx) (state : Place) (said : Text) (choice : Option Text) (vars : Vars)
    (o : Option Node)
    → IsShort 24 w
    → (o ≡ none)
      ⊎ ((id : Text) × (n : Node) × (o ≡ some n) × (get id (with_inherited w.nodes) ≡ some n))
    → (t : Turn) × (resume_on w ctx state said choice vars o ≡ some t)
unfolding resume_on
resume_on_ends w ctx state said choice vars none short c =
    run_ends w 24 none vars ctx (omega arith) tt
resume_on_ends w ctx state said choice vars (some n) short (inl absent) = cc
resume_on_ends w ctx state said choice vars (some n) short (inr (id, n', same, found)) =
    let (m, q, below) = short id n' found in
    let m-eq : m ≡ n = cc in
    resume_at_ends w 23 ctx state said choice vars _ n (omega arith) (rw m-eq at below)

-- A flow that was saved can be resumed wherever the chat is, whatever the customer wrote, and
-- however the answer was understood.
pub resume_ends :
    (nodes : Nodes) (start : Text) (quiet : Bool) (w : Flow) (state : Place) (said : Text)
    (choice : Option Text) (ctx : Ctx)
    → length nodes ≤ max_nodes
    → check_flow nodes start quiet ≡ saved w
    → (t : Turn) × (resume w state said choice ctx ≡ some t)
unfolding resume
resume_ends nodes start quiet w state said choice ctx le e =
    resume_on_ends w ctx state said choice _ (awaiting w state)
      (check_flow-IsShort nodes start quiet w le e).0 (awaiting_cases w state)
