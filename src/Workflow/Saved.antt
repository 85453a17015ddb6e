-- ===== src/Workflow/Saved.antt =====
-- A flow that `cleanWorkflow` accepts can always be run: begun or resumed, it comes to a turn.
use wppflow_backend.Common.{
  ℕ, zero, suc, ◌+◌, ◌≤◌, Bool, true, false, not, ◌≡◌, refl, ap, ◌∙◌, ◌⊎◌, inl, inr, Option, none,
  some, List, [], ◌∷◌, Text, text_eq, text_eq_iff, is_some, length, length-append, All, arith,
  Bool-cases,
}
use wppflow_backend.Workflow.Node.{
  Node, get, inherited, with_inherited, bare, Flow, edges_of, handoff, unclear, finish,
}
use wppflow_backend.Workflow.Schema.Graph.{
  Nodes, map_nodes, fill_gaps, fill_node, add_missing, needs, is_ask,
}
use wppflow_backend.Workflow.Schema.Walk.{
  Colors, Walk, fine, circle, lost, tired, walk, reached, saved, conclude,
}
use wppflow_backend.Workflow.Schema.Sound.{Goes, Within, Within-mono, Walked, Whole}
use wppflow_backend.Workflow.Schema.Search.{walk-Within, walk-Whole, walk-Walked, no_trail}

-- The steps that were kept are found as before.
get-reached :
    (st : Colors) (nodes : Nodes) (id : Text)
    → Walked st id
    → get id (with_inherited (reached st nodes)) ≡ get id (with_inherited nodes)
unfolding reached
get-reached st [] id h = refl
get-reached st ((j, n) ∷ nodes) id h = elim (Bool-cases (text_eq j id)) [
  | inl same ↦
      let j-eq : j ≡ id = (text_eq_iff j id).0 same in
      ground (arith, get-reached st nodes id h, ap (λ k. get k st) j-eq)
  | inr other ↦ ground (arith, get-reached st nodes id h)
]

reached-colored :
    (st : Colors) (nodes : Nodes) (id : Text) (n : Node)
    → get id (with_inherited (reached st nodes)) ≡ some n
    → (is_some (get id st) ≡ true) ⊎ (get id inherited ≡ some n)
unfolding reached
reached-colored st [] id n e = inr e
reached-colored st ((j, m) ∷ nodes) id n e = elim (Bool-cases (text_eq j id)) [
  | inl same ↦
      let j-eq : j ≡ id = (text_eq_iff j id).0 same in
      ground (arith, reached-colored st nodes id n, ap (λ k. get k st) j-eq)
  | inr other ↦ ground (arith, reached-colored st nodes id n)
]

both_go :
    (P Q R : Text → Type 0) (es : List (Option Text))
    → ((t : Text) → P t → Q t → R t)
    → All (Goes P) es
    → All (Goes Q) es
    → All (Goes R) es
both_go P Q R [] f p q = tt
both_go P Q R (none ∷ es) f p q = (tt, both_go P Q R es f p.1 q.1)
both_go P Q R (some [] ∷ es) f p q = (tt, both_go P Q R es f p.1 q.1)
both_go P Q R (some (c ∷ s) ∷ es) f p q = (f (c ∷ s) p.0 q.0, both_go P Q R es f p.1 q.1)

Within-reached :
    (k : ℕ) (st : Colors) (nodes : Nodes) (id : Text)
    → Whole (with_inherited nodes) st
    → Walked st id
    → Within (with_inherited nodes) k id
    → Within (with_inherited (reached st nodes)) k id
Within-reached zero st nodes id whole here h = absurd h
Within-reached (suc k) st nodes id whole here (n, e, below) = (
  n,
  get-reached st nodes id here ∙ e,
  both_go (Walked st) (Within (with_inherited nodes) k)
      (Within (with_inherited (reached st nodes)) k) (edges_of n)
      (λ t p q. Within-reached k st nodes t whole p q) (whole id n here e) below,
)

-- Every step of a flow has only short ways from it.
abbrev pub IsShort : ℕ → Flow → Type 0
IsShort k w =
    (id : Text) (n : Node)
    → get id (with_inherited w.nodes) ≡ some n
    → Within (with_inherited w.nodes) k id

inherited-bare : (id : Text) (n : Node) → get id inherited ≡ some n → n ≡ bare
inherited-bare id n e = ground arith

-- What every object has leads nowhere.
Within-inherited :
    (nodes : Nodes) (k : ℕ) (id : Text) (n : Node)
    → 1 ≤ k
    → get id nodes ≡ some n
    → get id inherited ≡ some n
    → Within nodes k id
unfolding edges_of
Within-inherited nodes k id n pos e h =
    let leaf : All (Goes (Within nodes 0)) (edges_of n) = rw (inherited-bare id n h) (tt, tt) in
    Within-mono nodes 1 k id pos (n, e, leaf)

pub conclude-IsShort :
    (nodes : Nodes) (start : Text) (quiet : Bool) (m : Walk) (w : Flow)
    → walk (length (with_inherited nodes)) (with_inherited nodes) [] [] start ≡ m
    → conclude nodes start quiet m ≡ saved w
    → IsShort (length (with_inherited nodes)) w
      × Within (with_inherited w.nodes) (length (with_inherited nodes)) w.start
unfolding conclude
conclude-IsShort nodes start quiet (fine st) w e c =
    let found = with_inherited nodes in
    let after = with_inherited (reached st nodes) in
    let whole = walk-Whole (length found) found start st e in
    let at = walk-Walked (length found) found start st e in
    let pos : 1 ≤ length found = omega (arith, length-append nodes inherited) in
    let kept : (id : Text) → Walked st id → Within after (length found) id = λ id here.
      Within-reached (length found) st nodes id whole here
        (walk-Within (length found) found start st e id (rw here)) in
    let w-eq : record { start = start; nodes = reached st nodes; quiet = quiet } ≡ w = cc in
    rw (← w-eq) (
      λ id n q. elim (reached-colored st nodes id n q) [
        | inl colored ↦ kept id (no_trail (length found) found start st e id colored)
        | inr extra ↦ Within-inherited after (length found) id n pos q extra
      ],
      kept start at,
    )
conclude-IsShort nodes start quiet (circle a b) w e c = cc
conclude-IsShort nodes start quiet (lost a) w e c = cc
conclude-IsShort nodes start quiet tired w e c = cc

pub length-map_nodes : (f : Node → Node) (nodes : Nodes) → length (map_nodes f nodes) ≡ length nodes
length-map_nodes f [] = refl
length-map_nodes f (e ∷ nodes) = ap suc (length-map_nodes f nodes)

length-add_missing :
    (b : Bool) (id : Text) (n : Node) (nodes : Nodes)
    → length (add_missing b id n nodes) ≤ suc (length nodes)
unfolding add_missing
length-add_missing false id n nodes = omega arith
length-add_missing true id n nodes = ground (arith, length-append nodes ((id, n) ∷ []))

-- At most two steps are added for the gaps.
pub length-fill_gaps :
    (a b : Text) (nodes : Nodes) → length (fill_gaps a b nodes) ≤ length nodes + 2
unfolding fill_gaps
length-fill_gaps a b nodes =
    let filled = map_nodes (fill_node a b) nodes in
    let one = add_missing (needs (λ n. not (is_ask n)) nodes) a finish filled in
    omega (
      arith,
      length-map_nodes (fill_node a b) nodes,
      length-add_missing (needs (λ n. not (is_ask n)) nodes) a finish filled,
      length-add_missing (needs is_ask nodes) b (handoff unclear) one,
    )
