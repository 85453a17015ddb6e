-- ===== src/Workflow/Schema/Walk.antt =====
-- The search for circles: `walk` of `cleanWorkflow`. `state[id]` is 1 while a step is on the trail
-- (`open`) and 2 when all that follows it has been walked (`closed`); depth is bounded by fuel.
use wppflow_backend.Common.{
  ℕ, zero, suc, Bool, Option, none, some, List, [], ◌∷◌, Text, text, if◌then◌else◌, is_some, length,
  keep,
}
use wppflow_backend.Workflow.Node.{get, with_inherited, Flow, edges_of}
use wppflow_backend.Workflow.Schema.Graph.{Nodes, repair, free_id, is_finish, is_unclear, fill_gaps}

pub data Color : Type 0 where
  on_trail walked : Color

-- `state[id] = c`: the newest entry of a key is its value.
abbrev pub Colors : Type 0
Colors = List (Text × Color)

pub data Walk : Type 0 where
  fine : Colors → Walk
  -- the step whose arrow closes the circle, and where it leads back to
  circle : Text → Text → Walk
  -- `edgesOf(undefined)`
  lost : Text → Walk
  tired : Walk

infixl 5 ◌>>=◌
abbrev pub ◌>>=◌ : Walk → (Colors → Walk) → Walk
fine st >>= f = f st
circle a b >>= f = circle a b
lost a >>= f = lost a
tired >>= f = tired

-- `if (to) walk(to, [...trail, id])`
abbrev pub along : (Colors → Text → Text → Walk) → Text → Colors → Option Text → Walk
along call id st none = fine st
along call id st (some []) = fine st
along call id st (some (c ∷ to)) = call st id (c ∷ to)

unfoldable pub walk_all : (Colors → Text → Text → Walk) → Text → Colors → List (Option Text) → Walk
walk_all call id st [] = fine st
walk_all call id st (to ∷ es) = along call id st to >>= λ st'. walk_all call id st' es

-- `walk(id, trail)`; of the trail only its last step is read.
unfoldable pub walk : ℕ → Nodes → Colors → Text → Text → Walk
unfolding walk_all
walk zero nodes st from id = elim (get id st) [
  | some walked ↦ fine st
  | some on_trail ↦ circle from id
  | none ↦ tired
]
walk (suc fuel) nodes st from id = elim (get id st) [
  | some walked ↦ fine st
  | some on_trail ↦ circle from id
  | none ↦ elim (get id nodes) [
    | none ↦ lost id
    | some n ↦ walk_all (walk fuel nodes) id ((id, on_trail) ∷ st) (edges_of n) >>= λ st'.
        fine ((id, walked) ∷ st')
  ]
]

-- Unreachable steps are dropped.
unfoldable pub reached : Colors → Nodes → Nodes
reached st = keep (λ e. is_some (get e.0 st))

pub data Checked : Type 0 where
  saved : Flow → Checked
  no_start : Checked
  goes_in_a_circle : Text → Text → Checked
  broken : Checked

unfoldable pub conclude : Nodes → Text → Bool → Walk → Checked
unfolding reached
conclude nodes start quiet (fine st) =
    saved (record { start = start; nodes = reached st nodes; quiet = quiet })
conclude nodes start quiet (circle a b) = goes_in_a_circle a b
conclude nodes start quiet (lost a) = broken
conclude nodes start quiet tired = broken

unfoldable pub check_filled : Nodes → Text → Bool → Checked
unfolding conclude walk
check_filled nodes start quiet =
    let found = with_inherited nodes in
    conclude nodes start quiet (walk (length found) found [] [] start)

unfoldable pub check_ids : Nodes → Text → Bool → Option Text → Option Text → Checked
unfolding check_filled fill_gaps
check_ids nodes start quiet (some end_id) (some unclear_id) =
    check_filled (fill_gaps end_id unclear_id nodes) start quiet
check_ids nodes start quiet _ _ = broken

-- The whole check, of the cleaned steps in the order they were given.
unfoldable pub check_flow : Nodes → Text → Bool → Checked
unfolding check_ids repair free_id is_finish is_unclear
check_flow nodes start quiet =
    let repaired = repair nodes in
    let fuel = suc (length nodes) in
    let end_id = free_id fuel repaired is_finish (text "end_auto") 2 (text "end_auto") in
    let unclear_id =
      free_id fuel repaired is_unclear (text "handoff_unclear") 2 (text "handoff_unclear") in
    if is_some (get start (with_inherited nodes))
    then check_ids repaired start quiet end_id unclear_id
    else no_start
