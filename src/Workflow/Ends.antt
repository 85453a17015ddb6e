-- ===== src/Workflow/Ends.antt =====
-- A turn of a workflow ends: where every way from a step is short, the loop of `run` does not throw.
use wppflow_backend.Common.{
  ℕ, zero, suc, ◌≤◌, ◌≡◌, refl, ◌∙◌, ◌⊎◌, inl, inr, Option, none, some, List, [], ◌∷◌, ◌++◌, map,
  Text, text_eq, or_else, All, arith, Bool-cases, Option-cases,
}
use wppflow_backend.Workflow.Node.{
  Node, Look, by_label, by_hours, by_var, get, with_inherited, Flow, edges_of,
}
use wppflow_backend.Workflow.Fill.{Vars}
use wppflow_backend.Workflow.Core.{
  Ctx, Frame, Turn, Round, go, stop, finishes, decide, case_of, coalesce, visit, round, loop, run,
  max_rounds, start_frame, completes,
}
use wppflow_backend.Workflow.Schema.Sound.{Goes, Within}

module _ (P : Text → Type 0) where
  head_of : (o : Option Text) (es : List (Option Text)) → All (Goes P) (o ∷ es) → Goes P o
  head_of o es h = h.0

  pub last_of : (xs : List (Option Text)) (o : Option Text) → All (Goes P) (xs ++ o ∷ []) → Goes P o
  last_of [] o h = h.0
  last_of (x ∷ xs) o h = last_of xs o h.1

  pub found_of :
      (k : Text) (cases : List (Text × Option Text)) (o : Option Text)
      → All (Goes P) (map (λ e. e.1) cases ++ o ∷ [])
      → Goes P (or_else (get k cases) none)
  found_of k [] o h = tt
  found_of k ((j, v) ∷ cases) o h = elim (Bool-cases (text_eq j k)) [
    | inl same ↦ rw same h.0
    | inr other ↦ rw other (found_of k cases o h.1)
  ]

  case-Goes :
      (cases : List (Text × Option Text)) (otherwise : Option Text) (v : Option Text)
      → All (Goes P) (map (λ e. e.1) cases ++ otherwise ∷ [])
      → Goes P (coalesce (case_of cases v) otherwise)
  case-Goes cases otherwise none h = last_of (map (λ e. e.1) cases) otherwise h
  case-Goes cases otherwise (some k) h = elim (Option-cases (or_else (get k cases) none)) [
    | inl nothing ↦ rw nothing (last_of (map (λ e. e.1) cases) otherwise h)
    | inr (t, found) ↦ let g = found_of k cases otherwise h in rw found (rw found at g)
  ]

  decide-Goes :
      (look : Look) (vars : Vars) (labels : List Text) (ctx : Ctx)
      → All (Goes P) (edges_of (Node.branch look))
      → Goes P (decide look vars labels ctx)
  unfolding decide edges_of
  decide-Goes (by_label l y n) vars labels ctx h = ground arith
  decide-Goes (by_hours hours y n) vars labels ctx h = ground arith
  decide-Goes (by_var v cases otherwise) vars labels ctx h =
      case-Goes cases otherwise (get v vars.values) h

  -- A round goes on along an arrow of its step.
  pub visit-Goes :
      (w : Flow) (ctx : Ctx) (f : Frame) (id : Text) (n : Node) (g : Frame) (next : Option Text)
      → All (Goes P) (edges_of n)
      → visit w ctx f id n ≡ go g next
      → Goes P next
  unfolding visit finishes edges_of
  visit-Goes w ctx f id (Node.branch look) g next h e =
      let same : decide look f.vars f.labels ctx ≡ next = cc in
      rw (← same) (decide-Goes look f.vars f.labels ctx h)
  visit-Goes w ctx f id (Node.say t to) g next h e = let same : to ≡ next = cc in rw (← same) h.0
  visit-Goes w ctx f id (Node.label t to) g next h e = let same : to ≡ next = cc in rw (← same) h.0
  visit-Goes w ctx f id (Node.notify a b c d to) g next h e =
      let same : to ≡ next = cc in rw (← same) h.0
  visit-Goes w ctx f id (Node.assign t to) g next h e = let same : to ≡ next = cc in rw (← same) h.0
  visit-Goes w ctx f id (Node.lead t to) g next h e = let same : to ≡ next = cc in rw (← same) h.0
  visit-Goes w ctx f id (Node.task t d to) g next h e = let same : to ≡ next = cc in rw (← same) h.0
  visit-Goes w ctx f id Node.finish g next h e = ground arith
  visit-Goes w ctx f id Node.bare g next h e = ground arith
  visit-Goes w ctx f id n g next h e = cc

Round-cases :
    (r : Round)
    → ((t : Turn) × (r ≡ stop t)) ⊎ ((g : Frame) × (next : Option Text) × (r ≡ go g next))
Round-cases (stop t) = inl (t, refl)
Round-cases (go g next) = inr (g, next, refl)

round_found :
    (w : Flow) (ctx : Ctx) (f : Frame) (id : Text) (n : Node)
    → get id (with_inherited w.nodes) ≡ some n
    → round w ctx f id ≡ visit w ctx f id n
unfolding round
round_found w ctx f id n e = rw (e, round)

loop_stop :
    (fuel : ℕ) (w : Flow) (ctx : Ctx) (from : Option Text) (f : Frame) (c : ℕ) (id : Text)
    (t : Turn)
    → round w ctx f (c ∷ id) ≡ stop t
    → loop (suc fuel) w ctx from f (some (c ∷ id)) ≡ some t
unfolding loop
loop_stop fuel w ctx from f c id t e = rw (e, loop)

loop_go :
    (fuel : ℕ) (w : Flow) (ctx : Ctx) (from : Option Text) (f : Frame) (c : ℕ) (id : Text)
    (g : Frame) (next : Option Text)
    → round w ctx f (c ∷ id) ≡ go g next
    → loop (suc fuel) w ctx from f (some (c ∷ id)) ≡ loop fuel w ctx from g next
unfolding loop
loop_go fuel w ctx from f c id g next e = rw (e, loop)

-- With as much fuel as the longest way has steps, the loop comes to a turn.
pub loop_ends :
    (k fuel : ℕ) (w : Flow) (ctx : Ctx) (from : Option Text) (f : Frame) (o : Option Text)
    → k ≤ fuel
    → Goes (Within (with_inherited w.nodes) k) o
    → (t : Turn) × (loop fuel w ctx from f o ≡ some t)
unfolding loop
loop_ends k fuel w ctx from f none le h = (completes f from, refl)
loop_ends k fuel w ctx from f (some []) le h = (completes f from, refl)
loop_ends zero fuel w ctx from f (some (c ∷ id)) le h = absurd h
loop_ends (suc k) zero w ctx from f (some (c ∷ id)) le h = absurd (omega arith)
loop_ends (suc k) (suc fuel) w ctx from f (some (c ∷ id)) le (n, here, below) =
    elim (Round-cases (visit w ctx f (c ∷ id) n)) [
      | inl (t, e) ↦
          (t, loop_stop fuel w ctx from f c id t (round_found w ctx f (c ∷ id) n here ∙ e))
      | inr (g, next, e) ↦
          let onward : Goes (Within (with_inherited w.nodes) k) next =
            visit-Goes (Within (with_inherited w.nodes) k) w ctx f (c ∷ id) n g next below e in
          let (t, ends) = loop_ends k fuel w ctx from g next (omega arith) onward in
          (
            t,
            loop_go fuel w ctx from f c id g next (round_found w ctx f (c ∷ id) n here ∙ e) ∙ ends,
          )
    ]

-- From an arrow whose ways have at most MAX_STEPS + 1 steps, `run` comes to a turn.
pub run_ends :
    (w : Flow) (k : ℕ) (o : Option Text) (vars : Vars) (ctx : Ctx)
    → k ≤ max_rounds
    → Goes (Within (with_inherited w.nodes) k) o
    → (t : Turn) × (run w o vars ctx ≡ some t)
unfolding run
run_ends w k o vars ctx le h = loop_ends k max_rounds w ctx o (start_frame vars ctx) o le h
