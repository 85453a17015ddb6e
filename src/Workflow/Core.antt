-- ===== src/Workflow/Core.antt =====
-- src/services/workflow/core.js: one turn of a workflow. `state.vars` is `Vars`, `actions` is a list
-- of `Action`, and the loop of `run` has as fuel the rounds that MAX_STEPS leaves.
use wppflow_backend.Common.{
  ℕ, zero, suc, ◌+◌, Bool, true, false, ◌||◌, Option, none, some, List, [], ◌∷◌, ◌++◌, map, Text,
  text, text_eq, has_text, to_lower, clip, ltb, if◌then◌else◌, find, or_else,
}
use wppflow_backend.Workflow.Node.{
  Answer, Hours, Question, Meeting, Look, by_label, by_hours, by_var, Who, owners, Channel, app,
  email, Reason, Node, get, with_inherited, Flow,
}
use wppflow_backend.Workflow.Fill.{Vars, fill, ask_text, retry_text}

-- What the flow decided to do. `told_anyway` is the `implicit` mark of the closing note.
pub data Action : Type 0 where
  -- step, words, disclose
  say : Text → Text → Bool → Action
  label : Text → Text → Action
  notify : Text → Who → List Channel → Text → Text → Bool → Action
  assign : Text → Text → Action
  lead : Text → Text → Action
  task : Text → Text → ℕ → Action
  handoff : Text → Reason → Action
  finish : Option Text → Action

pub data Pause : Type 0 where
  asking collecting meeting_time agent_turn : Pause

pub data Outcome : Type 0 where
  completed handed_off : Outcome

pub record Place : Type 0 where
  pub node : Option Text
  pub vars : Vars
  pub attempts : ℕ

pub record Turn : Type 0 where
  pub actions : List Action
  pub state : Place
  pub pause : Option Pause
  pub done : Bool
  pub outcome : Option Outcome

-- What a turn is given about the chat. `within` is automationRules.js's withinHours.
pub record Ctx : Type 0 where
  pub labels : List Text
  pub now : ℕ
  pub within : Option (Hours → ℕ → Bool)

-- `null` and the empty text stop the loop.
abbrev pub present : Option Text → Option Text
present none = none
present (some []) = none
present (some (c ∷ s)) = some (c ∷ s)

abbrev pub coalesce : Option Text → Option Text → Option Text
coalesce none d = d
coalesce (some x) d = some x

-- `vars[key] = value`
abbrev pub put : Text → Text → List (Text × Text) → List (Text × Text)
put k v m = (k, v) ∷ m

abbrev pub case_of : List (Text × Option Text) → Option Text → Option Text
case_of cases none = none
case_of cases (some v) = or_else (get v cases) none

-- Which step comes next from a branch.
unfoldable pub decide : Look → Vars → List Text → Ctx → Option Text
decide (by_label l y n) vars labels ctx = if has_text (to_lower l) labels then y else n
decide (by_hours h y n) vars labels ctx = elim ctx.within [
  | none ↦ n
  | some within ↦ if within h ctx.now then y else n
]
decide (by_var v cases otherwise) vars labels ctx =
    coalesce (case_of cases (get v vars.values)) otherwise

-- The local state of `run`.
pub record Frame : Type 0 where
  pub vars : Vars
  pub labels : List Text
  pub actions : List Action
  pub told : Bool

-- Two messages in a row are one message.
unfoldable pub join_say : List Action → Text → Text → List Action
join_say [] node t = say node t false ∷ []
join_say (say n u d ∷ []) node t = say node (u ++ (text "\n\n" ++ t)) d ∷ []
join_say (a ∷ []) node t = a ∷ say node t false ∷ []
join_say (a ∷ b ∷ r) node t = a ∷ join_say (b ∷ r) node t

abbrev pub disclosed : Action → Action
disclosed (say n t d) = say n t true
disclosed a = a

unfoldable pub disclose_last : List Action → List Action
disclose_last [] = []
disclose_last (a ∷ []) = disclosed a ∷ []
disclose_last (a ∷ b ∷ r) = a ∷ disclose_last (b ∷ r)

-- The local `say` of `run`.
unfoldable pub speak : Frame → Text → Text → Frame
unfolding join_say disclose_last
speak f node t =
    let actions = join_say f.actions node t in
    if f.vars.said
    then record f { actions = actions }
    else record f { actions = disclose_last actions; vars = record f.vars { said = true } }

abbrev pub push : Frame → Action → Frame
push f a = record f { actions = f.actions ++ a ∷ [] }

-- The local `result` of `run`.
unfoldable pub result : Frame → Option Pause → Bool → Option Outcome → Option Text → Turn
result f pause done outcome node = record {
  actions = f.actions;
  state = record { node = node; vars = record f.vars { told = f.told }; attempts = 0 };
  pause = pause;
  done = done;
  outcome = outcome;
}

-- What one round of the loop comes to: the next step, or the end of the turn.
pub data Round : Type 0 where
  go : Frame → Option Text → Round
  stop : Turn → Round

unfoldable pub completes : Frame → Option Text → Turn
unfolding result
completes f node = result (push f (finish node)) none true (some completed) none

unfoldable pub closing_note : Text → Vars → Action
closing_note id vars =
    notify id owners (app ∷ []) (text "{{name}} wrote to you")
      (fill (text "The automatic flow finished. Their last message: {{last_message}}") vars) true

-- The `default` of the `switch`.
unfoldable pub finishes : Flow → Frame → Text → Round
unfolding completes
finishes w f id =
    if f.told || w.quiet
    then stop (completes f (some id))
    else stop (completes (record (push f (closing_note id f.vars)) { told = true }) (some id))

-- The body of the `switch`.
unfoldable pub visit : Flow → Ctx → Frame → Text → Node → Round
unfolding speak finishes result decide
visit w ctx f id (Node.say t next) = go (speak f id (fill t f.vars)) next
visit w ctx f id (Node.label add next) =
    go (record (push f (label id add)) { labels = to_lower add ∷ f.labels }) next
visit w ctx f id (Node.notify who channels title t next) =
    go
      (record (push f (notify id who channels (fill title f.vars) (fill t f.vars) false)) {
        told = true;
      })
      next
visit w ctx f id (Node.assign teammate next) =
    go (record (push f (assign id teammate)) { told = true }) next
visit w ctx f id (Node.lead stage next) = go (record (push f (lead id stage)) { told = true }) next
visit w ctx f id (Node.task title hours next) =
    go (record (push f (task id (fill title f.vars) hours)) { told = true }) next
visit w ctx f id (Node.branch look) = go f (decide look f.vars f.labels ctx)
visit w ctx f id (Node.ask q) =
    stop (result (speak f id (ask_text q)) (some asking) false none (some id))
visit w ctx f id (Node.collect question save_as next) =
    stop (result (speak f id (fill question f.vars)) (some collecting) false none (some id))
visit w ctx f id (Node.meeting m) =
    stop (result (speak f id (fill m.question f.vars)) (some meeting_time) false none (some id))
visit w ctx f id (Node.agent goal playbook) =
    stop (result (record f { told = true }) (some agent_turn) false none (some id))
visit w ctx f id (Node.handoff reason) =
    stop (
      result (record (push f (handoff id reason)) { told = true }) none true (some handed_off) none)
visit w ctx f id Node.finish = finishes w f id
visit w ctx f id Node.bare = finishes w f id

-- One round: a step that is not there ends the flow.
unfoldable pub round : Flow → Ctx → Frame → Text → Round
unfolding visit
round w ctx f id = elim (get id (with_inherited w.nodes)) [
  | none ↦ stop (completes f (some id))
  | some n ↦ visit w ctx f id n
]

-- MAX_STEPS is 60, and `steps > MAX_STEPS` throws, so 61 rounds are made at most.
abbrev pub max_rounds : ℕ
max_rounds = 61

-- The loop; `none` is the error that is thrown after too many steps.
unfoldable pub loop : ℕ → Flow → Ctx → Option Text → Frame → Option Text → Option Turn
unfolding completes
loop fuel w ctx from f none = some (completes f from)
loop fuel w ctx from f (some []) = some (completes f from)
loop zero w ctx from f (some (c ∷ id)) = none
loop (suc fuel) w ctx from f (some (c ∷ id)) = elim (round w ctx f (c ∷ id)) [
  | stop turn ↦ some turn
  | go g next ↦ loop fuel w ctx from g next
]

unfoldable pub start_frame : Vars → Ctx → Frame
start_frame vars ctx = record {
  vars = vars;
  labels = map to_lower ctx.labels;
  actions = [];
  told = vars.told;
}

unfoldable pub run : Flow → Option Text → Vars → Ctx → Option Turn
unfolding loop start_frame
run w from vars ctx = loop max_rounds w ctx from (start_frame vars ctx) from

unfoldable pub begin : Flow → Ctx → Vars → Option Turn
unfolding run
begin w ctx vars = run w (some w.start) vars ctx

-- What the chat is waiting for.
unfoldable pub awaiting : Flow → Place → Option Node
awaiting w state = elim (present state.node) [
  | none ↦ none
  | some id ↦ get id (with_inherited w.nodes)
]

-- A message that follows another joins it.
unfoldable pub merge_says : List Action → List Action → List Action
merge_says out [] = out
merge_says [] (a ∷ r) = merge_says (a ∷ []) r
merge_says (say n u d ∷ out) (say m t e ∷ r) =
    merge_says (say m (u ++ (text "\n\n" ++ t)) (d || e) ∷ out) r
merge_says (b ∷ out) (a ∷ r) = merge_says (a ∷ b ∷ out) r

abbrev pub remember : Vars → Text → Text → Vars
remember vars key value = record vars {
  values = put (text "answer") value (put key value vars.values);
}

-- A question that was answered: the answer, its label, and the way on.
unfoldable pub answered : Flow → Ctx → Vars → Question → Answer → Option Turn
unfolding run
answered w ctx vars q o =
    run w (or_else (get o.key q.next) none)
      (record vars {
        values = put (text "answer") o.label (put q.save_as o.key vars.values);
        labels = put q.save_as o.label vars.labels;
      })
      ctx

unfoldable pub ask_again : Place → Text → Vars → Question → Turn
ask_again state id vars q = record {
  actions = say id (fill (retry_text q) vars) false ∷ [];
  state = record { node = state.node; vars = vars; attempts = state.attempts + 1 };
  pause = some asking;
  done = false;
  outcome = none;
}

unfoldable pub meeting_actions : Text → Meeting → Vars → List Action
meeting_actions id m vars =
    task id (fill m.task_title vars) 2
    ∷ notify id owners (app ∷ email ∷ []) (text "{{name}} asked for a meeting")
        (fill m.notify_text vars) false
    ∷ say id (fill m.confirm vars) false
    ∷ []

-- A time was given: the team is told and the customer thanked before what the flow does next.
unfoldable pub booked : Text → Meeting → Vars → Option Turn → Option Turn
unfolding meeting_actions merge_says
booked id m vars none = none
booked id m vars (some first) = some (record first {
  actions = mathlib.Core.List.reverse (merge_says [] (meeting_actions id m vars ++ first.actions));
})

unfoldable pub is_choice : Option Text → Answer → Bool
is_choice none o = false
is_choice (some k) o = text_eq o.key k

-- A question, by the answer that was chosen: one more try when it is not understood, then a person.
unfoldable pub asked : Flow → Ctx → Place → Vars → Text → Question → Option Answer → Option Turn
unfolding answered ask_again run
asked w ctx state vars id q (some o) = answered w ctx vars q o
asked w ctx state vars id q none =
    if ltb state.attempts 1 then some (ask_again state id vars q) else run w q.on_unsure vars ctx

-- The `switch` of `resume`, at the step that the chat waits on. `vars` has the last message.
unfoldable pub resume_at :
    Flow → Ctx → Place → Text → Option Text → Vars → Text → Node → Option Turn
unfolding asked booked run is_choice
resume_at w ctx state said choice vars id (Node.ask q) =
    asked w ctx state vars id q (find (is_choice choice) q.options)
resume_at w ctx state said choice vars id (Node.collect question save_as next) =
    run w next (remember vars save_as (clip said 300)) ctx
resume_at w ctx state said choice vars id (Node.meeting m) =
    let vars' = record (remember vars (text "meeting") (clip said 200)) { told = true } in
    booked id m vars' (run w m.next vars' ctx)
resume_at w ctx state said choice vars id _ = some (record {
  actions = [];
  state = record { node = state.node; vars = vars; attempts = state.attempts };
  pause = some agent_turn;
  done = false;
  outcome = none;
})

-- A chat that waits on nothing has its flow ended.
unfoldable pub resume_on :
    Flow → Ctx → Place → Text → Option Text → Vars → Option Node → Option Turn
unfolding resume_at run
resume_on w ctx state said choice vars none = run w none vars ctx
resume_on w ctx state said choice vars (some n) =
    resume_at w ctx state said choice vars (or_else state.node []) n

abbrev pub last_said : Vars → Text → Vars
last_said vars said = record vars { values = put (text "last_message") (clip said 300) vars.values }

-- The customer's next words.
unfoldable pub resume : Flow → Place → Text → Option Text → Ctx → Option Turn
unfolding resume_on awaiting
resume w state said choice ctx =
    resume_on w ctx state said choice (last_said state.vars said) (awaiting w state)
