-- ===== src/Workflow/Node.antt =====
-- The steps of a workflow, as `cleanNode` of src/services/workflow/schema.js makes them, with the fields
-- that core.js and the check of the arrows read. An arrow is `none` where the source has null.
use wppflow_backend.Common.{
  ℕ, Bool, Option, none, some, List, [], ◌∷◌, ◌++◌, map, Text, text, text_eq, if◌then◌else◌,
}

-- One answer of a question.
pub record Answer : Type 0 where
  pub key : Text
  pub label : Text
  pub hints : List Text

-- Opening hours, as `cleanHours` of automationRules.js leaves them.
pub record Hours : Type 0 where
  pub timezone : Text
  pub days : List ℕ
  pub start : Text
  pub finish : Text

pub record Question : Type 0 where
  pub question : Text
  pub options : List Answer
  pub save_as : Text
  pub show_options : Bool
  pub options_hint : Text
  pub retry : Text
  pub next : List (Text × Option Text)
  pub on_unsure : Option Text

pub record Meeting : Type 0 where
  pub question : Text
  pub confirm : Text
  pub task_title : Text
  pub notify_text : Text
  pub next : Option Text

pub data Look : Type 0 where
  -- on "label" and on "hours": yes, no
  by_label : Text → Option Text → Option Text → Look
  by_hours : Hours → Option Text → Option Text → Look
  -- on "var": the field, the cases, otherwise
  by_var : Text → List (Text × Option Text) → Option Text → Look

pub data Who : Type 0 where
  assignee owners : Who

pub data Channel : Type 0 where
  app email : Channel

pub data Reason : Type 0 where
  qualified unclear pricing : Reason

pub data Node : Type 0 where
  say : Text → Option Text → Node
  ask : Question → Node
  -- question, save_as, next
  collect : Text → Text → Option Text → Node
  meeting : Meeting → Node
  branch : Look → Node
  -- goal, playbook
  agent : Text → Text → Node
  label : Text → Option Text → Node
  -- who, channels, title, text, next
  notify : Who → List Channel → Text → Text → Option Text → Node
  assign : Text → Option Text → Node
  lead : Text → Option Text → Node
  -- title, due hours, next
  task : Text → ℕ → Option Text → Node
  handoff : Reason → Node
  finish : Node
  -- what every JavaScript object has under its name: no type, and nothing that follows
  bare : Node

-- An object with text keys: the first entry of a key is its value.
abbrev pub get {ℓ} : {A : Type ℓ} → Text → List (Text × A) → Option A
get k [] = none
get k ((j, v) ∷ m) = let rest = get k m in if text_eq j k then some v else rest

-- `nodes["constructor"]` and `nodes["__proto__"]` are there in every object; the other names that
-- every object has hold capitals, and a step's name and an arrow are in lower case.
abbrev pub inherited : List (Text × Node)
inherited = (text "constructor", bare) ∷ (text "__proto__", bare) ∷ []

-- The steps as `nodes[id]` finds them.
abbrev pub with_inherited : List (Text × Node) → List (Text × Node)
with_inherited nodes = nodes ++ inherited

pub record Flow : Type 0 where
  pub start : Text
  pub nodes : List (Text × Node)
  pub quiet : Bool

-- `edgesOf` of schema.js: where a step can go.
unfoldable pub edges_of : Node → List (Option Text)
edges_of (ask q) = map (λ e. e.1) q.next ++ q.on_unsure ∷ []
edges_of (branch (by_var v cases otherwise)) = map (λ e. e.1) cases ++ otherwise ∷ []
edges_of (branch (by_label l y n)) = y ∷ n ∷ []
edges_of (branch (by_hours h y n)) = y ∷ n ∷ []
edges_of (say t next) = next ∷ []
edges_of (collect q s next) = next ∷ []
edges_of (meeting m) = m.next ∷ []
edges_of (label a next) = next ∷ []
edges_of (notify w c t x next) = next ∷ []
edges_of (assign t next) = next ∷ []
edges_of (lead s next) = next ∷ []
edges_of (task t d next) = next ∷ []
edges_of (agent g p) = []
edges_of (handoff r) = []
edges_of finish = []
edges_of bare = none ∷ []
