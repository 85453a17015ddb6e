-- ===== src/Examples/Flows.antt =====
-- Runs of the operations on small inputs, and the theorems at them.
use wppflow_backend.Common.{true, false, none, some, [], ◌∷◌, text, text_eq, ◌≡◌, refl, arith}
use wppflow_backend.Workflow.Node.{with_inherited, Node, Flow, edges_of}
use wppflow_backend.Workflow.Fill.{Vars}
use wppflow_backend.Workflow.Core.{Ctx, Turn, begin, resume}
use wppflow_backend.Workflow.Schema.Graph.{Nodes}
use wppflow_backend.Workflow.Schema.Walk.{Checked, saved, check_flow}
use wppflow_backend.Workflow.Schema.Sound.{Within}
use wppflow_backend.Workflow.Saved.{IsShort}
use wppflow_backend.Workflow.Turns.{check_flow-IsShort, begin_ends, resume_ends}

-- A greeting, and a question with one answer that leads on and one that leads nowhere.
abbrev small_nodes : Nodes
small_nodes =
    (text "hello", Node.say (text "Hi {{name}}") (some (text "kind")))
    ∷ (
      text "kind",
      Node.ask (record {
        question = text "Buy or rent?";
        options =
            record { key = text "buy"; label = text "Buy"; hints = [] }
            ∷ record { key = text "rent"; label = text "Rent"; hints = [] }
            ∷ [];
        save_as = text "kind";
        show_options = true;
        options_hint = [];
        retry = [];
        next = (text "buy", some (text "sell")) ∷ (text "rent", none) ∷ [];
        on_unsure = none;
      }),
    )
    ∷ (text "sell", Node.label (text "Buyer") none)
    ∷ []

abbrev flow_of : Checked → Flow
flow_of (saved w) = w
flow_of _ = record { start = []; nodes = []; quiet = false }

abbrev small_flow : Flow
unfolding check_flow text_eq edges_of
small_flow = flow_of (check_flow small_nodes (text "hello") false)

small_flow-saved : check_flow small_nodes (text "hello") false ≡ saved small_flow
unfolding check_flow text_eq edges_of
small_flow-saved = refl

abbrev no_vars : Vars
no_vars = record { values = []; labels = []; said = false; told = false }

abbrev plain_ctx : Ctx
plain_ctx = record { labels = []; now = 0; within = none }

begin_ends_example : (t : Turn) × (begin small_flow plain_ctx no_vars ≡ some t)
begin_ends_example =
    begin_ends small_nodes (text "hello") false small_flow plain_ctx no_vars (omega arith)
      small_flow-saved

check_flow-IsShort_example :
    IsShort 24 small_flow × Within (with_inherited small_flow.nodes) 24 small_flow.start
check_flow-IsShort_example =
    check_flow-IsShort small_nodes (text "hello") false small_flow (omega arith) small_flow-saved

-- The customer has chosen to rent.
resume_ends_example :
    (t : Turn) × (resume small_flow
        (record { node = some (text "kind"); vars = no_vars; attempts = 0 })
        (text "rent please")
        (some (text "rent"))
        plain_ctx
      ≡ some t)
resume_ends_example =
    resume_ends small_nodes (text "hello") false small_flow
      (record { node = some (text "kind"); vars = no_vars; attempts = 0 }) (text "rent please")
      (some (text "rent")) plain_ctx (omega arith) small_flow-saved
