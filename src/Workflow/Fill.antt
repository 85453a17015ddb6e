-- ===== src/Workflow/Fill.antt =====
-- `fill` and `askText` of src/services/workflow/core.js: the words of a step with what the customer
-- said put in. `{{name}}` and the other personal fields stay for the part that knows the customer.
-- A field is looked up among the answers; the private markers are refused when a flow is saved.
use wppflow_backend.Common.{
  ℕ, zero, suc, ◌+◌, Bool, false, ◌&&◌, ◌||◌, ◌≡◌, refl, Option, none, some, List, [], ◌∷◌, ◌++◌,
  Text, text, text_eq, has_text, is_empty, is_space, lower, show_nat, leb, ◌==◌, if◌then◌else◌,
}
use wppflow_backend.Workflow.Node.{Answer, Question, get}

-- What a flow has kept about a chat: the answers, their labels (`vars._labels`), and the markers
-- `_said` and `_told`.
pub record Vars : Type 0 where
  pub values : List (Text × Text)
  pub labels : List (Text × Text)
  pub said : Bool
  pub told : Bool

unfoldable pub personal : List Text
personal = text "name" ∷ text "first_name" ∷ text "company" ∷ text "executive" ∷ []

is_field : ℕ → Bool
is_field c = (leb 97 c && leb c 122) || c == 95 || (leb 65 c && leb c 90)

-- The rest of `\s*\}\}`, with the number of units read; `none` if it is not there.
closing : ℕ → Text → Option ℕ
closing n [] = none
closing n (c ∷ []) = none
closing n (c ∷ d ∷ s) =
    let later = closing (n + 1) (d ∷ s) in
    if is_space c then later else if c == 125 && d == 125 then some (n + 2) else none

abbrev closed_field : Text → Option ℕ → Option (Text × ℕ)
closed_field key none = none
closed_field key (some n) = some (key, n)

-- The rest of `[a-z_]+\s*\}\}`: the field's name, reversed, and the number of units read.
field_name : Text → ℕ → Text → Option (Text × ℕ)
field_name key n [] = none
field_name key n (c ∷ s) =
    let longer = field_name (lower c ∷ key) (n + 1) s in
    let ended = closed_field key (closing n (c ∷ s)) in
    if is_field c then longer else if is_empty key then none else ended

-- The rest of `\s*[a-z_]+\s*\}\}`.
spaced_field : ℕ → Text → Option (Text × ℕ)
spaced_field n [] = none
spaced_field n (c ∷ s) =
    let later = spaced_field (n + 1) s in
    let here = field_name [] n (c ∷ s) in if is_space c then later else here

-- A field at the head of a text, `{{ key }}`: its name in lower case, and its length.
field_at : Text → Option (Text × ℕ)
field_at (c ∷ d ∷ s) = if c == 123 && d == 123 then spaced_field 2 s else none
field_at _ = none

-- `String(...)` of what every JavaScript object has under a field's name.
inherited_words : Text → Option Text
inherited_words k =
    if text_eq k (text "constructor")
    then some (text "function Object() { [native code] }")
    else if text_eq k (text "__proto__")
    then some (text "[object Object]")
    else none

-- `vars[k]`
answer_of : Vars → Text → Option Text
answer_of vars k = elim (get k vars.values) [ some v ↦ some v | none ↦ inherited_words k ]

-- `vars._labels?.[k]`: there are labels once a question was answered.
label_of : Vars → Text → Option Text
label_of vars k = elim (get k vars.labels) [
  | some v ↦ some v
  | none ↦ elim vars.labels [ [] ↦ none | l ∷ ls ↦ inherited_words k ]
]

-- What a field becomes; `none` leaves it as it is written.
value_of : Vars → Text → Option Text
value_of vars k = if has_text k personal then none else elim (label_of vars k) [
  | some v ↦ some v
  | none ↦ elim (answer_of vars k) [ some v ↦ some v | none ↦ some [] ]
]

-- `String.replace` with the global flag: `skip` units belong to a field that was replaced.
fill_from : Vars → ℕ → Text → Text
fill_from vars skip [] = []
fill_from vars (suc skip) (c ∷ s) = fill_from vars skip s
fill_from vars zero (c ∷ s) = elim (field_at (c ∷ s)) [
  | none ↦ c ∷ fill_from vars zero s
  | some (key, n) ↦ elim (value_of vars (mathlib.Core.List.reverse key)) [
    | none ↦ c ∷ fill_from vars zero s
    | some v ↦ v ++ fill_from vars (Prim.Native.Nat.pred n) s
  ]
]

unfoldable pub fill : Text → Vars → Text
unfolding fill_from field_at spaced_field field_name closing value_of label_of answer_of
    inherited_words is_field is_space lower personal text_eq
fill t vars = fill_from vars 0 t

numbered : ℕ → List Answer → Text
numbered i [] = []
numbered i (o ∷ []) = show_nat i ++ (text ". " ++ o.label)
numbered i (o ∷ p ∷ os) =
    show_nat i ++ (text ". " ++ (o.label ++ (text "\n" ++ numbered (i + 1) (p ∷ os))))

abbrev or_words : Text → Text → Text
or_words [] d = d
or_words (c ∷ s) d = c ∷ s

-- The question with its answers, as it is sent.
unfoldable pub ask_text : Question → Text
unfolding numbered
ask_text q =
    if q.show_options
    then q.question
      ++ (text "\n\n"
          ++ (numbered 1 q.options
              ++ (text "\n"
                  ++ or_words q.options_hint (text "Reply with the number, or just tell me."))))
    else q.question

unfoldable pub retry_text : Question → Text
unfolding ask_text
retry_text q =
    or_words q.retry (text "Sorry, I didn't quite get that.") ++ (text "\n\n" ++ ask_text q)

abbrev sample : Vars
sample = record { values = (text "b", text "7") ∷ []; labels = []; said = false; told = false }

-- A question may be saved as `constructor`; before its answer, the field is what every object has.
inherited_test : fill (text "{{constructor}}") sample ≡ text "function Object() { [native code] }"
unfolding fill
inherited_test = refl

fill_test : fill (text "Hi {{name}}, {{ B }}/{{x}}.") sample ≡ text "Hi {{name}}, 7/."
unfolding fill
fill_test = refl
