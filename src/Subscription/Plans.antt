-- ===== src/Subscription/Plans.antt =====
-- src/services/plans.js: the plans, which plan a company is on, and whether it has lapsed. The plans
-- are a list in the order of `sortOrder`, in which they are read from the database.
use wppflow_backend.Common.{
  ℕ, Bool, true, false, not, ◌||◌, Option, none, some, List, Text, text, text_eq, to_lower, trim,
  is_empty, is_some, find, if◌then◌else◌,
}
use wppflow_backend.Common.Int.{pos, ltb_ℤ}
use wppflow_backend.Common.Result.{Result, ok, err}
use wppflow_backend.Subscription.Dates.{Day, days_between}

pub record Entry : Type 0 where
  pub code : Text
  pub name : Text
  pub is_active : Bool
  pub numbers : Option ℕ

-- What `planOf` answers, as far as subscriptions read it. `id` is `none` for the original plan.
pub record Plan : Type 0 where
  pub id : Option Text
  pub name : Text
  pub numbers : Option ℕ
  pub restricted : Bool

pub record Tenant : Type 0 where
  pub plan : Text
  pub active : Bool
  pub sessions_limit : ℕ
  pub billing_cycle : Option Text
  pub period_start : Option Day
  pub period_end : Option Day
  pub scheduled_plan : Option Text
  pub currency : Text
  pub reminded_soon_for : Option Day
  pub reminded_overdue_for : Option Day
  pub reminded_expired_for : Option Day

unfoldable pub plan_shape : Entry → Plan
plan_shape e = record { id = some e.code; name = e.name; numbers = e.numbers; restricted = true }

abbrev pub by_code : Text → Entry → Bool
by_code id e = text_eq e.code id

abbrev pub by_name : Text → Entry → Bool
by_name id e = text_eq (to_lower (trim e.name)) id

-- By its code, or by its name as it stands now.
unfoldable pub find_plan : List Entry → Text → Option Entry
find_plan plans id = elim (find (by_code id) plans) [
  | some e ↦ some e
  | none ↦ find (by_name id) plans
]

unfoldable pub original : Text → Plan
original value = record {
  id = none;
  name = if is_empty value then text "Workspace" else value;
  numbers = none;
  restricted = false;
}

unfoldable pub plan_of : List Entry → Text → Plan
plan_of plans value = elim (find_plan plans (to_lower (trim value))) [
  | some e ↦ plan_shape e
  | none ↦ original value
]

abbrev pub grace_days : ℕ
grace_days = 7

abbrev pub is_code : Text → Plan → Bool
is_code code p = elim p.id [ none ↦ false | some c ↦ text_eq c code ]

-- `Boolean(tenant.scheduled_plan)`: the empty text is none.
abbrev pub scheduled : Tenant → Option Text
scheduled t = elim t.scheduled_plan [ none ↦ none | some s ↦ if is_empty s then none else some s ]

unfoldable pub over_grace : Option Day → Day → Bool
over_grace none now = false
over_grace (some end) now = ltb_ℤ (pos grace_days) (days_between end now)

unfoldable pub is_lapsed : List Entry → Tenant → Day → Bool
is_lapsed plans t now =
    let plan = plan_of plans t.plan in
    if not plan.restricted || is_code (text "free") plan
    then false
    else if is_some (scheduled t)
    then false
    else over_grace t.period_end now

-- The plan whose features and limits apply today.
unfoldable pub entitled_plan : List Entry → Tenant → Day → Plan
entitled_plan plans t now =
    if is_lapsed plans t now then plan_of plans (text "free") else plan_of plans t.plan

unfoldable pub is_for_sale : List Entry → Plan → Bool
is_for_sale plans p = elim p.id [
  | none ↦ false
  | some code ↦ elim (find (by_code code) plans) [ none ↦ false | some e ↦ e.is_active ]
]

-- The error also lists the names of the plans for sale.
unfoldable pub choose_plan : List Entry → Text → Result Plan
choose_plan plans value =
    let plan = plan_of plans value in
    if is_for_sale plans plan then ok plan else err 400 (text "Choose a plan")
