-- ===== src/Examples/Downgrades.antt =====
-- Runs of what src/services/subscriptionService.js does with a change that waits.
use wppflow_backend.Common.{
  text, ◌≡◌, refl, true, false, text_eq, trim, lower, [], none, some, ◌≤◌, arith,
}
use wppflow_backend.Common.Result.{Result, ok}
use wppflow_backend.Subscription.Dates.{
  day_number, days_before_year, days_before_month, days_in_month, is_leap,
}
use wppflow_backend.Subscription.Plans.{
  Plan, plan_of, find_plan, plan_shape, choose_plan, is_for_sale,
}
use wppflow_backend.Subscription.Payment.{Books}
use wppflow_backend.Subscription.Change.{schedule_change, apply_due_change, rank_of}
use wppflow_backend.Subscription.Downgrades.{
  IsDowngrade, IsAt, schedule_change-IsDowngrade, scheduled_change_made,
}
use wppflow_backend.Subscription.Keys.{is_keyed}
use wppflow_backend.Examples.Renewals.{two_plans, shop_books, day}

abbrev planned_of : Result (Books × Plan) → Books × Plan
planned_of (ok p) = p
planned_of e = (shop_books, record { id = none; name = []; numbers = none; restricted = false })

abbrev planned : Books × Plan
planned = planned_of (schedule_change two_plans shop_books (text "Free"))

planned_test : schedule_change two_plans shop_books (text "Free") ≡ ok (planned.0, planned.1)
unfolding schedule_change plan_of find_plan text_eq trim lower plan_shape choose_plan is_for_sale
    rank_of
planned_test = refl

keyed_test : is_keyed two_plans ≡ true
unfolding is_keyed text_eq trim lower
keyed_test = refl

schedule_change-IsDowngrade_example :
    IsDowngrade two_plans (text "Free") shop_books planned.0 planned.1
schedule_change-IsDowngrade_example =
    schedule_change-IsDowngrade two_plans shop_books (text "Free") planned planned_test

ended_test : day_number (day 2024 2 29) ≤ day_number (day 2024 3 1)
unfolding day_number days_before_year days_before_month days_in_month is_leap
ended_test = omega arith

scheduled_change_made_example :
    ((apply_due_change two_plans planned.0 (day 2024 3 1)).1 ≡ some planned.1)
    × IsAt (apply_due_change two_plans planned.0 (day 2024 3 1)).0.tenant planned.1
scheduled_change_made_example =
    scheduled_change_made two_plans shop_books (text "Free") planned (day 2024 2 29) (day 2024 3 1)
      keyed_test planned_test refl ended_test
