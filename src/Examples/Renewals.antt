-- ===== src/Examples/Renewals.antt =====
-- Subscriptions at small inputs.
use mathlib.Core.Path.{subst}
use wppflow_backend.Common.{
  ℕ, ◌+◌, ◌≤◌, ◌≢◌, true, false, none, some, List, [], ◌∷◌, Text, text, text_eq, trim, lower,
  is_space, is_some, ◌≡◌, refl, ap, arith,
}
use wppflow_backend.Common.Result.{Result, ok}
use wppflow_backend.Subscription.Dates.{
  Day, is_day, is_leap, days_in_month, days_before_month, days_before_year, days_between,
  day_number, monthly, annual, utc_year, month_after, add_cycle,
}
use wppflow_backend.Subscription.Calendar.{add_cycle_length}
use wppflow_backend.Subscription.Plans.{
  Entry, Tenant, plan_of, plan_shape, find_plan, original, is_for_sale, choose_plan, scheduled,
  is_lapsed,
}
use wppflow_backend.Subscription.View.{
  standing, standing_until, standing_at, scheduled_to, is_expired, standing-is_lapsed,
}
use wppflow_backend.Subscription.Payment.{
  missing, number, Body, Books, Paid, period_of, follow_on, record_payment, plan_to_pay, named_plan,
  own_plan, cycle_of, amount_of, currency_of, limit_of, moved_limit,
}
use wppflow_backend.Subscription.Periods.{IsPaid, IsUsual, record_payment-IsPaid, period_of_taken}
use wppflow_backend.Subscription.Change.{is_due, apply_due_change, IsMadeOnce, apply_due_once}
use wppflow_backend.Subscription.Reminders.{
  soon, remind, mark_reminded, remind_once, is_near, is_distinct, remind_as, remind_of, kind_of,
  reminded_for,
}

abbrev pub day : ℕ → ℕ → ℕ → Day
day y m d = record { year = y; month = m; date = d }

real_test : is_day (day 2024 1 31) ≡ true
unfolding is_day days_in_month is_leap
real_test = refl

-- From 31 January to 29 February.
cycle_test : add_cycle (day 2024 1 31) monthly ≡ day 2024 2 29
unfolding add_cycle month_after utc_year days_in_month is_leap
cycle_test = refl

add_cycle_length_example :
    ((day_number (day 2024 1 31) + 28 ≤ day_number (add_cycle (day 2024 1 31) monthly))
      × (day_number (add_cycle (day 2024 1 31) monthly) ≤ day_number (day 2024 1 31) + 31)
      × (is_day (add_cycle (day 2024 1 31) monthly) ≡ true))
    × ((day_number (day 2024 1 31) + 365 ≤ day_number (add_cycle (day 2024 1 31) annual))
        × (day_number (add_cycle (day 2024 1 31) annual) ≤ day_number (day 2024 1 31) + 366)
        × (is_day (add_cycle (day 2024 1 31) annual) ≡ true))
add_cycle_length_example = add_cycle_length (day 2024 1 31) real_test (omega arith) (omega arith)

abbrev pub two_plans : List Entry
two_plans =
    record { code = text "free"; name = text "Free"; is_active = true; numbers = some 1 }
    ∷ record { code = text "growth"; name = text "Growth"; is_active = true; numbers = some 10 }
    ∷ []

abbrev pub shop_tenant : Tenant
shop_tenant = record {
  plan = text "Growth";
  active = true;
  sessions_limit = 10;
  billing_cycle = some (text "monthly");
  period_start = some (day 2024 1 31);
  period_end = some (day 2024 2 29);
  scheduled_plan = some (text "free");
  currency = text "INR";
  reminded_soon_for = none;
  reminded_overdue_for = none;
  reminded_expired_for = none;
}

known : (s : Text) → scheduled shop_tenant ≡ some s → is_some (plan_of two_plans s).id ≡ true
unfolding plan_of plan_shape find_plan text_eq trim lower is_space
known s e =
    let same : text "free" ≡ s = cc in
    subst (λ x. is_some (plan_of two_plans x).id ≡ true) same refl

standing-is_lapsed_example :
    is_expired (standing two_plans shop_tenant (day 2024 3 20))
    ≡ is_lapsed two_plans shop_tenant (day 2024 3 20)
standing-is_lapsed_example = standing-is_lapsed two_plans shop_tenant (day 2024 3 20) known

abbrev pub shop_books : Books
shop_books = record { tenant = shop_tenant; payments = []; events = []; audits = [] }

abbrev renewal : Body
renewal = record {
  plan = text "growth";
  cycle = none;
  period_start = none;
  period_end = none;
  amount = number 99900;
  currency = [];
  reference = text "UPI 12";
  sessions_limit = missing;
}

abbrev paid_of : Result (Books × Paid) → Books × Paid
paid_of (ok p) = p
paid_of e = (
  shop_books,
  record {
    plan = record { id = none; name = []; numbers = none; restricted = false };
    plan_changed = false;
    notice = false;
    period_start = day 0 0 0;
    period_end = day 0 0 0;
  },
)

abbrev renewed : Books × Paid
renewed = paid_of (record_payment two_plans shop_books renewal false (day 2024 2 20))

renewed_test :
    record_payment two_plans shop_books renewal false (day 2024 2 20) ≡ ok (renewed.0, renewed.1)
unfolding record_payment plan_to_pay named_plan own_plan cycle_of period_of follow_on amount_of
    currency_of limit_of moved_limit add_cycle month_after utc_year is_day days_in_month is_leap
    days_before_month days_before_year day_number days_between plan_of plan_shape find_plan original
    is_for_sale choose_plan text_eq trim lower is_space
renewed_test = refl

record_payment-IsPaid_example : IsPaid shop_books renewed.0 renewed.1
record_payment-IsPaid_example =
    record_payment-IsPaid two_plans shop_books renewal false (day 2024 2 20) renewed.0 renewed.1
      renewed_test

shop_end-IsUsual : (d : Day) → shop_tenant.period_end ≡ some d → IsUsual d
unfolding is_day days_in_month is_leap
shop_end-IsUsual d e =
    let same : day 2024 2 29 ≡ d = cc in subst IsUsual same (refl, omega arith, omega arith)

period_of_taken_example :
    period_of shop_tenant renewal monthly (day 2024 1 31)
    ≡ ok (
      follow_on shop_tenant.period_end (day 2024 1 31),
      add_cycle (follow_on shop_tenant.period_end (day 2024 1 31)) monthly,
    )
period_of_taken_example =
    period_of_taken shop_tenant renewal monthly (day 2024 1 31) refl refl
      (real_test, omega arith, omega arith) shop_end-IsUsual

due_test : is_due shop_tenant (day 2024 3 1) ≡ true
unfolding is_due day_number days_before_year days_before_month days_in_month is_leap
due_test = refl

apply_due_once_example :
    IsMadeOnce two_plans (text "free") (apply_due_change two_plans shop_books (day 2024 3 1)).0
apply_due_once_example =
    apply_due_once two_plans shop_books (day 2024 3 1) 102 (text "ree") refl due_test

abbrev told_tenant : Tenant
told_tenant = record shop_tenant { reminded_soon_for = some (day 2024 2 29) }

told_test : remind two_plans shop_tenant (day 2024 2 20) true ≡ (told_tenant, some soon)
unfolding remind is_near is_distinct remind_as remind_of kind_of reminded_for mark_reminded standing
    standing_until standing_at scheduled_to is_day days_in_month is_leap days_before_month
    days_before_year day_number days_between plan_of plan_shape find_plan original is_for_sale
    choose_plan text_eq trim lower is_space
told_test = refl

remind_once_example : (remind two_plans told_tenant (day 2024 2 21) true).1 ≢ some soon
remind_once_example =
    remind_once two_plans two_plans shop_tenant told_tenant (day 2024 2 20) (day 2024 2 21) true
      true soon (ap (λ r. r.1) told_test) (rw told_test refl) (rw told_test refl)
