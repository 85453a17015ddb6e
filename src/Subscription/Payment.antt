-- ===== src/Subscription/Payment.antt =====
-- `recordPayment` of src/services/subscriptionService.js. A company's row, its payments and its
-- history are one record; the transaction is one function on it.
use wppflow_backend.Common.{
  ℕ, Bool, true, false, not, ◌||◌, Option, none, some, List, [], ◌∷◌, ◌++◌, Text, text, text_eq,
  trim, take, is_empty, is_some, or_else, has_text, ltb, ◌==◌, if◌then◌else◌,
}
use wppflow_backend.Common.Int.{pos, ltb_ℤ, leb_ℤ}
use wppflow_backend.Common.Result.{Result, ok, err, ◌>>=◌, ◌>>◌, refuse}
use wppflow_backend.Subscription.Dates.{
  Day, Cycle, monthly, annual, is_day, days_between, add_cycle,
}
use wppflow_backend.Subscription.Plans.{
  Entry, Plan, Tenant, plan_of, choose_plan, is_code, scheduled,
}
use wppflow_backend.Subscription.View.{Standing, overdue, expired, standing}

-- A number that may be left out (also as null or the empty text), or be no number that is allowed.
pub data Given : Type 0 where
  missing wrong : Given
  number : ℕ → Given

-- A date that is no real date is a day for which `is_day` is false. The amount is in hundredths.
pub record Body : Type 0 where
  pub plan : Text
  pub cycle : Option Text
  pub period_start : Option Day
  pub period_end : Option Day
  pub amount : Given
  pub currency : Text
  pub reference : Text
  pub sessions_limit : Given

pub record Payment : Type 0 where
  pub plan : Text
  pub cycle : Text
  pub period_start : Day
  pub period_end : Day
  pub amount : Option (ℕ × Text)
  pub reference : Text

-- `events` is what the company is shown, with the plan; `audits` the audit log.
pub record Books : Type 0 where
  pub tenant : Tenant
  pub payments : List Payment
  pub events : List (Text × Text)
  pub audits : List Text

pub record Paid : Type 0 where
  pub plan : Plan
  pub plan_changed : Bool
  pub notice : Bool
  pub period_start : Day
  pub period_end : Day

unfoldable pub named_plan : List Entry → Text → Bool → Result Plan
named_plan plans value trusted =
    (if trusted then ok (plan_of plans value) else choose_plan plans value) >>= λ target.
    refuse (not (is_some target.id)) 400 (text "Choose the plan this payment is for") >> ok target

unfoldable pub own_plan : List Entry → Tenant → Option Text → Result Plan
own_plan plans t (some s) = ok (plan_of plans s)
own_plan plans t none =
    if is_some (plan_of plans t.plan).id
    then ok (plan_of plans t.plan)
    else err 400 (text "Choose the plan this payment is for")

-- The plan that is named, else the one that is scheduled, else the one the company is on.
unfoldable pub plan_to_pay : List Entry → Tenant → Body → Bool → Result Plan
plan_to_pay plans t body trusted =
    if is_empty body.plan
    then own_plan plans t (scheduled t)
    else named_plan plans body.plan trusted

unfoldable pub cycle_of : Option Text → Result (Text × Cycle)
cycle_of none = err 400 (text "Choose monthly or annual billing")
cycle_of (some c) =
    if text_eq c (text "monthly")
    then ok (c, monthly)
    else if text_eq c (text "annual")
    then ok (c, annual)
    else err 400 (text "Choose monthly or annual billing")

-- `null ?? other`
abbrev pub given_or : Option Text → Option Text → Option Text
given_or none other = other
given_or (some c) other = some c

-- Where the last period ended, if that is not over a month ago, else today.
unfoldable pub follow_on : Option Day → Day → Day
follow_on none now = now
follow_on (some last) now = if leb_ℤ (days_between last now) (pos 31) then last else now

abbrev pub max_period_days : ℕ
max_period_days = 1098

unfoldable pub period_of : Tenant → Body → Cycle → Day → Result (Day × Day)
period_of t body cycle now =
    let start = or_else body.period_start (follow_on t.period_end now) in
    let end = or_else body.period_end (add_cycle start cycle) in
    refuse (not (is_day start)) 400 (text "The period must start on a real date (YYYY-MM-DD)")
    >> (refuse (not (is_day end)) 400 (text "The renewal date must be a real date (YYYY-MM-DD)")
        >> (refuse (ltb_ℤ (days_between start end) (pos 1)) 400
              (text "The renewal date must be after the day the period starts")
            >> (refuse (ltb_ℤ (pos max_period_days) (days_between start end)) 400
                  (text "A period can be at most three years long")
                >> ok (start, end))))

-- The first of the three that is not empty.
unfoldable pub currency_of : Body → Tenant → Text
currency_of body t =
    if not (is_empty body.currency)
    then body.currency
    else if not (is_empty t.currency)
    then t.currency
    else text "AED"

unfoldable pub amount_of : Body → Tenant → Given → Result (Option (ℕ × Text))
amount_of body t missing = ok none
amount_of body t wrong = err 400 (text "The amount must be a number, zero or more")
amount_of body t (number n) =
    refuse (ltb 100000000000 n) 400 (text "The amount must be a number, zero or more")
    >> (refuse (not (has_text (currency_of body t) (text "AED" ∷ text "INR" ∷ []))) 400
          (text "The currency must be AED or INR")
        >> ok (some (n, currency_of body t)))

-- The limit of the plan that the company moves to.
unfoldable pub moved_limit : Plan → Result ℕ
moved_limit target = elim target.numbers [
  | none ↦ err 400 (text "enter how many WhatsApp numbers this company gets")
  | some n ↦
      if n == 0 then err 400 (text "enter how many WhatsApp numbers this company gets") else ok n
]

abbrev pub same_id : Option Text → Option Text → Bool
same_id none none = true
same_id (some a) (some b) = text_eq a b
same_id _ _ = false

unfoldable pub limit_of : Tenant → Plan → Plan → Given → Result ℕ
limit_of t current target wrong =
    err 400 (text "Sessions limit must be a whole number from 1 to 500")
limit_of t current target (number n) =
    refuse (ltb n 1 || ltb 500 n) 400 (text "Sessions limit must be a whole number from 1 to 500")
    >> ok n
limit_of t current target missing =
    if same_id target.id current.id then ok t.sessions_limit else moved_limit target

unfoldable pub is_late : Standing → Bool
is_late overdue = true
is_late expired = true
is_late s = false

-- What is written once all is checked.
unfoldable pub write_payment :
    Books → Plan → Text → Day × Day → Option (ℕ × Text) → ℕ → Text → Books
write_payment books target cycle (start, end) amount limit reference = record books {
  tenant = record books.tenant {
    plan = target.name;
    sessions_limit = limit;
    billing_cycle = some cycle;
    period_start = some start;
    period_end = some end;
    scheduled_plan = none;
    reminded_soon_for = none;
    reminded_overdue_for = none;
    reminded_expired_for = none;
  };
  payments =
      books.payments
      ++ record {
        plan = target.name;
        cycle = cycle;
        period_start = start;
        period_end = end;
        amount = amount;
        reference = take 120 (trim reference);
      }
        ∷ [];
  events = books.events ++ (text "payment", target.name) ∷ [];
  audits = books.audits ++ text "subscription.payment_recorded" ∷ [];
}

unfoldable pub record_payment : List Entry → Books → Body → Bool → Day → Result (Books × Paid)
record_payment plans books body trusted now =
    let t = books.tenant in
    let current = plan_of plans t.plan in
    plan_to_pay plans t body trusted >>= λ target.
    refuse (is_code (text "free") target) 400 (text "The Free plan has no payment.")
    >> (cycle_of (given_or body.cycle t.billing_cycle) >>= λ named.
        period_of t body named.1 now >>= λ period. amount_of body t body.amount >>= λ amount.
        limit_of t current target body.sessions_limit >>= λ limit.
        let after = write_payment books target named.0 period amount limit body.reference in
        ok (
          after,
          record {
            plan = target;
            plan_changed = not (same_id target.id current.id);
            notice = is_late (standing plans after.tenant now);
            period_start = period.0;
            period_end = period.1;
          },
        ))
