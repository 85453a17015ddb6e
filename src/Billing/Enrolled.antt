-- ===== src/Billing/Enrolled.antt =====
-- Setting automatic payment up keeps the orders and the invoices in agreement.
use wppflow_backend.Common.{
  ℕ, Bool, ◌||◌, Option, none, some, Text, is_empty, find, inl, inr, Bool-cases, Option-cases,
}
use wppflow_backend.Common.Result.{Result-cases}
use wppflow_backend.Subscription.Plans.{Plan}
use wppflow_backend.Billing.Quote.{Shop, plan_code}
use wppflow_backend.Billing.Till.{Autopay, Till, Charge, Clock}
use wppflow_backend.Billing.Checkout.{live_autopay}
use wppflow_backend.Billing.Receive.{is_captured}
use wppflow_backend.Billing.Recurring.{set_autopay}
use wppflow_backend.Billing.Enrol.{
  monthly_sum, is_same_begun, is_gateway_plan, gateway_plan, add_autopay, begin_autopay,
  start_autopay, is_subscription_of, first_charge, verify_autopay,
}
use wppflow_backend.Billing.Edits.{drawn_more}
use wppflow_backend.Billing.Ledger.{IsSound}
use wppflow_backend.Billing.News.{settle_charge-IsSound}

gateway_plan-IsSound :
    (t : Till) (plan : Plan) (sum : ℕ) (made_plan : Option Text)
    → IsSound t
    → IsSound (gateway_plan t plan sum made_plan).0
unfolding gateway_plan
gateway_plan-IsSound t plan sum made_plan h =
    elim (Option-cases (find (is_gateway_plan (plan_code plan) sum) t.gateway_plans)) [
      | inr (found, e) ↦ rw (e, gateway_plan) h
      | inl e ↦ elim (Option-cases made_plan) [
        | inl f ↦ rw (e, f, gateway_plan) h
        | inr (id, f) ↦ rw (e, f, gateway_plan) h
      ]
    ]

begin_autopay-IsSound :
    (t : Till) (tenant : ℕ) (plan : Plan) (sum : ℕ) (made_plan made : Option Text)
    → IsSound t
    → IsSound (begin_autopay t tenant plan sum made_plan made).0
unfolding begin_autopay add_autopay
begin_autopay-IsSound t tenant plan sum made_plan made h =
    let planned = gateway_plan-IsSound t plan sum made_plan h in
    elim (Option-cases (gateway_plan t plan sum made_plan).1) [
      | inl e ↦ rw (e, begin_autopay) planned
      | inr (id, e) ↦ elim (Option-cases made) [
        | inl f ↦ rw (e, f, begin_autopay) planned
        | inr (subscription, f) ↦ rw (e, f, begin_autopay) (drawn_more planned)
      ]
    ]

pub start_autopay-IsSound :
    (shop : Shop) (t : Till) (tenant : ℕ) (plan_value : Text) (made_plan made : Option Text)
    → IsSound t
    → IsSound (start_autopay shop t tenant plan_value made_plan made).0
unfolding start_autopay
start_autopay-IsSound shop t tenant plan_value made_plan made h =
    elim (Result-cases (monthly_sum shop t tenant plan_value)) [
      | inl (status, words, e) ↦ rw (e, start_autopay) h
      | inr (found, e) ↦ elim (Option-cases (live_autopay t tenant)) [
        | inl f ↦
            rw (e, f, start_autopay)
              (begin_autopay-IsSound t tenant found.0 found.1 made_plan made h)
        | inr (a, f) ↦ elim (Bool-cases (is_same_begun found.0 found.1 a)) [
          | inl g ↦ rw (e, f, g, start_autopay) h
          | inr g ↦ rw (e, f, g, start_autopay) h
        ]
      ]
    ]

first_charge-IsSound :
    (shop : Shop) (clock : Clock) (t : Till) (a : Autopay) (charge : Option Charge)
    → IsSound t
    → IsSound (first_charge shop clock t a charge)
unfolding first_charge
first_charge-IsSound shop clock t a none h = h
first_charge-IsSound shop clock t a (some charge) h = elim (Bool-cases (is_captured charge)) [
  | inl e ↦ rw (e, first_charge) (settle_charge-IsSound shop clock t a charge h)
  | inr e ↦ rw (e, first_charge) h
]

pub verify_autopay-IsSound :
    (shop : Shop) (clock : Clock) (verify : Text → Text → Text → Bool) (tenant : ℕ) (t : Till)
    (payment subscription signature : Text) (fetched : Option Charge)
    → IsSound t
    → IsSound (verify_autopay shop clock verify tenant t payment subscription signature fetched).0
unfolding verify_autopay set_autopay
verify_autopay-IsSound shop clock verify tenant t payment subscription signature fetched h =
    elim (Bool-cases (is_empty payment || (is_empty subscription || is_empty signature))) [
      | inl e ↦ rw (e, verify_autopay) h
      | inr e ↦ elim (Option-cases (find (is_subscription_of tenant subscription) t.autopays)) [
        | inl f ↦ rw (e, f, verify_autopay) h
        | inr (a, f) ↦ elim (Bool-cases (verify payment a.gateway_subscription signature)) [
          | inr g ↦ rw (e, f, g, verify_autopay) h
          | inl g ↦ rw (e, f, g, verify_autopay) (first_charge-IsSound shop clock _ a fetched h)
        ]
      ]
    ]
