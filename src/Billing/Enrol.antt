-- ===== src/Billing/Enrol.antt =====
-- `startAutopay` and `verifyAutopay` of src/services/billingService.js: a company sets automatic
-- payment up. What the gateway answers is an argument: `none` when it could not be reached.
use wppflow_backend.Common.{
  ℕ, ◌+◌, Bool, true, false, not, ◌&&◌, ◌||◌, Option, none, some, [], ◌∷◌, ◌++◌, Text, text,
  text_eq, is_empty, find, ◌==◌, if◌then◌else◌,
}
use wppflow_backend.Common.Result.{Result, ok, err, ◌>>=◌, ◌>>◌, refuse}
use wppflow_backend.Gst.Tax.{tax_on, is_intra_state}
use wppflow_backend.Subscription.Dates.{monthly}
use wppflow_backend.Subscription.Plans.{Plan, choose_plan, is_code}
use wppflow_backend.Billing.Quote.{Shop, price_of, price_or_zero, plan_code, tax_mode_of}
use wppflow_backend.Billing.Till.{Autopay, AutopayStatus, begun, Till, Charge, Clock, is_company}
use wppflow_backend.Billing.Checkout.{live_autopay}
use wppflow_backend.Billing.Receive.{is_captured}
use wppflow_backend.Billing.Recurring.{
  set_autopay, after_authenticated, is_gateway_subscription, settle_charge,
}

-- The plan and the sum of a month with its tax, for a company that has billing details.
unfoldable pub monthly_sum : Shop → Till → ℕ → Text → Result (Plan × ℕ)
monthly_sum shop till tenant plan_value = elim (find (is_company tenant) till.companies) [
  | none ↦ err 404 (text "Company not found")
  | some company ↦ elim company.profile [
    | none ↦ err 400 (
        text
          "Add your billing details first: the invoice needs your company's name, address and state.")
    | some profile ↦ do
      plan ← choose_plan shop.plans plan_value
      let base = price_or_zero (price_of shop.offers (plan_code plan) (text "monthly") (text "INR"))
      refuse (is_code (text "free") plan || base == 0) 400
          (plan.name ++ text " has no monthly price to charge automatically.")
      let tax =
          tax_on base (tax_mode_of shop.offers (plan_code plan))
            (is_intra_state profile.state_code shop.settings.seller.state_code)
            shop.settings.gst_rate
      ok (plan, tax.total)
  ]
]

abbrev pub is_begun : AutopayStatus → Bool
is_begun begun = true
is_begun s = false

-- The one that was begun and not yet confirmed, for the same plan and sum.
unfoldable pub is_same_begun : Plan → ℕ → Autopay → Bool
is_same_begun plan sum a =
    is_begun a.status
    && (text_eq a.plan_code (plan_code plan)
        && (a.amount_minor == sum && not (is_empty a.gateway_subscription)))

abbrev pub is_gateway_plan : Text → ℕ → Text × ℕ × Text → Bool
is_gateway_plan code sum (c, amount, id) = text_eq c code && amount == sum

-- The gateway's plan for the sum; a new sum makes a new one.
unfoldable pub gateway_plan : Till → Plan → ℕ → Option Text → Till × Option Text
gateway_plan till plan sum made_plan =
    elim (find (is_gateway_plan (plan_code plan) sum) till.gateway_plans) [
      | some (c, amount, id) ↦ (till, some id)
      | none ↦ elim made_plan [
        | none ↦ (till, none)
        | some id ↦ (
          record till { gateway_plans = till.gateway_plans ++ (plan_code plan, sum, id) ∷ [] },
          some id,
        )
      ]
    ]

unfoldable pub add_autopay : Till → ℕ → Plan → ℕ → Text → Till
add_autopay till tenant plan sum subscription = record till {
  autopays =
      till.autopays
      ++ record {
        id = till.next_id;
        tenant = tenant;
        plan_code = plan_code plan;
        interval = monthly;
        amount_minor = sum;
        gateway_subscription = subscription;
        status = begun;
      }
        ∷ [];
  next_id = till.next_id + 1;
}

unfoldable pub begin_autopay : Till → ℕ → Plan → ℕ → Option Text → Option Text → Till × Result ℕ
begin_autopay till tenant plan sum made_plan made =
    let (planned, id) = gateway_plan till plan sum made_plan in
    elim id [
      | none ↦ (
        planned,
        err 502 (
            text
              "We could not reach the payment service. Nothing was set up. Please try again in a minute."),
      )
      | some gateway_id ↦ elim made [
        | none ↦ (
          planned,
          err 502 (
              text
                "We could not set up autopay. Nothing was charged. Please try again in a minute."),
        )
        | some subscription ↦ (add_autopay planned tenant plan sum subscription, ok planned.next_id)
      ]
    ]

-- The day of the first charge is left to the gateway.
unfoldable pub start_autopay : Shop → Till → ℕ → Text → Option Text → Option Text → Till × Result ℕ
start_autopay shop till tenant plan_value made_plan made =
    elim (monthly_sum shop till tenant plan_value) [
      | err status words ↦ (till, err status words)
      | ok (plan, sum) ↦ elim (live_autopay till tenant) [
        | none ↦ begin_autopay till tenant plan sum made_plan made
        | some a ↦ if is_same_begun plan sum a then (till, ok a.id) else (
          till,
          err 409
              (text "Autopay is already set up for this company. Turn it off first to change it."),
        )
      ]
    ]

abbrev pub is_subscription_of : ℕ → Text → Autopay → Bool
is_subscription_of tenant id a = is_gateway_subscription id a && a.tenant == tenant

-- A first charge that was already captured is settled; what goes wrong there is left to the webhook.
unfoldable pub first_charge : Shop → Clock → Till → Autopay → Option Charge → Till
first_charge shop clock till a none = till
first_charge shop clock till a (some charge) =
    if is_captured charge then (settle_charge shop clock till a charge).0 else till

unfoldable pub verify_autopay :
    Shop
    → Clock
    → (Text → Text → Text → Bool)
    → ℕ
    → Till
    → Text
    → Text
    → Text
    → Option Charge
    → Till × Result ℕ
verify_autopay shop clock verify tenant till payment subscription signature fetched =
    if is_empty payment || (is_empty subscription || is_empty signature)
    then (till, err 400 (text "The payment details are incomplete"))
    else elim (find (is_subscription_of tenant subscription) till.autopays) [
      | none ↦ (till, err 404 (text "Autopay not found"))
      | some a ↦
          if not (verify payment a.gateway_subscription signature)
          then (
            till,
            err 400 (text "We could not verify this payment, so autopay was not switched on."),
          )
          else (
            first_charge shop clock (set_autopay till a.id (after_authenticated a.status)) a
                fetched,
            ok a.id,
          )
    ]
