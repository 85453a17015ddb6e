-- ===== src/Billing/Quote.antt =====
-- `periodFor` and `quoteFor` of src/services/billingService.js, and `priceOf` of
-- src/services/plans.js: what a payment is for and what it costs.
use wppflow_backend.Common.{
  ℕ, ◌++◌, ◌-◌, ◌*◌, ◌/◌, min, Bool, true, false, not, ◌&&◌, ◌||◌, Option, none, some, List, Text,
  text, text_eq, to_lower, find, is_some, or_else, ltb, ◌==◌, if◌then◌else◌,
}
use wppflow_backend.Common.Int.{ℤ, pos, negsuc, ltb_ℤ, leb_ℤ}
use wppflow_backend.Common.Result.{Result, ok, err, ◌>>=◌, ◌>>◌, refuse}
use wppflow_backend.Gst.Tax.{TaxMode, exclusive, compute_tax, is_intra_state}
use wppflow_backend.Subscription.Dates.{Day, Cycle, monthly, annual, days_between, add_cycle}
use wppflow_backend.Subscription.Plans.{
  Entry, Plan, Tenant, plan_of, choose_plan, is_code, grace_days,
}
use wppflow_backend.Subscription.Payment.{same_id}
use wppflow_backend.Subscription.View.{soon_days}
use wppflow_backend.Subscription.Change.{rank_of}
use wppflow_backend.Billing.Settings.{Settings}

pub record Price : Type 0 where
  pub interval : Text
  pub currency : Text
  pub amount_minor : ℕ

-- The columns of a plan that say what it costs.
pub record Offer : Type 0 where
  pub code : Text
  pub tax_mode : TaxMode
  pub prices : List Price

pub record Shop : Type 0 where
  pub plans : List Entry
  pub offers : List Offer
  pub settings : Settings

pub data Kind : Type 0 where
  fresh renewal change : Kind

pub record Quote : Type 0 where
  pub plan_id : Text
  pub plan_name : Text
  pub interval : Cycle
  pub kind : Kind
  pub base_minor : ℕ
  pub credit_minor : ℕ
  pub taxable_minor : ℕ
  pub tax_minor : ℕ
  pub cgst_minor : ℕ
  pub sgst_minor : ℕ
  pub igst_minor : ℕ
  pub total_minor : ℕ
  pub tax_mode : TaxMode
  pub gst_rate : ℕ
  pub intra_state : Bool
  pub period_start : Day
  pub period_end : Day
  pub requires_confirm : Bool
  pub paid_until : Option Day
  pub previous_plan : Option Text

abbrev pub by_offer : Text → Offer → Bool
by_offer code o = text_eq o.code code

abbrev pub is_price : Text → Text → Price → Bool
is_price interval currency p = text_eq p.interval interval && text_eq p.currency currency

unfoldable pub price_of : List Offer → Text → Text → Text → Option ℕ
price_of offers code interval currency = elim (find (by_offer (to_lower code)) offers) [
  | none ↦ none
  | some o ↦ elim (find (is_price interval currency) o.prices) [
    | none ↦ none
    | some p ↦ some p.amount_minor
  ]
]

abbrev pub cycle_text : Cycle → Text
cycle_text monthly = text "monthly"
cycle_text annual = text "annual"

unfoldable pub interval_of : Text → Result Cycle
interval_of t =
    if text_eq t (text "monthly")
    then ok monthly
    else if text_eq t (text "annual")
    then ok annual
    else err 400 (text "Choose monthly or yearly billing")

-- The end of the period that was paid, while a payment still follows on from it: the plan is one that
-- is paid for, and the end is at most the days of grace ago.
unfoldable pub live_end : List Entry → Tenant → Day → Option Day
live_end plans t now =
    let current = plan_of plans t.plan in
    if not current.restricted || is_code (text "free") current then none else elim t.period_end [
      | none ↦ none
      | some end ↦ if leb_ℤ (days_between end now) (pos grace_days) then some end else none
    ]

unfoldable pub period_for : List Entry → Tenant → Cycle → Day → Day × Day
period_for plans t cycle now =
    let start = or_else (live_end plans t now) now in (start, add_cycle start cycle)

abbrev pub is_future : Day → Day → Bool
is_future now end = ltb_ℤ (pos 0) (days_between now end)

abbrev pub same_cycle : Tenant → Cycle → Bool
same_cycle t cycle = elim t.billing_cycle [ none ↦ false | some c ↦ text_eq c (cycle_text cycle) ]

-- From a yearly period to months.
abbrev pub shortens : Tenant → Cycle → Bool
shortens t annual = false
shortens t monthly = same_cycle t annual

unfoldable pub kind_while_live : List Entry → Tenant → Plan → Cycle → Day → Day → Result Kind
kind_while_live plans t plan cycle now end =
    let current = plan_of plans t.plan in
    let future = is_future now end in
    if same_id current.id plan.id && same_cycle t cycle
    then ok renewal
    else if future && ltb (rank_of plans plan.id) (rank_of plans current.id)
    then err 400 (text "A smaller plan starts when your current period ends.")
    else if future && (same_id current.id plan.id && shortens t cycle)
    then err 400
        (text "Your yearly period is already paid. You can switch to monthly when it ends.")
    else ok (if future then change else renewal)

unfoldable pub kind_of : List Entry → Tenant → Plan → Cycle → Day → Result Kind
kind_of plans t plan cycle now = elim (live_end plans t now) [
  | none ↦ ok fresh
  | some end ↦ kind_while_live plans t plan cycle now end
]

abbrev pub natural : ℤ → ℕ
natural (pos n) = n
natural (negsuc n) = 0

abbrev pub price_or_zero : Option ℕ → ℕ
price_or_zero none = 0
price_or_zero (some n) = n

-- What the tenant's present plan costs for its billing cycle.
unfoldable pub old_price : Shop → Tenant → ℕ
old_price shop t = elim (plan_of shop.plans t.plan).id [
  | none ↦ 0
  | some code ↦ elim t.billing_cycle [
    | none ↦ 0
    | some c ↦ price_or_zero (price_of shop.offers code c (text "INR"))
  ]
]

-- `total` days of the period, of which `unused` are left.
unfoldable pub unused_worth : ℕ → ℕ → ℕ → ℕ → ℕ
unused_worth old total unused base =
    if total == 0 || (unused == 0 || old == 0) then 0 else min (old * min unused total / total) base

unfoldable pub credit_until : Shop → Tenant → Day → ℕ → Day → ℕ
credit_until shop t now base end =
    unused_worth (old_price shop t)
      (elim t.period_start [ none ↦ 0 | some start ↦ natural (days_between start end) ])
      (natural (days_between now end)) base

-- Changing plan part-way through a period credits the days not used.
unfoldable pub credit_of : Shop → Tenant → Kind → Day → ℕ → ℕ
credit_of shop t change now base =
    if shop.settings.prorate_upgrades
    then elim (live_end shop.plans t now) [ none ↦ 0 | some end ↦ credit_until shop t now base end ]
    else 0
credit_of shop t kind now base = 0

abbrev pub is_change : Kind → Bool
is_change change = true
is_change k = false

abbrev pub is_renewal : Kind → Bool
is_renewal renewal = true
is_renewal k = false

unfoldable pub period_of_kind : List Entry → Tenant → Kind → Cycle → Day → Day × Day
period_of_kind plans t kind cycle now =
    if is_change kind then (now, add_cycle now cycle) else period_for plans t cycle now

-- The day a renewal is already paid until, if that is more than two weeks off.
unfoldable pub confirm_until : List Entry → Tenant → Kind → Day → Option Day
confirm_until plans t kind now = elim (live_end plans t now) [
  | none ↦ none
  | some end ↦
      if is_renewal kind && ltb_ℤ (pos soon_days) (days_between now end) then some end else none
]

abbrev pub plan_code : Plan → Text
plan_code p = or_else p.id (text "")

unfoldable pub tax_mode_of : List Offer → Text → TaxMode
tax_mode_of offers code = elim (find (by_offer code) offers) [
  | none ↦ exclusive
  | some o ↦ o.tax_mode
]

unfoldable pub quote_for : Shop → Tenant → Text → Text → Text → Day → Result Quote
quote_for shop t state_code plan_value interval_value now = do
  cycle ← interval_of interval_value
  plan ← choose_plan shop.plans plan_value
  let base = price_or_zero (price_of shop.offers (plan_code plan) interval_value (text "INR"))
  refuse (is_code (text "free") plan || base == 0) 400 (
      plan.name
      ++ text " has no online price. Message the Scriwo team and they will agree it with you.")
  kind ← kind_of shop.plans t plan cycle now
  let credit = credit_of shop t kind now base
  let mode = tax_mode_of shop.offers (plan_code plan)
  let intra = is_intra_state state_code shop.settings.seller.state_code
  tax ← compute_tax (some (base - credit)) mode intra shop.settings.gst_rate
  refuse (ltb tax.total 100) 400
      (text "Your unused days already cover this plan. Message the Scriwo team to switch you over.")
  let period = period_of_kind shop.plans t kind cycle now
  let paid = confirm_until shop.plans t kind now
  ok (record {
    plan_id = plan_code plan;
    plan_name = plan.name;
    interval = cycle;
    kind = kind;
    base_minor = base;
    credit_minor = credit;
    taxable_minor = tax.taxable;
    tax_minor = tax.tax;
    cgst_minor = tax.cgst;
    sgst_minor = tax.sgst;
    igst_minor = tax.igst;
    total_minor = tax.total;
    tax_mode = mode;
    gst_rate = shop.settings.gst_rate;
    intra_state = intra;
    period_start = period.0;
    period_end = period.1;
    requires_confirm = is_some paid;
    paid_until = paid;
    previous_plan =
        if is_some (live_end shop.plans t now) then some (plan_of shop.plans t.plan).name else none;
  })
