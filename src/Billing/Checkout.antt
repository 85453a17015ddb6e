-- ===== src/Billing/Checkout.antt =====
-- `createCheckout` and `verifyCheckout` of src/services/billingService.js, and the order of
-- `createWebsiteOrder` of src/services/websiteCheckout.js. What the gateway answers is an argument:
-- `none` when it could not be reached.
use wppflow_backend.Common.{
  ℕ, ◌+◌, ◌*◌, Bool, true, false, not, ◌&&◌, Option, none, some, [], ◌∷◌, ◌++◌, Text, text, text_eq,
  is_empty, is_some, find, has_text, ltb, ◌==◌, if◌then◌else◌,
}
use wppflow_backend.Common.Rows.{find_last}
use wppflow_backend.Common.Result.{Result, ok, err, ◌>>=◌, ◌>>◌, refuse}
use wppflow_backend.Gst.Profile.{Profile}
use wppflow_backend.Subscription.Dates.{Cycle, monthly, annual}
use wppflow_backend.Subscription.Plans.{Tenant}
use wppflow_backend.Subscription.Reminders.{same_day}
use wppflow_backend.Billing.Quote.{Shop, Quote, is_renewal, quote_for}
use wppflow_backend.Billing.Till.{
  Source, checkout, autopay, website, Status, created, attempted, failed, OrderQuote, Guest, Order,
  Autopay, AutopayStatus, begun, authenticated, active, waiting, halted, Till, Clock, set_order,
  is_company, audit,
}

abbrev pub order_lifetime_hours : ℕ
order_lifetime_hours = 24

-- One of 'created', 'authenticated', 'active', 'pending' and 'halted'.
abbrev pub is_live : AutopayStatus → Bool
is_live begun = true
is_live authenticated = true
is_live active = true
is_live waiting = true
is_live halted = true
is_live s = false

abbrev pub is_charging : AutopayStatus → Bool
is_charging authenticated = true
is_charging active = true
is_charging waiting = true
is_charging s = false

abbrev pub live_for : ℕ → Autopay → Bool
live_for tenant a = a.tenant == tenant && is_live a.status

abbrev pub live_autopay : Till → ℕ → Option Autopay
live_autopay till tenant = find (live_for tenant) till.autopays

unfoldable pub order_quote : Quote → Profile × Text → OrderQuote
order_quote q buyer = record {
  kind = q.kind;
  tax_mode = q.tax_mode;
  taxable_minor = q.taxable_minor;
  cgst_minor = q.cgst_minor;
  sgst_minor = q.sgst_minor;
  igst_minor = q.igst_minor;
  gst_rate = some q.gst_rate;
  period_start = q.period_start;
  period_end = q.period_end;
  previous_plan = q.previous_plan;
  buyer = buyer;
}

-- Hours are counted in milliseconds, as times are.
unfoldable pub order_for : Quote → Profile × Text → Option ℕ → Source → Option Guest → ℕ → ℕ → Order
order_for q buyer tenant source guest id now = record {
  id = id;
  tenant = tenant;
  plan_code = q.plan_id;
  interval = q.interval;
  source = source;
  currency = text "INR";
  base_minor = q.base_minor;
  credit_minor = q.credit_minor;
  tax_minor = q.tax_minor;
  total_minor = q.total_minor;
  quote = order_quote q buyer;
  gateway_order = none;
  status = created;
  failure_reason = none;
  gateway_payment = none;
  expires_at = now + order_lifetime_hours * 3600000;
  last_checked_at = none;
  paid_at = none;
  subscription_payment = none;
  invoice = none;
  guest = guest;
  created_at = now;
}

abbrev pub is_open : Status → Bool
is_open created = true
is_open attempted = true
is_open s = false

abbrev pub is_created : Status → Bool
is_created created = true
is_created s = false

abbrev pub same_source : Source → Source → Bool
same_source checkout checkout = true
same_source website website = true
same_source autopay autopay = true
same_source a b = false

abbrev pub same_interval : Cycle → Cycle → Bool
same_interval monthly monthly = true
same_interval annual annual = true
same_interval a b = false

-- An unpaid order for the same thing, which can still be paid.
unfoldable pub is_same_open : Source → Quote → ℕ → Order → Bool
is_same_open source q now o =
    is_open o.status
    && (same_source o.source source
        && (text_eq o.plan_code q.plan_id
            && (same_interval o.interval q.interval
                && (o.total_minor == q.total_minor
                    && (is_some o.gateway_order && ltb now o.expires_at)))))

abbrev pub for_company : ℕ → Quote → Order → Bool
for_company tenant q o =
    elim o.tenant [ none ↦ false | some t ↦ t == tenant ]
    && same_day o.quote.period_start q.period_start

abbrev pub set_gateway_order : Text → Order → Order
set_gateway_order made o = record o { gateway_order = some made }

abbrev pub mark_not_started : Order → Order
mark_not_started o = record o {
  status = failed;
  failure_reason = some (text "Could not start the payment");
}

unfoldable pub add_order : Till → Order → Till
add_order till order = record till {
  orders = till.orders ++ order ∷ [];
  next_id = till.next_id + 1;
}

-- The order is written first, and the gateway asked then.
unfoldable pub start_order : Till → Order → Option Text → Till × Result ℕ
start_order till order (some made) = (
  audit (set_order (add_order till order) order.id (set_gateway_order made)) order.tenant
      (text "payment.order_created"),
  ok order.id,
)
start_order till order none = (
  set_order (add_order till order) order.id mark_not_started,
  err 502 (
      text
        "We could not reach the payment service, and you have not been charged. Please try again in a minute."),
)

abbrev pub is_same_checkout : ℕ → Quote → ℕ → Order → Bool
is_same_checkout tenant q now o = is_same_open checkout q now o && for_company tenant q o

-- The newest of those that match: orders are kept in the order they were made.
unfoldable pub checkout_order :
    Till → Clock → ℕ → Quote → Profile × Text → Option Text → Till × Result ℕ
checkout_order till clock tenant q buyer made =
    elim (find_last (is_same_checkout tenant q clock.now) till.orders) [
      | some o ↦ (till, ok o.id)
      | none ↦
          start_order till (order_for q buyer (some tenant) checkout none till.next_id clock.now)
            made
    ]

-- Autopay will renew the plan by itself.
abbrev pub autopay_renews : Till → ℕ → Quote → Bool
autopay_renews till tenant q =
    elim (live_autopay till tenant) [ none ↦ false | some a ↦ is_charging a.status ]
    && is_renewal q.kind

-- The checks before anything is written.
unfoldable pub checkout_quote :
    Shop → Clock → Till → ℕ → Text → Text → Text → Bool → Result (Quote × (Profile × Text))
checkout_quote shop clock till tenant user_email plan interval confirm =
    elim (find (is_company tenant) till.companies) [
      | none ↦ err 404 (text "Company not found")
      | some company ↦ elim company.profile [
        | none ↦ err 400 (
            text
              "Add your billing details first: the invoice needs your company's name, address and state.")
        | some profile ↦ do
          q ← quote_for shop company.books.tenant profile.state_code plan interval clock.today
          refuse (autopay_renews till tenant q) 409 (
              text
                "Autopay is on and renews this plan by itself. To pay now instead, turn autopay off first.")
          refuse (q.requires_confirm && not confirm) 409
              (text "Your plan is already paid. This adds another period after it.")
          ok (
            q,
            (profile, if is_empty profile.billing_email then user_email else profile.billing_email),
          )
      ]
    ]

unfoldable pub create_checkout :
    Shop → Clock → Till → ℕ → Text → Text → Text → Bool → Option Text → Till × Result ℕ
create_checkout shop clock till tenant user_email plan interval confirm made =
    elim (checkout_quote shop clock till tenant user_email plan interval confirm) [
      | err status words ↦ (till, err status words)
      | ok (q, buyer) ↦ checkout_order till clock tenant q buyer made
    ]

-- A buyer with no company.
abbrev pub new_buyer : Tenant
new_buyer = record {
  plan = text "Free";
  active = true;
  sessions_limit = 0;
  billing_cycle = none;
  period_start = none;
  period_end = none;
  scheduled_plan = none;
  currency = text "";
  reminded_soon_for = none;
  reminded_overdue_for = none;
  reminded_expired_for = none;
}

abbrev pub for_guest : Text → Order → Bool
for_guest email o = elim o.guest [ none ↦ false | some g ↦ text_eq g.owner_email email ]

abbrev pub is_same_purchase : Text → Quote → ℕ → Order → Bool
is_same_purchase email q now o = is_same_open website q now o && for_guest email o

-- The details are taken anew while nobody tried to pay.
unfoldable pub refresh : Guest → OrderQuote → Order → Order
refresh guest quote o =
    if is_created o.status then record o { guest = some guest; quote = quote } else o

unfoldable pub website_order : Till → Clock → Quote → Guest → Option Text → Till × Result ℕ
website_order till clock q guest made =
    let buyer : Profile × Text = (guest.billing, guest.owner_email) in
    elim (find_last (is_same_purchase guest.owner_email q clock.now) till.orders) [
      | some o ↦ (set_order till o.id (refresh guest (order_quote q buyer)), ok o.id)
      | none ↦
          start_order till (order_for q buyer none website (some guest) till.next_id clock.now) made
    ]

-- With the buyer's details checked.
unfoldable pub create_website_order :
    Shop → Clock → Till → Guest → Text → Text → Option Text → Till × Result ℕ
create_website_order shop clock till guest plan interval made =
    elim (quote_for shop new_buyer guest.billing.state_code plan interval clock.today) [
      | err status words ↦ (till, err status words)
      | ok q ↦
          if has_text guest.owner_email till.users
          then (till, err 409 (text "This email already has a Scriwo account."))
          else website_order till clock q guest made
    ]
