-- ===== src/Examples/Payments.antt =====
-- Tests and examples of billing.
use wppflow_backend.Common.{
  ℕ, get_elem?, true, false, none, some, [], ◌∷◌, Text, text, text_eq, length, drop, read_digits,
  ◌≤◌, ◌≡◌, refl, arith, is_space, lower, trim, show_nat, pad_zeros,
}
use wppflow_backend.Common.Result.{Result, ok, err}
use wppflow_backend.Gst.Profile.{Profile}
use wppflow_backend.Gst.Number.{valid_gstin}
use wppflow_backend.Gst.Tax.{exclusive, round_div, split_tax, tax_on, compute_tax, is_intra_state}
use wppflow_backend.Subscription.Dates.{
  monthly, is_leap, days_in_month, is_day, days_before_month, days_before_year, day_number,
  days_between, utc_year, month_after, add_cycle,
}
use wppflow_backend.Subscription.Plans.{
  Entry, Tenant, plan_shape, find_plan, original, plan_of, over_grace, is_lapsed, entitled_plan,
  is_for_sale, choose_plan,
}
use wppflow_backend.Subscription.Payment.{
  number, named_plan, own_plan, plan_to_pay, cycle_of, follow_on, period_of, currency_of, amount_of,
  moved_limit, limit_of, is_late, write_payment, record_payment,
}
use wppflow_backend.Billing.Settings.{
  is_sac, is_prefix, is_six_digits, Seller, Settings, Patch, financial_year_series, invoice_number,
}
use wppflow_backend.Billing.Numbers.{IsUsable, invoice_number_read, length-invoice_number}
use wppflow_backend.Billing.Quote.{
  Shop, Offer, Quote, renewal, change, quote_for, price_of, interval_of, live_end, period_for,
  kind_while_live, kind_of, old_price, unused_worth, credit_until, credit_of, period_of_kind,
  confirm_until, tax_mode_of,
}
use wppflow_backend.Billing.Fair.{IsTimely, quote_for-IsTimely}
use wppflow_backend.Billing.Prices.{IsPriced, quote_for-IsPriced}
use wppflow_backend.Billing.Till.{
  Company, Till, Charge, Clock, Order, Invoice, checkout, order_by_id, on_order, set_order,
  on_company, set_books, on_audit, audit,
}
use wppflow_backend.Billing.Checkout.{
  create_checkout, set_gateway_order, order_quote, order_for, is_same_open, add_order, start_order,
  checkout_order, checkout_quote, refresh, website_order, create_website_order,
}
use wppflow_backend.Billing.Hooks.{
  Event, payment_news, razorpay_webhook, handle_payment, handle_event, claim_hook, with_hooks,
  finish_hook,
}
use wppflow_backend.Billing.Ledger.{IsSound}
use wppflow_backend.Billing.Steps.{
  Steps, onward, here, checking_out, notified, opening, reached-IsSound,
}
use wppflow_backend.Billing.Invoices.{
  last_seq, count_up, make_invoice, issue_invoice, invoice_lines,
}
use wppflow_backend.Billing.Receive.{
  problem_if, receipt_of, again, save_receipt, save_payment, used_elsewhere, problems_of,
  mark_failed, mark_attempted, mark_mismatch, mark_paid,
}
use wppflow_backend.Billing.Settle.{
  Outcome, settled, already, for_tenant, create_workspace, payment_body, bill_of, write_paid, pay,
  settle_captured, settle_open, closed_as, settle_order,
}
use wppflow_backend.Billing.Verify.{
  mark_tried, settle_from_gateway, verify_order, verify_checkout, verify_website_checkout,
}
use wppflow_backend.Billing.Recurring.{
  set_autopay, charge_order, settle_written, settle_charge, after_charge, autopay_charged,
  status_after, autopay_news, handle_subscription_event, note_cancelled, cancel_autopay,
  stop_autopay_after_payment,
}
use wppflow_backend.Subscription.View.{
  scheduled_to, standing_at, standing_until, standing, is_expired,
}
use wppflow_backend.Subscription.Change.{rank_of, clear_scheduled_change, moved_to, apply_scheduled}
use wppflow_backend.Billing.Audit.{invoice_number_gaps, reached_no_gaps}
use wppflow_backend.Billing.Once.{reached_one_payment}
use wppflow_backend.Billing.Settled.{IsSettled, settle_order-IsSettled, settle_order-again}

abbrev seller : Seller
seller = record {
  legal_name = text "Scriwo";
  trade_name = text "";
  gstin = text "29AAGCB7383J1Z4";
  address_lines = text "1 Main Road" ∷ [];
  city = text "Bengaluru";
  state = some (text "Karnataka");
  state_code = text "29";
  postal_code = text "560001";
  email = text "a@b.in";
}

abbrev settings : Settings
settings = record {
  seller = seller;
  sac_code = text "998314";
  gst_rate = 18;
  invoice_prefix = text "SCZ";
  prorate_upgrades = true;
}

abbrev growth : Entry
growth = record { code = text "growth"; name = text "Growth"; is_active = true; numbers = some 3 }

abbrev pro : Entry
pro = record { code = text "pro"; name = text "Pro"; is_active = true; numbers = some 5 }

abbrev offer : Text → ℕ → Offer
offer code amount = record {
  code = code;
  tax_mode = exclusive;
  prices = record { interval = text "monthly"; currency = text "INR"; amount_minor = amount } ∷ [];
}

abbrev shop : Shop
shop = record {
  plans = growth ∷ pro ∷ [];
  offers = offer (text "growth") 100000 ∷ offer (text "pro") 200000 ∷ [];
  settings = settings;
}

abbrev clock : Clock
clock = record {
  today = record { year = 2026; month = 5; date = 1 };
  today_ist = record { year = 2026; month = 5; date = 1 };
  now = 1000;
}

abbrev profile : Profile
profile = record {
  legal_name = text "Acme";
  address_line1 = text "2 Main Road";
  address_line2 = text "";
  city = text "Mysuru";
  state_code = text "29";
  postal_code = text "570001";
  country = text "IN";
  gstin = none;
  billing_email = text "b@acme.in";
}

-- On the plan until the 10th.
abbrev tenant : Tenant
tenant = record {
  plan = text "Growth";
  active = true;
  sessions_limit = 3;
  billing_cycle = some (text "monthly");
  period_start = some (record { year = 2026; month = 4; date = 10 });
  period_end = some (record { year = 2026; month = 5; date = 10 });
  scheduled_plan = none;
  currency = text "INR";
  reminded_soon_for = none;
  reminded_overdue_for = none;
  reminded_expired_for = none;
}

abbrev acme : Company
acme = record {
  id = 7;
  name = text "Acme";
  owner_email = text "o@acme.in";
  profile = some profile;
  books = record { tenant = tenant; payments = []; events = []; audits = [] };
}

abbrev charge : Charge
charge = record {
  id = text "pay_1";
  order_id = text "order_1";
  status = text "captured";
  amount = 118000;
  currency = text "INR";
  method = some (text "upi");
  error_code = none;
  error_description = none;
  error_reason = none;
  tenant = some 7;
}

abbrev ordered : Till
ordered =
    (create_checkout shop clock (opening (acme ∷ []) [] []) 7 (text "o@acme.in") (text "growth")
      (text "monthly") false (some (text "order_1"))).0

abbrev captured : Event
captured = payment_news (text "payment.captured") charge none

abbrev told : Till
told = (razorpay_webhook shop clock ordered true (text "evt_1") (some captured)).0

abbrev prolonged : Quote
prolonged = record {
  plan_id = text "growth";
  plan_name = text "Growth";
  interval = monthly;
  kind = renewal;
  base_minor = 100000;
  credit_minor = 0;
  taxable_minor = 100000;
  tax_minor = 18000;
  cgst_minor = 9000;
  sgst_minor = 9000;
  igst_minor = 0;
  total_minor = 118000;
  tax_mode = exclusive;
  gst_rate = 18;
  intra_state = true;
  period_start = record { year = 2026; month = 5; date = 10 };
  period_end = record { year = 2026; month = 6; date = 10 };
  requires_confirm = false;
  paid_until = none;
  previous_plan = some (text "Growth");
}

abbrev order : Order
order =
    set_gateway_order (text "order_1")
      (order_for prolonged (profile, text "b@acme.in") (some 7) checkout none 0 1000)

abbrev bill : Invoice
bill = record {
  id = 1;
  tenant = 7;
  number = text "SCZ/26-27/00001";
  series = text "26-27";
  seq = 1;
  issue_date = clock.today_ist;
  order = some 0;
  subscription_payment = 0;
  plan_name = text "Growth";
  interval = text "monthly";
  period_start = prolonged.period_start;
  period_end = prolonged.period_end;
  lines =
      record {
        description = text "Scriwo Growth plan, monthly subscription";
        plus = 100000;
        minus = 0;
      }
      ∷ [];
  taxable_minor = 100000;
  cgst_minor = 9000;
  sgst_minor = 9000;
  igst_minor = 0;
  total_minor = 118000;
  seller = seller;
  buyer = (profile, text "b@acme.in");
  sac_code = text "998314";
  payment_ref = text "pay_1";
  payment_method = text "upi";
  gst_rate = 18;
}

told_test : get_elem? told.invoices 0 ≡ some bill
unfolding problem_if financial_year_series invoice_number price_of interval_of live_end period_for
    kind_while_live kind_of old_price unused_worth credit_until credit_of period_of_kind
    confirm_until tax_mode_of quote_for on_order set_order on_company set_books on_audit audit
    last_seq count_up make_invoice issue_invoice invoice_lines receipt_of again save_receipt
    save_payment used_elsewhere problems_of mark_failed mark_attempted mark_mismatch mark_paid
    for_tenant create_workspace payment_body bill_of write_paid pay settle_captured settle_open
    closed_as settle_order order_quote order_for is_same_open add_order start_order checkout_order
    checkout_quote create_checkout refresh website_order create_website_order mark_tried
    settle_from_gateway verify_order verify_checkout verify_website_checkout handle_payment
    handle_event claim_hook with_hooks finish_hook razorpay_webhook set_autopay charge_order
    settle_written settle_charge after_charge autopay_charged status_after autopay_news
    handle_subscription_event note_cancelled cancel_autopay stop_autopay_after_payment plan_shape
    find_plan original plan_of over_grace is_lapsed entitled_plan is_for_sale choose_plan is_leap
    days_in_month is_day days_before_month days_before_year day_number days_between utc_year
    month_after add_cycle named_plan own_plan plan_to_pay cycle_of follow_on period_of currency_of
    amount_of moved_limit limit_of is_late write_payment record_payment scheduled_to standing_at
    standing_until standing is_expired rank_of clear_scheduled_change moved_to apply_scheduled
    round_div split_tax tax_on compute_tax is_intra_state text_eq is_space lower trim show_nat
    pad_zeros
told_test = refl

ordered_test : order_by_id ordered 0 ≡ some order
unfolding problem_if financial_year_series invoice_number price_of interval_of live_end period_for
    kind_while_live kind_of old_price unused_worth credit_until credit_of period_of_kind
    confirm_until tax_mode_of quote_for on_order set_order on_company set_books on_audit audit
    last_seq count_up make_invoice issue_invoice invoice_lines receipt_of again save_receipt
    save_payment used_elsewhere problems_of mark_failed mark_attempted mark_mismatch mark_paid
    for_tenant create_workspace payment_body bill_of write_paid pay settle_captured settle_open
    closed_as settle_order order_quote order_for is_same_open add_order start_order checkout_order
    checkout_quote create_checkout refresh website_order create_website_order mark_tried
    settle_from_gateway verify_order verify_checkout verify_website_checkout handle_payment
    handle_event claim_hook with_hooks finish_hook razorpay_webhook set_autopay charge_order
    settle_written settle_charge after_charge autopay_charged status_after autopay_news
    handle_subscription_event note_cancelled cancel_autopay stop_autopay_after_payment plan_shape
    find_plan original plan_of over_grace is_lapsed entitled_plan is_for_sale choose_plan is_leap
    days_in_month is_day days_before_month days_before_year day_number days_between utc_year
    month_after add_cycle named_plan own_plan plan_to_pay cycle_of follow_on period_of currency_of
    amount_of moved_limit limit_of is_late write_payment record_payment scheduled_to standing_at
    standing_until standing is_expired rank_of clear_scheduled_change moved_to apply_scheduled
    round_div split_tax tax_on compute_tax is_intra_state text_eq is_space lower trim show_nat
    pad_zeros
ordered_test = refl

abbrev till_of : Result (Till × Outcome) → Till
till_of (err status words) = ordered
till_of (ok (after, outcome)) = after

abbrev after_pay : Till
after_pay = till_of (settle_order shop clock ordered 0 charge)

after_pay_test : settle_order shop clock ordered 0 charge ≡ ok (after_pay, settled)
unfolding problem_if financial_year_series invoice_number price_of interval_of live_end period_for
    kind_while_live kind_of old_price unused_worth credit_until credit_of period_of_kind
    confirm_until tax_mode_of quote_for on_order set_order on_company set_books on_audit audit
    last_seq count_up make_invoice issue_invoice invoice_lines receipt_of again save_receipt
    save_payment used_elsewhere problems_of mark_failed mark_attempted mark_mismatch mark_paid
    for_tenant create_workspace payment_body bill_of write_paid pay settle_captured settle_open
    closed_as settle_order order_quote order_for is_same_open add_order start_order checkout_order
    checkout_quote create_checkout refresh website_order create_website_order mark_tried
    settle_from_gateway verify_order verify_checkout verify_website_checkout handle_payment
    handle_event claim_hook with_hooks finish_hook razorpay_webhook set_autopay charge_order
    settle_written settle_charge after_charge autopay_charged status_after autopay_news
    handle_subscription_event note_cancelled cancel_autopay stop_autopay_after_payment plan_shape
    find_plan original plan_of over_grace is_lapsed entitled_plan is_for_sale choose_plan is_leap
    days_in_month is_day days_before_month days_before_year day_number days_between utc_year
    month_after add_cycle named_plan own_plan plan_to_pay cycle_of follow_on period_of currency_of
    amount_of moved_limit limit_of is_late write_payment record_payment scheduled_to standing_at
    standing_until standing is_expired rank_of clear_scheduled_change moved_to apply_scheduled
    round_div split_tax tax_on compute_tax is_intra_state text_eq is_space lower trim show_nat
    pad_zeros
after_pay_test = refl

settle_order-IsSettled_example : IsSettled 0 charge after_pay order
settle_order-IsSettled_example =
    settle_order-IsSettled shop clock ordered 0 charge after_pay order ordered_test after_pay_test

settle_order-again_example : settle_order shop clock after_pay 0 charge ≡ ok (after_pay, already)
settle_order-again_example =
    settle_order-again shop clock ordered 0 charge after_pay order ordered_test after_pay_test shop
      clock charge

reached-IsSound_example : IsSound told
reached-IsSound_example = reached-IsSound (acme ∷ []) [] [] (
    onward
      (checking_out shop clock (opening (acme ∷ []) [] []) 7 (text "o@acme.in") (text "growth")
        (text "monthly") false (some (text "order_1")))
      (onward (notified shop clock ordered true (text "evt_1") (some captured)) here))

-- Nine of thirty days are left of the smaller plan.
abbrev upgrade : Quote
upgrade = record {
  plan_id = text "pro";
  plan_name = text "Pro";
  interval = monthly;
  kind = change;
  base_minor = 200000;
  credit_minor = 30000;
  taxable_minor = 170000;
  tax_minor = 30600;
  cgst_minor = 15300;
  sgst_minor = 15300;
  igst_minor = 0;
  total_minor = 200600;
  tax_mode = exclusive;
  gst_rate = 18;
  intra_state = true;
  period_start = clock.today;
  period_end = record { year = 2026; month = 6; date = 1 };
  requires_confirm = false;
  paid_until = none;
  previous_plan = some (text "Growth");
}

upgrade_test :
    quote_for shop tenant (text "29") (text "pro") (text "monthly") clock.today ≡ ok upgrade
unfolding problem_if financial_year_series invoice_number price_of interval_of live_end period_for
    kind_while_live kind_of old_price unused_worth credit_until credit_of period_of_kind
    confirm_until tax_mode_of quote_for on_order set_order on_company set_books on_audit audit
    last_seq count_up make_invoice issue_invoice invoice_lines receipt_of again save_receipt
    save_payment used_elsewhere problems_of mark_failed mark_attempted mark_mismatch mark_paid
    for_tenant create_workspace payment_body bill_of write_paid pay settle_captured settle_open
    closed_as settle_order order_quote order_for is_same_open add_order start_order checkout_order
    checkout_quote create_checkout refresh website_order create_website_order mark_tried
    settle_from_gateway verify_order verify_checkout verify_website_checkout handle_payment
    handle_event claim_hook with_hooks finish_hook razorpay_webhook set_autopay charge_order
    settle_written settle_charge after_charge autopay_charged status_after autopay_news
    handle_subscription_event note_cancelled cancel_autopay stop_autopay_after_payment plan_shape
    find_plan original plan_of over_grace is_lapsed entitled_plan is_for_sale choose_plan is_leap
    days_in_month is_day days_before_month days_before_year day_number days_between utc_year
    month_after add_cycle named_plan own_plan plan_to_pay cycle_of follow_on period_of currency_of
    amount_of moved_limit limit_of is_late write_payment record_payment scheduled_to standing_at
    standing_until standing is_expired rank_of clear_scheduled_change moved_to apply_scheduled
    round_div split_tax tax_on compute_tax is_intra_state text_eq is_space lower trim show_nat
    pad_zeros
upgrade_test = refl

quote_for-IsPriced_example : IsPriced shop tenant (text "pro") (text "monthly") clock.today upgrade
quote_for-IsPriced_example =
    quote_for-IsPriced shop tenant (text "29") (text "pro") (text "monthly") clock.today upgrade
      upgrade_test

quote_for-IsTimely_example : IsTimely shop tenant clock.today upgrade
quote_for-IsTimely_example =
    quote_for-IsTimely shop tenant (text "29") (text "pro") (text "monthly") clock.today upgrade
      upgrade_test

settings-IsUsable : IsUsable settings
unfolding is_sac is_prefix is_six_digits valid_gstin text_eq
settings-IsUsable = record {
  sac_fits = refl;
  rate_fits = omega arith;
  prefix_fits = refl;
  gstin_valid = refl;
  code_fits = refl;
  pin_fits = refl;
  addressed = (omega arith, omega arith);
}

-- The rate and the prefix change, the rest stays.
abbrev patch : Patch
patch = record {
  sac_code = none;
  gst_rate = number 12;
  invoice_prefix = some (text " ab ");
  prorate_upgrades = none;
  seller = none;
}

abbrev patched : Settings
patched = record settings { gst_rate = 12; invoice_prefix = text "AB" }

length-invoice_number_example :
    length (invoice_number (text "SCZ") (financial_year_series clock.today_ist) 999999) ≤ 16
length-invoice_number_example =
    length-invoice_number settings clock.today_ist 999999 settings-IsUsable (omega arith)

invoice_number_read_example :
    read_digits 0 (drop 10 (invoice_number (text "SCZ") (text "26-27") 42)) ≡ 42
invoice_number_read_example = invoice_number_read (text "SCZ") (text "26-27") 42

abbrev run : Steps (opening (acme ∷ []) [] []) told
run =
    onward
      (checking_out shop clock (opening (acme ∷ []) [] []) 7 (text "o@acme.in") (text "growth")
        (text "monthly") false (some (text "order_1")))
      (onward (notified shop clock ordered true (text "evt_1") (some captured)) here)

reached_one_payment_example : ◌≡◌ {A = ℕ} 0 0
reached_one_payment_example =
    reached_one_payment (acme ∷ []) [] [] run 0 0 bill bill 0 0 told_test told_test refl refl refl

reached_no_gaps_example : invoice_number_gaps told.invoices ≡ []
reached_no_gaps_example = reached_no_gaps (acme ∷ []) [] [] run
