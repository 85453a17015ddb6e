-- ===== src/Billing/Steps.antt =====
-- Everything that happens to the till, as steps, and what no sequence of them breaks.
use wppflow_backend.Common.{
  ℕ, Bool, ◌&&◌, Option, List, [], Text, text_eq, find, get_elem?, refl, arith, inl, inr,
  Bool-cases, Option-cases,
}
use wppflow_backend.Gst.Tax.{inclusive, tax_on-parts, is_intra_state}
use wppflow_backend.Subscription.Payment.{Payment}
use wppflow_backend.Billing.Quote.{Shop}
use wppflow_backend.Billing.Till.{
  autopay, Guest, Order, Autopay, Company, Till, Charge, Clock, is_company, set_books,
}
use wppflow_backend.Billing.Invoices.{last_seq, make_invoice, issue_invoice}
use wppflow_backend.Billing.Recorded.{
  recorded_bill, is_invoice_of, rupees, invoice_recorded, invoice_for_recorded_payment,
}
use wppflow_backend.Billing.Checkout.{
  create_checkout, create_website_order, live_autopay, same_source, same_interval,
}
use wppflow_backend.Billing.Verify.{verify_order}
use wppflow_backend.Billing.Gateway.{reconcile_orders}
use wppflow_backend.Billing.Recurring.{set_autopay, cancel_autopay, stop_autopay_after_payment}
use wppflow_backend.Billing.Hooks.{Event, razorpay_webhook}
use wppflow_backend.Billing.Edits.{with_invoice}
use wppflow_backend.Billing.Ledger.{IsSound}
use wppflow_backend.Billing.Orders.{create_checkout-IsSound, create_website_order-IsSound}
use wppflow_backend.Billing.Answers.{verify_order-IsSound, reconcile_orders-IsSound}
use wppflow_backend.Billing.Enrol.{start_autopay, verify_autopay}
use wppflow_backend.Billing.Enrolled.{start_autopay-IsSound, verify_autopay-IsSound}
use wppflow_backend.Billing.News.{razorpay_webhook-IsSound}

-- One request, message or run of a job. `elsewhere` is all that the other parts of the program do to
-- companies, accounts and autopays.
pub data Step : Till → Till → Type 0 where
  checking_out :
      (shop : Shop) (clock : Clock) (t : Till) (tenant : ℕ) (email plan interval : Text)
      (confirm : Bool) (made : Option Text)
      → Step t (create_checkout shop clock t tenant email plan interval confirm made).0
  buying :
      (shop : Shop) (clock : Clock) (t : Till) (guest : Guest) (plan interval : Text)
      (made : Option Text)
      → Step t (create_website_order shop clock t guest plan interval made).0
  verifying :
      (shop : Shop) (clock : Clock) (verify : Text → Text → Text → Bool) (mine : Order → Bool)
      (told : Order → Option ℕ) (t : Till) (gateway_order payment signature : Text)
      (fetched captured : Option Charge)
      → Step t
          (verify_order shop clock verify mine told t gateway_order payment signature fetched
            captured).0
  notified :
      (shop : Shop) (clock : Clock) (t : Till) (signed : Bool) (id : Text) (event : Option Event)
      → Step t (razorpay_webhook shop clock t signed id event).0
  reconciling :
      (shop : Shop) (clock : Clock) (items : Text → Option (List Charge))
      (capture : Charge → Option Charge) (t : Till)
      → Step t (reconcile_orders shop clock items capture t)
  recorded :
      (shop : Shop) (clock : Clock) (t : Till) (tenant place : ℕ)
      → Step t (invoice_for_recorded_payment shop clock t tenant place).0
  cancelling :
      (shop : Shop) (t : Till) (tenant : ℕ) (stopped : Bool)
      → Step t (cancel_autopay shop t tenant stopped).0
  stopping :
      (shop : Shop) (t : Till) (order : Order) (stopped : Bool)
      → Step t (stop_autopay_after_payment shop t order stopped)
  enrolling :
      (shop : Shop) (t : Till) (tenant : ℕ) (plan : Text) (made_plan made : Option Text)
      → Step t (start_autopay shop t tenant plan made_plan made).0
  confirming :
      (shop : Shop) (clock : Clock) (verify : Text → Text → Text → Bool) (tenant : ℕ) (t : Till)
      (payment subscription signature : Text) (fetched : Option Charge)
      → Step t (verify_autopay shop clock verify tenant t payment subscription signature fetched).0
  elsewhere :
      (t : Till) (companies : List Company) (users : List Text) (autopays : List Autopay)
      → Step t (record t { companies = companies; users = users; autopays = autopays })

pub data Steps : Till → Till → Type 0 where
  here : {t : Till} → Steps t t
  onward : {a b c : Till} → Step a b → Steps b c → Steps a c

-- Before anything was sold, with whatever companies there are.
abbrev pub opening : List Company → List Text → List Autopay → Till
opening companies users autopays = record {
  orders = [];
  receipts = [];
  invoices = [];
  counters = [];
  companies = companies;
  users = users;
  autopays = autopays;
  gateway_plans = [];
  refunds = [];
  hooks = [];
  next_id = 0;
}

opening-IsSound :
    (companies : List Company) (users : List Text) (autopays : List Autopay)
    → IsSound (opening companies users autopays)
unfolding last_seq
opening-IsSound companies users autopays = record {
  one_row = λ n. omega arith;
  drawn = λ n late. refl;
  billed = λ n. refl;
  numbered = λ s. refl;
  asked = refl;
  charged = refl;
  owned = refl;
  held = refl;
}

invoice_recorded-IsSound :
    (shop : Shop) (clock : Clock) (t : Till) (company : Company) (place : ℕ) (p : Payment)
    → IsSound t
    → IsSound (invoice_recorded shop clock t company place p).0
unfolding invoice_recorded issue_invoice make_invoice recorded_bill
invoice_recorded-IsSound shop clock t company place p h =
    elim (Option-cases (find (is_invoice_of company.id place) t.invoices)) [
      | inr (i, e) ↦ rw (e, invoice_recorded) h
      | inl e ↦ elim (Option-cases (rupees p)) [
        | inl f ↦ rw (e, f, invoice_recorded) h
        | inr (amount, f) ↦ elim (Option-cases company.profile) [
          | inl g ↦ rw (e, f, g, invoice_recorded) h
          | inr (profile, g) ↦
              let parts =
                tax_on-parts amount inclusive
                  (is_intra_state profile.state_code shop.settings.seller.state_code)
                  shop.settings.gst_rate in
              rw (e, f, g, invoice_recorded) (with_invoice h _ refl refl (ground arith))
        ]
      ]
    ]

recorded-IsSound :
    (shop : Shop) (clock : Clock) (t : Till) (tenant place : ℕ)
    → IsSound t
    → IsSound (invoice_for_recorded_payment shop clock t tenant place).0
unfolding invoice_for_recorded_payment
recorded-IsSound shop clock t tenant place h =
    elim (Option-cases (find (is_company tenant) t.companies)) [
      | inl e ↦ rw (e, invoice_for_recorded_payment) h
      | inr (company, e) ↦ elim (Option-cases (get_elem? company.books.payments place)) [
        | inl f ↦ rw (e, f, invoice_for_recorded_payment) h
        | inr (p, f) ↦
            rw (e, f, invoice_for_recorded_payment)
              (invoice_recorded-IsSound shop clock t company place p h)
      ]
    ]

cancel_autopay-IsSound :
    (shop : Shop) (t : Till) (tenant : ℕ) (stopped : Bool)
    → IsSound t
    → IsSound (cancel_autopay shop t tenant stopped).0
unfolding cancel_autopay set_autopay set_books
cancel_autopay-IsSound shop t tenant stopped h = elim (Option-cases (live_autopay t tenant)) [
  | inl e ↦ rw (e, cancel_autopay) h
  | inr (a, e) ↦ elim (Bool-cases stopped) [
    | inr f ↦ rw (e, f, cancel_autopay) h
    | inl f ↦ elim (Option-cases (find (is_company tenant) t.companies)) [
      | inl g ↦ rw (e, f, g, cancel_autopay) h
      | inr (company, g) ↦ rw (e, f, g, cancel_autopay) h
    ]
  ]
]

stopping-IsSound :
    (shop : Shop) (t : Till) (order : Order) (stopped : Bool)
    → IsSound t
    → IsSound (stop_autopay_after_payment shop t order stopped)
unfolding stop_autopay_after_payment
stopping-IsSound shop t order stopped h = elim (Bool-cases (same_source order.source autopay)) [
  | inl e ↦ rw (e, stop_autopay_after_payment) h
  | inr e ↦ elim (Option-cases order.tenant) [
    | inl f ↦ rw (e, f, stop_autopay_after_payment) h
    | inr (tenant, f) ↦ elim (Option-cases (live_autopay t tenant)) [
      | inl g ↦ rw (e, f, g, stop_autopay_after_payment) h
      | inr (a, g) ↦
          elim (Bool-cases
            (text_eq a.plan_code order.plan_code && same_interval a.interval order.interval)) [
              | inl k ↦ rw (e, f, g, k, stop_autopay_after_payment) h
              | inr k ↦
                  rw (e, f, g, k, stop_autopay_after_payment)
                    (cancel_autopay-IsSound shop t tenant stopped h)
            ]
    ]
  ]
]

Step-IsSound : {a b : Till} → Step a b → IsSound a → IsSound b
Step-IsSound (checking_out shop clock t tenant email plan interval confirm made) h =
    create_checkout-IsSound shop clock t tenant email plan interval confirm made h
Step-IsSound (buying shop clock t guest plan interval made) h =
    create_website_order-IsSound shop clock t guest plan interval made h
Step-IsSound
      (verifying shop clock verify mine told t gateway_order payment signature fetched captured) h =
    verify_order-IsSound shop clock verify mine told t gateway_order payment signature fetched
      captured h
Step-IsSound (notified shop clock t signed id event) h =
    razorpay_webhook-IsSound shop clock t signed id event h
Step-IsSound (reconciling shop clock items capture t) h =
    reconcile_orders-IsSound shop clock items capture t h
Step-IsSound (recorded shop clock t tenant place) h = recorded-IsSound shop clock t tenant place h
Step-IsSound (cancelling shop t tenant stopped) h = cancel_autopay-IsSound shop t tenant stopped h
Step-IsSound (stopping shop t order stopped) h = stopping-IsSound shop t order stopped h
Step-IsSound (enrolling shop t tenant plan made_plan made) h =
    start_autopay-IsSound shop t tenant plan made_plan made h
Step-IsSound (confirming shop clock verify tenant t payment subscription signature fetched) h =
    verify_autopay-IsSound shop clock verify tenant t payment subscription signature fetched h
Step-IsSound (elsewhere t companies users autopays) h = h

pub Steps-IsSound : {a b : Till} → Steps a b → IsSound a → IsSound b
Steps-IsSound here h = h
Steps-IsSound (onward step rest) h = Steps-IsSound rest (Step-IsSound step h)

-- From an empty till, whatever is asked, told, paid, refused, repeated or lost, in any order: no two
-- orders share an id, an order has exactly one invoice when it is paid and none otherwise, the invoices
-- of every series are numbered 1, 2, 3 and so on, without a gap or a repeat, up to its counter, and
-- the taxable value and the taxes of every invoice make up its total.
pub reached-IsSound :
    (companies : List Company) (users : List Text) (autopays : List Autopay) {till : Till}
    → Steps (opening companies users autopays) till
    → IsSound till
reached-IsSound companies users autopays steps =
    Steps-IsSound steps (opening-IsSound companies users autopays)
