-- ===== src/Billing/Till.antt =====
-- The rows of db/migrations/020_billing.js and 028_website_checkout.js that payments change, and the
-- companies they are for. A till is all of them; a transaction is one function on it. Ids that the
-- program draws at random are numbers.
use wppflow_backend.Common.{
  ℕ, Bool, Option, none, some, List, [], ◌∷◌, ◌++◌, map, Text, find, ◌==◌, if◌then◌else◌,
}
use wppflow_backend.Gst.Profile.{Profile}
use wppflow_backend.Gst.Tax.{TaxMode}
use wppflow_backend.Subscription.Dates.{Day, Cycle}
use wppflow_backend.Subscription.Payment.{Books}
use wppflow_backend.Billing.Quote.{Kind}
use wppflow_backend.Billing.Settings.{Seller}

pub data Source : Type 0 where
  checkout autopay website : Source

pub data Status : Type 0 where
  created attempted paid failed expired mismatch : Status

-- `buyer` is the billing details and the email that the invoice goes to.
pub record OrderQuote : Type 0 where
  pub kind : Kind
  pub tax_mode : TaxMode
  pub taxable_minor : ℕ
  pub cgst_minor : ℕ
  pub sgst_minor : ℕ
  pub igst_minor : ℕ
  pub gst_rate : Option ℕ
  pub period_start : Day
  pub period_end : Day
  pub previous_plan : Option Text
  pub buyer : Profile × Text

-- Who buys on the website, before there is a company.
pub record Guest : Type 0 where
  pub company_name : Text
  pub owner_name : Text
  pub owner_email : Text
  pub billing : Profile

pub record Order : Type 0 where
  pub id : ℕ
  pub tenant : Option ℕ
  pub plan_code : Text
  pub interval : Cycle
  pub source : Source
  pub currency : Text
  pub base_minor : ℕ
  pub credit_minor : ℕ
  pub tax_minor : ℕ
  pub total_minor : ℕ
  pub quote : OrderQuote
  pub gateway_order : Option Text
  pub status : Status
  pub failure_reason : Option Text
  pub gateway_payment : Option Text
  pub expires_at : ℕ
  pub last_checked_at : Option ℕ
  pub paid_at : Option ℕ
  -- the place among the company's payments
  pub subscription_payment : Option ℕ
  pub invoice : Option ℕ
  pub guest : Option Guest
  pub created_at : ℕ

-- A row of `payments`: what the gateway says happened.
pub record Receipt : Type 0 where
  pub tenant : Option ℕ
  pub order : Option ℕ
  pub gateway_payment : Text
  pub status : Text
  pub method : Option Text
  pub amount_minor : ℕ
  pub currency : Text
  pub error_code : Option Text
  pub error_description : Option Text
  pub captured_at : Option ℕ

pub record Line : Type 0 where
  pub description : Text
  pub plus : ℕ
  -- the line of a credit takes this off
  pub minus : ℕ

pub record Invoice : Type 0 where
  pub id : ℕ
  pub tenant : ℕ
  pub number : Text
  pub series : Text
  pub seq : ℕ
  pub issue_date : Day
  pub order : Option ℕ
  pub subscription_payment : ℕ
  pub plan_name : Text
  pub interval : Text
  pub period_start : Day
  pub period_end : Day
  pub lines : List Line
  pub taxable_minor : ℕ
  pub cgst_minor : ℕ
  pub sgst_minor : ℕ
  pub igst_minor : ℕ
  pub total_minor : ℕ
  pub seller : Seller
  pub buyer : Profile × Text
  pub sac_code : Text
  pub payment_ref : Text
  pub payment_method : Text
  pub gst_rate : ℕ

pub record Company : Type 0 where
  pub id : ℕ
  pub name : Text
  pub owner_email : Text
  pub profile : Option Profile
  pub books : Books

pub data AutopayStatus : Type 0 where
  begun authenticated active waiting halted cancelled completed : AutopayStatus

-- `begun` is the status 'created' and `waiting` 'pending'.
pub record Autopay : Type 0 where
  pub id : ℕ
  pub tenant : ℕ
  pub plan_code : Text
  pub interval : Cycle
  pub amount_minor : ℕ
  pub gateway_subscription : Text
  pub status : AutopayStatus

pub record Refund : Type 0 where
  pub id : Text
  pub tenant : Option ℕ
  pub order : Option ℕ
  pub gateway_payment : Option Text
  pub amount_minor : ℕ
  pub currency : Text
  pub status : Text

-- A row of `gateway_webhook_receipts`.
pub record Hook : Type 0 where
  pub event_id : Text
  pub attempts : ℕ
  pub processed : Bool
  pub result : Text

pub record Till : Type 0 where
  pub orders : List Order
  pub receipts : List Receipt
  pub invoices : List Invoice
  -- `invoice_counters`: the last number of each series
  pub counters : List (Text × ℕ)
  pub companies : List Company
  -- the addresses of the accounts, in small letters
  pub users : List Text
  pub autopays : List Autopay
  -- `razorpay_plans`: the plan's code, the sum a month, and the gateway's id
  pub gateway_plans : List (Text × ℕ × Text)
  pub refunds : List Refund
  pub hooks : List Hook
  -- an id that was not drawn yet
  pub next_id : ℕ

-- What the gateway answers about a payment.
pub record Charge : Type 0 where
  pub id : Text
  pub order_id : Text
  pub status : Text
  pub amount : ℕ
  pub currency : Text
  pub method : Option Text
  pub error_code : Option Text
  pub error_description : Option Text
  pub error_reason : Option Text
  -- `notes.tenant_id`
  pub tenant : Option ℕ

-- Today in UTC, today in India, and the time.
pub record Clock : Type 0 where
  pub today : Day
  pub today_ist : Day
  pub now : ℕ

abbrev pub is_order : ℕ → Order → Bool
is_order id o = o.id == id

abbrev pub order_by_id : Till → ℕ → Option Order
order_by_id till id = find (is_order id) till.orders

unfoldable pub on_order : ℕ → (Order → Order) → Order → Order
on_order id f o = if o.id == id then f o else o

-- `UPDATE payment_orders SET ... WHERE id=$1`
unfoldable pub set_order : Till → ℕ → (Order → Order) → Till
set_order till id f = record till { orders = map (on_order id f) till.orders }

abbrev pub is_company : ℕ → Company → Bool
is_company id c = c.id == id

unfoldable pub on_company : ℕ → Books → Company → Company
on_company id books c = if c.id == id then record c { books = books } else c

unfoldable pub set_books : Till → ℕ → Books → Till
set_books till id books = record till { companies = map (on_company id books) till.companies }

abbrev pub add_audit : Text → Books → Books
add_audit event books = record books { audits = books.audits ++ event ∷ [] }

unfoldable pub on_audit : ℕ → Text → Company → Company
on_audit id event c = if c.id == id then record c { books = add_audit event c.books } else c

-- `audit(client, tenant, ...)`
unfoldable pub audit : Till → Option ℕ → Text → Till
audit till none event = till
audit till (some id) event = record till { companies = map (on_audit id event) till.companies }
