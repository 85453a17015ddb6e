-- ===== src/Billing/Ledger.antt =====
-- The orders and the invoices agree: what stays true of the tables while payments are settled.
use wppflow_backend.Common.{
  ℕ, zero, suc, ◌+◌, ◌≤◌, Bool, true, false, ◌&&◌, none, some, List, is_some, [], ◌∷◌, ◌++◌, Text,
  text_eq, text_eq_iff, find, all, count_if, ◌==◌, if◌then◌else◌, ◌≡◌, refl, sym, ap, ◌∙◌, arith,
  inl, inr, Bool-cases,
}
use wppflow_backend.Billing.Till.{Status, paid, Order, Receipt, Invoice, Till, is_order}
use wppflow_backend.Billing.Receive.{is_receipt}
use wppflow_backend.Billing.Invoices.{last_seq, count_up}

abbrev pub is_paid : Status → Bool
is_paid paid = true
is_paid s = false

abbrev pub paid_as : ℕ → Order → Bool
paid_as n o = is_paid o.status && is_order n o

abbrev pub bills : ℕ → Invoice → Bool
bills n i = elim i.order [ none ↦ false | some o ↦ o == n ]

-- What is asked is the taxable value with its taxes.
abbrev pub is_balanced : Order → Bool
is_balanced o =
    o.quote.taxable_minor + (o.quote.cgst_minor + o.quote.sgst_minor + o.quote.igst_minor)
    == o.total_minor

abbrev pub is_balanced_invoice : Invoice → Bool
is_balanced_invoice i =
    i.taxable_minor + (i.cgst_minor + i.sgst_minor + i.igst_minor) == i.total_minor

abbrev pub has_order : Receipt → Bool
has_order r = is_some r.order

-- The payment was first seen with this order.
abbrev pub belongs : List Receipt → Text → ℕ → Bool
belongs rs payment n = elim (find (is_receipt payment) rs) [
  | none ↦ false
  | some r ↦ elim r.order [ none ↦ false | some o ↦ o == n ]
]

-- An invoice for an order was paid with a payment for that order.
abbrev pub is_held : List Receipt → Invoice → Bool
is_held rs i = elim i.order [ none ↦ true | some n ↦ belongs rs i.payment_ref n ]

-- The numbers of a series, in the order the invoices were issued.
abbrev pub seqs : Text → List Invoice → List ℕ
seqs s [] = []
seqs s (i ∷ is) = let rest = seqs s is in if text_eq i.series s then i.seq ∷ rest else rest

-- 1, 2, ..., n
abbrev pub one_to : ℕ → List ℕ
one_to zero = []
one_to (suc n) = one_to n ++ suc n ∷ []

pub record IsLedger (receipts : List Receipt) (orders : List Order) (invoices : List Invoice)
    (counters : List (Text × ℕ)) (next_id : ℕ) : Type 0 where
  -- the ids of orders are their own, and were all drawn
  pub one_row : (n : ℕ) → count_if (is_order n) orders ≤ 1
  pub drawn : (n : ℕ) → next_id ≤ n → count_if (is_order n) orders ≡ 0
  -- an order has one invoice when it is paid, and none before
  pub billed : (n : ℕ) → count_if (bills n) invoices ≡ count_if (paid_as n) orders
  -- every series is numbered from 1 without gaps, up to its counter
  pub numbered : (s : Text) → seqs s invoices ≡ one_to (last_seq counters s)
  pub asked : all is_balanced orders ≡ true
  pub charged : all is_balanced_invoice invoices ≡ true
  -- a payment is on record with the order it was for, and so is what every invoice was paid with
  pub owned : all has_order receipts ≡ true
  pub held : all (is_held receipts) invoices ≡ true

abbrev pub IsSound : Till → Type 0
IsSound t = IsLedger t.receipts t.orders t.invoices t.counters t.next_id

pub seqs-append :
    (s : Text) (is : List Invoice) (i : Invoice)
    → seqs s (is ++ i ∷ []) ≡ seqs s is ++ (if text_eq i.series s then i.seq ∷ [] else [])
seqs-append s [] i = refl
seqs-append s (j ∷ is) i = elim (Bool-cases (text_eq j.series s)) [
  | inl same ↦ rw (same, seqs-append s is i) refl
  | inr other ↦ rw other (seqs-append s is i)
]

pub last_seq-count_up :
    (cs : List (Text × ℕ)) (t s : Text)
    → last_seq (count_up cs t) s ≡ (if text_eq t s then suc (last_seq cs t) else last_seq cs s)
unfolding count_up last_seq
last_seq-count_up [] t s = refl
last_seq-count_up ((u, n) ∷ cs) t s = elim (Bool-cases (text_eq u t)) [
  | inl same ↦
      let as_one : text_eq u s ≡ text_eq t s = ap (λ k. text_eq k s) ((text_eq_iff u t).0 same) in
      ground arith
  | inr other ↦
      let rest = last_seq-count_up cs t s in
      let apart : text_eq u s ≡ true → text_eq t s ≡ true → u ≡ t =
        λ a b. (text_eq_iff u s).0 a ∙ sym ((text_eq_iff t s).0 b) in
      let again : u ≡ t → text_eq u t ≡ true = (text_eq_iff u t).1 in ground arith
]
