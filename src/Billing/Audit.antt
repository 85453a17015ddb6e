-- ===== src/Billing/Audit.antt =====
-- The numbers that `billingAudit` of src/services/billingService.js reports as skipped.
use wppflow_backend.Common.{
  ℕ, zero, suc, ◌≤◌, max, Bool, true, false, not, ◌||◌, List, [], ◌∷◌, ◌++◌, map, Text, has_text,
  take, keep, any, ◌==◌, if◌then◌else◌, ◌≡◌, refl, ap, ◌∙◌, arith, inl, inr, Bool-cases,
}
use wppflow_backend.Billing.Till.{Invoice, Company, Autopay, Till}
use wppflow_backend.Billing.Invoices.{last_seq}
use wppflow_backend.Billing.Ledger.{seqs, one_to, IsSound}
use wppflow_backend.Billing.Steps.{Steps, opening, reached-IsSound}

-- `GROUP BY series`
unfoldable pub series_of : List Text → List Invoice → List Text
series_of seen [] = []
series_of seen (i ∷ is) =
    let rest = series_of (i.series ∷ seen) is in
    if has_text i.series seen then rest else i.series ∷ rest

unfoldable pub top_seq : List ℕ → ℕ
top_seq [] = 0
top_seq (n ∷ ns) = max n (top_seq ns)

abbrev pub is_among : List ℕ → ℕ → Bool
is_among ns n = any (λ m. m == n) ns

abbrev pub not_among : List ℕ → ℕ → Bool
not_among ns n = not (is_among ns n)

-- The numbers from 1 to the highest that no invoice of the series has.
unfoldable pub missing_seqs : Text → List Invoice → List ℕ
missing_seqs s is = keep (not_among (seqs s is)) (one_to (top_seq (seqs s is)))

unfoldable pub gaps_in : List Text → List Invoice → List (Text × ℕ)
gaps_in [] is = []
gaps_in (s ∷ ss) is = map (λ n. (s, n)) (missing_seqs s is) ++ gaps_in ss is

unfoldable pub invoice_number_gaps : List Invoice → List (Text × ℕ)
invoice_number_gaps is = take 100 (gaps_in (series_of [] is) is)

top_seq-append : (ns : List ℕ) (n : ℕ) → top_seq (ns ++ n ∷ []) ≡ max (top_seq ns) n
unfolding top_seq
top_seq-append [] n = omega arith
top_seq-append (m ∷ ns) n = omega (arith, top_seq-append ns n)

top_seq-one_to : (n : ℕ) → top_seq (one_to n) ≡ n
unfolding top_seq
top_seq-one_to zero = refl
top_seq-one_to (suc n) = omega (arith, top_seq-append (one_to n) (suc n), top_seq-one_to n)

any-append : (p : ℕ → Bool) (ns : List ℕ) (n : ℕ) → any p (ns ++ n ∷ []) ≡ (any p ns || p n)
any-append p [] n = ground arith
any-append p (m ∷ ns) n = ground (arith, any-append p ns n)

-- What is kept of a longer list, when the test is false of what was added.
keep-append : (p : ℕ → Bool) (ns : List ℕ) (n : ℕ) → p n ≡ false → keep p (ns ++ n ∷ []) ≡ keep p ns
keep-append p [] n h = rw h refl
keep-append p (m ∷ ns) n h = elim (Bool-cases (p m)) [
  | inl e ↦ rw (e, keep-append p ns n h) refl
  | inr e ↦ rw e (keep-append p ns n h)
]

keep-never :
    (p : ℕ → Bool) (n : ℕ) → ((k : ℕ) → 1 ≤ k → k ≤ n → p k ≡ false) → keep p (one_to n) ≡ []
keep-never p zero never = refl
keep-never p (suc n) never =
    keep-append p (one_to n) (suc n) (never (suc n) (omega arith) (omega arith))
    ∙ keep-never p n (λ k low high. never k low (omega arith))

is_among-one_to : (n k : ℕ) → 1 ≤ k → k ≤ n → is_among (one_to n) k ≡ true
is_among-one_to zero k low high = absurd (omega arith)
is_among-one_to (suc n) k low high = elim (Bool-cases (suc n == k)) [
  | inl e ↦ any-append (λ m. m == k) (one_to n) (suc n) ∙ rw e (ground arith)
  | inr e ↦
      any-append (λ m. m == k) (one_to n) (suc n) ∙ rw (is_among-one_to n k low (ground arith)) refl
]

missing_seqs-none : (t : Till) (s : Text) → IsSound t → missing_seqs s t.invoices ≡ []
unfolding missing_seqs
missing_seqs-none t s l =
    rw (l.numbered s, top_seq-one_to (last_seq t.counters s))
      (keep-never (not_among (one_to (last_seq t.counters s))) (last_seq t.counters s)
        λ k low high. rw (is_among-one_to (last_seq t.counters s) k low high) refl)

gaps_in-none : (t : Till) (ss : List Text) → IsSound t → gaps_in ss t.invoices ≡ []
unfolding gaps_in
gaps_in-none t [] l = refl
gaps_in-none t (s ∷ ss) l = rw (missing_seqs-none t s l) (gaps_in-none t ss l)

-- In every till that is reached, the audit finds no invoice number that was skipped.
pub reached_no_gaps :
    (companies : List Company) (users : List Text) (autopays : List Autopay) {till : Till}
    → Steps (opening companies users autopays) till
    → invoice_number_gaps till.invoices ≡ []
unfolding invoice_number_gaps
reached_no_gaps companies users autopays {till} steps = ap (take 100) (
    gaps_in-none till (series_of [] till.invoices) (reached-IsSound companies users autopays steps))
