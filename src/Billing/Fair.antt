-- ===== src/Billing/Fair.antt =====
-- What a quote promises: the sum that is asked, and the period that is bought.
use wppflow_backend.Common.{
  ℕ, ◌+◌, ◌-◌, ◌≤◌, Bool, true, false, ◌||◌, none, some, List, Text, text, ltb, ◌==◌, ◌≡◌, refl,
  sym, ap, ◌∙◌, arith, inl, inr, Bool-cases, Option-cases,
}
use mathlib.Core.Path.{subst}
use wppflow_backend.Common.Result.{ok, refuse, refuse-ok, from_bind, ok_injective}
use wppflow_backend.Gst.Tax.{
  TaxMode, exclusive, inclusive, Tax, tax_on, compute_tax, is_intra_state, tax_on-parts,
}
use wppflow_backend.Subscription.Dates.{Day, Cycle, add_cycle}
use wppflow_backend.Subscription.Plans.{Entry, Plan, Tenant, choose_plan, is_code}
use wppflow_backend.Billing.Quote.{
  Shop, Quote, Kind, fresh, renewal, change, price_of, interval_of, live_end, kind_while_live,
  kind_of, unused_worth, credit_until, credit_of, period_of_kind, period_for, plan_code,
  price_or_zero, tax_mode_of, quote_for, is_renewal,
}

-- The sum that the price stands for: before the tax or with it.
abbrev pub priced : TaxMode → Quote → ℕ
priced exclusive q = q.taxable_minor
priced inclusive q = q.total_minor

pub record IsFair (q : Quote) : Type 0 where
  -- the price less the credit is what is asked
  pub asked : priced q.tax_mode q + q.credit_minor ≡ q.base_minor
  pub adds_up : q.taxable_minor + q.tax_minor ≡ q.total_minor
  pub parts : q.cgst_minor + q.sgst_minor + q.igst_minor ≡ q.tax_minor
  pub worth : 100 ≤ q.total_minor

unused_worth-le : (old total unused base : ℕ) → unused_worth old total unused base ≤ base
unfolding unused_worth
unused_worth-le old total unused base = ground arith

pub credit_of-le :
    (shop : Shop) (t : Tenant) (kind : Kind) (now : Day) (base : ℕ)
    → credit_of shop t kind now base ≤ base
unfolding credit_of credit_until
credit_of-le shop t fresh now base = omega arith
credit_of-le shop t renewal now base = omega arith
credit_of-le shop t change now base = elim (Bool-cases shop.settings.prorate_upgrades) [
  | inr off ↦ rw off (omega arith)
  | inl on ↦ rw on (elim (Option-cases (live_end shop.plans t now)) [
    | inl e ↦ rw e (omega arith)
    | inr (end, e) ↦ rw e (unused_worth-le _ _ _ base)
  ])
]

abbrev asked_of : TaxMode → Tax → ℕ
asked_of exclusive t = t.taxable
asked_of inclusive t = t.total

asked_of-tax_on :
    (given : ℕ) (mode : TaxMode) (intra : Bool) (rate : ℕ)
    → asked_of mode (tax_on given mode intra rate) ≡ given
unfolding tax_on
asked_of-tax_on given exclusive intra rate = refl
asked_of-tax_on given inclusive intra rate = refl

priced-asked :
    (mode : TaxMode) (q : Quote) (t : Tax)
    → q.taxable_minor ≡ t.taxable
    → q.total_minor ≡ t.total
    → priced mode q ≡ asked_of mode t
priced-asked exclusive q t same total = same
priced-asked inclusive q t same total = total

-- A quote that is given asks for its price less its credit; the taxable value and the tax make up the
-- total, the three taxes make up the tax, and the total is at least one rupee.
pub quote_for-IsFair :
    (shop : Shop) (t : Tenant) (state_code plan_value interval_value : Text) (now : Day) (q : Quote)
    → quote_for shop t state_code plan_value interval_value now ≡ ok q
    → IsFair q
unfolding quote_for compute_tax
quote_for-IsFair shop t state_code plan_value interval_value now q came =
    from_bind (interval_of interval_value) _ came λ cycle e1 r1.
      from_bind (choose_plan shop.plans plan_value) _ r1 λ plan e2 r2.
        let base =
          price_or_zero (price_of shop.offers (plan_code plan) interval_value (text "INR")) in
        from_bind (refuse (is_code (text "free") plan || base == 0) _ _) _ r2 λ u3 e3 r3.
          from_bind (kind_of shop.plans t plan cycle now) _ r3 λ kind e4 r4.
            let credit = credit_of shop t kind now base in
            let mode = tax_mode_of shop.offers (plan_code plan) in
            let tax =
              tax_on (base - credit) mode
                (is_intra_state state_code shop.settings.seller.state_code)
                shop.settings.gst_rate in
            from_bind (refuse (ltb tax.total 100) _ _) _ r4 λ u5 e5 r5.
              let parts =
                tax_on-parts (base - credit) mode
                  (is_intra_state state_code shop.settings.seller.state_code)
                  shop.settings.gst_rate in
              let small = credit_of-le shop t kind now base in
              subst IsFair (ok_injective _ q r5) (record {
                asked =
                    ap (λ k. k + credit)
                      (priced-asked mode _ tax refl refl ∙ asked_of-tax_on (base - credit) mode _ _)
                    ∙ omega (arith, small);
                adds_up = parts.0;
                parts = parts.1;
                worth = ground (arith, refuse-ok _ _ _ u5 e5);
              })

-- When the period of a payment runs.
pub record IsTimely (shop : Shop) (t : Tenant) (now : Day) (q : Quote) : Type 0 where
  -- a renewal follows on from the period that was paid, which is still running or just over
  pub follows : is_renewal q.kind ≡ true → live_end shop.plans t now ≡ some q.period_start
  pub today : is_renewal q.kind ≡ false → q.period_start ≡ now
  pub lasts : q.period_end ≡ add_cycle q.period_start q.interval

is_fresh : Kind → Bool
is_fresh fresh = true
is_fresh k = false

kind_while_live-is_fresh :
    (plans : List Entry) (t : Tenant) (plan : Plan) (cycle : Cycle) (now end : Day) (k : Kind)
    → kind_while_live plans t plan cycle now end ≡ ok k
    → is_fresh k ≡ false
unfolding kind_while_live is_fresh
kind_while_live-is_fresh plans t plan cycle now end k came = ground arith

module _ (plans : List Entry) (t : Tenant) (cycle : Cycle) (now : Day) where
  kind_of-live :
      (plan : Plan) (end : Day)
      → live_end plans t now ≡ some end
      → kind_of plans t plan cycle now ≡ kind_while_live plans t plan cycle now end
  unfolding kind_of kind_while_live
  kind_of-live plan end e = rw (e, kind_of) refl

  kind_of-lapsed :
      (plan : Plan) → live_end plans t now ≡ none → kind_of plans t plan cycle now ≡ ok fresh
  unfolding kind_of
  kind_of-lapsed plan e = rw (e, kind_of) refl

  start_of-kind :
      (plan : Plan) (kind : Kind)
      → kind_of plans t plan cycle now ≡ ok kind
      → (is_renewal kind ≡ true
          → live_end plans t now ≡ some (period_of_kind plans t kind cycle now).0)
        × (is_renewal kind ≡ false → (period_of_kind plans t kind cycle now).0 ≡ now)
  unfolding kind_of period_of_kind period_for is_fresh
  start_of-kind plan fresh came = elim (Option-cases (live_end plans t now)) [
    | inl e ↦ rw e ((λ no. cc), λ yes. refl)
    | inr (end, e) ↦
        let late =
          kind_while_live-is_fresh plans t plan cycle now end fresh
            (sym (kind_of-live plan end e) ∙ came) in
        cc
  ]
  start_of-kind plan renewal came = elim (Option-cases (live_end plans t now)) [
    | inl e ↦ let no = sym (kind_of-lapsed plan e) ∙ came in cc
    | inr (end, e) ↦ rw e ((λ yes. refl), λ no. cc)
  ]
  start_of-kind plan change came = ((λ no. cc), λ yes. refl)

  lasts-period_of_kind :
      (kind : Kind) → let p = period_of_kind plans t kind cycle now in p.1 ≡ add_cycle p.0 cycle
  unfolding period_of_kind period_for
  lasts-period_of_kind fresh = refl
  lasts-period_of_kind renewal = refl
  lasts-period_of_kind change = refl

-- A renewal starts on the day the paid period ends, however early or (within the days of grace) late it
-- is paid; every other payment buys a period that starts today. Either way the period is one month or
-- one year.
pub quote_for-IsTimely :
    (shop : Shop) (t : Tenant) (state_code plan_value interval_value : Text) (now : Day) (q : Quote)
    → quote_for shop t state_code plan_value interval_value now ≡ ok q
    → IsTimely shop t now q
unfolding quote_for
quote_for-IsTimely shop t state_code plan_value interval_value now q came =
    from_bind (interval_of interval_value) _ came λ cycle e1 r1.
      from_bind (choose_plan shop.plans plan_value) _ r1 λ plan e2 r2.
        from_bind (refuse (is_code (text "free") plan || _) _ _) _ r2 λ u3 e3 r3.
          from_bind (kind_of shop.plans t plan cycle now) _ r3 λ kind e4 r4.
            from_bind (compute_tax _ _ _ _) _ r4 λ tax e5 r5.
              from_bind (refuse (ltb tax.total 100) _ _) _ r5 λ u6 e6 r6.
                let start = start_of-kind shop.plans t cycle now plan kind e4 in
                subst (IsTimely shop t now) (ok_injective _ q r6) (record {
                  follows = start.0;
                  today = start.1;
                  lasts = lasts-period_of_kind shop.plans t cycle now kind;
                })
