-- ===== src/Subscription/Periods.antt =====
-- What a recorded payment leaves, and that the period it takes by itself is accepted.
use mathlib.Core.Path.{subst}
use wppflow_backend.Common.{
  ℕ, ◌+◌, ◌≤◌, ◌<◌, Bool, true, false, not, Option, none, some, List, [], ◌∷◌, ◌++◌, Text, text,
  or_else, ◌≡◌, refl, arith, inl, inr, Bool-cases,
}
use wppflow_backend.Common.Int.{pos, ltb_ℤ, leb_ℤ}
use wppflow_backend.Common.Result.{ok, refuse, refuse-ok, from_bind, ok_injective}
use wppflow_backend.Subscription.Dates.{
  Day, Cycle, monthly, annual, is_day, days_between, day_number, add_cycle,
}
use wppflow_backend.Subscription.Calendar.{add_cycle_length}
use wppflow_backend.Subscription.Plans.{Entry, Plan, Tenant, plan_of, is_code}
use wppflow_backend.Subscription.Payment.{
  Body, Payment, Books, Paid, plan_to_pay, cycle_of, given_or, follow_on, max_period_days,
  period_of, amount_of, limit_of, write_payment, record_payment,
}

-- A period that a payment can be for.
pub record IsPeriod (start end : Day) : Type 0 where
  pub real_start : is_day start ≡ true
  pub real_end : is_day end ≡ true
  pub forward : day_number start < day_number end
  pub bounded : day_number end ≤ day_number start + max_period_days

not-false : (b : Bool) → not b ≡ false → b ≡ true
not-false b h = ground arith

forward_days : (a b : Day) → ltb_ℤ (days_between a b) (pos 1) ≡ false → day_number a < day_number b
unfolding days_between
forward_days a b h = ground arith

bounded_days :
    (a b : Day)
    → ltb_ℤ (pos max_period_days) (days_between a b) ≡ false
    → day_number b ≤ day_number a + max_period_days
unfolding days_between
bounded_days a b h = ground arith

period_of-IsPeriod :
    (t : Tenant) (body : Body) (cycle : Cycle) (now start end : Day)
    → period_of t body cycle now ≡ ok (start, end)
    → IsPeriod start end
unfolding period_of
period_of-IsPeriod t body cycle now start end h =
    let s = or_else body.period_start (follow_on t.period_end now) in
    let e = or_else body.period_end (add_cycle s cycle) in
    from_bind (refuse (not (is_day s)) 400 _) _ h λ u real h1.
      from_bind (refuse (not (is_day e)) 400 _) _ h1 λ v real' h2.
        from_bind (refuse (ltb_ℤ (days_between s e) (pos 1)) 400 _) _ h2 λ w forward h3.
          from_bind (refuse (ltb_ℤ (pos max_period_days) (days_between s e)) 400 _) _ h3
            λ x bounded last.
              let real-s : is_day s ≡ true = not-false _ (refuse-ok _ _ _ u real) in
              let real-e : is_day e ≡ true = not-false _ (refuse-ok _ _ _ v real') in
              let both : (Day × Day) = (s, e) in
              let made : IsPeriod s e = record {
                real_start = real-s;
                real_end = real-e;
                forward = forward_days s e (refuse-ok _ _ _ w forward);
                bounded = bounded_days s e (refuse-ok _ _ _ x bounded);
              } in
              let same : both ≡ (start, end) = ok_injective both (start, end) last in
              subst (λ p. IsPeriod p.0 p.1) same made

-- What the company's row and its payments say after a payment.
pub record IsPaid (books after : Books) (paid : Paid) : Type 0 where
  pub period : IsPeriod paid.period_start paid.period_end
  pub starts : after.tenant.period_start ≡ some paid.period_start
  pub ends : after.tenant.period_end ≡ some paid.period_end
  pub plan : after.tenant.plan ≡ paid.plan.name
  pub not_free : is_code (text "free") paid.plan ≡ false
  pub no_change_waits : after.tenant.scheduled_plan ≡ none
  pub told_nothing :
      (after.tenant.reminded_soon_for ≡ none)
      × (after.tenant.reminded_overdue_for ≡ none)
      × (after.tenant.reminded_expired_for ≡ none)
  pub one_more :
      (p : Payment) × (after.payments ≡ books.payments ++ p ∷ [])
      × (p.period_start ≡ paid.period_start)
      × (p.period_end ≡ paid.period_end)
      × (p.plan ≡ paid.plan.name)

written :
    Books → Plan → Text → Day × Day → Option (ℕ × Text) → ℕ → Text → Bool → Bool → Books × Paid
written books target cycle period amount limit words changed late = (
  write_payment books target cycle period amount limit words,
  record {
    plan = target;
    plan_changed = changed;
    notice = late;
    period_start = period.0;
    period_end = period.1;
  },
)

written-IsPaid :
    (books : Books) (target : Plan) (cycle : Text) (period : Day × Day) (amount : Option (ℕ × Text))
    (limit : ℕ) (words : Text) (changed late : Bool)
    → IsPeriod period.0 period.1
    → is_code (text "free") target ≡ false
    → let w = written books target cycle period amount limit words changed late in
      IsPaid books w.0 w.1
unfolding written write_payment
written-IsPaid books target cycle period amount limit words changed late fits paying = record {
  period = fits;
  starts = refl;
  ends = refl;
  plan = refl;
  not_free = paying;
  no_change_waits = refl;
  told_nothing = (refl, refl, refl);
  one_more = (_, refl, refl, refl, refl);
}

-- A payment that is recorded is one more payment, for a plan that is not Free, and its period, which
-- has real dates and is at least a day and at most three years long, is the company's period; the
-- change that waited for it is gone, and no reminder of the period has been sent.
pub record_payment-IsPaid :
    (plans : List Entry) (books : Books) (body : Body) (trusted : Bool) (now : Day) (after : Books)
    (paid : Paid)
    → record_payment plans books body trusted now ≡ ok (after, paid)
    → IsPaid books after paid
unfolding record_payment written
record_payment-IsPaid plans books body trusted now after paid h =
    let t = books.tenant in
    from_bind (plan_to_pay plans t body trusted) _ h λ target found h1.
      from_bind (refuse (is_code (text "free") target) 400 _) _ h1 λ u paying h2.
        from_bind (cycle_of (given_or body.cycle t.billing_cycle)) _ h2 λ named _ h3.
          from_bind (period_of t body named.1 now) _ h3 λ period taken h4.
            from_bind (amount_of body t body.amount) _ h4 λ amount _ h5.
              from_bind (limit_of t (plan_of plans t.plan) target body.sessions_limit) _ h5
                λ limit _ last.
                  subst (λ p. IsPaid books p.0 p.1) (ok_injective _ _ last)
                    (written-IsPaid books target named.0 period amount limit body.reference _ _
                      (period_of-IsPeriod t body named.1 now period.0 period.1 taken)
                      (refuse-ok _ _ _ u paying))

-- A real day whose month and year after are real days too.
abbrev pub IsUsual : Day → Type 0
IsUsual d = (is_day d ≡ true) × (100 ≤ d.year) × (d.year < 9999)

follow_on-IsUsual :
    (last : Option Day) (now : Day)
    → IsUsual now
    → ((d : Day) → last ≡ some d → IsUsual d)
    → IsUsual (follow_on last now)
unfolding follow_on
follow_on-IsUsual none now real lasts = real
follow_on-IsUsual (some last) now real lasts =
    elim (Bool-cases (leb_ℤ (days_between last now) (pos 31))) [
      | inl near ↦ rw near (lasts last refl)
      | inr far ↦ rw far real
    ]

cycle_fits :
    (d : Day) (cycle : Cycle)
    → IsUsual d
    → (is_day (add_cycle d cycle) ≡ true)
      × (ltb_ℤ (days_between d (add_cycle d cycle)) (pos 1) ≡ false)
      × (ltb_ℤ (pos max_period_days) (days_between d (add_cycle d cycle)) ≡ false)
unfolding days_between
cycle_fits d monthly (real, late, few) =
    let (m, y) = add_cycle_length d real late few in ground arith
cycle_fits d annual (real, late, few) =
    let (m, y) = add_cycle_length d real late few in ground arith

-- The period that a payment takes when no dates are given is accepted, if today is a real date of the
-- years 100 to 9998 and so is the end of the last period: the payment is never refused for it.
pub period_of_taken :
    (t : Tenant) (body : Body) (cycle : Cycle) (now : Day)
    → body.period_start ≡ none
    → body.period_end ≡ none
    → IsUsual now
    → ((d : Day) → t.period_end ≡ some d → IsUsual d)
    → let start = follow_on t.period_end now in
      period_of t body cycle now ≡ ok (start, add_cycle start cycle)
unfolding period_of
period_of_taken t body cycle now no_start no_end usual lasts =
    let start = follow_on t.period_end now in
    let usual_start = follow_on-IsUsual t.period_end now usual lasts in
    let (real_end, forward, bounded) = cycle_fits start cycle usual_start in
    rw (no_start, no_end, usual_start.0, real_end, forward, bounded) refl
