-- ===== src/Subscription/Downgrades.antt =====
-- What a change that waits for the end of the period is, and that it is made: `scheduleChange` and
-- `applyDueChanges` of src/services/subscriptionService.js.
use wppflow_backend.Common.{
  ◌≤◌, ◌<◌, ◌||◌, true, false, not, none, some, List, Text, text, is_some, is_empty, leb, ◌≡◌, refl,
  sym, ◌∙◌, arith,
}
use mathlib.Core.Path.{subst, ap}
use wppflow_backend.Common.Result.{ok, refuse, refuse-ok, from_bind, ok_injective}
use wppflow_backend.Subscription.Dates.{Day, day_number}
use wppflow_backend.Subscription.Plans.{
  Entry, Plan, Tenant, plan_of, choose_plan, is_code, scheduled,
}
use wppflow_backend.Subscription.Payment.{Books}
use wppflow_backend.Subscription.Change.{
  rank_of, schedule_change, is_due, apply_due_change, apply_scheduled, moved_to,
}
use wppflow_backend.Subscription.Keys.{is_keyed, choose_plan-keyed}

-- A smaller plan is written down for later, and nothing else of the company's is touched.
pub record IsDowngrade (plans : List Entry) (wanted : Text) (before after : Books) (target : Plan)
    : Type 0 where
  pub chosen : choose_plan plans wanted ≡ ok target
  pub smaller : rank_of plans target.id < rank_of plans (plan_of plans before.tenant.plan).id
  pub dated : is_some before.tenant.period_end ≡ true
  pub agreed : is_code (text "enterprise") target ≡ false
  pub waits : after.tenant ≡ record before.tenant { scheduled_plan = target.id }
  pub unpaid : after.payments ≡ before.payments

-- When a change is scheduled without a refusal, its plan is the one that was chosen, comes before the
-- company's plan in the order of the plans and is not the Enterprise plan, the company has a period
-- that ends, and of the company and its payments only the scheduled plan is different.
pub schedule_change-IsDowngrade :
    (plans : List Entry) (books : Books) (wanted : Text) (out : Books × Plan)
    → schedule_change plans books wanted ≡ ok out
    → IsDowngrade plans wanted books out.0 out.1
unfolding schedule_change
schedule_change-IsDowngrade plans books wanted out came =
    let current = plan_of plans books.tenant.plan in
    from_bind (refuse (not (is_some current.id) || is_code (text "free") current) _ _) _ came
      λ u1 e1 r1. from_bind (refuse (not (is_some books.tenant.period_end)) _ _) _ r1 λ u2 e2 r2.
        from_bind (choose_plan plans wanted) _ r2 λ target e3 r3.
          from_bind (refuse (is_code (text "enterprise") target) _ _) _ r3 λ u4 e4 r4.
            from_bind (refuse (leb (rank_of plans current.id) (rank_of plans target.id)) _ _) _ r4
              λ u5 e5 r5.
                let dated : not (is_some books.tenant.period_end) ≡ false = refuse-ok _ _ _ u2 e2 in
                let ranked : leb (rank_of plans current.id) (rank_of plans target.id) ≡ false =
                  refuse-ok _ _ _ u5 e5 in
                subst (λ k. IsDowngrade plans wanted books k.0 k.1) (ok_injective _ out r5)
                  record {
                    chosen = e3;
                    smaller = ground arith;
                    dated = ground arith;
                    agreed = refuse-ok _ _ _ u4 e4;
                    waits = refl;
                    unpaid = refl;
                  }

scheduled-code :
    (t : Tenant) (code : Text)
    → t.scheduled_plan ≡ some code
    → is_empty code ≡ false
    → scheduled t ≡ some code
scheduled-code t code e filled = rw e (rw filled refl)

apply_scheduled-known :
    (plans : List Entry) (books : Books) (code : Text) (target : Plan)
    → plan_of plans code ≡ target
    → is_some target.id ≡ true
    → ((apply_scheduled plans books (some code)).1 ≡ some target)
      × ((apply_scheduled plans books (some code)).0.tenant ≡ moved_to books.tenant target)
unfolding apply_scheduled
apply_scheduled-known plans books code target found known =
    let some_id : is_some (plan_of plans code).id ≡ true = ap (λ p. is_some p.id) found ∙ known in
    rw (some_id, found) (refl, refl)

abbrev pub IsAt : Tenant → Plan → Type 0
IsAt t target = (t.plan ≡ target.name) × (t.scheduled_plan ≡ none)

moved-IsAt : (t : Tenant) (target : Plan) → IsAt (moved_to t target) target
unfolding moved_to
moved-IsAt t target = ground arith

apply_due_change-due :
    (plans : List Entry) (books : Books) (now : Day) (code : Text)
    → is_due books.tenant now ≡ true
    → scheduled books.tenant ≡ some code
    → apply_due_change plans books now ≡ apply_scheduled plans books (some code)
unfolding apply_due_change
apply_due_change-due plans books now code due waits = rw (due, waits) refl

is_due-after :
    (t : Tenant) (code : Text) (end now : Day)
    → t.scheduled_plan ≡ some code
    → t.period_end ≡ some end
    → day_number end ≤ day_number now
    → is_due t now ≡ true
unfolding is_due
is_due-after t code end now waits ends past = rw (waits, ends) (ground arith)

-- Where every code is a key of the table of plans, a change that was scheduled is made by the job that
-- runs when the company's period has ended: the company is then on the plan that was chosen, and no
-- change waits any more.
pub scheduled_change_made :
    (plans : List Entry) (books : Books) (wanted : Text) (out : Books × Plan) (end now : Day)
    → is_keyed plans ≡ true
    → schedule_change plans books wanted ≡ ok out
    → books.tenant.period_end ≡ some end
    → day_number end ≤ day_number now
    → ((apply_due_change plans out.0 now).1 ≡ some out.1)
      × IsAt (apply_due_change plans out.0 now).0.tenant out.1
scheduled_change_made plans books wanted out end now keyed came ends past =
    let down = schedule_change-IsDowngrade plans books wanted out came in
    let (code, coded, found, filled) = choose_plan-keyed plans wanted out.1 keyed down.chosen in
    let waits : out.0.tenant.scheduled_plan ≡ some code =
      ap (λ t. t.scheduled_plan) down.waits ∙ coded in
    let ended : out.0.tenant.period_end ≡ some end = ap (λ t. t.period_end) down.waits ∙ ends in
    let same =
      apply_due_change-due plans out.0 now code
        (is_due-after out.0.tenant code end now waits ended past)
        (scheduled-code out.0.tenant code waits filled) in
    let made = apply_scheduled-known plans out.0 code out.1 found (ap is_some coded) in
    (
      ap (λ k. k.1) same ∙ made.0,
      subst (λ t. IsAt t out.1) (sym (ap (λ k. k.0.tenant) same ∙ made.1))
          (moved-IsAt out.0.tenant out.1),
    )
