-- ===== src/Subscription/Change.antt =====
-- `scheduleChange`, `clearScheduledChange` and the row that `applyDueChanges` changes, of
-- src/services/subscriptionService.js.
use wppflow_backend.Common.{
  ℕ, ◌+◌, Bool, true, false, not, ◌&&◌, ◌||◌, Option, none, some, List, [], ◌∷◌, ◌++◌, Text, text,
  is_some, or_else, leb, ◌==◌, if◌then◌else◌, ◌≡◌, refl, arith, inl, inr, Bool-cases,
}
use wppflow_backend.Common.Result.{Result, ok, ◌>>=◌, ◌>>◌, refuse}
use wppflow_backend.Subscription.Dates.{Day, day_number}
use wppflow_backend.Subscription.Plans.{
  Entry, Plan, Tenant, plan_of, choose_plan, is_code, scheduled,
}
use wppflow_backend.Subscription.Payment.{Books, same_id}

-- `rankOf(id) + 1`: 0 stands for -1, a plan that is not there.
unfoldable pub rank_of : List Entry → Option Text → ℕ
rank_of [] id = 0
rank_of (e ∷ es) id =
    let later = rank_of es id in
    if same_id (some e.code) id then 1 else if later == 0 then 0 else later + 1

-- A row of the history and one of the audit log.
abbrev pub noted : Books → Text → Text → Text → Books
noted books event plan audit = record books {
  events = books.events ++ (event, plan) ∷ [];
  audits = books.audits ++ audit ∷ [];
}

unfoldable pub schedule_change : List Entry → Books → Text → Result (Books × Plan)
schedule_change plans books wanted =
    let t = books.tenant in
    let current = plan_of plans t.plan in
    refuse (not (is_some current.id) || is_code (text "free") current) 400
      (text "This company is not on a paid plan")
    >> (refuse (not (is_some t.period_end)) 400 (text "Record a payment first")
        >> (choose_plan plans wanted >>= λ target.
            refuse (is_code (text "enterprise") target) 400
              (text "Enterprise is agreed with the company: change the plan directly")
            >> (refuse (leb (rank_of plans current.id) (rank_of plans target.id)) 400
                  (text "A change at the end of the period is for a smaller plan.")
                >> ok (
                  noted (record books { tenant = record t { scheduled_plan = target.id } })
                      (if is_code (text "free") target
                        then text "cancel_scheduled"
                        else text "downgrade_scheduled")
                      current.name (text "subscription.change_scheduled"),
                  target,
                ))))

-- The second part is whether there was a change to clear.
unfoldable pub clear_scheduled_change : List Entry → Books → Books × Bool
clear_scheduled_change plans books = elim (scheduled books.tenant) [
  | none ↦ (books, false)
  | some s ↦ (
    noted (record books { tenant = record books.tenant { scheduled_plan = none } })
        (text "change_cleared") (plan_of plans books.tenant.plan).name
        (text "subscription.change_cleared"),
    true,
  )
]

-- The UPDATE of a change that has started; the Free plan has no period.
unfoldable pub moved_to : Tenant → Plan → Tenant
moved_to t target =
    let t' = record t {
      plan = target.name;
      sessions_limit = or_else target.numbers t.sessions_limit;
      scheduled_plan = none;
    } in
    if is_code (text "free") target
    then record t' {
      billing_cycle = none;
      period_start = none;
      period_end = none;
      reminded_soon_for = none;
      reminded_overdue_for = none;
      reminded_expired_for = none;
    }
    else t'

-- The row as it is when it is locked; a plan that is not there is forgotten.
unfoldable pub apply_scheduled : List Entry → Books → Option Text → Books × Option Plan
apply_scheduled plans books none = (books, none)
apply_scheduled plans books (some s) =
    let target = plan_of plans s in
    if is_some target.id
    then (
      noted (record books { tenant = moved_to books.tenant target }) (text "change_applied")
          target.name (text "subscription.change_applied"),
      some target,
    )
    else (record books { tenant = record books.tenant { scheduled_plan = none } }, none)

-- `scheduled_plan IS NOT NULL AND period_end IS NOT NULL AND period_end<=now`
unfoldable pub is_due : Tenant → Day → Bool
is_due t now =
    is_some t.scheduled_plan
    && (elim t.period_end [ none ↦ false | some end ↦ leb (day_number end) (day_number now) ])

-- One company's part of the loop.
unfoldable pub apply_due_change : List Entry → Books → Day → Books × Option Plan
apply_due_change plans books now =
    if is_due books.tenant now
    then apply_scheduled plans books (scheduled books.tenant)
    else (books, none)

scheduled-some :
    (t : Tenant) (c : ℕ) (s : Text) → t.scheduled_plan ≡ some (c ∷ s) → scheduled t ≡ some (c ∷ s)
scheduled-some t c s e = rw e refl

moved_clear : (t : Tenant) (target : Plan) → (moved_to t target).scheduled_plan ≡ none
unfolding moved_to
moved_clear t target = ground arith

apply_scheduled-clear :
    (plans : List Entry) (books : Books) (s : Text)
    → (apply_scheduled plans books (some s)).0.tenant.scheduled_plan ≡ none
unfolding apply_scheduled
apply_scheduled-clear plans books s = elim (Bool-cases (is_some (plan_of plans s).id)) [
  | inl known ↦ rw known (moved_clear books.tenant (plan_of plans s))
  | inr gone ↦ rw gone refl
]

no_plan-is_due : (t : Tenant) (now : Day) → t.scheduled_plan ≡ none → is_due t now ≡ false
unfolding is_due
no_plan-is_due t now e = rw e refl

moved_plan : (t : Tenant) (target : Plan) → (moved_to t target).plan ≡ target.name
unfolding moved_to
moved_plan t target = ground arith

apply_scheduled-plan :
    (plans : List Entry) (books : Books) (s : Text)
    → is_some (plan_of plans s).id ≡ true
    → (apply_scheduled plans books (some s)).0.tenant.plan ≡ (plan_of plans s).name
unfolding apply_scheduled
apply_scheduled-plan plans books s known = rw known (moved_plan books.tenant (plan_of plans s))

not_due :
    (plans : List Entry) (books : Books) (now : Day)
    → is_due books.tenant now ≡ false
    → apply_due_change plans books now ≡ (books, none)
unfolding apply_due_change
not_due plans books now e = rw e refl

-- What a run of the job leaves of a change of a company to the plan `s`.
pub record IsMadeOnce (plans : List Entry) (s : Text) (after : Books) : Type 0 where
  -- the company is on the plan, if that is one of the plans
  pub made : is_some (plan_of plans s).id ≡ true → after.tenant.plan ≡ (plan_of plans s).name
  -- no later run of the job changes anything, whatever the day and the plans
  pub once :
      (later : Day) (plans' : List Entry) → apply_due_change plans' after later ≡ (after, none)

-- A change that is due is made once: after the job has been at a company whose period has ended, the
-- company is on the plan that was scheduled, if there is such a plan, and no later run of the job, on
-- any day and with any plans, changes anything of the company.
pub apply_due_once :
    (plans : List Entry) (books : Books) (now : Day) (c : ℕ) (s : Text)
    → books.tenant.scheduled_plan ≡ some (c ∷ s)
    → is_due books.tenant now ≡ true
    → IsMadeOnce plans (c ∷ s) (apply_due_change plans books now).0
unfolding apply_due_change
apply_due_once plans books now c s planned due =
    let waits = scheduled-some books.tenant c s planned in
    rw due (
      rw waits (record {
        made = apply_scheduled-plan plans books (c ∷ s);
        once = λ later plans'.
            not_due plans' _ later
              (no_plan-is_due _ later (apply_scheduled-clear plans books (c ∷ s)));
      }))
