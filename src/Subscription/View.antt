-- ===== src/Subscription/View.antt =====
-- `subscriptionView` of src/services/subscriptionService.js.
use wppflow_backend.Common.{
  ℕ, Bool, true, false, not, Option, none, some, List, Text, text, is_some, if◌then◌else◌, ◌≡◌,
  refl, arith, Option-cases, inl, inr,
}
use wppflow_backend.Common.Int.{ℤ, pos, negsuc, ltb_ℤ, leb_ℤ}
use wppflow_backend.Subscription.Dates.{Day, days_between}
use wppflow_backend.Subscription.Plans.{
  Entry, Plan, Tenant, plan_of, grace_days, is_code, scheduled, over_grace, is_lapsed,
}

pub data Standing : Type 0 where
  legacy free unrecorded cancelling changing expired overdue due_soon active : Standing

abbrev pub soon_days : ℕ
soon_days = 14

-- The plan that a change is scheduled to, if it is one.
unfoldable pub scheduled_to : List Entry → Tenant → Option Plan
scheduled_to plans t = elim (scheduled t) [
  | none ↦ none
  | some s ↦ let p = plan_of plans s in if is_some p.id then some p else none
]

-- With a plan that is paid and a period that was recorded.
unfoldable pub standing_at : Option Plan → ℤ → Standing
standing_at (some p) left = if is_code (text "free") p then cancelling else changing
standing_at none left =
    if ltb_ℤ left (negsuc 6)
    then expired
    else if ltb_ℤ left (pos 0)
    then overdue
    else if leb_ℤ left (pos soon_days)
    then due_soon
    else active

unfoldable pub standing_until : Option Plan → Option Day → Day → Standing
standing_until to none now = unrecorded
standing_until to (some end) now = standing_at to (days_between now end)

unfoldable pub standing : List Entry → Tenant → Day → Standing
standing plans t now =
    let plan = plan_of plans t.plan in
    if not plan.restricted
    then legacy
    else if is_code (text "free") plan
    then free
    else standing_until (scheduled_to plans t) t.period_end now

unfoldable pub is_expired : Standing → Bool
is_expired expired = true
is_expired s = false

grace_same :
    (now end : Day)
    → ltb_ℤ (days_between now end) (negsuc 6) ≡ ltb_ℤ (pos grace_days) (days_between end now)
unfolding days_between
grace_same now end = ground arith

until_same :
    (end : Option Day) (now : Day) → is_expired (standing_until none end now) ≡ over_grace end now
unfolding standing_until standing_at is_expired over_grace
until_same none now = refl
until_same (some end) now = ground (arith, grace_same now end)

until_scheduled :
    (p : Plan) (end : Option Day) (now : Day) → is_expired (standing_until (some p) end now) ≡ false
unfolding standing_until standing_at is_expired
until_scheduled p none now = refl
until_scheduled p (some end) now = ground arith

scheduled_to-none :
    (plans : List Entry) (t : Tenant) → scheduled t ≡ none → scheduled_to plans t ≡ none
unfolding scheduled_to
scheduled_to-none plans t e = rw (e, scheduled_to) refl

scheduled_to-some :
    (plans : List Entry) (t : Tenant) (s : Text)
    → scheduled t ≡ some s
    → is_some (plan_of plans s).id ≡ true
    → scheduled_to plans t ≡ some (plan_of plans s)
unfolding scheduled_to
scheduled_to-some plans t s e known = rw (e, scheduled_to) (rw known refl)

-- The two places that decide whether the paid features are off agree: the view of a subscription
-- says "expired" exactly when `isLapsed` says so, if a scheduled plan, where there is one, is known.
pub standing-is_lapsed :
    (plans : List Entry) (t : Tenant) (now : Day)
    → ((s : Text) → scheduled t ≡ some s → is_some (plan_of plans s).id ≡ true)
    → is_expired (standing plans t now) ≡ is_lapsed plans t now
unfolding standing is_lapsed is_expired
standing-is_lapsed plans t now known = elim (Option-cases (scheduled t)) [
  | inl nothing ↦
      rw (nothing, scheduled_to-none plans t nothing) (ground (arith, until_same t.period_end now))
  | inr (s, planned) ↦
      rw (planned, scheduled_to-some plans t s planned (known s planned))
        (ground (arith, until_scheduled (plan_of plans s) t.period_end now))
]
