-- ===== src/Subscription/Reminders.antt =====
-- `sendReminders` of src/services/subscriptionService.js, for one company's row: what is written and
-- which reminder is sent. A reminder that could not be sent is forgotten, to be sent again.
use wppflow_backend.Common.{
  ◌+◌, ◌≢◌, Bool, true, false, not, ◌&&◌, ◌||◌, Option, none, some, List, leb, ◌==◌, if◌then◌else◌,
  ◌≡◌, refl, arith, Option-cases, inl, inr,
}
use wppflow_backend.Subscription.Dates.{Day, day_number}
use wppflow_backend.Subscription.Plans.{Entry, Tenant}
use wppflow_backend.Subscription.View.{
  Standing, cancelling, changing, expired, overdue, due_soon, soon_days, standing,
}

pub data Kind : Type 0 where
  soon late off : Kind

abbrev pub same_day : Day → Day → Bool
same_day a b = a.year == b.year && a.month == b.month && a.date == b.date

-- `x IS DISTINCT FROM y`
unfoldable pub is_distinct : Option Day → Option Day → Bool
is_distinct none none = false
is_distinct (some a) (some b) = not (same_day a b)
is_distinct _ _ = true

-- The rows that are read.
unfoldable pub is_near : Tenant → Day → Bool
is_near t now =
    t.active
    && (elim t.period_end [
      | none ↦ false
      | some end ↦ leb (day_number end) (day_number now + soon_days)
    ])
    && (is_distinct t.reminded_soon_for t.period_end
        || is_distinct t.reminded_overdue_for t.period_end
        || is_distinct t.reminded_expired_for t.period_end)

unfoldable pub kind_of : Standing → Option Kind
kind_of overdue = some late
kind_of expired = some off
kind_of due_soon = some soon
kind_of cancelling = some soon
kind_of changing = some soon
kind_of _ = none

-- The column of a kind.
unfoldable pub reminded_for : Kind → Tenant → Option Day
reminded_for soon t = t.reminded_soon_for
reminded_for late t = t.reminded_overdue_for
reminded_for off t = t.reminded_expired_for

unfoldable pub mark_reminded : Kind → Tenant → Tenant
mark_reminded soon t = record t { reminded_soon_for = t.period_end }
mark_reminded late t = record t { reminded_overdue_for = t.period_end }
mark_reminded off t = record t {
  reminded_expired_for = t.period_end;
  reminded_overdue_for = t.period_end;
}

unfoldable pub forget_reminded : Kind → Tenant → Tenant
forget_reminded soon t = record t { reminded_soon_for = none }
forget_reminded late t = record t { reminded_overdue_for = none }
forget_reminded off t = record t { reminded_expired_for = none }

-- `told` is whether the notification was made; the second part is the reminder that was sent.
unfoldable pub remind_of : Kind → Tenant → Bool → Tenant × Option Kind
remind_of k t told =
    if is_distinct (reminded_for k t) t.period_end
    then (if told
        then (mark_reminded k t, some k)
        else (forget_reminded k (mark_reminded k t), none))
    else (t, none)

unfoldable pub remind_as : Option Kind → Tenant → Bool → Tenant × Option Kind
remind_as none t told = (t, none)
remind_as (some k) t told = remind_of k t told

unfoldable pub remind : List Entry → Tenant → Day → Bool → Tenant × Option Kind
remind plans t now told =
    if is_near t now then remind_as (kind_of (standing plans t now)) t told else (t, none)

day_self : (d : Option Day) → is_distinct d d ≡ false
unfolding is_distinct
day_self none = refl
day_self (some d) = ground arith

marked :
    (k : Kind) (t : Tenant)
    → is_distinct (reminded_for k (mark_reminded k t)) (mark_reminded k t).period_end ≡ false
unfolding reminded_for mark_reminded
marked soon t = day_self t.period_end
marked late t = day_self t.period_end
marked off t = day_self t.period_end

-- The reminder that is sent, if one is, was not sent before.
remind-distinct :
    (plans : List Entry) (t : Tenant) (now : Day) (told : Bool) (k : Kind)
    → (remind plans t now told).1 ≡ some k
    → (is_distinct (reminded_for k t) t.period_end ≡ true)
      × ((remind plans t now told).0 ≡ mark_reminded k t)
unfolding remind remind_as remind_of
remind-distinct plans t now told k h = elim (Option-cases (kind_of (standing plans t now))) [
  | inl nothing ↦ ground arith
  | inr (j, kind) ↦ ground arith
]

-- A reminder that was sent is not sent again while the period ends on the same day and the day noted
-- for that reminder is kept, whenever the job runs and whatever else the company's row says then.
pub remind_once :
    (plans plans' : List Entry) (t t' : Tenant) (now now' : Day) (told told' : Bool) (k : Kind)
    → (remind plans t now told).1 ≡ some k
    → t'.period_end ≡ (remind plans t now told).0.period_end
    → reminded_for k t' ≡ reminded_for k (remind plans t now told).0
    → (remind plans' t' now' told').1 ≢ some k
remind_once plans plans' t t' now now' told told' k sent same kept again =
    let (_, row) = remind-distinct plans t now told k sent in
    let (fresh, _) = remind-distinct plans' t' now' told' k again in let done = marked k t in cc
