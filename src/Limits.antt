-- ===== src/Limits.antt =====
-- src/services/limitsService.js: what a plan allows of contacts and broadcasts. The limits of the
-- company's plan are given; `none` is no limit. Times are seconds.
use wppflow_backend.Common.{
  ℕ, suc, ◌+◌, ◌-◌, ◌*◌, ◌/◌, ◌≤◌, Bool, false, not, ◌&&◌, Option, none, some, List, Text, text,
  text_eq, count_if, leb, ltb, if◌then◌else◌, ◌↔◌, ◌≡◌, refl, arith, Bool-cases, inl, inr,
}
use wppflow_backend.Common.Result.{Result, ok, err}

pub record Limits : Type 0 where
  pub contacts : Option ℕ
  pub broadcasts : Option ℕ

pub record Started : Type 0 where
  pub id : Text
  pub started_at : Option ℕ

pub data Use : Type 0 where
  unlimited full near fine : Use

-- `Math.ceil(limit * 0.8)`: the product of the doubles is exact where it is whole.
unfoldable pub state_of : ℕ → Option ℕ → Use
state_of used none = unlimited
state_of used (some limit) =
    if leb limit used then full else if leb ((4 * limit + 4) / 5) used then near else fine

-- The broadcasts that were started this month, but for one.
unfoldable pub broadcasts_of : List Started → ℕ → Text → ℕ
broadcasts_of cs month except =
    count_if
      (λ c.
        (elim c.started_at [ none ↦ false | some t ↦ leb month t ]) && not (text_eq c.id except))
      cs

unfoldable pub room_check : ℕ → ℕ → Option ℕ → Result (Unit {0})
room_check used adding none = ok tt
room_check used adding (some limit) =
    if ltb limit (used + adding) then err 403 (text "plan_limit") else ok tt

unfoldable pub assert_room_for_contacts : Limits → ℕ → ℕ → Result (Unit {0})
assert_room_for_contacts l used adding = room_check used adding l.contacts

-- How many more contacts fit: `none` is no limit.
unfoldable pub room_left : ℕ → Option ℕ → Option ℕ
room_left used none = none
room_left used (some limit) = some (limit - used)

unfoldable pub room_for_contacts : Limits → ℕ → Option ℕ
room_for_contacts l used = room_left used l.contacts

unfoldable pub import_check : ℕ → ℕ → Option ℕ → Result (Unit {0})
import_check before after none = ok tt
import_check before after (some limit) =
    if ltb limit after && ltb before after then err 403 (text "plan_limit") else ok tt

unfoldable pub assert_import_fits : Limits → ℕ → ℕ → Result (Unit {0})
assert_import_fits l before after = import_check before after l.contacts

abbrev pub was_started : ℕ → Option ℕ → Bool
was_started month none = false
was_started month (some t) = leb month t

unfoldable pub broadcast_check : List Started → Started → ℕ → Option ℕ → Result (Unit {0})
broadcast_check cs c month none = ok tt
broadcast_check cs c month (some limit) =
    if was_started month c.started_at
    then ok tt
    else if leb limit (broadcasts_of cs month c.id)
    then err 403 (text "plan_limit")
    else ok tt

-- A broadcast that was started this month already is not counted again.
unfoldable pub assert_room_for_broadcast : Limits → List Started → Started → ℕ → Result (Unit {0})
assert_room_for_broadcast l cs c month = broadcast_check cs c month l.broadcasts

-- What fits, by the room that is left.
abbrev pub FitsIn : ℕ → Option ℕ → Type 0
FitsIn n none = Unit
FitsIn n (some room) = n ≤ room

room_same :
    (used adding : ℕ) (limit : Option ℕ)
    → (room_check used (suc adding) limit ≡ ok tt) ↔ FitsIn (suc adding) (room_left used limit)
unfolding room_check room_left
room_same used adding none = ((λ h. tt), λ h. refl)
room_same used adding (some limit) = elim (Bool-cases (ltb limit (used + suc adding))) [
  | inl over ↦ ground arith
  | inr fits ↦ ground arith
]

-- Contacts may be added by hand exactly when their number, which is at least one, is at most the room
-- that is left.
pub assert_room_for_contacts_iff :
    (l : Limits) (used adding : ℕ)
    → (assert_room_for_contacts l used (suc adding) ≡ ok tt)
      ↔ FitsIn (suc adding) (room_for_contacts l used)
unfolding assert_room_for_contacts room_for_contacts
assert_room_for_contacts_iff l used adding = room_same used adding l.contacts
