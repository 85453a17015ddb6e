-- ===== src/Examples/Lines.antt =====
-- The health of a number, and the room in a plan, at small inputs.
use wppflow_backend.Common.{false, some, [], text, ◌↔◌, ◌≡◌, refl}
use wppflow_backend.Common.Result.{ok}
use wppflow_backend.Limits.{
  Limits, assert_room_for_contacts, room_for_contacts, FitsIn, assert_room_for_contacts_iff,
}
use wppflow_backend.Health.{Line, broken, all_well, is_connected, judge, judge_level}

abbrev lost_line : Line
lost_line = record {
  phone = text "9715";
  status = text "DISCONNECTED";
  down_since = some 0;
  reconnect_attempts = 2;
  heartbeat_failures = 0;
  failed_last_hour = 0;
  total_last_hour = 0;
  queued = 1;
  oldest_seconds = some 700;
}

judge_level_example :
    (((judge lost_line 1800000).0 ≡ broken) ↔ (is_connected lost_line ≡ false))
    × (((judge lost_line 1800000).0 ≡ all_well) ↔ ((judge lost_line 1800000).1 ≡ []))
judge_level_example = judge_level lost_line 1800000 refl

abbrev small_plan : Limits
small_plan = record { contacts = some 100; broadcasts = some 2 }

assert_room_for_contacts_iff_example :
    (assert_room_for_contacts small_plan 98 2 ≡ ok tt) ↔ FitsIn 2 (room_for_contacts small_plan 98)
assert_room_for_contacts_iff_example = assert_room_for_contacts_iff small_plan 98 1
