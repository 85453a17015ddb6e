-- ===== src/Queue/Settle.antt =====
-- `dispatchMessage` after the claim: what the provider answered is written down.
use wppflow_backend.Common.{
  ℕ, ◌+◌, Bool, true, false, not, ◌&&◌, ◌||◌, Option, none, some, Text, text, ◌==◌, leb,
  if◌then◌else◌, find, is_some, or_else,
}
use wppflow_backend.Common.Int.{ℤ, pos, max_ℤ}
use wppflow_backend.Queue.Tables.{
  Status, sending, uncertain, Message, Conversation, pending, processed, unsure, paused, Campaign,
  Early, Db, update, delete, is_sending, is_message, is_event_of, same_option,
}
use wppflow_backend.Queue.Claim.{Job, World, claim}
use wppflow_backend.Queue.Ack.{status_of, handle_ack}

-- What the send came to. An answer with no identity is an error with the code DELIVERY_UNCERTAIN.
pub data Reply : Type 0 where
  confirmed : ℕ → Option ℤ → Reply
  unconfirmed : Reply
  -- `error.code === "SESSION_OFFLINE"`, and the error's words
  threw : Bool → Text → Reply

-- An echo of the message that came before the answer: another row with its provider's identity.
unfoldable pub is_echo : Job → ℕ → Message → Bool
is_echo j provider m =
    m.tenant == j.tenant && same_option m.provider_id provider && not (m.id == j.message)

unfoldable pub echo_of : Db → Job → ℕ → Option Message
unfolding is_echo
echo_of db j provider = find (is_echo j provider) db.messages

unfoldable pub merged_ack : Option ℤ → Option Message → ℤ
merged_ack ack none = max_ℤ (pos 0) (or_else ack (pos 0))
merged_ack ack (some e) = max_ℤ (max_ℤ (pos 0) (or_else ack (pos 0))) e.ack

unfoldable pub merge_echo : Db → Job → Option Message → Db
merge_echo db j none = db
merge_echo db j (some e) = record db {
  receipts =
      update (λ r. r.message == e.id && r.tenant == j.tenant)
        (λ r. record r { message = j.message }) db.receipts;
  messages = delete (is_message j.tenant e.id) db.messages;
}

abbrev is_sending_last : Option Status → Bool
is_sending_last none = false
is_sending_last (some s) = is_sending s

unfoldable pub is_own_last : Job → Conversation → Bool
is_own_last j c =
    c.id == j.conversation
    && c.tenant == j.tenant
    && (same_option c.last.id j.message || not (is_some c.last.id) || is_sending_last c.last.status)

-- The transaction after the provider confirmed.
unfoldable pub mark_sent : Db → Job → ℕ → ℤ → ℕ → Db
unfolding status_of is_own_last
mark_sent db j provider ack now = record db {
  messages =
      update (is_message j.tenant j.message)
        (λ m. record m {
          provider_id = some provider;
          ack = ack;
          status = status_of ack;
          updated_at = now;
        })
        db.messages;
  conversations =
      update (is_own_last j)
        (λ c. record c {
          last = record c.last {
            status = some (status_of ack);
            ack = ack;
            provider_id = some provider;
          };
        })
        db.conversations;
  outbox = update (is_event_of j.tenant j.message) (λ e. record e { status = processed }) db.outbox;
}

abbrev pub is_early : Job → ℕ → Early → Bool
is_early j provider e = e.tenant == j.tenant && e.provider_id == provider

-- A receipt that came before the identity was known is applied now.
unfoldable pub apply_early : Db → Job → ℕ → ℕ → Db
unfolding handle_ack
apply_early db j provider now = elim (find (is_early j provider) db.early) [
  | none ↦ db
  | some e ↦
      (handle_ack (record db { early = delete (is_early j provider) db.early }) j.tenant provider
        e.ack now).0
]

unfoldable pub is_campaign : Job → Option ℕ → Campaign → Bool
is_campaign j none k = false
is_campaign j (some c) k = k.id == c && k.tenant == j.tenant

unfoldable pub reset_failures : Db → Job → Db
unfolding is_campaign
reset_failures db j = record db {
  campaigns = update (is_campaign j j.campaign) (λ k. record k { failures = 0 }) db.campaigns;
}

unfoldable pub record_sent : Db → Job → ℕ → Option ℤ → ℕ → Db
unfolding echo_of merged_ack merge_echo mark_sent apply_early reset_failures
record_sent db j provider ack now =
    let echo = echo_of db j provider in
    reset_failures
      (apply_early (mark_sent (merge_echo db j echo) j provider (merged_ack ack echo) now) j
        provider now)
      j

-- One more failure of a campaign: the third in a row pauses it.
unfoldable pub count_failure : Campaign → Campaign
count_failure k = record k {
  failures = k.failures + 1;
  tripped = if leb 3 (k.failures + 1) then true else k.tripped;
  status = if leb 3 (k.failures + 1) then paused else k.status;
}

-- The `catch` block.
unfoldable pub record_failed : Db → Job → Bool → Text → ℕ → Db
unfolding count_failure is_campaign
record_failed db j offline words now = record db {
  messages =
      update (is_message j.tenant j.message)
        (λ m. record m { status = if offline then sending else uncertain; updated_at = now })
        db.messages;
  outbox =
      update (is_event_of j.tenant j.message)
        (λ e. record e {
          status = if offline then pending else unsure;
          last_error = words;
          retry_at = now + 10;
        })
        db.outbox;
  campaigns = update (is_campaign j j.campaign) count_failure db.campaigns;
}

unfoldable pub settle : Db → Job → Reply → ℕ → Db
unfolding record_sent record_failed
settle db j (confirmed provider ack) now = record_sent db j provider ack now
settle db j unconfirmed now =
    record_failed db j false (text "Provider did not confirm delivery") now
settle db j (threw offline words) now = record_failed db j offline words now

-- One job: the second part is whether the provider was called.
unfoldable pub dispatch : Db → Job → World → Reply → ℕ → Db × Bool
unfolding claim settle
dispatch db j w reply later =
    let (db', claimed) = claim db j w in
    if claimed then (settle db' j reply later, true) else (db', false)
