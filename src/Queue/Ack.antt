-- ===== src/Queue/Ack.antt =====
-- `handleAckEvent` of messageService.js: a receipt from the provider.
use wppflow_backend.Common.{
  ℕ, Bool, not, ◌&&◌, ◌||◌, Option, none, some, List, [], ◌∷◌, ◌++◌, ◌==◌, if◌then◌else◌, any, find,
  is_some,
}
use wppflow_backend.Common.Int.{ℤ, pos, negsuc, ltb_ℤ, max_ℤ, min_ℤ}
use wppflow_backend.Queue.Tables.{
  Status, sending, sent, delivered, read, failed, Message, Conversation, Early, Db, update,
  is_failed, same_option,
}

-- The status that an acknowledgement stands for.
unfoldable pub status_of : ℤ → Status
status_of (negsuc n) = failed
status_of (pos n) =
    if n == 0 then sending else if n == 1 then sent else if n == 2 then delivered else read

-- The rows that the UPDATE changes: those that the receipt takes further, and a failure of a message
-- that has no receipt yet.
unfoldable pub moves : ℕ → ℕ → ℤ → Message → Bool
moves tenant provider ack m =
    m.tenant == tenant
    && same_option m.provider_id provider
    && (ltb_ℤ m.ack ack
        || (ltb_ℤ ack (pos 0)
            && not (ltb_ℤ m.ack (pos 0))
            && not (ltb_ℤ (pos 0) m.ack)
            && not (is_failed m.status)))

unfoldable pub acked : ℤ → ℕ → Message → Message
unfolding status_of
acked ack now m = record m { ack = max_ℤ m.ack ack; status = status_of ack; updated_at = now }

-- ON CONFLICT (tenant_id, provider_message_id) DO UPDATE
unfoldable pub merge_early : ℤ → ℤ → ℤ
merge_early old new = if ltb_ℤ (pos 0) new then max_ℤ old new else min_ℤ old new

unfoldable pub keep_early : ℕ → ℕ → ℤ → List Early → List Early
unfolding merge_early
keep_early tenant provider ack [] =
    record { tenant = tenant; provider_id = provider; ack = ack } ∷ []
keep_early tenant provider ack (e ∷ es) =
    if e.tenant == tenant && e.provider_id == provider
    then record e { ack = merge_early e.ack ack } ∷ es
    else e ∷ keep_early tenant provider ack es

-- The last message of the conversation, if it is this one or has no identity.
unfoldable pub is_last_of : Message → ℕ → Conversation → Bool
is_last_of row provider c =
    c.id == row.conversation
    && c.tenant == row.tenant
    && (same_option c.last.id row.id
        || same_option c.last.provider_id provider
        || not (is_some c.last.id))

unfoldable pub apply_ack : Db → ℕ → ℕ → ℤ → ℕ → Message → Db
unfolding moves acked is_last_of
apply_ack db tenant provider ack now row = record db {
  messages = update (moves tenant provider ack) (acked ack now) db.messages;
  receipts =
      db.receipts
      ++ record { tenant = tenant; message = row.id; provider_id = provider; ack = ack } ∷ [];
  conversations =
      update (is_last_of row provider)
        (λ c. record c { last = record c.last { status = some row.status; ack = row.ack } })
        db.conversations;
}

unfoldable pub early_ack : Db → ℕ → ℕ → ℤ → Db
unfolding keep_early
early_ack db tenant provider ack =
    if any (λ m. m.tenant == tenant && same_option m.provider_id provider) db.messages
    then db
    else record db { early = keep_early tenant provider ack db.early }

-- The database after the receipt, and the message that it moved.
unfoldable pub handle_ack : Db → ℕ → ℕ → ℤ → ℕ → Db × Option Message
unfolding apply_ack early_ack moves acked
handle_ack db tenant provider ack now = elim (find (moves tenant provider ack) db.messages) [
  | none ↦ (early_ack db tenant provider ack, none)
  | some m ↦ (apply_ack db tenant provider ack now (acked ack now m), some (acked ack now m))
]
