-- ===== src/Queue/Tables.antt =====
-- The tables that sending a message reads and writes. A query is a search over the rows, an UPDATE
-- changes the rows that its WHERE names. Identifiers are numbers, times are seconds; `updated_at`
-- is kept for messages alone, where the code reads it.
use wppflow_backend.Common.{
  ℕ, Bool, true, false, ◌&&◌, Option, none, some, List, [], ◌∷◌, Text, ◌==◌, if◌then◌else◌, any,
}
use wppflow_backend.Common.Int.{ℤ}

pub data Status : Type 0 where
  sending dispatching sent delivered read failed uncertain : Status

pub record Message : Type 0 where
  pub id : ℕ
  pub tenant : ℕ
  pub conversation : ℕ
  pub status : Status
  pub provider_id : Option ℕ
  pub ack : ℤ
  pub updated_at : ℕ

-- What a conversation's row says of its last message.
pub record Last : Type 0 where
  pub id : Option ℕ
  pub provider_id : Option ℕ
  pub status : Option Status
  pub ack : ℤ

pub record Conversation : Type 0 where
  pub id : ℕ
  pub tenant : ℕ
  pub session : ℕ
  pub last : Last

pub data Delivery : Type 0 where
  pending queued in_dispatch processed unsure cancelled : Delivery

pub record Event : Type 0 where
  pub id : ℕ
  pub tenant : ℕ
  pub message : ℕ
  pub session : ℕ
  pub outgoing : Bool
  pub status : Delivery
  pub last_error : Text
  pub retry_at : ℕ

pub record Session : Type 0 where
  pub tenant : ℕ
  pub name : ℕ
  pub next_send_at : ℕ
  pub lease_until : ℕ

pub data Running : Type 0 where
  running paused other : Running

pub record Campaign : Type 0 where
  pub id : ℕ
  pub tenant : ℕ
  pub status : Running
  pub delay : ℕ
  pub failures : ℕ
  pub tripped : Bool

pub record Recipient : Type 0 where
  pub tenant : ℕ
  pub campaign : ℕ
  pub message : ℕ
  pub phone : Text

pub record Consent : Type 0 where
  pub tenant : ℕ
  pub phone : Text
  pub opted_in : Bool

pub record Suppression : Type 0 where
  pub tenant : ℕ
  pub phone : Text

-- A receipt that came before its message had a provider's identity.
pub record Early : Type 0 where
  pub tenant : ℕ
  pub provider_id : ℕ
  pub ack : ℤ

pub record Receipt : Type 0 where
  pub tenant : ℕ
  pub message : ℕ
  pub provider_id : ℕ
  pub ack : ℤ

pub record Db : Type 0 where
  pub messages : List Message
  pub conversations : List Conversation
  pub outbox : List Event
  pub sessions : List Session
  pub campaigns : List Campaign
  pub recipients : List Recipient
  pub consents : List Consent
  pub suppressions : List Suppression
  pub early : List Early
  pub receipts : List Receipt

-- UPDATE ... SET f WHERE p
abbrev pub update {ℓ} : {A : Type ℓ} → (A → Bool) → (A → A) → List A → List A
update p f [] = []
update p f (x ∷ xs) = (if p x then f x else x) ∷ update p f xs

-- DELETE ... WHERE p
abbrev pub delete {ℓ} : {A : Type ℓ} → (A → Bool) → List A → List A
delete p [] = []
delete p (x ∷ xs) = let rest = delete p xs in if p x then rest else x ∷ rest

abbrev pub is_sending : Status → Bool
is_sending sending = true
is_sending s = false

abbrev pub is_dispatching : Status → Bool
is_dispatching dispatching = true
is_dispatching s = false

abbrev pub is_failed : Status → Bool
is_failed failed = true
is_failed s = false

abbrev pub is_uncertain : Status → Bool
is_uncertain uncertain = true
is_uncertain s = false

abbrev pub is_running : Running → Bool
is_running running = true
is_running s = false

abbrev pub is_in_dispatch : Delivery → Bool
is_in_dispatch in_dispatch = true
is_in_dispatch s = false

-- `status IN ('pending','queued')`
abbrev pub is_waiting : Delivery → Bool
is_waiting pending = true
is_waiting queued = true
is_waiting s = false

abbrev pub same_option : Option ℕ → ℕ → Bool
same_option none b = false
same_option (some a) b = a == b

-- `WHERE id=$1 AND tenant_id=$2`, of messages.
abbrev pub is_message : ℕ → ℕ → Message → Bool
is_message tenant id m = m.id == id && m.tenant == tenant

-- `WHERE aggregate_id=$1 AND tenant_id=$2`, of outbox events.
abbrev pub is_event_of : ℕ → ℕ → Event → Bool
is_event_of tenant id e = e.message == id && e.tenant == tenant

-- The session that a conversation goes through.
abbrev pub in_session : List Conversation → ℕ → ℕ → Bool
in_session cs conversation session = any (λ c. c.id == conversation && c.session == session) cs
