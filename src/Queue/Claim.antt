-- ===== src/Queue/Claim.antt =====
-- The first transaction of `dispatchMessage`: whether this worker may send the message now.
use wppflow_backend.Common.{
  ℕ, ◌+◌, ◌/◌, min, max, Bool, true, false, not, ◌&&◌, Option, none, some, List, Text, text,
  text_eq, ◌==◌, ltb, if◌then◌else◌, any, find, is_some,
}
use wppflow_backend.Queue.Tables.{
  dispatching, failed, Message, Conversation, in_dispatch, cancelled, Campaign, Db, update,
  is_sending, is_dispatching, is_running, is_message, is_event_of, in_session,
}

-- The payload of a job.
pub record Job : Type 0 where
  pub tenant : ℕ
  pub session : ℕ
  pub message : ℕ
  pub conversation : ℕ
  pub campaign : Option ℕ
  pub text_length : ℕ

-- What the world answers: the time, `Math.floor(Math.random() * 6)`, and whether the advisory lock
-- of the session was free.
pub record World : Type 0 where
  pub now : ℕ
  pub dice : ℕ
  pub lock : Bool

-- The campaign, if it is running.
unfoldable pub running_campaign : Db → Job → ℕ → Option Campaign
running_campaign db j c =
    find (λ k. k.id == c && k.tenant == j.tenant && is_running k.status) db.campaigns

unfoldable pub has_consent : Db → ℕ → Text → Bool
has_consent db tenant phone =
    any (λ x. x.tenant == tenant && text_eq x.phone phone && x.opted_in) db.consents

unfoldable pub is_suppressed : Db → ℕ → Text → Bool
is_suppressed db tenant phone =
    any (λ s. s.tenant == tenant && text_eq s.phone phone) db.suppressions

-- The recipient of this message has opted in and is not suppressed.
unfoldable pub is_eligible : Db → Job → ℕ → Bool
unfolding has_consent is_suppressed
is_eligible db j c =
    any
      (λ r.
        r.tenant == j.tenant
        && r.campaign == c
        && r.message == j.message
        && has_consent db r.tenant r.phone
        && not (is_suppressed db r.tenant r.phone))
      db.recipients

-- What is written when the recipient is no longer eligible.
unfoldable pub drop_recipient : Db → Job → ℕ → Db
drop_recipient db j now = record db {
  messages =
      update (λ m. is_message j.tenant j.message m && is_sending m.status)
        (λ m. record m { status = failed; updated_at = now }) db.messages;
  outbox =
      update (is_event_of j.tenant j.message)
        (λ e. record e { status = cancelled; last_error = text "Recipient no longer eligible" })
        db.outbox;
}

-- A message of a session that is with the provider.
unfoldable pub flying : List Conversation → ℕ → ℕ → Message → Bool
flying cs tenant session m =
    m.tenant == tenant && is_dispatching m.status && in_session cs m.conversation session

unfoldable pub in_flight : Db → Job → Bool
unfolding flying
in_flight db j = any (flying db.conversations j.tenant j.session) db.messages

-- The pause between two messages of a campaign is over.
unfoldable pub may_send_at : Db → Job → ℕ → Bool
may_send_at db j now = elim (find (λ s. s.tenant == j.tenant && s.name == j.session) db.sessions) [
  | none ↦ false
  | some s ↦ not (ltb now s.next_send_at)
]

unfoldable pub is_claimable : Job → Message → Bool
is_claimable j m = is_message j.tenant j.message m && is_sending m.status

unfoldable pub pause_of : Campaign → Job → World → ℕ
pause_of k j w =
    max 4 (if k.delay == 0 then 4 else k.delay) + (w.dice + 2 + min 3 (j.text_length / 75))

unfoldable pub mark_dispatching : Db → Job → ℕ → Db
unfolding is_claimable
mark_dispatching db j now = record db {
  messages =
      update (is_claimable j) (λ m. record m { status = dispatching; updated_at = now })
        db.messages;
  outbox =
      update (is_event_of j.tenant j.message) (λ e. record e { status = in_dispatch }) db.outbox;
}

unfoldable pub push_back : Db → Job → ℕ → Db
push_back db j at = record db {
  sessions =
      update (λ s. s.tenant == j.tenant && s.name == j.session)
        (λ s. record s { next_send_at = at }) db.sessions;
}

-- The claim itself: a campaign waits before its next message.
unfoldable pub taken : Db → Job → World → Option Campaign → Db
unfolding mark_dispatching push_back pause_of
taken db j w none = mark_dispatching db j w.now
taken db j w (some k) = push_back (mark_dispatching db j w.now) j (w.now + pause_of k j w)

-- From the lock on. `campaign` is the running campaign of the job, if it has one.
unfoldable pub take : Db → Job → World → Option Campaign → Db × Bool
unfolding in_flight is_claimable taken may_send_at
take db j w campaign =
    if not w.lock
    then (db, false)
    else if in_flight db j
    then (db, false)
    else if is_some campaign && not (may_send_at db j w.now)
    then (db, false)
    else if not (any (is_claimable j) db.messages)
    then (db, false)
    else (taken db j w campaign, true)

-- A campaign that runs, and whether its recipient may still be written to.
unfoldable pub claim_running : Db → Job → World → ℕ → Option Campaign → Db × Bool
unfolding take is_eligible drop_recipient
claim_running db j w c none = (db, false)
claim_running db j w c (some k) =
    if is_eligible db j c then take db j w (some k) else (drop_recipient db j w.now, false)

unfoldable pub claim_for : Db → Job → World → Option ℕ → Db × Bool
unfolding claim_running running_campaign
claim_for db j w none = take db j w none
claim_for db j w (some c) = claim_running db j w c (running_campaign db j c)

-- The second part is whether the message is this worker's to send.
unfoldable pub claim : Db → Job → World → Db × Bool
unfolding claim_for
claim db j w = claim_for db j w j.campaign
