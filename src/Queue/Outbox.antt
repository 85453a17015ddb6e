-- ===== src/Queue/Outbox.antt =====
-- `publishOutbox` and `recoverInterruptedDispatches`.
use wppflow_backend.Common.{
  ℕ, ◌+◌, Bool, not, ◌&&◌, List, [], ◌∷◌, ◌++◌, ◌==◌, ltb, leb, if◌then◌else◌, any, keep, take,
}
use wppflow_backend.Queue.Tables.{
  uncertain, Message, queued, unsure, Event, Db, update, is_dispatching, is_uncertain,
  is_in_dispatch, is_waiting,
}

-- A session that some worker still holds, among those that the message's conversation goes through.
unfoldable pub is_held : Db → ℕ → Message → Bool
is_held db now m =
    any
      (λ c.
        c.id == m.conversation
        && any (λ s. s.tenant == m.tenant && s.name == c.session && ltb now s.lease_until)
            db.sessions)
      db.conversations

-- A message that was with the provider for over two minutes, and whose worker is gone.
unfoldable pub is_interrupted : Db → ℕ → Message → Bool
unfolding is_held
is_interrupted db now m =
    any (λ c. c.id == m.conversation) db.conversations
    && is_dispatching m.status
    && ltb (m.updated_at + 120) now
    && not (is_held db now m)

unfoldable pub recover_interrupted : Db → ℕ → Db
unfolding is_interrupted
recover_interrupted db now =
    let messages =
      update (is_interrupted db now) (λ m. record m { status = uncertain }) db.messages in
    record db {
      messages = messages;
      outbox =
          update
            (λ e.
              is_in_dispatch e.status
              && any (λ m. m.id == e.message && m.tenant == e.tenant && is_uncertain m.status)
                  messages)
            (λ e. record e { status = unsure }) db.outbox;
    }

-- The rows are kept in the order of their identities; 100 at most are taken.
unfoldable pub due_events : Db → ℕ → List Event
due_events db now =
    take 100 (keep (λ e. is_waiting e.status && e.outgoing && leb e.retry_at now) db.outbox)

-- `queue.add` with the message as the job's identity: a job that is there is not added again.
unfoldable pub add_job : List ℕ → ℕ → List ℕ
add_job jobs message = if any (λ j. j == message) jobs then jobs else jobs ++ message ∷ []

unfoldable pub mark_queued : Db → Event → ℕ → Db
mark_queued db row now = record db {
  outbox =
      update (λ e. e.id == row.id && is_waiting e.status)
        (λ e. record e { status = queued; retry_at = now + 10 }) db.outbox;
}

-- The loop over the rows; `connected` says whether a session has a client here.
unfoldable pub publish_rows : (ℕ → ℕ → Bool) → ℕ → List Event → Db × List ℕ → Db × List ℕ
unfolding add_job mark_queued
publish_rows connected now [] s = s
publish_rows connected now (row ∷ rows) (db, jobs) = publish_rows connected now rows (
    if connected row.tenant row.session
    then (mark_queued db row now, add_job jobs row.message)
    else (db, jobs))

unfoldable pub publish_outbox : (ℕ → ℕ → Bool) → Db → List ℕ → ℕ → Db × List ℕ
unfolding recover_interrupted due_events publish_rows
publish_outbox connected db jobs now =
    let db' = recover_interrupted db now in
    publish_rows connected now (due_events db' now) (db', jobs)
