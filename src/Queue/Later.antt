-- ===== src/Queue/Later.antt =====
-- What workers, receipts and the publisher can do to a message after a send of it that may have
-- reached the customer: the steps of messageQueue.js and of `handleAckEvent`, in any order.
use mathlib.Core.Path.{subst}
use wppflow_backend.Common.{
  ℕ, Bool, true, false, List, [], ◌∷◌, ◌++◌, Text, ◌≡◌, refl, arith, All, Bool-cases, inl, inr,
}
use wppflow_backend.Common.Int.{ℤ, pos, ltb_ℤ}
use wppflow_backend.Common.Rows.{All-any}
use wppflow_backend.Queue.Tables.{uncertain, Message, Db, update, is_message}
use wppflow_backend.Queue.Claim.{Job, World, is_claimable, claim}
use wppflow_backend.Queue.Ack.{handle_ack}
use wppflow_backend.Queue.Settle.{Reply, settle, record_failed}
use wppflow_backend.Queue.Outbox.{publish_outbox}
use wppflow_backend.Queue.Safety.{claim-waiting}
use wppflow_backend.Queue.Rests.{
  Rests, Elsewhere, All-without, Resting, unclaimable, claim-Rests, claim-Elsewhere,
  handle_ack-Rests, settle-Rests, publish_outbox-Rests,
}

-- The tables, and the jobs that workers have claimed and not yet settled.
pub record Office : Type 0 where
  pub db : Db
  pub flights : List Job

-- One step of a worker, of a receipt that comes, or of the publisher. A job is settled only by the
-- worker that has claimed it.
pub data Step : Office → Office → Type 0 where
  claims :
      (o : Office) (j : Job) (w : World)
      → (claim o.db j w).1 ≡ true
      → Step o (record { db = (claim o.db j w).0; flights = j ∷ o.flights })
  leaves :
      (o : Office) (j : Job) (w : World)
      → (claim o.db j w).1 ≡ false
      → Step o (record o { db = (claim o.db j w).0 })
  settles :
      (o : Office) (others more : List Job) (j : Job) (reply : Reply) (now : ℕ)
      → o.flights ≡ others ++ j ∷ more
      → Step o (record { db = settle o.db j reply now; flights = others ++ more })
  hears :
      (o : Office) (tenant provider : ℕ) (ack : ℤ) (now : ℕ)
      → Step o (record o { db = (handle_ack o.db tenant provider ack now).0 })
  publishes :
      (o : Office) (connected : ℕ → ℕ → Bool) (jobs : List ℕ) (now : ℕ)
      → Step o (record o { db = (publish_outbox connected o.db jobs now).0 })

pub data Reach (s : Office) : Office → Type 0 where
  here : Reach s s
  next : {t u : Office} → Reach s t → Step t u → Reach s u

abbrev pub Quiet : ℕ → ℕ → Office → Type 0
Quiet tenant id o = All (Rests tenant id) o.db.messages × All (Elsewhere tenant id) o.flights

Step-Quiet : (tenant id : ℕ) {o p : Office} → Step o p → Quiet tenant id o → Quiet tenant id p
unfolding Resting
Step-Quiet tenant id (claims o j w claimed) (h, away) =
    (claim-Rests tenant id o.db j w h, (claim-Elsewhere tenant id o.db j w h claimed, away))
Step-Quiet tenant id (leaves o j w refused) (h, away) = (claim-Rests tenant id o.db j w h, away)
Step-Quiet tenant id (settles o others more j reply now e) (h, away) =
    let (rest, other) =
      All-without (Elsewhere tenant id) others more j (subst (All (Elsewhere tenant id)) e away) in
    (settle-Rests tenant id o.db j reply now other h, rest)
Step-Quiet tenant id (hears o t provider ack now) (h, away) =
    (handle_ack-Rests tenant id o.db t provider ack now h, away)
Step-Quiet tenant id (publishes o connected jobs now) (h, away) =
    (publish_outbox-Rests tenant id connected o.db jobs now h, away)

Reach-Quiet : (tenant id : ℕ) {o p : Office} → Reach o p → Quiet tenant id o → Quiet tenant id p
Reach-Quiet tenant id here q = q
Reach-Quiet tenant id (next r s) q = Step-Quiet tenant id s (Reach-Quiet tenant id r q)

uncertain-Rests :
    (db : Db) (j : Job) (words : Text) (now : ℕ)
    → All (λ m. is_message j.tenant j.message m ≡ true → ltb_ℤ m.ack (pos 0) ≡ false) db.messages
    → All (Rests j.tenant j.message) (record_failed db j false words now).messages
unfolding record_failed
uncertain-Rests db j words now = rows db.messages
  where
    rows :
        (ms : List Message)
        → All (λ m. is_message j.tenant j.message m ≡ true → ltb_ℤ m.ack (pos 0) ≡ false) ms
        → All (Rests j.tenant j.message) (
            update
              (is_message j.tenant j.message)
              (λ m. record m { status = uncertain; updated_at = now })
              ms)
    rows [] h = tt
    rows (m ∷ ms) (h, hs) = elim (Bool-cases (is_message j.tenant j.message m)) [
      | inl hit ↦ rw hit ((λ e. (refl, h hit)), rows ms hs)
      | inr miss ↦ rw miss ((λ e. cc), rows ms hs)
    ]

-- A send that may have reached the customer, because the provider did not confirm it or failed
-- otherwise than by being offline, is never made again: after any steps of workers, receipts and the
-- publisher, in any order, no job of the message is claimed, if no other worker had claimed the message
-- when the failure was written, and the message had no negative acknowledgement.
pub uncertain_never_resent :
    (db : Db) (j : Job) (words : Text) (now : ℕ) (flights : List Job) (later : Office) (j' : Job)
    (w : World)
    → All (λ m. is_message j.tenant j.message m ≡ true → ltb_ℤ m.ack (pos 0) ≡ false) db.messages
    → All (Elsewhere j.tenant j.message) flights
    → Reach (record { db = record_failed db j false words now; flights = flights }) later
    → j'.message ≡ j.message
    → j'.tenant ≡ j.tenant
    → (claim later.db j' w).1 ≡ false
uncertain_never_resent db j words now flights later j' w unread away reach same own =
    let (rest, _) =
      Reach-Quiet j.tenant j.message reach (uncertain-Rests db j words now unread, away) in
    claim-waiting later.db j' w (
      All-any (is_claimable j') (Rests j.tenant j.message) later.db.messages
        (unclaimable j.tenant j.message j' (ground arith)) rest)
