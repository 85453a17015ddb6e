-- ===== src/Examples/Records.antt =====
-- The theorems of taxes, buyers and the queue at small inputs.
use wppflow_backend.Common.{
  ℕ, ◌+◌, ◌≤◌, true, false, none, some, [], ◌∷◌, map, text, text_eq, collapse, ◌≡◌, refl, arith,
}
use wppflow_backend.Common.Int.{pos}
use wppflow_backend.Common.Result.{ok}
use wppflow_backend.Gst.Tax.{inclusive, tax_on, tax_on-parts}
use wppflow_backend.Gst.Number.{valid_capitals, valid_gstin, state_name, states}
use wppflow_backend.Gst.Typos.{valid_capitals-typo}
use wppflow_backend.Gst.Profile.{Input, Profile, IsUsable, clean_profile, clean_profile-IsUsable}
use wppflow_backend.Queue.Tables.{Message, Db, sending, running}
use wppflow_backend.Queue.Claim.{Job, World, claim, flying}
use wppflow_backend.Queue.Settle.{record_failed}
use wppflow_backend.Queue.Ack.{handle_ack}
use wppflow_backend.Queue.Flight.{OneInFlight, Fits, claim_one}
use wppflow_backend.Queue.Outbox.{publish_outbox}
use wppflow_backend.Queue.Safety.{IsRightful, claim-IsRightful, breaker_stops}
use wppflow_backend.Queue.Later.{Office, hears, publishes, here, next, uncertain_never_resent}
use wppflow_backend.Queue.Receipts.{
  Grows, untimed, handle_ack-Grows, handle_ack_comm, handle_ack-twice,
}

tax_on-parts_example :
    let t = tax_on 99999 inclusive true 18 in
    (t.taxable + t.tax ≡ t.total)
    × (t.cgst + t.sgst + t.igst ≡ t.tax)
    × (t.sgst ≤ t.cgst)
    × (t.cgst ≤ t.sgst + 1)
tax_on-parts_example = tax_on-parts 99999 inclusive true 18

valid_test : valid_capitals (text "27AAPFU0939F1ZV") ≡ true
unfolding valid_capitals text_eq
valid_test = refl

typo_test : valid_capitals (text "27AAPFU0938F1ZV") ≡ false
unfolding valid_capitals text_eq
typo_test = refl

abbrev letter_v : ℕ
letter_v = 86

valid_capitals-typo_example : letter_v ≡ letter_v
valid_capitals-typo_example =
    valid_capitals-typo (text "27AAPFU0939F1Z") [] letter_v letter_v valid_test valid_test

abbrev buyer : Input
buyer = record {
  legal_name = text "Asha Homes";
  address_line1 = text "1 Main Road";
  address_line2 = [];
  city = text "Pune";
  state_code = text "27";
  postal_code = text "411001";
  gstin = text "27AAPFU0939F1ZV";
  billing_email = [];
}

abbrev buyer_profile : Profile
buyer_profile = record {
  legal_name = text "Asha Homes";
  address_line1 = text "1 Main Road";
  address_line2 = [];
  city = text "Pune";
  state_code = text "27";
  postal_code = text "411001";
  country = text "IN";
  gstin = some (text "27AAPFU0939F1ZV");
  billing_email = [];
}

buyer_test : clean_profile buyer ≡ ok buyer_profile
unfolding clean_profile state_name states text_eq collapse valid_gstin
buyer_test = refl

clean_profile-IsUsable_example : IsUsable buyer_profile
clean_profile-IsUsable_example = clean_profile-IsUsable buyer buyer_profile buyer_test

abbrev row : Message
row = record {
  id = 7;
  tenant = 1;
  conversation = 5;
  status = sending;
  provider_id = none;
  ack = pos 0;
  updated_at = 0;
}

abbrev shop : Db
shop = record {
  messages = row ∷ [];
  conversations =
      record {
        id = 5;
        tenant = 1;
        session = 2;
        last = record { id = none; provider_id = none; status = none; ack = pos 0 };
      }
      ∷ [];
  outbox = [];
  sessions = record { tenant = 1; name = 2; next_send_at = 50; lease_until = 0 } ∷ [];
  campaigns =
      record { id = 3; tenant = 1; status = running; delay = 4; failures = 2; tripped = false }
      ∷ [];
  recipients = record { tenant = 1; campaign = 3; message = 7; phone = text "911" } ∷ [];
  consents = record { tenant = 1; phone = text "911"; opted_in = true } ∷ [];
  suppressions = [];
  early = [];
  receipts = [];
}

abbrev shop_job : Job
shop_job = record {
  tenant = 1;
  session = 2;
  message = 7;
  conversation = 5;
  campaign = some 3;
  text_length = 20;
}

abbrev noon : World
noon = record { now = 100; dice = 1; lock = true }

claim_test : (claim shop shop_job noon).1 ≡ true
unfolding claim text_eq
claim_test = refl

claim-IsRightful_example : IsRightful shop shop_job noon
claim-IsRightful_example = claim-IsRightful shop shop_job noon claim_test

shop-one : OneInFlight shop
unfolding flying
shop-one t s = ground arith

shop-Fits : Fits shop shop_job
shop-Fits = record { unique = omega arith; session = ((λ e s h. ground arith), tt) }

claim_one_example : OneInFlight (claim shop shop_job noon).0
claim_one_example = claim_one shop shop_job noon shop-one shop-Fits

abbrev doubtful : Db
doubtful = record_failed shop shop_job false (text "no answer") 100

-- After the failure a receipt comes, and then the publisher runs.
abbrev heard : Db
heard = (handle_ack doubtful 1 44 (pos 0) 101).0

abbrev published : Office
published = record { db = (publish_outbox (λ t s. true) heard [] 102).0; flights = [] }

uncertain_never_resent_example : (claim published.db shop_job noon).1 ≡ false
uncertain_never_resent_example =
    uncertain_never_resent shop shop_job (text "no answer") 100 [] published shop_job noon
      ((λ e. refl), tt) tt
      (next (next here (hears (record { db = doubtful; flights = [] }) 1 44 (pos 0) 101))
        (publishes (record { db = heard; flights = [] }) (λ t s. true) [] 102))
      refl refl

breaker_stops_example :
    (claim (record_failed shop shop_job true (text "offline") 100) shop_job noon).1 ≡ false
breaker_stops_example =
    breaker_stops shop shop_job shop_job true (text "offline") 100 3 noon refl refl refl
      ((λ e t. omega arith), tt)

abbrev sent_row : Message
sent_row = record row { provider_id = some 44 }

abbrev sent_shop : Db
sent_shop = record shop { messages = sent_row ∷ [] }

handle_ack-Grows_example : Grows (sent_row ∷ []) (handle_ack sent_shop 1 44 (pos 2) 101).0.messages
handle_ack-Grows_example = handle_ack-Grows sent_shop 1 44 (pos 2) 101

handle_ack_comm_example :
    map untimed (handle_ack (handle_ack sent_shop 1 44 (pos 1) 101).0 1 44 (pos 3) 102).0.messages
    ≡ map untimed (handle_ack (handle_ack sent_shop 1 44 (pos 3) 102).0 1 44 (pos 1) 101).0.messages
handle_ack_comm_example = handle_ack_comm sent_shop 1 44 3 102 1 44 1 101

handle_ack-twice_example :
    (handle_ack (handle_ack sent_shop 1 44 (pos 2) 101).0 1 44 (pos 2) 101).1 ≡ none
handle_ack-twice_example = handle_ack-twice sent_shop 1 44 2 101
