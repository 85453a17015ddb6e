-- ===== src/Examples/Models.antt =====
-- A private request at a small input: the first provider fails, the second answers.
use wppflow_backend.Common.{
  true, false, none, List, [], ◌∷◌, text, All, ◌==◌, if◌then◌else◌, ◌≡◌, refl,
}
use wppflow_backend.Router.Provider.{Provider, State, openai, gemini}
use wppflow_backend.Router.Complete.{World, Request, answered, failed, is_strict, complete}
use wppflow_backend.Router.Privacy.{complete_private}

abbrev first_fails : World
first_fails = record {
  ask = λ n p m. (
    1000,
    if n == 0
        then failed (record { status = 500; upstream = 500; retry_after = 0; daily = false })
        else answered (text "Hello"),
  );
  balanced = true;
  require_no_training = false;
}

abbrev private_request : Request
private_request = record { of_customer = true; private_only = true; background = false }

abbrev three : List Provider
three =
    record {
      id = text "a";
      style = openai;
      is_free = true;
      no_training = true;
      rpm = 10;
      models = text "m" ∷ [];
    }
    ∷ record {
      id = text "b";
      style = gemini;
      is_free = true;
      no_training = false;
      rpm = 10;
      models = text "m" ∷ [];
    }
    ∷ record {
      id = text "c";
      style = gemini;
      is_free = true;
      no_training = true;
      rpm = 10;
      models = text "m" ∷ [];
    }
    ∷ []

abbrev quiet_state : State
quiet_state = record {
  now = 0;
  cooled = [];
  model_cooled = [];
  windows = [];
  turn = 0;
  sent = [];
  last_error = none;
}

strict_test : is_strict first_fails private_request ≡ true
unfolding is_strict
strict_test = refl

complete_private_example :
    All
      (λ x. x.provider.no_training ≡ true)
      (complete first_fails private_request three quiet_state).0.sent
complete_private_example =
    complete_private first_fails private_request three quiet_state strict_test
