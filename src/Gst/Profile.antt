-- ===== src/Gst/Profile.antt =====
-- `cleanProfile`: what the buyer's details have to be before an invoice can be made. The fields of
-- the request are texts; a missing one is the empty text.
use wppflow_backend.Common.{
  ℕ, ◌+◌, ◌≤◌, Bool, true, false, not, ◌&&◌, ◌||◌, ◌≡◌, Option, none, some, [], ◌∷◌, ◌++◌, map,
  Text, text, text_eq, text_eq_iff, is_some, is_empty, is_space, collapse, show_nat, leb, ltb, ◌==◌,
  if◌then◌else◌, take, keep, all, has_text, object_names, ◌⊎◌, inl, inr, Bool-cases, and-true,
  length, arith, or_else,
}
use wppflow_backend.Common.Result.{
  Result, ok, ◌>>=◌, ◌>>◌, refuse, from_bind, refuse-ok, ok_injective,
}
use wppflow_backend.Gst.Number.{
  states, state_name, is_state, upper, valid_gstin, valid_capitals, matches_from, pattern_at,
  is_digit,
}

pub record Input : Type 0 where
  pub legal_name : Text
  pub address_line1 : Text
  pub address_line2 : Text
  pub city : Text
  pub state_code : Text
  pub postal_code : Text
  pub gstin : Text
  pub billing_email : Text

pub record Profile : Type 0 where
  pub legal_name : Text
  pub address_line1 : Text
  pub address_line2 : Text
  pub city : Text
  pub state_code : Text
  pub postal_code : Text
  pub country : Text
  pub gstin : Option Text
  pub billing_email : Text

-- The local `text` of `cleanProfile`.
unfoldable pub field_text : Text → Text → ℕ → Bool → Result Text
field_text v label max required = do
  refuse (is_empty (collapse v) && required) 400 (label ++ text " is required")
  refuse (ltb max (length (collapse v))) 400
      (label ++ (text " can be up to " ++ (show_nat max ++ text " characters")))
  ok (collapse v)

-- `padStart(2, "0")`
unfoldable pub pad_two : Text → Text
pad_two [] = text "00"
pad_two (c ∷ []) = 48 ∷ c ∷ []
pad_two (c ∷ d ∷ s) = c ∷ d ∷ s

-- `/^[1-9][0-9]{5}$/`
unfoldable pub is_pin : Text → Bool
is_pin [] = false
is_pin (c ∷ s) = leb 49 c && leb c 57 && length s == 5 && all is_digit s

abbrev plain_char : ℕ → Bool
plain_char c = not (is_space c) && not (c == 64)

-- `[^\s@]+\.[^\s@]+$`, with at least one character before the dot; `read` counts what was read.
after_at : ℕ → Text → Bool
after_at read [] = false
after_at read (c ∷ s) =
    let later = after_at (read + 1) s in
    let ends = not (is_empty s) && all plain_char s in
    plain_char c && ((c == 46 && ltb 0 read && ends) || later)

before_at : ℕ → Text → Bool
before_at read [] = false
before_at read (c ∷ s) =
    let later = before_at (read + 1) s in
    if c == 64 then ltb 0 read && after_at 0 s else plain_char c && later

-- `/^[^\s@]+@[^\s@]+\.[^\s@]+$/`
unfoldable pub is_email : Text → Bool
unfolding before_at after_at is_space
is_email s = before_at 0 s

unfoldable pub squeeze_gstin : Text → Text
squeeze_gstin v = map upper (keep (λ c. not (is_space c)) v)

unfoldable pub clean_gstin : Text → Text → Result (Option Text)
clean_gstin [] state = ok none
clean_gstin (c ∷ s) state = do
  refuse (not (valid_gstin (c ∷ s))) 400 (
      text
        "That GSTIN is not valid. Check the 15 characters, or leave it blank if the company has none.")
  refuse (not (text_eq (take 2 (c ∷ s)) state)) 400 (
      text "The GSTIN starts with "
      ++ (take 2 (c ∷ s)
          ++ (text " ("
              ++ (or_else (state_name (take 2 (c ∷ s)) states) (text "undefined")
                  ++ text "), so choose that state"))))
  ok (some (c ∷ s))

unfoldable pub clean_profile : Input → Result Profile
unfolding is_state field_text pad_two is_pin is_email squeeze_gstin clean_gstin
clean_profile input = do
  refuse (not (is_state (pad_two input.state_code))) 400
      (text "Choose the state your company is in")
  postal ← field_text input.postal_code (text "PIN code") 10 true
  refuse (not (is_pin postal)) 400 (text "Enter a 6 digit PIN code")
  gstin ← clean_gstin (squeeze_gstin input.gstin) (pad_two input.state_code)
  email ← field_text input.billing_email (text "Billing email") 255 false
  refuse (not (is_empty email) && not (is_email email)) 400 (text "Enter a valid billing email")
  legal ← field_text input.legal_name (text "Company legal name") 150 true
  line1 ← field_text input.address_line1 (text "Address") 200 true
  line2 ← field_text input.address_line2 (text "Address line 2") 200 false
  city ← field_text input.city (text "City") 100 true
  ok (record {
    legal_name = legal;
    address_line1 = line1;
    address_line2 = line2;
    city = city;
    state_code = pad_two input.state_code;
    postal_code = postal;
    country = text "IN";
    gstin = gstin;
    billing_email = email;
  })

-- What an invoice relies on.
pub record IsUsable (p : Profile) : Type 0 where
  -- a code of the table, or the name of something that every JavaScript object has
  pub known_state :
      (is_some (state_name p.state_code states) ≡ true)
      ⊎ (has_text p.state_code object_names ≡ true)
  pub pin : is_pin p.postal_code ≡ true
  pub gstin_fits :
      (g : Text)
      → p.gstin ≡ some g
      → (valid_gstin g ≡ true)
        × (take 2 g ≡ p.state_code)
        × (is_some (state_name p.state_code states) ≡ true)
  pub named : (length p.legal_name ≤ 150) × (is_empty p.legal_name ≡ false)
  pub placed : (length p.city ≤ 100) × (is_empty p.city ≡ false)

field_text_fits :
    (v label : Text) (max : ℕ) (required : Bool) (t : Text)
    → field_text v label max required ≡ ok t
    → (length t ≤ max) × ((is_empty t && required) ≡ false)
unfolding field_text
field_text_fits v label max required t h = ground arith

upper_digit : (c : ℕ) → is_digit (upper c) ≡ true → upper c ≡ c
unfolding upper
upper_digit c h = ground arith

-- A valid GSTIN starts with a code of the table.
valid_gstin-state :
    (g : Text) → valid_gstin g ≡ true → is_some (state_name (take 2 g) states) ≡ true
unfolding valid_gstin valid_capitals matches_from pattern_at
valid_gstin-state [] h = cc
valid_gstin-state (c ∷ []) h = ground arith
valid_gstin-state (c ∷ d ∷ s) h =
    let (rest, _) = and-true _ _ h in
    let (shape, listed) = and-true _ _ rest in
    let (first, shape') = and-true _ _ shape in
    let (second, _) = and-true _ _ shape' in
    rw (upper_digit c first, upper_digit d second) at listed

clean_gstin_fits :
    (v state : Text) (o : Option Text)
    → clean_gstin v state ≡ ok o
    → (g : Text) → o ≡ some g
    → (valid_gstin g ≡ true) × (take 2 g ≡ state) × (is_some (state_name state states) ≡ true)
unfolding clean_gstin
clean_gstin_fits [] state o h g e = cc
clean_gstin_fits (c ∷ s) state o h g e =
    let valid : valid_gstin g ≡ true = ground arith in
    let same : take 2 g ≡ state = ground (arith, text_eq_iff (take 2 (c ∷ s)) state) in
    (valid, same, rw (← same) (valid_gstin-state g valid))

is_state-cases :
    (code : Text)
    → is_state code ≡ true
    → (is_some (state_name code states) ≡ true) ⊎ (has_text code object_names ≡ true)
unfolding is_state
is_state-cases code h = elim (Bool-cases (is_some (state_name code states))) [
  | inl listed ↦ inl listed
  | inr other ↦ inr (rw other at h)
]

not-false : (b : Bool) → not b ≡ false → b ≡ true
not-false b h = ground arith

-- Details that were accepted: the state code is one of the table or a name that every JavaScript object
-- has, the PIN code has six digits, a GSTIN is valid and its state is that one, which then is one of the
-- table, and the name and city are there and not too long.
pub clean_profile-IsUsable : (input : Input) (p : Profile) → clean_profile input ≡ ok p → IsUsable p
unfolding clean_profile
clean_profile-IsUsable input p h =
    let code = pad_two input.state_code in
    from_bind (refuse (not (is_state code)) 400 _) _ h λ u known h1.
      from_bind (field_text input.postal_code (text "PIN code") 10 true) _ h1 λ postal _ h2.
        from_bind (refuse (not (is_pin postal)) 400 _) _ h2 λ v pin h3.
          from_bind (clean_gstin (squeeze_gstin input.gstin) code) _ h3 λ gstin tax h4.
            from_bind (field_text input.billing_email (text "Billing email") 255 false) _ h4
              λ email _ h5.
                from_bind (refuse (not (is_empty email) && not (is_email email)) 400 _) _ h5
                  λ w _ h6.
                    from_bind (field_text input.legal_name (text "Company legal name") 150 true) _
                      h6
                      λ legal name h7.
                        from_bind (field_text input.address_line1 (text "Address") 200 true) _ h7
                          λ line1 _ h8.
                            from_bind
                              (field_text input.address_line2 (text "Address line 2") 200 false) _
                              h8
                              λ line2 _ h9.
                                from_bind (field_text input.city (text "City") 100 true) _ h9
                                  λ city place last.
                                    let name_fits =
                                      field_text_fits input.legal_name (text "Company legal name")
                                        150 true legal name in
                                    let place_fits =
                                      field_text_fits input.city (text "City") 100 true city
                                        place in
                                    let known' = is_state-cases code (
                                      not-false _
                                        (refuse-ok (not (is_state code)) 400 _ u known)) in
                                    let pin' =
                                      not-false _ (refuse-ok (not (is_pin postal)) 400 _ v pin) in
                                    let fits =
                                      clean_gstin_fits (squeeze_gstin input.gstin) code gstin tax in
                                    let made : IsUsable (record {
                                      legal_name = legal;
                                      address_line1 = line1;
                                      address_line2 = line2;
                                      city = city;
                                      state_code = code;
                                      postal_code = postal;
                                      country = text "IN";
                                      gstin = gstin;
                                      billing_email = email;
                                    }) =
                                      record {
                                        known_state = known';
                                        pin = pin';
                                        gstin_fits = fits;
                                        named = ground arith;
                                        placed = ground arith;
                                      } in
                                    rw (ok_injective _ _ last) at made
