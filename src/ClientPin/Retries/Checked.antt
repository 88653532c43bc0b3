-- ===== src/ClientPin/Retries/Checked.antt =====
-- The subcommands of src/client_pin.c once their parameters are known to be there.
use meow_key.Prelude.{ℕ, ◌-◌, ◌<◌, true, false, List, ◌++◌}
use meow_key.Prelude.{◌≡◌, ◌≢◌, refl, ◌⊎◌, inl, inr, arith, length, ◌==◌, if◌then◌else◌}
use meow_key.Prelude.{Bool-cases, Option-cases, ap, ◌∙◌}
use meow_key.ClientPin.Crypto.{
  Primitives, aes256_cbc_crypt, derive_shared_secret, constant_time_equal,
}
use meow_key.ClientPin.State.{PinState, State, Env}
use meow_key.ClientPin.Responses.{Reply, failure, set_pin_state, clear_runtime_pin_token}
use meow_key.ClientPin.Responses.{
  rotate_runtime_pin_token, load_key_agreement, build_key_agreement_response,
}
use meow_key.ClientPin.Checks.{PinHash, hashed, rejected, verify_pin_hash_or_consume_retry}
use meow_key.ClientPin.Checks.{validate_shared_secret_hmac, parse_new_pin_hash}
use meow_key.ClientPin.Handlers.{store_new_pin, set_pin_checked, change_pin_verified}
use meow_key.ClientPin.Handlers.{change_pin_checked, issue_token, get_pin_token_checked}
use meow_key.ClientPin.Retries.{RightPin, Effect, kept, spent, first_pin, proved}

module _ (p : Primitives) where
  -- The two ways in which the check of a presented PIN comes out while retries are left.
  verify-cases :
      (env : Env) (provided : List ℕ) (st : State)
      → 0 < st.pin.retries
      → ((verify_pin_hash_or_consume_retry env provided st ≡ (0, st))
          × (constant_time_equal provided st.pin.pin_hash 16 ≡ true))
        ⊎ ((status : ℕ) × (st' : State) × (verify_pin_hash_or_consume_retry env provided st
              ≡ (status, st'))
            × (status ≢ 0)
            × (st'.pin ≡ record (st.pin) { retries = st.pin.retries - 1 })
            × (st'.runtime_pin_token ≡ st.runtime_pin_token))
  unfolding verify_pin_hash_or_consume_retry set_pin_state
  verify-cases env provided st h =
      elim (Bool-cases (constant_time_equal provided st.pin.pin_hash 16)) [
        | inl e ↦ inl (rw e, e)
        | inr e ↦ inr (
          (if (st.pin.retries - 1) == 0 then 0x32 else 0x31),
          record st { pin = record (st.pin) { retries = st.pin.retries - 1 } },
          ground arith,
          ground arith,
          refl,
          refl,
        )
      ]

  module _ (Carries : List ℕ → List ℕ → Type 0) (env : Env) (capacity : ℕ) where
    issue_token-pin :
        (secret : List ℕ) (st : State)
        → (issue_token p env capacity secret st).1.pin ≡ record (st.pin) { retries = 8 }
    unfolding issue_token rotate_runtime_pin_token set_pin_state
    issue_token-pin secret st = refl

    store_new_pin-pin :
        (hash : List ℕ) (st : State)
        → let pin = (store_new_pin p env capacity hash st).1.pin in
          (pin.configured ≡ true) × (pin.retries ≡ 8)
    unfolding store_new_pin set_pin_state clear_runtime_pin_token
    store_new_pin-pin hash st = ground arith

    pub get_pin_token-Effect :
        (peer enc : List ℕ) (st : State)
        → Carries peer enc
        → st.pin.configured ≡ true
        → 0 < st.pin.retries
        → Effect p Carries st (get_pin_token_checked p env capacity peer enc st).1
    unfolding get_pin_token_checked
    get_pin_token-Effect peer enc st has_hash c h = elim (Bool-cases (length enc == 16)) [
      | inr e ↦ rw e (kept refl refl)
      | inl e ↦ elim (Option-cases (derive_shared_secret p st.key_agreement peer)) [
        | inl d ↦ rw (e, d) (kept refl refl)
        | inr (secret, d) ↦ elim (Option-cases (aes256_cbc_crypt p false secret enc)) [
          | inl a ↦ rw (e, d, a) (kept refl refl)
          | inr (provided, a) ↦ elim (verify-cases env provided st h) [
            | inl (v, same) ↦
                rw (e, d, a, v)
                  (proved peer enc has_hash c h
                    (record {
                      secret = secret;
                      provided = provided;
                      derived = d;
                      decrypted = a;
                      same = same;
                    })
                    (ap (λ (x : PinState). x.configured) (issue_token-pin secret st) ∙ c)
                    (ap (λ (x : PinState). x.retries) (issue_token-pin secret st)))
            | inr (status, st', v, bad, pin, token) ↦
                let wrong : (status == 0) ≡ false = ground arith in
                rw (e, d, a, v, wrong) (spent c h pin token)
          ]
        ]
      ]
    ]

    change_pin_verified-Effect :
        (secret enc : List ℕ) (st : State) (peer hash_enc : List ℕ)
        → Carries peer hash_enc
        → st.pin.configured ≡ true
        → 0 < st.pin.retries
        → RightPin p st peer hash_enc
        → Effect p Carries st (change_pin_verified p env capacity secret enc (0, st)).1
    unfolding change_pin_verified
    change_pin_verified-Effect secret enc st peer hash_enc has_hash c h right =
        go (parse_new_pin_hash p secret enc)
      where
        go :
            (x : PinHash)
            → Effect p Carries st
                (elim x as (λ y. Reply × State) [
                  | rejected why ↦ (failure why, st)
                  | hashed hash ↦ store_new_pin p env capacity hash st
                ]).1
        go (rejected why) = kept refl refl
        go (hashed hash) =
            let e = store_new_pin-pin hash st in proved peer hash_enc has_hash c h right e.0 e.1

    pub change_pin-Effect :
        (peer param new_enc enc : List ℕ) (st : State)
        → Carries peer enc
        → st.pin.configured ≡ true
        → 0 < st.pin.retries
        → Effect p Carries st (change_pin_checked p env capacity peer param new_enc enc st).1
    unfolding change_pin_checked
    change_pin-Effect peer param new_enc enc st has_hash c h =
        elim (Bool-cases (length enc == 16)) [
          | inr e ↦ rw e (kept refl refl)
          | inl e ↦ elim (Option-cases (derive_shared_secret p st.key_agreement peer)) [
            | inl d ↦ rw (e, d) (kept refl refl)
            | inr (secret, d) ↦
                elim (Bool-cases
                  (validate_shared_secret_hmac p secret (new_enc ++ enc) param == 0)) [
                    | inr w ↦ rw (e, d, w) (kept refl refl)
                    | inl w ↦ elim (Option-cases (aes256_cbc_crypt p false secret enc)) [
                      | inl a ↦ rw (e, d, w, a) (kept refl refl)
                      | inr (provided, a) ↦ elim (verify-cases env provided st h) [
                        | inl (v, same) ↦
                            rw (e, d, w, a, v)
                              (change_pin_verified-Effect secret new_enc st peer enc has_hash c h
                                (record {
                                  secret = secret;
                                  provided = provided;
                                  derived = d;
                                  decrypted = a;
                                  same = same;
                                }))
                        | inr (status, st', v, bad, pin, token) ↦
                            let wrong : (status == 0) ≡ false = ground arith in
                            rw (e, d, w, a, v)
                              (unfold change_pin_verified in rw wrong (spent c h pin token))
                      ]
                    ]
                  ]
          ]
        ]

    pub set_pin-Effect :
        (peer param enc : List ℕ) (st : State)
        → st.pin.configured ≡ false
        → Effect p Carries st (set_pin_checked p env capacity peer param enc st).1
    unfolding set_pin_checked
    set_pin-Effect peer param enc st c =
        elim (Option-cases (derive_shared_secret p st.key_agreement peer)) [
          | inl d ↦ rw (d, set_pin_checked) (kept refl refl)
          | inr (secret, d) ↦
              elim (Bool-cases (validate_shared_secret_hmac p secret enc param == 0)) [
                | inr w ↦ rw (d, w, set_pin_checked) (kept refl refl)
                | inl w ↦ rw (d, w, set_pin_checked) (go secret (parse_new_pin_hash p secret enc))
              ]
        ]
      where
        go :
            (secret : List ℕ) (x : PinHash)
            → Effect p Carries st
                (elim x as (λ y. Reply × State) [
                  | rejected why ↦ (failure why, st)
                  | hashed hash ↦ store_new_pin p env capacity hash st
                ]).1
        go secret (rejected why) = kept refl refl
        go secret (hashed hash) = let e = store_new_pin-pin hash st in first_pin c e.0 e.1

    pub key_agreement-Effect :
        (st : State) → Effect p Carries st (build_key_agreement_response env capacity st).1
    unfolding build_key_agreement_response load_key_agreement
    key_agreement-Effect st = elim (Option-cases st.key_agreement) [
      | inl e ↦ rw e (kept refl refl)
      | inr (k, e) ↦ rw e (kept refl refl)
    ]
