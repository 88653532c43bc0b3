-- ===== src/ClientPin/Retries/Requests.antt =====
-- The handlers of src/client_pin.c and the requests they serve.
use meow_key.Prelude.{ℕ, ◌<◌, Bool, true, false, List, Option, none, some}
use meow_key.Prelude.{◌≡◌, refl, inl, inr, arith, not, ◌==◌, if◌then◌else◌}
use meow_key.Prelude.{Bool-cases, Option-cases, ap, sym}
use meow_key.ClientPin.Crypto.{Primitives}
use meow_key.ClientPin.Request.{
  Request, Parsed, parsed, refused, unfinished, parse_client_pin_request,
}
use meow_key.ClientPin.State.{State, Env}
use meow_key.ClientPin.Responses.{Reply, failure}
use meow_key.ClientPin.Handlers.{handle_set_pin}
use meow_key.ClientPin.Handlers.{change_pin_checked, handle_change_pin, get_pin_token_checked}
use meow_key.ClientPin.Handlers.{handle_get_pin_token, handle_subcommand, client_pin_handle}
use meow_key.ClientPin.Retries.{Effect, kept, Carried}
use meow_key.ClientPin.Retries.Checked.{
  get_pin_token-Effect, change_pin-Effect, set_pin-Effect, key_agreement-Effect,
}

module _ (p : Primitives) (Carries : List ℕ → List ℕ → Type 0) (env : Env) (capacity : ℕ) where
  handle_set_pin-Effect :
      (r : Request) (st : State) → Effect p Carries st (handle_set_pin p env capacity r st).1
  unfolding handle_set_pin
  handle_set_pin-Effect r st =
      let same : Effect p Carries st st = kept refl refl in
      elim (Option-cases r.key_agreement) [
        | inl a ↦ ground (arith, same, a)
        | inr (peer, a) ↦ elim (Option-cases r.pin_uv_auth_param) [
          | inl b ↦ ground (arith, same, a, b)
          | inr (param, b) ↦ elim (Option-cases r.new_pin_enc) [
            | inl d ↦ ground (arith, same, a, b, d)
            | inr (enc, d) ↦
                ground
                  (arith, same, a, b, d, set_pin-Effect p Carries env capacity peer param enc st)
          ]
        ]
      ]

  checked :
      {st : State} {x y : Reply × State} → x ≡ y → Effect p Carries st y.1 → Effect p Carries st x.1
  checked e done = rw e done

  handle_change_pin-checked :
      (r : Request) (st : State) (peer param new_enc enc : List ℕ)
      → st.pin.configured ≡ true
      → (st.pin.retries == 0) ≡ false
      → r.key_agreement ≡ some peer
      → r.pin_uv_auth_param ≡ some param
      → r.new_pin_enc ≡ some new_enc
      → r.pin_hash_enc ≡ some enc
      → handle_change_pin p env capacity r st
        ≡ change_pin_checked p env capacity peer param new_enc enc st
  unfolding handle_change_pin
  handle_change_pin-checked r st peer param new_enc enc c z a b d e = rw (a, b, d, e, c, z) refl

  handle_get_pin_token-checked :
      (r : Request) (st : State) (peer enc : List ℕ)
      → st.pin.configured ≡ true
      → (st.pin.retries == 0) ≡ false
      → r.key_agreement ≡ some peer
      → r.pin_hash_enc ≡ some enc
      → handle_get_pin_token p env capacity r st ≡ get_pin_token_checked p env capacity peer enc st
  unfolding handle_get_pin_token
  handle_get_pin_token-checked r st peer enc c z a e = rw (a, e, c, z) refl

  handle_change_pin-Effect :
      (r : Request) (st : State)
      → ((peer enc : List ℕ)
          → r.key_agreement ≡ some peer
          → r.pin_hash_enc ≡ some enc
          → Carries peer enc)
      → Effect p Carries st (handle_change_pin p env capacity r st).1
  unfolding handle_change_pin
  handle_change_pin-Effect r st carries =
      let same : Effect p Carries st st = kept refl refl in
      elim (Bool-cases st.pin.configured) [
        | inr c ↦ ground (arith, same, c)
        | inl c ↦ elim (Bool-cases (st.pin.retries == 0)) [
          | inl z ↦ ground (arith, same, c, z)
          | inr z ↦
              let left : 0 < st.pin.retries = ground arith in
              elim (Option-cases r.key_agreement) [
                | inl a ↦ ground (arith, same, c, z, a)
                | inr (peer, a) ↦ elim (Option-cases r.pin_uv_auth_param) [
                  | inl b ↦ ground (arith, same, c, z, a, b)
                  | inr (param, b) ↦ elim (Option-cases r.new_pin_enc) [
                    | inl d ↦ ground (arith, same, c, z, a, b, d)
                    | inr (new_enc, d) ↦ elim (Option-cases r.pin_hash_enc) [
                      | inl e ↦ ground (arith, same, c, z, a, b, d, e)
                      | inr (enc, e) ↦
                          checked
                            (handle_change_pin-checked r st peer param new_enc enc c z a b d e)
                            (change_pin-Effect p Carries env capacity peer param new_enc enc st
                              (carries peer enc a e) c left)
                    ]
                  ]
                ]
              ]
        ]
      ]

  handle_get_pin_token-Effect :
      (r : Request) (st : State)
      → ((peer enc : List ℕ)
          → r.key_agreement ≡ some peer
          → r.pin_hash_enc ≡ some enc
          → Carries peer enc)
      → Effect p Carries st (handle_get_pin_token p env capacity r st).1
  unfolding handle_get_pin_token
  handle_get_pin_token-Effect r st carries =
      let same : Effect p Carries st st = kept refl refl in
      elim (Bool-cases st.pin.configured) [
        | inr c ↦ ground (arith, same, c)
        | inl c ↦ elim (Bool-cases (st.pin.retries == 0)) [
          | inl z ↦ ground (arith, same, c, z)
          | inr z ↦
              let left : 0 < st.pin.retries = ground arith in
              elim (Option-cases r.key_agreement) [
                | inl a ↦ ground (arith, same, c, z, a)
                | inr (peer, a) ↦ elim (Option-cases r.pin_hash_enc) [
                  | inl e ↦ ground (arith, same, c, z, a, e)
                  | inr (enc, e) ↦ checked (handle_get_pin_token-checked r st peer enc c z a e) (
                      get_pin_token-Effect p Carries env capacity peer enc st (carries peer enc a e)
                        c left)
                ]
              ]
        ]
      ]

  either :
      {st : State} (x y : Reply × State) (b : Bool)
      → Effect p Carries st x.1
      → Effect p Carries st y.1
      → Effect p Carries st (if b then x else y).1
  either x y true h k = h
  either x y false h k = k

  handle_subcommand-Effect :
      (subcommand : ℕ) (r : Request) (st : State)
      → ((peer enc : List ℕ)
          → r.key_agreement ≡ some peer
          → r.pin_hash_enc ≡ some enc
          → Carries peer enc)
      → Effect p Carries st (handle_subcommand p env capacity subcommand r st).1
  unfolding handle_subcommand
  handle_subcommand-Effect subcommand r st carries =
      let same : Effect p Carries st st = kept refl refl in
      either _ _ (subcommand == 1) same (
        either _ _ (subcommand == 2) (key_agreement-Effect p Carries env capacity st) (
          either _ _ (subcommand == 3) (handle_set_pin-Effect r st) (
            either _ _ (subcommand == 4) (handle_change_pin-Effect r st carries) (
              either _ _ (subcommand == 5) (handle_get_pin_token-Effect r st carries)
                (either _ _ (subcommand == 9) same same)))))

module _ (p : Primitives) (env : Env) (capacity : ℕ) where
  -- Every request whose parsing ends does one of four things to the PIN: nothing; taking one retry
  -- from a PIN that has some left; setting the first PIN; or, only while retries are left and for a
  -- request whose own encrypted hash, in the field that the parser reads it from, decrypts under the
  -- secret shared with the request's own peer to the PIN's, filling the retries up again. In the first
  -- two cases the token stays as it is.
  pub client_pin_handle-Effect :
      (fuel : ℕ) (request : List ℕ) (request_length : ℕ) (st st' : State) (reply : Reply)
      → client_pin_handle p env capacity fuel request request_length st ≡ some (reply, st')
      → Effect p (Carried fuel request request_length) st st'
  unfolding client_pin_handle
  client_pin_handle-Effect fuel request request_length st st' reply e =
      go (parse_client_pin_request fuel request request_length) refl e
    where
      Done : State → Type 0
      Done = Effect p (Carried fuel request request_length) st

      same : Done st
      same = kept refl refl

      last : {x : Reply × State} → some x ≡ some (reply, st') → Done x.1 → Done st'
      last {x} q done =
          let e : x ≡ (reply, st') = cc in rw (sym (ap (λ (y : Reply × State). y.1) e)) done

      go :
          (x : Parsed)
          → parse_client_pin_request fuel request request_length ≡ x
          → (elim x as (λ y. Option (Reply × State)) [
            | parsed protocol subcommand r ↦ some (
                if not (protocol == 1)
                then (failure 0x2b, st)
                else handle_subcommand p env capacity subcommand r st)
            | refused ↦ some (failure 0x12, st)
            | unfinished ↦ none
          ])
            ≡ some (reply, st')
          → Done st'
      go (parsed protocol subcommand r) f q = last q (
          either p (Carried fuel request request_length) env capacity _ _ (not (protocol == 1)) same
            (handle_subcommand-Effect p (Carried fuel request request_length) env capacity
              subcommand r st
              (λ peer enc from_peer has_hash. record {
                protocol = protocol;
                subcommand = subcommand;
                content = r;
                is_parsed = f;
                from_peer = from_peer;
                carries_hash = has_hash;
              })))
      go refused f q = last q same
      go unfinished f q = cc
