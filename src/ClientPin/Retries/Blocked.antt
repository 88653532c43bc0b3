-- ===== src/ClientPin/Retries/Blocked.antt =====
-- Sequences of calls into src/client_pin.c: its two entry points, in any order.
use meow_key.Prelude.{ℕ, ◌≤◌, true, List, [], ◌∷◌, Option, none, some}
use meow_key.Prelude.{◌≡◌, refl, ap, ◌∙◌, arith}
use meow_key.ClientPin.Crypto.{Primitives}
use meow_key.ClientPin.State.{PinState, State, Env}
use meow_key.ClientPin.Responses.{Reply, clear_runtime_pin_token}
use meow_key.ClientPin.Handlers.{client_pin_handle, verify_auth, runtime_pin_token_is_usable}
use meow_key.ClientPin.Retries.{Carried, Effect, kept, spent, first_pin, proved}
use meow_key.ClientPin.Retries.Requests.{client_pin_handle-Effect}

-- A request with what it meets, or a use of the token.
pub data Call : Type 0 where
  request : Env → ℕ → ℕ → List ℕ → ℕ → Call
  authorisation : ℕ → List ℕ → ℕ → Option (List ℕ) → Call

module _ (p : Primitives) where
  -- A request whose parser does not finish leaves the state.
  unfoldable pub perform : Call → State → State
  perform (request env capacity fuel bytes bytes_length) st =
      elim (client_pin_handle p env capacity fuel bytes bytes_length st) [
        | none ↦ st
        | some (reply, st') ↦ st'
      ]
  perform (authorisation now_ms hash protocol param) st =
      (verify_auth p now_ms hash protocol param st).1

  unfoldable pub run : List Call → State → State
  run [] st = st
  run (c ∷ rest) st = run rest (perform c st)

  perform_request-Effect :
      (env : Env) (capacity fuel : ℕ) (bytes : List ℕ) (bytes_length : ℕ) (st : State)
      → Effect p
          (Carried fuel bytes bytes_length)
          st
          (perform (request env capacity fuel bytes bytes_length) st)
  unfolding perform
  perform_request-Effect env capacity fuel bytes bytes_length st =
      go (client_pin_handle p env capacity fuel bytes bytes_length st) refl
    where
      go :
          (o : Option (Reply × State))
          → client_pin_handle p env capacity fuel bytes bytes_length st ≡ o
          → Effect p
              (Carried fuel bytes bytes_length)
              st
              (elim o as (λ y. State) [ none ↦ st | some (reply, st') ↦ st' ])
      go none e = kept refl refl
      go (some (reply, st')) e =
          client_pin_handle-Effect p env capacity fuel bytes bytes_length st st' reply e

  verify_auth-pin :
      (now_ms : ℕ) (hash : List ℕ) (protocol : ℕ) (param : Option (List ℕ)) (st : State)
      → (verify_auth p now_ms hash protocol param st).1.pin ≡ st.pin
  unfolding verify_auth runtime_pin_token_is_usable clear_runtime_pin_token
  verify_auth-pin now_ms hash protocol none st = ground arith
  verify_auth-pin now_ms hash protocol (some param) st = ground arith

  perform-blocked :
      (c : Call) (st : State)
      → st.pin.configured ≡ true
      → st.pin.retries ≡ 0
      → (perform c st).pin ≡ st.pin
  unfolding perform
  perform-blocked (request env capacity fuel bytes n) st c z =
      elim (perform_request-Effect env capacity fuel bytes n st) [
        | kept e t ↦ e
        | spent d h e t ↦ absurd (omega arith)
        | first_pin d e r ↦ absurd cc
        | proved peer enc carried d h right e r ↦ absurd (omega arith)
      ]
  perform-blocked (authorisation now_ms hash protocol param) st c z =
      verify_auth-pin now_ms hash protocol param st

  -- Once a configured PIN has no retries left, no sequence of calls, whatever PIN they present,
  -- changes the PIN, its hash or its retries again.
  pub run-blocked :
      (calls : List Call) (st : State)
      → st.pin.configured ≡ true
      → st.pin.retries ≡ 0
      → (run calls st).pin ≡ st.pin
  unfolding run
  run-blocked [] st c z = refl
  run-blocked (call ∷ rest) st c z =
      let e = perform-blocked call st c z in
      run-blocked rest (perform call st) (ap (λ (x : PinState). x.configured) e ∙ c)
        (ap (λ (x : PinState). x.retries) e ∙ z)
      ∙ e

  perform_retries : (c : Call) (st : State) → st.pin.retries ≤ 8 → (perform c st).pin.retries ≤ 8
  unfolding perform
  perform_retries (request env capacity fuel bytes n) st h =
      elim (perform_request-Effect env capacity fuel bytes n st) [
        | kept e t ↦ omega (arith, ap (λ (x : PinState). x.retries) e)
        | spent d l e t ↦ omega (arith, ap (λ (x : PinState). x.retries) e)
        | first_pin d e r ↦ omega arith
        | proved peer enc carried d l right e r ↦ omega arith
      ]
  perform_retries (authorisation now_ms hash protocol param) st h =
      omega
        (arith, ap (λ (x : PinState). x.retries) (verify_auth-pin now_ms hash protocol param st))

  perform_configured :
      (c : Call) (st : State) → st.pin.configured ≡ true → (perform c st).pin.configured ≡ true
  unfolding perform
  perform_configured (request env capacity fuel bytes n) st h =
      elim (perform_request-Effect env capacity fuel bytes n st) [
        | kept e t ↦ ap (λ (x : PinState). x.configured) e ∙ h
        | spent d l e t ↦ ap (λ (x : PinState). x.configured) e ∙ h
        | first_pin d e r ↦ e
        | proved peer enc carried d l right e r ↦ e
      ]
  perform_configured (authorisation now_ms hash protocol param) st h =
      ap (λ (x : PinState). x.configured) (verify_auth-pin now_ms hash protocol param st) ∙ h

  -- From a state with at most 8 retries and a configured PIN, every sequence of calls leads to such
  -- a state: a PIN is never removed and never has more than 8 retries.
  pub run-retries :
      (calls : List Call) (st : State)
      → st.pin.configured ≡ true
      → st.pin.retries ≤ 8
      → ((run calls st).pin.configured ≡ true) × ((run calls st).pin.retries ≤ 8)
  unfolding run
  run-retries [] st c h = (c, h)
  run-retries (call ∷ rest) st c h =
      run-retries rest (perform call st) (perform_configured call st c) (perform_retries call st h)
