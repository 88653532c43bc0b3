-- ===== src/Ctap2/Counted.antt =====
-- What holds of the authenticator's state after any commands of src/ctap2.c.
use meow_key.Prelude.{ℕ, ◌-◌, List, [], ◌∷◌, Option, none, some, ◌==◌}
use meow_key.Prelude.{length, ◌≡◌, subst}
use meow_key.ClientPin.Crypto.{Primitives}
use meow_key.ClientPin.State.{State, Env}
use meow_key.ClientPin.Responses.{Reply}
use meow_key.ClientPin.Handlers.{client_pin_handle}
use meow_key.WebAuthn.GetRequest.{GetRequest}
use meow_key.WebAuthn.Outcome.{if-keeps}
use meow_key.WebAuthn.Session.{Session, Call}
use meow_key.WebAuthn.Sound.{IsSound}
use meow_key.WebAuthn.SoundHandlers.{
  KeepsSome, make_credential-KeepsSome, get_assertion-KeepsSome, next_assertion-Keeps,
}
use meow_key.Ctap2.{with_pin, answered, dispatch, ctap2_handle_cbor}

-- A command that is answered leaves a sound state.
record Dispatched (x : Option (Reply × Session)) : Type 0 where
  kept : KeepsSome x

with_pin-KeepsSome :
    (s : Session) (o : Option (Reply × State)) → IsSound s → KeepsSome (with_pin s o)
with_pin-KeepsSome s none h = tt
with_pin-KeepsSome s (some (reply, pin)) h = record { store = h.store; queue = h.queue }

answered-IsSound :
    (o : Option (Reply × Session)) (out : List ℕ) (s' : Session)
    → KeepsSome o
    → answered o ≡ some (out, s')
    → IsSound s'
answered-IsSound none out s' h e = absurd cc
answered-IsSound (some (reply, s)) out s' h e = let same : s ≡ s' = cc in subst IsSound same h

module _ (p : Primitives) (sign : List ℕ → List ℕ → Option (List ℕ)) (image : GetRequest → List ℕ)
    (fuel : ℕ) where
  -- The states that commands lead to, whatever the host sends and the clock, the button, the flash and
  -- the random numbers do.
  pub data Reaches : Session → Session → Type 0 where
    start : {s : Session} → Reaches s s
    command :
        {s s' s'' : Session} (c : Call) (env : Env) (request : List ℕ) (capacity : ℕ) (out : List ℕ)
        → Reaches s s'
        → ctap2_handle_cbor p sign image fuel c env request capacity s' ≡ some (out, s'')
        → Reaches s s''

  dispatch-Dispatched :
      (c : Call) (env : Env) (number : ℕ) (body : List ℕ) (capacity : ℕ) (s : Session)
      → IsSound s
      → Dispatched (dispatch p sign image fuel c env number body capacity s)
  unfolding dispatch
  dispatch-Dispatched c env number body capacity s h =
      if-keeps Dispatched (number == 0x01) _ _
        (λ e. record { kept = make_credential-KeepsSome p fuel c body (length body) capacity s h })
        (λ e.
          if-keeps Dispatched (number == 0x02) _ _
            (λ e. record {
              kept = get_assertion-KeepsSome p sign image fuel c body (length body) capacity s h;
            })
            (λ e.
              if-keeps Dispatched (number == 0x08) _ _
                (λ e. record {
                  kept = (next_assertion-Keeps p sign image c (length body) capacity s h).kept;
                })
                (λ e.
                  if-keeps Dispatched (number == 0x04) _ _ (λ e. record { kept = h })
                    (λ e.
                      if-keeps Dispatched (number == 0x06) _ _
                        (λ e. record {
                          kept =
                              with_pin-KeepsSome s
                                (client_pin_handle p env capacity fuel body (length body) s.pin) h;
                        })
                        (λ e. record { kept = h })))))

  ctap2_handle_cbor-IsSound :
      (c : Call) (env : Env) (request : List ℕ) (capacity : ℕ) (s : Session) (out : List ℕ)
      (s' : Session)
      → IsSound s
      → ctap2_handle_cbor p sign image fuel c env request capacity s ≡ some (out, s')
      → IsSound s'
  unfolding ctap2_handle_cbor
  ctap2_handle_cbor-IsSound c env [] capacity s out s' h e =
      let same : s ≡ s' = cc in subst IsSound same h
  ctap2_handle_cbor-IsSound c env (number ∷ body) capacity s out s' h e =
      answered-IsSound _ out s' (dispatch-Dispatched c env number body (capacity - 1) s h).kept e

  -- From a state where the store counts its valid credentials and the queue of assertions has the
  -- slots it counts, at most 128, with an index not beyond them, any commands lead to such a state.
  pub Reaches-IsSound : (s s' : Session) → IsSound s → Reaches s s' → IsSound s'
  Reaches-IsSound s s' h start = h
  Reaches-IsSound s s' h (command c env request capacity out before e) =
      ctap2_handle_cbor-IsSound c env request capacity _ out s' (Reaches-IsSound s _ h before) e
