-- ===== src/ClientPin/Token.antt =====
-- What the constant-time comparison and the check of the token in src/client_pin.c accept.
use Prim.Native.Nat.{bit_or, bit_xor}
use meow_key.Prelude.{ℕ, zero, suc, ◌≤◌, ◌<◌, Bool, true, false, List, Option, none, some}
use meow_key.Prelude.{
  ◌≡◌, refl, sym, ap, ap₂, ◌∙◌, ◌↔◌, arith, length, get_or, ltb, sub32, ◌==◌, if◌then◌else◌,
}
use meow_key.Prelude.{
  [], ◌∷◌, take, take_all, Bool-cases, Option-cases, inl, inr, bit_or_zero, bit_xor_zero,
  bit_xor_self, ==_iff,
}
use meow_key.ClientPin.Crypto.{Primitives, difference, constant_time_equal}
use meow_key.ClientPin.State.{State, token_lifetime_ms}
use meow_key.ClientPin.Responses.{clear_runtime_pin_token}
use meow_key.ClientPin.Handlers.{verify_auth, runtime_pin_token_is_usable, token_matches}

difference_zero :
    (n : ℕ) (left right : List ℕ)
    → difference n left right ≡ 0
    → (i : ℕ) → i < n
    → get_or left i 0 ≡ get_or right i 0
unfolding difference
difference_zero zero left right e i h = absurd (omega arith)
difference_zero (suc n) left right e i h =
    let (below, here) =
      bit_or_zero (difference n left right) (bit_xor (get_or left n 0) (get_or right n 0)) e in
    elim (Bool-cases (i == n)) [
      | inl q ↦
          let k : i ≡ n = ground arith in
          rw k (bit_xor_zero (get_or left n 0) (get_or right n 0) here)
      | inr q ↦ difference_zero n left right below i (ground arith)
    ]

difference_same :
    (n : ℕ) (left right : List ℕ)
    → ((i : ℕ) → i < n → get_or left i 0 ≡ get_or right i 0)
    → difference n left right ≡ 0
unfolding difference
difference_same zero left right same = refl
difference_same (suc n) left right same =
    ap₂ bit_or (difference_same n left right (λ i h. same i (omega arith))) (
      ap (λ (x : ℕ). bit_xor x (get_or right n 0)) (same n (omega arith))
      ∙ bit_xor_self (get_or right n 0))

pub constant_time_equal-bytes :
    (left right : List ℕ) (n : ℕ)
    → (constant_time_equal left right n ≡ true)
      ↔ ((i : ℕ) → i < n → get_or left i 0 ≡ get_or right i 0)
unfolding constant_time_equal
constant_time_equal-bytes left right n = (
  λ e. difference_zero n left right (ground (arith, e)),
  λ same. (==_iff (difference n left right) 0).1 (difference_same n left right same),
)

take_same :
    (n : ℕ) (left right : List ℕ)
    → n ≤ length left
    → n ≤ length right
    → ((i : ℕ) → i < n → get_or left i 0 ≡ get_or right i 0)
    → take n left ≡ take n right
take_same zero left right h k same = refl
take_same (suc n) [] right h k same = absurd (omega arith)
take_same (suc n) (x ∷ left) [] h k same = absurd (omega arith)
take_same (suc n) (x ∷ left) (y ∷ right) h k same =
    ap₂ (λ (a : ℕ) (t : List ℕ). a ∷ t) (same 0 (omega arith))
      (take_same n left right (omega arith) (omega arith) (λ i l. same (suc i) (omega arith)))

get_or-take : (n i : ℕ) (xs : List ℕ) → i < n → get_or (take n xs) i 0 ≡ get_or xs i 0
get_or-take zero i xs h = absurd (omega arith)
get_or-take (suc n) i [] h = refl
get_or-take (suc n) zero (x ∷ xs) h = refl
get_or-take (suc n) (suc i) (x ∷ xs) h = get_or-take n i xs (omega arith)

-- The comparison, which reads every byte before it answers, says yes to two buffers of at least `n`
-- bytes exactly if their first `n` bytes are the same.
constant_time_equal-take :
    (left right : List ℕ) (n : ℕ)
    → n ≤ length left
    → n ≤ length right
    → (constant_time_equal left right n ≡ true) ↔ (take n left ≡ take n right)
constant_time_equal-take left right n h k = (
  λ e. take_same n left right h k ((constant_time_equal-bytes left right n).0 e),
  λ e. (constant_time_equal-bytes left right n).1 (λ i l.
      sym (get_or-take n i left l) ∙ ap (λ (t : List ℕ). get_or t i 0) e ∙ get_or-take n i right l),
)

-- What the authenticator has to hold, and the platform to present, for a use of the token.
pub record Granted (p : Primitives) (now_ms : ℕ) (client_data_hash : List ℕ) (protocol : ℕ)
    (param : List ℕ) (st : State) : Type 0 where
  pub token : List ℕ
  pub issued_at_ms : ℕ
  pub expected : List ℕ
  pub configured : st.pin.configured ≡ true
  pub first_protocol : protocol ≡ 1
  pub holds : st.runtime_pin_token ≡ some (token, issued_at_ms)
  pub fresh : sub32 now_ms issued_at_ms ≤ 30000
  pub authenticates : p.hmac token client_data_hash ≡ some expected
  pub sized : length param ≡ 16
  pub agrees : take 16 expected ≡ param

-- The library's HMAC-SHA-256 gives 32 bytes.
module _ (p : Primitives)
    (length-hmac : (key message code : List ℕ) → p.hmac key message ≡ some code → length code ≡ 32)
    (now_ms : ℕ) (client_data_hash : List ℕ) (protocol : ℕ) where
  -- A token is usable as long as at most 30000 ms have passed since it was issued.
  usable-fresh :
      (token : List ℕ) (issued_at_ms : ℕ) (st : State)
      → st.runtime_pin_token ≡ some (token, issued_at_ms)
      → sub32 now_ms issued_at_ms ≤ 30000
      → runtime_pin_token_is_usable now_ms st ≡ (true, st)
  unfolding runtime_pin_token_is_usable
  usable-fresh token issued_at_ms st e h =
      let f : ltb token_lifetime_ms (sub32 now_ms issued_at_ms) ≡ false = ground arith in
      go st.runtime_pin_token e
    where
      go :
          (o : Option (List ℕ × ℕ))
          → o ≡ some (token, issued_at_ms)
          → (elim o as (λ y. Bool × State) [
            | none ↦ (false, st)
            | some (t, at) ↦
                if ltb token_lifetime_ms (sub32 now_ms at)
                then (false, clear_runtime_pin_token st)
                else (true, st)
          ])
            ≡ (true, st)
      go o q = rw q (ground arith)

  token_matches-Granted :
      (token expected param : List ℕ) (issued_at_ms : ℕ)
      → p.hmac token client_data_hash ≡ some expected
      → length param ≡ 16
      → constant_time_equal expected param 16 ≡ true
      → token_matches p (some (token, issued_at_ms)) client_data_hash param ≡ 0
  unfolding token_matches
  token_matches-Granted token expected param issued_at_ms h n c =
      let l : (length param == 16) ≡ true = ground arith in rw (h, l, c, token_matches) refl

  Granted-verify_auth :
      (param : List ℕ) (st : State)
      → Granted p now_ms client_data_hash protocol param st
      → verify_auth p now_ms client_data_hash protocol (some param) st ≡ (0, st)
  unfolding verify_auth
  Granted-verify_auth param st g =
      let one : (protocol == 1) ≡ true = (==_iff protocol 1).1 g.first_protocol in
      let c = g.configured in
      let u = usable-fresh g.token g.issued_at_ms st g.holds g.fresh in
      let long = length-hmac g.token client_data_hash g.expected g.authenticates in
      let sized = g.sized in
      let all = take_all 16 param (omega arith) in
      let same =
        (constant_time_equal-take g.expected param 16 (omega arith) (omega arith)).1
          (g.agrees ∙ sym all) in
      let m =
        token_matches-Granted g.token g.expected param g.issued_at_ms g.authenticates g.sized
          same in
      let h = g.holds in rw (u, one, h, m, c, verify_auth) refl

  verify_auth-configured :
      (param : List ℕ) (st : State)
      → (verify_auth p now_ms client_data_hash protocol (some param) st).0 ≡ 0
      → (st.pin.configured ≡ true) × (protocol ≡ 1)
  unfolding verify_auth
  verify_auth-configured param st e = ground (arith, e)

  verify_auth-token :
      (param : List ℕ) (st : State)
      → (verify_auth p now_ms client_data_hash protocol (some param) st).0 ≡ 0
      → (token : List ℕ) × (issued_at_ms : ℕ) × (st.runtime_pin_token ≡ some (token, issued_at_ms))
        × (sub32 now_ms issued_at_ms ≤ 30000)
        × (token_matches p st.runtime_pin_token client_data_hash param ≡ 0)
  unfolding verify_auth runtime_pin_token_is_usable
  verify_auth-token param st e = elim (Option-cases st.runtime_pin_token) [
    | inl n ↦ absurd (ground (arith, e, n))
    | inr ((token, at), n) ↦ (token, at, n, ground (arith, e, n), ground (arith, e, n))
  ]

  token_matches-agrees :
      (token param : List ℕ) (issued_at_ms : ℕ)
      → token_matches p (some (token, issued_at_ms)) client_data_hash param ≡ 0
      → (expected : List ℕ) × (p.hmac token client_data_hash ≡ some expected)
        × (length param ≡ 16)
        × (constant_time_equal expected param 16 ≡ true)
  unfolding token_matches
  token_matches-agrees token param issued_at_ms e =
      elim (Option-cases (p.hmac token client_data_hash)) [
        | inl n ↦ absurd (ground (arith, e, n))
        | inr (expected, n) ↦ (expected, n, ground (arith, e, n), ground (arith, e, n))
      ]

  -- With an HMAC that gives 32 bytes, a request that carries an authentication parameter passes the
  -- check exactly if a PIN is configured, the protocol is 1, a token was issued at most 30000 ms
  -- before, and the parameter is the first 16 bytes of the token's code of the client data's hash.
  pub verify_auth-Granted :
      (param : List ℕ) (st : State)
      → ((verify_auth p now_ms client_data_hash protocol (some param) st).0 ≡ 0)
        ↔ Granted p now_ms client_data_hash protocol param st
  verify_auth-Granted param st = (
    λ e.
        let (configured, one) = verify_auth-configured param st e in
        let (token, at, holds, fresh, m) = verify_auth-token param st e in
        let (expected, h, n, same) = token_matches-agrees token param at (
          sym (ap (λ (o : Option (List ℕ × ℕ)). token_matches p o client_data_hash param) holds)
          ∙ m) in
        record {
          token = token;
          issued_at_ms = at;
          expected = expected;
          configured = configured;
          first_protocol = one;
          holds = holds;
          fresh = fresh;
          authenticates = h;
          sized = n;
          agrees =
              (let long = length-hmac token client_data_hash expected h in
                (constant_time_equal-take expected param 16 (omega arith) (omega arith)).0 same
                ∙ take_all 16 param (omega arith));
        },
    λ g. ap (λ (r : ℕ × State). r.0) (Granted-verify_auth param st g),
  )

expired-dropped :
    (p : Primitives) (now_ms : ℕ) (client_data_hash : List ℕ) (protocol : ℕ) (param token : List ℕ)
    (issued_at_ms : ℕ) (st : State)
    → st.pin.configured ≡ true
    → protocol ≡ 1
    → st.runtime_pin_token ≡ some (token, issued_at_ms)
    → 30000 < sub32 now_ms issued_at_ms
    → verify_auth p now_ms client_data_hash protocol (some param) st
      ≡ (0x38, record st { runtime_pin_token = none })
unfolding verify_auth runtime_pin_token_is_usable clear_runtime_pin_token
expired-dropped p now_ms client_data_hash protocol param token issued_at_ms st c one holds old =
    ground (arith, c, one, holds, old)

no_token :
    (p : Primitives) (now_ms : ℕ) (client_data_hash param : List ℕ) (st : State)
    → st.pin.configured ≡ true
    → (verify_auth p now_ms client_data_hash 1
        (some param)
        (record st { runtime_pin_token = none })).0
      ≡ 0x38
unfolding verify_auth runtime_pin_token_is_usable
no_token p now_ms client_data_hash param st c = rw (c, verify_auth) refl

-- With a PIN configured, a token that is looked at more than 30000 ms after it was issued is refused as expired, and is not
-- accepted again at any later reading of the clock, which wraps.
verify_auth_expired :
    (p : Primitives) (now_ms later_ms issued_at_ms : ℕ) (hash param hash' param' token : List ℕ)
    (st : State)
    → st.pin.configured ≡ true
    → st.runtime_pin_token ≡ some (token, issued_at_ms)
    → 30000 < sub32 now_ms issued_at_ms
    → let (status, st') = verify_auth p now_ms hash 1 (some param) st in
      (status ≡ 0x38) × ((verify_auth p later_ms hash' 1 (some param') st').0 ≡ 0x38)
verify_auth_expired p now_ms later_ms issued_at_ms hash param hash' param' token st c holds old =
    let e = expired-dropped p now_ms hash 1 param token issued_at_ms st c refl holds old in
    rw e (refl, no_token p later_ms hash' param' st c)
