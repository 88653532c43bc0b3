-- ===== src/WebAuthn/AllowList.antt =====
-- How far src/webauthn.c reads an allow list.
use meow_key.Prelude.{ℕ, suc, Bool, true, false, if◌then◌else◌, ◌≡◌, refl}
use meow_key.Cbor.Reader.{Reader, Result, ok, failed, exhausted, pure, read_map_start}
use meow_key.WebAuthn.Entries.{loop, has}
use meow_key.WebAuthn.GetRequest.{GetRequest, allow_entry, allow_descriptors}

module _ (fuel : ℕ) (r : GetRequest) where
  -- What follows a descriptor, where m more are left.
  abbrev after : ℕ → Result GetRequest → Result GetRequest
  after m x = elim x [
    | ok s reader ↦
        (if has s.allow_credential_id then pure s else allow_descriptors fuel m s) reader
    | failed ↦ failed
    | exhausted ↦ exhausted
  ]

  chosen :
      (b : Bool) (m : ℕ) (s : GetRequest) (reader : Reader) (r' : GetRequest) (reader' : Reader)
      → has s.allow_credential_id ≡ b
      → (if b then pure s else allow_descriptors fuel 0 s) reader ≡ ok r' reader'
      → has r'.allow_credential_id ≡ true
      → (if b then pure s else allow_descriptors fuel m s) reader ≡ ok r' reader'
  unfolding allow_descriptors
  chosen true m s reader r' reader' q e h = e
  chosen false m s reader r' reader' q e h = let same : s ≡ r' = cc in absurd (cc)

  after-same :
      (m : ℕ) (x : Result GetRequest) (r' : GetRequest) (reader' : Reader)
      → after 0 x ≡ ok r' reader'
      → has r'.allow_credential_id ≡ true
      → after m x ≡ ok r' reader'
  after-same m (ok s reader) r' reader' e h =
      chosen (has s.allow_credential_id) m s reader r' reader' refl e h
  after-same m failed r' reader' e h = absurd cc
  after-same m exhausted r' reader' e h = absurd cc

  opened :
      (m : ℕ) (x : Result ℕ) (r' : GetRequest) (reader' : Reader)
      → elim x as (λ y. Result GetRequest) [
        | ok pairs reader ↦ after 0 (loop (allow_entry fuel) pairs r reader)
        | failed ↦ failed
        | exhausted ↦ exhausted
      ]
        ≡ ok r' reader'
      → has r'.allow_credential_id ≡ true
      → elim x as (λ y. Result GetRequest) [
        | ok pairs reader ↦ after m (loop (allow_entry fuel) pairs r reader)
        | failed ↦ failed
        | exhausted ↦ exhausted
      ]
        ≡ ok r' reader'
  opened m (ok pairs reader) r' reader' e h =
      after-same m (loop (allow_entry fuel) pairs r reader) r' reader' e h
  opened m failed r' reader' e h = absurd cc
  opened m exhausted r' reader' e h = absurd cc

  -- A loop over the descriptors that has found a credential id in the first one reads no further: from a
  -- list of any length the result is that of a list of one, and the reader stands behind the first
  -- descriptor, with the others unread.
  pub allow_descriptors-first :
      (m : ℕ) (reader : Reader) (r' : GetRequest) (reader' : Reader)
      → allow_descriptors fuel 1 r reader ≡ ok r' reader'
      → has r'.allow_credential_id ≡ true
      → allow_descriptors fuel (suc m) r reader ≡ ok r' reader'
  unfolding allow_descriptors
  allow_descriptors-first m reader r' reader' e h = opened m (read_map_start reader) r' reader' e h
