-- ===== src/WebAuthn/GetBounds.antt =====
-- The requests of getAssertion that src/webauthn.c reads fit its buffers.
use meow_key.Prelude.{ℕ, zero, suc, ◌≤◌, ◌<◌, false, Option, none, some, ◌==◌, codes}
use meow_key.Prelude.{◌≡◌, refl, arith, ℤ, pos, negsuc}
use meow_key.Cbor.Reader.{check, read_map_start, read_array_start, read_int}
use meow_key.Cbor.Reader.{read_bytes, read_text, skip}
use meow_key.ClientPin.Request.{bounded_bytes}
use meow_key.WebAuthn.Entries.{
  loop, is_text, Bytes, copy_view_to_string, copy_view_to_bytes, ignore, has,
}
use meow_key.WebAuthn.MakeRequest.{parse_options_map}
use meow_key.WebAuthn.GetRequest.{
  GetRequest, no_get_request, parse_hmac_secret_key_agreement, hmac_secret_entry,
  parse_get_assertion_hmac_secret, get_extension, parse_get_assertion_extensions, allow_entry,
  allow_descriptors, parse_allow_list, get_entry, next_get_entry, get_entries,
}
use meow_key.WebAuthn.Ensures.{
  Ensures, Ensures-bind, Ensures-then, Ensures-pure, Ensures-if, Ensures-loop, Ensures-string,
  Ensures-bytes,
}

abbrev pub Within : ℕ → Option Bytes → Type 0
Within limit none = Unit
Within limit (some b) = b.size ≤ limit

-- The sizes that the buffers have room for; and the parser does not take the user as verified.
abbrev pub Fits : GetRequest → Type 0
Fits r =
    Within 63 r.rp_id
    × Within 32 r.allow_credential_id
    × Within 64 r.hmac_secret_salt_enc
    × Within 32 r.hmac_secret_salt_auth
    × (r.user_verified ≡ false)

module _ (fuel : ℕ) where
  ignore-Ensures : (r : GetRequest) → Fits r → Ensures Fits (ignore fuel r)
  ignore-Ensures r h = Ensures-then Fits (skip fuel) _ (λ u. Ensures-pure Fits r h)

  hmac-Ensures : (key : ℤ) (r : GetRequest) → Fits r → Ensures Fits (hmac_secret_entry fuel key r)
  unfolding hmac_secret_entry
  hmac-Ensures (negsuc m) r h = ignore-Ensures r h
  hmac-Ensures (pos key) r h =
      Ensures-if Fits (key == 1) _ _ (Ensures-then Fits read_int _ (λ v. Ensures-pure Fits _ h)) (
        Ensures-if Fits (key == 2) _ _
          (Ensures-then Fits (parse_hmac_secret_key_agreement fuel) _ (λ k. Ensures-pure Fits _ h))
          (Ensures-if Fits (key == 3) _ _
            (Ensures-then Fits read_bytes _ (λ v.
              Ensures-bind (λ b. b.size ≤ 64) Fits (copy_view_to_bytes 64 v) _ (Ensures-bytes 64 v)
                (λ b k. Ensures-pure Fits _ (h.0, h.1, k, h.3, h.4))))
            (Ensures-if Fits (key == 4) _ _
              (Ensures-then Fits read_bytes _ (λ v.
                Ensures-bind (λ b. b.size ≤ 32) Fits (copy_view_to_bytes 32 v) _
                  (Ensures-bytes 32 v) (λ b k. Ensures-pure Fits _ (h.0, h.1, h.2, k, h.4))))
              (ignore-Ensures r h))))

  extension-Ensures : (r : GetRequest) → Fits r → Ensures Fits (get_extension fuel r)
  unfolding get_extension parse_get_assertion_hmac_secret
  extension-Ensures r h = Ensures-then Fits read_text _ (λ key.
      Ensures-if Fits (is_text (codes "hmac-secret") key) _ _
        (Ensures-then Fits read_map_start _ (λ count.
          Ensures-loop Fits _ (λ s k. Ensures-then Fits read_int _ (λ key'. hmac-Ensures key' s k))
            count _ h))
        (ignore-Ensures r h))

  allow-Ensures : (r : GetRequest) → Fits r → Ensures Fits (allow_entry fuel r)
  unfolding allow_entry
  allow-Ensures r h = Ensures-then Fits read_text _ (λ key.
      Ensures-if Fits (is_text (codes "id") key) _ _
        (Ensures-then Fits read_bytes _ (λ v.
          Ensures-bind (λ b. b.size ≤ 32) Fits (copy_view_to_bytes 32 v) _ (Ensures-bytes 32 v)
            (λ b k. Ensures-pure Fits _ (h.0, k, h.2, h.3, h.4))))
        (ignore-Ensures r h))

  descriptors-Ensures :
      (count : ℕ) (r : GetRequest) → Fits r → Ensures Fits (allow_descriptors fuel count r)
  unfolding allow_descriptors
  descriptors-Ensures zero r h = Ensures-pure Fits r h
  descriptors-Ensures (suc count) r h = Ensures-then Fits read_map_start _ (λ pairs.
      Ensures-bind Fits Fits (loop (allow_entry fuel) pairs r) _
        (Ensures-loop Fits (allow_entry fuel) allow-Ensures pairs r h)
        (λ s k.
          Ensures-if Fits (has s.allow_credential_id) _ _ (Ensures-pure Fits s k)
            (descriptors-Ensures count s k)))

  entry-Ensures : (key : ℤ) (r : GetRequest) → Fits r → Ensures Fits (get_entry fuel key r)
  unfolding get_entry parse_allow_list parse_get_assertion_extensions
  entry-Ensures (negsuc m) r h = ignore-Ensures r h
  entry-Ensures (pos key) r h =
      Ensures-if Fits (key == 1) _ _
        (Ensures-then Fits read_text _ (λ v.
          Ensures-bind (λ b. b.size < 64) Fits (copy_view_to_string 64 v) _ (Ensures-string 64 v)
            (λ b k. Ensures-pure Fits _ (omega arith, h.1, h.2, h.3, h.4))))
        (Ensures-if Fits (key == 2) _ _
          (Ensures-then Fits read_bytes _
            (λ v. Ensures-then Fits (check (v.length == 32)) _ (λ u. Ensures-pure Fits _ h)))
          (Ensures-if Fits (key == 3) _ _
            (Ensures-then Fits read_array_start _ (λ count. descriptors-Ensures count r h))
            (Ensures-if Fits (key == 4) _ _
              (Ensures-then Fits read_map_start _
                (λ count. Ensures-loop Fits (get_extension fuel) extension-Ensures count r h))
              (Ensures-if Fits (key == 5) _ _
                (Ensures-then Fits (parse_options_map fuel _) _ (λ o. Ensures-pure Fits _ h))
                (Ensures-if Fits (key == 6) _ _
                  (Ensures-then Fits (bounded_bytes 32) _ (λ b. Ensures-pure Fits _ h))
                  (Ensures-if Fits (key == 7) _ _
                    (Ensures-then Fits read_int _ (λ v. Ensures-pure Fits _ h))
                    (ignore-Ensures r h)))))))

  pub get_entries-Ensures : Ensures Fits (get_entries fuel)
  unfolding get_entries next_get_entry
  get_entries-Ensures = Ensures-then Fits read_map_start _ (λ count.
      Ensures-loop Fits _ (λ r h. Ensures-then Fits read_int _ (λ key. entry-Ensures key r h)) count
        no_get_request (tt, tt, tt, tt, refl))
