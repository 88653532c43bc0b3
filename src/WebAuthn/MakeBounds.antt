-- ===== src/WebAuthn/MakeBounds.antt =====
-- The requests of makeCredential that src/webauthn.c reads fit its buffers.
use meow_key.Prelude.{ℕ, ◌≤◌, ◌<◌, Bool, true, false, none, ltb, ◌==◌, codes}
use meow_key.Prelude.{◌≡◌, refl, arith, ltb→lt, ℤ, pos, negsuc, if◌then◌else◌}
use meow_key.Cbor.Reader.{check, read_map_start, read_array_start, read_int}
use meow_key.Cbor.Reader.{read_bool, read_bytes, read_text, skip}
use meow_key.ClientPin.Request.{bounded_bytes}
use meow_key.Store.Slots.{Store}
use meow_key.WebAuthn.Entries.{loop, is_text, copy_view_to_string, copy_view_to_bytes, ignore}
use meow_key.WebAuthn.MakeRequest.{
  MakeRequest, no_make_request, make_extension, parse_make_credential_extensions, rp_entry,
  parse_rp_entity, user_entry, parse_user_entity, param_entry, is_es256, pub_key_cred_param,
  parse_pub_key_cred_params, parse_options_map, exclude_entry, parse_exclude_list, make_entry,
  make_entries,
}
use meow_key.WebAuthn.Ensures.{
  Ensures, Ensures-bind, Ensures-then, Ensures-pure, Ensures-if, Ensures-check, Ensures-loop,
  Ensures-string, Ensures-bytes,
}

-- The sizes that the buffers have room for; and the parser does not take the user as verified.
abbrev pub Fits : MakeRequest → Type 0
Fits r =
    (r.rp_id.size < 64)
    × (r.user_id.size ≤ 64)
    × (r.user_name.size < 64)
    × (r.display_name.size < 96)
    × (r.user_verified ≡ false)

-- An rp that was seen has an id, and so has a user.
abbrev pub RpSeen : MakeRequest → Type 0
RpSeen r = r.have_rp ≡ true → 0 < r.rp_id.size

abbrev pub UserSeen : MakeRequest → Type 0
UserSeen r = r.have_user ≡ true → 0 < r.user_id.size

abbrev pub Sound : MakeRequest → Type 0
Sound r = Fits r × RpSeen r × UserSeen r

module _ (fuel : ℕ) where
  ignore-Ensures : {A : Type 0} (P : A → Type 0) (a : A) → P a → Ensures P (ignore fuel a)
  ignore-Ensures P a h = Ensures-then P (skip fuel) _ (λ u. Ensures-pure P a h)

  extension-Sound : (r : MakeRequest) → Sound r → Ensures Sound (make_extension fuel r)
  unfolding make_extension
  extension-Sound r h = Ensures-then Sound read_text _ (λ key.
      Ensures-if Sound (is_text (codes "hmac-secret") key) _ _
        (Ensures-then Sound read_bool _ (λ v. Ensures-pure Sound _ h)) (ignore-Ensures Sound r h))

  abbrev RpLoop : MakeRequest → Type 0
  RpLoop s = Fits s × UserSeen s

  rp_entry-Ensures : (r : MakeRequest) → RpLoop r → Ensures RpLoop (rp_entry fuel r)
  unfolding rp_entry
  rp_entry-Ensures r (h, seen) = Ensures-then RpLoop read_text _ (λ key.
      Ensures-if RpLoop (is_text (codes "id") key) _ _
        (Ensures-then RpLoop read_text _ (λ v.
          Ensures-bind (λ b. b.size < 64) RpLoop (copy_view_to_string 64 v) _ (Ensures-string 64 v)
            (λ b k. Ensures-pure RpLoop _ ((k, h.1, h.2, h.3, h.4), seen))))
        (ignore-Ensures RpLoop r (h, seen)))

  rp-Ensures :
      (r : MakeRequest)
      → Sound r
      → Ensures (λ s. Sound (record s { have_rp = true })) (parse_rp_entity fuel r)
  unfolding parse_rp_entity
  rp-Ensures r (h, rp, user) =
      let P : MakeRequest → Type 0 = λ s. Sound (record s { have_rp = true }) in
      Ensures-then P read_map_start _ (λ count.
        Ensures-bind RpLoop P (loop (rp_entry fuel) count r) _
          (Ensures-loop RpLoop (rp_entry fuel) rp_entry-Ensures count r (h, user))
          (λ s k.
            Ensures-bind (λ u. ltb 0 s.rp_id.size ≡ true) P (check (ltb 0 s.rp_id.size)) _
              (Ensures-check (ltb 0 s.rp_id.size))
              (λ u some_rp. Ensures-pure P s (k.0, (λ e. ltb→lt 0 s.rp_id.size some_rp), k.1))))

  abbrev UserLoop : MakeRequest → Type 0
  UserLoop s = Fits s × RpSeen s

  user_entry-Ensures : (r : MakeRequest) → UserLoop r → Ensures UserLoop (user_entry fuel r)
  unfolding user_entry
  user_entry-Ensures r (h, seen) = Ensures-then UserLoop read_text _ (λ key.
      Ensures-if UserLoop (is_text (codes "id") key) _ _
        (Ensures-then UserLoop read_bytes _ (λ v.
          Ensures-bind (λ b. b.size ≤ 64) UserLoop (copy_view_to_bytes 64 v) _ (Ensures-bytes 64 v)
            (λ b k. Ensures-pure UserLoop _ ((h.0, k, h.2, h.3, h.4), seen))))
        (Ensures-if UserLoop (is_text (codes "name") key) _ _
          (Ensures-then UserLoop read_text _ (λ v.
            Ensures-bind (λ b. b.size < 64) UserLoop (copy_view_to_string 64 v) _
              (Ensures-string 64 v)
              (λ b k. Ensures-pure UserLoop _ ((h.0, h.1, k, h.3, h.4), seen))))
          (Ensures-if UserLoop (is_text (codes "displayName") key) _ _
            (Ensures-then UserLoop read_text _ (λ v.
              Ensures-bind (λ b. b.size < 96) UserLoop (copy_view_to_string 96 v) _
                (Ensures-string 96 v)
                (λ b k. Ensures-pure UserLoop _ ((h.0, h.1, h.2, k, h.4), seen))))
            (ignore-Ensures UserLoop r (h, seen)))))

  user-Ensures :
      (r : MakeRequest)
      → Sound r
      → Ensures (λ s. Sound (record s { have_user = true })) (parse_user_entity fuel r)
  unfolding parse_user_entity
  user-Ensures r (h, rp, user) =
      let P : MakeRequest → Type 0 = λ s. Sound (record s { have_user = true }) in
      Ensures-then P read_map_start _ (λ count.
        Ensures-bind UserLoop P (loop (user_entry fuel) count r) _
          (Ensures-loop UserLoop (user_entry fuel) user_entry-Ensures count r (h, rp))
          (λ s k.
            Ensures-bind (λ u. ltb 0 s.user_id.size ≡ true) P (check (ltb 0 s.user_id.size)) _
              (Ensures-check (ltb 0 s.user_id.size))
              (λ u some_user.
                Ensures-pure P s (k.0, k.1, (λ e. ltb→lt 0 s.user_id.size some_user)))))

  picked : (b : Bool) (x y : MakeRequest) → Sound x → Sound y → Sound (if b then x else y)
  picked true x y h k = h
  picked false x y h k = k

  param-Ensures : (r : MakeRequest) → Sound r → Ensures Sound (pub_key_cred_param fuel r)
  unfolding pub_key_cred_param
  param-Ensures r h = Ensures-then Sound read_map_start _ (λ count.
      Ensures-then Sound (loop (param_entry fuel) count (none, false)) _
        (λ param. Ensures-pure Sound _ (picked (is_es256 fuel param) _ r h h)))

  exclude-Ensures :
      (st : Store) (r : MakeRequest) → Sound r → Ensures Sound (exclude_entry fuel st r)
  unfolding exclude_entry
  exclude-Ensures st r h = Ensures-then Sound read_text _ (λ key.
      Ensures-if Sound (is_text (codes "id") key) _ _
        (Ensures-then Sound read_bytes _ (λ v. Ensures-pure Sound _ (picked _ _ r h h)))
        (ignore-Ensures Sound r h))

  exclude_list-Ensures :
      (st : Store) (r : MakeRequest) → Sound r → Ensures Sound (parse_exclude_list fuel st r)
  unfolding parse_exclude_list
  exclude_list-Ensures st r h = Ensures-then Sound read_array_start _ (λ count.
      Ensures-loop Sound _
        (λ s k.
          Ensures-then Sound read_map_start _
            (λ pairs. Ensures-loop Sound (exclude_entry fuel st) (exclude-Ensures st) pairs s k))
        count r h)

  entry-Ensures :
      (st : Store) (key : ℤ) (r : MakeRequest) → Sound r → Ensures Sound (make_entry fuel st key r)
  unfolding make_entry parse_pub_key_cred_params parse_make_credential_extensions
  entry-Ensures st (negsuc m) r h = ignore-Ensures Sound r h
  entry-Ensures st (pos key) r h =
      Ensures-if Sound (key == 1) _ _
        (Ensures-then Sound read_bytes _
          (λ v. Ensures-then Sound (check (v.length == 32)) _ (λ u. Ensures-pure Sound _ h)))
        (Ensures-if Sound (key == 2) _ _
          (Ensures-bind (λ s. Sound (record s { have_rp = true })) Sound (parse_rp_entity fuel r) _
            (rp-Ensures r h) (λ s k. Ensures-pure Sound _ k))
          (Ensures-if Sound (key == 3) _ _
            (Ensures-bind (λ s. Sound (record s { have_user = true })) Sound
              (parse_user_entity fuel r) _ (user-Ensures r h) (λ s k. Ensures-pure Sound _ k))
            (Ensures-if Sound (key == 4) _ _
              (Ensures-then Sound read_array_start _
                (λ count. Ensures-loop Sound (pub_key_cred_param fuel) param-Ensures count r h))
              (Ensures-if Sound (key == 5) _ _ (exclude_list-Ensures st r h) (
                Ensures-if Sound (key == 6) _ _
                  (Ensures-then Sound read_map_start _
                    (λ count. Ensures-loop Sound (make_extension fuel) extension-Sound count r h))
                  (Ensures-if Sound (key == 7) _ _
                    (Ensures-then Sound (parse_options_map fuel _) _ (λ o. Ensures-pure Sound _ h))
                    (Ensures-if Sound (key == 8) _ _
                      (Ensures-then Sound (bounded_bytes 32) _ (λ b. Ensures-pure Sound _ h))
                      (Ensures-if Sound (key == 9) _ _
                        (Ensures-then Sound read_int _ (λ v. Ensures-pure Sound _ h))
                        (ignore-Ensures Sound r h)))))))))

  pub make_entries-Ensures : (st : Store) → Ensures Sound (make_entries fuel st)
  unfolding make_entries
  make_entries-Ensures st = Ensures-then Sound read_map_start _ (λ count.
      Ensures-loop Sound _ (λ r h. Ensures-then Sound read_int _ (λ key. entry-Ensures st key r h))
        count no_make_request
        (
          (omega arith, omega arith, omega arith, omega arith, refl),
          (λ e. absurd cc),
          (λ e. absurd cc),
        ))
