-- ===== src/Store/Images.antt =====
-- The images that src/credential_store.c makes, read back.
use meow_key.Prelude.{ℕ, ◌<◌, true, List, take, Option, none, some, ◌≡◌, refl, ap, ◌∙◌, subst}
use meow_key.Prelude.{inl, inr, Option-cases, lt→ltb, ◌==◌, ==_iff, codes}
use meow_key.ClientPin.Token.{constant_time_equal-bytes}
use meow_key.Store.Payload.{Payload}
use meow_key.Store.Flash.{WrapMetadata, Image, Device, IsDevice}
use meow_key.Store.Image.{
  crc32_bytes, store_constant_time_equal, wrap_metadata_is_valid, init_wrap_metadata,
  derive_wrap_material, payload_crypt, compute_wrap_tag, header_crc, fresh_header,
  prepare_slot_image, header_is_valid, unwrap, load_slot,
}

==_refl : (a : ℕ) → (a == a) ≡ true
==_refl a = (==_iff a a).1 refl

module _ {Raw : Type 0} (d : Device Raw) (v : IsDevice d) where
  crypt_by : Option (List ℕ) → Option (List ℕ) → Raw → Option Raw
  crypt_by key counter x = elim key [
    | none ↦ none
    | some k ↦ elim counter [ none ↦ none | some c ↦ d.aes_ctr k (take 16 c) x ]
  ]

  crypt_by-crypt_by :
      (key counter : Option (List ℕ)) (plain coded : Raw)
      → crypt_by key counter plain ≡ some coded
      → crypt_by key counter coded ≡ some plain
  unfolding crypt_by
  crypt_by-crypt_by none counter plain coded e = absurd cc
  crypt_by-crypt_by (some k) none plain coded e = absurd cc
  crypt_by-crypt_by (some k) (some c) plain coded e = v.aes_ctr-aes_ctr k (take 16 c) plain coded e

  payload_crypt-payload_crypt :
      (w w' : WrapMetadata) (plain coded : Raw)
      → w.salt ≡ w'.salt
      → payload_crypt d w plain ≡ some coded
      → payload_crypt d w' coded ≡ some plain
  unfolding payload_crypt crypt_by
  payload_crypt-payload_crypt w w' plain coded same e =
      subst
        (λ (s : List ℕ).
          crypt_by (derive_wrap_material d s (codes "meowkey-store-wrap/aes-key"))
            (derive_wrap_material d s (codes "meowkey-store-wrap/aes-ctr")) coded
          ≡ some plain)
        same
        (crypt_by-crypt_by (derive_wrap_material d w.salt (codes "meowkey-store-wrap/aes-key"))
          (derive_wrap_material d w.salt (codes "meowkey-store-wrap/aes-ctr")) plain coded e)

  compute_wrap_tag_salt :
      (w : WrapMetadata) (tag : List ℕ) (coded : Raw)
      → compute_wrap_tag d (record w { tag = tag }) coded ≡ compute_wrap_tag d w coded
  unfolding compute_wrap_tag
  compute_wrap_tag_salt w tag coded = refl

  made : List ℕ → ℕ → Raw → List ℕ → Image Raw
  made salt g coded tag =
      let h = fresh_header d g (record (init_wrap_metadata salt) { tag = tag }) coded in
      record { header = record h { header_crc32 = header_crc d h }; payload = coded }

  made-header_is_valid :
      (salt : List ℕ) (g : ℕ) (coded : Raw) (tag : List ℕ)
      → 0 < g
      → header_is_valid d (made salt g coded tag).header ≡ true
  unfolding made header_is_valid header_crc
  made-header_is_valid salt g coded tag h =
      rw (lt→ltb 0 g h, ==_refl d.payload_size)
        (==_refl (header_crc d (made salt g coded tag).header))

  unwrap-some :
      (im : Image Raw) (tag : List ℕ) (plain : Raw)
      → compute_wrap_tag d im.header.wrap im.payload ≡ some tag
      → store_constant_time_equal tag im.header.wrap.tag 16 ≡ true
      → payload_crypt d im.header.wrap im.payload ≡ some plain
      → unwrap d im ≡ some (d.payload_of plain)
  unfolding unwrap
  unwrap-some im tag plain et same back = rw (et, same, back, unwrap) refl

  same_tag : (tag : List ℕ) → store_constant_time_equal tag tag 16 ≡ true
  unfolding store_constant_time_equal
  same_tag tag = (constant_time_equal-bytes tag tag 16).1 (λ i l. refl)

  made-unwrap :
      (salt : List ℕ) (p : Payload) (g : ℕ) (coded : Raw) (tag : List ℕ)
      → payload_crypt d (init_wrap_metadata salt) (d.raw_of p) ≡ some coded
      → compute_wrap_tag d (init_wrap_metadata salt) coded ≡ some tag
      → unwrap d (made salt g coded tag) ≡ some p
  unfolding made
  made-unwrap salt p g coded tag ec et =
      let w = init_wrap_metadata salt in
      unwrap-some (made salt g coded tag) tag (d.raw_of p) (compute_wrap_tag_salt w tag coded ∙ et)
        (same_tag tag)
        (payload_crypt-payload_crypt w (record w { tag = tag }) (d.raw_of p) coded refl ec)
      ∙ ap some (v.payload_of-raw_of p)

  made-load_slot :
      (salt : List ℕ) (p : Payload) (g : ℕ) (coded : Raw) (tag : List ℕ)
      → 0 < g
      → unwrap d (made salt g coded tag) ≡ some p
      → load_slot d (made salt g coded tag)
        ≡ some (record {
          payload = p;
          generation = g;
          payload_crc32 = (made salt g coded tag).header.payload_crc32;
          wrapped = true;
        })
  unfolding load_slot made wrap_metadata_is_valid init_wrap_metadata
  made-load_slot salt p g coded tag h u =
      rw (made-header_is_valid salt g coded tag h, ==_refl (crc32_bytes (d.bytes_of coded)), u) refl

  IsMade : List ℕ → Payload → ℕ → Option (Image Raw) → Type 0
  IsMade salt p g none = Unit
  IsMade salt p g (some im) =
      load_slot d im
      ≡ some (record {
        payload = p;
        generation = g;
        payload_crc32 = im.header.payload_crc32;
        wrapped = true;
      })

  prepare_slot_image-IsMade :
      (salt : List ℕ) (p : Payload) (g : ℕ)
      → 0 < g
      → IsMade salt p g (prepare_slot_image d salt p g)
  unfolding prepare_slot_image IsMade made
  prepare_slot_image-IsMade salt p g h =
      elim (Option-cases (payload_crypt d (init_wrap_metadata salt) (d.raw_of p))) [
        | inl ec ↦ rw (ec, IsMade) tt
        | inr (coded, ec) ↦
            elim (Option-cases (compute_wrap_tag d (init_wrap_metadata salt) coded)) [
              | inl et ↦ rw (ec, et, IsMade) tt
              | inr (tag, et) ↦
                  rw (ec, et, IsMade)
                    (made-load_slot salt p g coded tag h (made-unwrap salt p g coded tag ec et))
            ]
      ]

  -- An image that is made for a payload at a positive generation, read back from a slot, gives this
  -- payload and generation and counts as wrapped, where memory gives back the structures that it was
  -- given and the counter mode undoes itself.
  pub prepare_slot_image-load_slot :
      (salt : List ℕ) (p : Payload) (g : ℕ) (im : Image Raw)
      → prepare_slot_image d salt p g ≡ some im
      → 0 < g
      → load_slot d im
        ≡ some (record {
          payload = p;
          generation = g;
          payload_crc32 = im.header.payload_crc32;
          wrapped = true;
        })
  unfolding IsMade
  prepare_slot_image-load_slot salt p g im e h =
      subst (IsMade salt p g) e (prepare_slot_image-IsMade salt p g h)
