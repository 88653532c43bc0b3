-- ===== src/Store/Atomic.antt =====
-- What a load gives after the power has been cut during a commit of src/credential_store.c.
use meow_key.Prelude.{ℕ, ◌+◌, ◌-◌, ◌<◌, ◌^◌, true, false, List, none, some}
use meow_key.Prelude.{◌≡◌, ◌≢◌, refl, sym, ap, ◌∙◌, subst, arith}
use meow_key.Prelude.{if◌then◌else◌, add32}
use meow_key.Store.Payload.{Payload, Build}
use meow_key.Store.Flash.{Image, Header, Journal, JournalHeader, Device, IsDevice, Nor, IsNor}
use meow_key.Store.Flash.{
  program_from, program_from_other, program_from-journal, program_from-header,
}
use meow_key.Store.Image.{Loaded, crc32_bytes, load_slot, prepare_slot_image}
use meow_key.Store.Images.{prepare_slot_image-load_slot}
use meow_key.Store.Machine.{Ram, target_slot, journal_header_is_valid}
use meow_key.Store.Load.{load}
use meow_key.Store.Clean.{IsClean}
use meow_key.Store.Durable.{Durable, Durable-load, started}
use meow_key.Store.Commit.{slot_full, slot_full-Programmed, Programmed, other_slot}
use meow_key.Store.Committed.{journal_ready-Durable}
use meow_key.Store.Ready.{Durable-Committable}
use meow_key.Store.PowerCut.{Cut, unchanged, pages_programmed, slot_programmed}
use meow_key.Store.PowerCut.{
  journal_erased, finished, is_complete, flash_at, untouched-Durable, new_image-load,
}

-- A commit of a payload from variables and flash that agree: its image is made, and the flash takes it.
pub record Begun {Raw F : Type 0} (d : Device Raw) (n : Nor Raw F) (build : Build) (salt : List ℕ)
    (p : Payload) (r : Ram) (f : F) (im : Image Raw) : Type 0 where
  pub agrees : Durable d n build r f
  pub clean : IsClean build p
  pub small : r.generation + 1 < 2 ^ 32
  pub prepared : prepare_slot_image d salt p (add32 r.generation 1) ≡ some im
  pub programs : n.image_matches (target_slot r) im (slot_full d n (target_slot r) im f) ≡ true

module _ {Raw F : Type 0} (d : Device Raw) (n : Nor Raw F) where
  header-generation :
      (j : JournalHeader) (q : Ram)
      → journal_header_is_valid d n j q ≡ true
      → j.store_generation ≡ q.generation
  unfolding journal_header_is_valid
  header-generation j q e = ground arith

  pub header-stale :
      (j : JournalHeader) (q : Ram)
      → j.store_generation ≢ q.generation
      → journal_header_is_valid d n j q ≡ false
  unfolding journal_header_is_valid
  header-stale j q e = ground arith

  pub header-blank :
      (j : JournalHeader) (q : Ram) → j.magic ≡ 0xffffffff → journal_header_is_valid d n j q ≡ false
  unfolding journal_header_is_valid
  header-blank j q e = rw (e) refl

  module _ (build : Build) (v : IsDevice d) (w : IsNor n) where
    -- What the image of a commit loads as.
    abbrev pub new_image : Payload → Ram → Image Raw → Loaded
    new_image p r im = record {
      payload = p;
      generation = add32 r.generation 1;
      payload_crc32 = im.header.payload_crc32;
      wrapped = true;
    }

    -- The slot after the whole image has been programmed.
    pub full-Programmed :
        (salt : List ℕ) (p : Payload) (r : Ram) (f : F) (im : Image Raw)
        → Begun d n build salt p r f im
        → Programmed d n (target_slot r) im f (slot_full d n (target_slot r) im f)
    full-Programmed salt p r f im b = slot_full-Programmed d n w (target_slot r) im f b.programs

    -- A complete image loads as what was committed, if no journal belongs to it.
    pub complete-load :
        (salt salt' : List ℕ) (p : Payload) (r : Ram) (f g : F) (im : Image Raw)
        → Begun d n build salt p r f im
        → ((i : ℕ) → n.image g i ≡ n.image (slot_full d n (target_slot r) im f) i)
        → journal_header_is_valid d n
            (n.journal g).header
            (started d n build (new_image p r im) (target_slot r))
          ≡ false
        → load d n build salt' none g ≡ (
          record (started d n build (new_image p r im) (target_slot r)) {
            loaded = true;
            payload_crc32 = crc32_bytes (d.bytes_of (d.raw_of p));
          },
          g,
        )
    complete-load salt salt' p r f g im b images stale =
        let small = b.small in
        let next : add32 r.generation 1 ≡ r.generation + 1 = omega arith in
        let t = target_slot r in
        let done = full-Programmed salt p r f im b in
        let ready =
          Durable-Committable d n build r (record r { payload = p }) f b.agrees refl refl refl
            b.clean in
        new_image-load d n build salt' r g (new_image p r im)
          (ap (load_slot d) (images t ∙ done.holds)
            ∙ prepare_slot_image-load_slot d v salt p (add32 r.generation 1) im b.prepared
                (omega arith))
          (λ l e.
            (let no_newer = ready.no_newer l (
                ap (load_slot d) (sym (images (1 - t) ∙ done.others (1 - t) (other_slot r))) ∙ e) in
              subst (λ x. l.generation < x) (sym next) (omega arith)))
          refl b.clean stale

    -- The journal of the image before does not belong to the new one.
    pub old-stale :
        (salt : List ℕ) (p : Payload) (r : Ram) (f : F) (im : Image Raw)
        → Begun d n build salt p r f im
        → journal_header_is_valid d n
            (n.journal (slot_full d n (target_slot r) im f)).header
            (started d n build (new_image p r im) (target_slot r))
          ≡ false
    old-stale salt p r f im b =
        let small = b.small in
        let h = b.agrees in
        let done = full-Programmed salt p r f im b in
        let g =
          header-generation (n.journal f).header (record r { payload_crc32 = h.base.payload_crc32 })
            h.header in
        header-stale _ (started d n build (new_image p r im) (target_slot r)) (λ e.
          (let same : (n.journal f).header.store_generation ≡ add32 r.generation 1 =
              ap (λ (x : Journal). x.header.store_generation) (sym done.same_journal) ∙ e in
            absurd (omega (arith, g))))

    -- What a load gives from the flash at each point of a commit that has begun.
    pub flash_at-load :
        (cut : Cut) (salt salt' : List ℕ) (p : Payload) (r : Ram) (f : F) (im : Image Raw)
        → Begun d n build salt p r f im
        → (load d n build salt' none (flash_at d n cut im r f)).0.payload
          ≡ (if is_complete cut then p else r.payload)
    unfolding flash_at is_complete
    flash_at-load unchanged salt salt' p r f im b =
        ap (λ (x : Ram × F). x.0.payload) (Durable-load d n build salt' none r f b.agrees)
    flash_at-load (pages_programmed k) salt salt' p r f im b =
        let t = target_slot r in
        let e = n.erase_slot t f in
        let g = program_from n t k 1 im e in
        ap (λ (x : Ram × F). x.0.payload)
          (Durable-load d n build salt' none r g (
            untouched-Durable d n build r f g b.agrees
              (λ j h. program_from_other n w t k 1 j im e h ∙ w.erase_slot_other t j f h)
              (program_from-journal n w t k 1 im e ∙ w.erase_slot-journal t f)
              (ap (λ (x : Header). x.magic) (program_from-header n w t k 1 im e (omega arith))
                ∙ w.erase_slot-header t f)))
    flash_at-load slot_programmed salt salt' p r f im b =
        ap (λ (x : Ram × F). x.0.payload)
          (complete-load salt salt' p r f (slot_full d n (target_slot r) im f) im b (λ i. refl)
            (old-stale salt p r f im b))
    flash_at-load journal_erased salt salt' p r f im b =
        let g = slot_full d n (target_slot r) im f in
        ap (λ (x : Ram × F). x.0.payload)
          (complete-load salt salt' p r f (n.erase_journal g) im b (λ i. w.erase_journal-image i g)
            (header-blank (n.journal (n.erase_journal g)).header _ (w.erase_journal-magic g)))
    flash_at-load finished salt salt' p r f im b =
        let q = record r { payload = p } in
        ap (λ (x : Ram × F). x.0.payload)
          (Durable-load d n build salt' none _ _ (
            journal_ready-Durable d n build salt q f im (slot_full d n (target_slot r) im f) v w
              b.prepared (full-Programmed salt p r f im b) b.small
              (Durable-Committable d n build r q f b.agrees refl refl refl b.clean)))
