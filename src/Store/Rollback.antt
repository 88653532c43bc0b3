-- ===== src/Store/Rollback.antt =====
-- The journal that src/credential_store.c makes ready after a load: `store_load_if_needed` keeps the
-- checksum of the payload in clear for it, and the next load asks for that of the image.
use meow_key.Prelude.{ℕ, ◌<◌, ◌^◌, ◌%◌, Bool, true, false, List, Option, none, some}
use meow_key.Prelude.{◌≡◌, ◌≢◌, refl, sym, ap, ◌∙◌, arith}
use meow_key.Prelude.{leb, if◌then◌else◌}
use meow_key.Store.Slots.{slot_is_taken}
use meow_key.Store.Payload.{Payload, Build}
use meow_key.Store.Flash.{Image, JournalHeader, entry_is_blank, Device, IsDevice, Nor, IsNor}
use meow_key.Store.Image.{crc32_bytes}
use meow_key.Store.Machine.{
  Ram, target_slot, journal_header, journal_header_is_valid, journal_ensure_ready,
  journal_erase_and_initialize, journal_reset_state, journal_append, journal_program,
  update_sign_count, with_slots, sign_count_set,
}
use meow_key.Store.Load.{load}
use meow_key.Store.Durable.{started, slots_of}
use meow_key.Store.Commit.{slot_full}
use meow_key.Store.Committed.{fresh, initialized}
use meow_key.Store.Journal.{advanced, entry_for}
use meow_key.Store.PowerCut.{slot_programmed, flash_at}
use meow_key.Store.Atomic.{Begun, new_image, complete-load, old-stale}

module _ {Raw F : Type 0} (d : Device Raw) (n : Nor Raw F) where
  header-foreign :
      (j : JournalHeader) (q : Ram)
      → j.store_payload_crc32 ≢ q.payload_crc32
      → journal_header_is_valid d n j q ≡ false
  unfolding journal_header_is_valid
  header-foreign j q e = ground arith

  -- The first count after a load that found no journal, and the flash that it leaves.
  abbrev first_entry : ℕ → ℕ → Ram → F → F
  first_entry i count r f =
      n.program_entry 0 (entry_for i count (fresh d n r)) (initialized d n r f)

  unpicked : {A : Type 0} (b : Bool) (x y : A) → b ≡ false → (if b then x else y) ≡ y
  unpicked true x y e = absurd cc
  unpicked false x y e = refl

  by_slot :
      {A : Type 0} (o : Option ℕ) (t : ℕ) (x y : A)
      → o ≡ some t
      → elim o as (λ k. A) [ none ↦ x | some i ↦ y ] ≡ y
  by_slot none t x y e = absurd cc
  by_slot (some i) t x y e = refl

  first_append :
      IsNor n
      → 0 < d.entry_capacity
      → (salt : List ℕ) (i count t : ℕ) (r : Ram) (f : F) → r.journal_ready ≡ false
      → r.active_slot ≡ some t
      → journal_append d n salt i count r f
        ≡ (true, advanced (fresh d n r), first_entry i count r f)
  unfolding journal_append journal_ensure_ready journal_erase_and_initialize journal_program
  first_append w room salt i count t r f unready is_active =
      let b : entry_is_blank ((n.journal (initialized d n r f)).entries 0) ≡ true =
        ap entry_is_blank
          (w.program_journal_header-entries (journal_header d n r) (n.erase_journal f) 0)
        ∙ w.erase_journal-blank f 0 in
      let left : leb d.entry_capacity 0 ≡ false = ground arith in
      let ready : journal_ensure_ready d n r f ≡ (fresh d n r, initialized d n r f) =
        unpicked r.journal_ready (r, f) (journal_erase_and_initialize d n r f) unready
        ∙ by_slot r.active_slot t (journal_reset_state r, f) (fresh d n r, initialized d n r f)
            is_active in
      rw (ready, left, b, journal_append) refl

  module _ (build : Build) (v : IsDevice d) (w : IsNor n) where
    -- After a cut of the power that leaves the complete image of a commit without its journal, a count
    -- that is written for a slot that is taken is reported as written and is in memory, and the next
    -- load gives the payload without it, where the checksum of the payload in clear is not that of the
    -- image. Memory, cipher and flash keep their laws, and the journal has room for an entry.
    pub update-lost :
        (salt salt' : List ℕ) (p : Payload) (r : Ram) (f : F) (im : Image Raw) (i count : ℕ)
        → Begun d n build salt p r f im
        → 0 < d.entry_capacity
        → slot_is_taken i p.credentials ≡ true
        → crc32_bytes (d.bytes_of (d.raw_of p)) ≢ im.header.payload_crc32
        → (let (r', f') = load d n build salt' none (flash_at d n slot_programmed im r f) in
            let (done, r'', f'') = update_sign_count d n salt' i count r' f' in
            (done ≡ true)
            × (r''.payload ≡ slots_of p (sign_count_set i count p.credentials.slots))
            × ((load d n build salt' none f'').0.payload ≡ p))
    unfolding flash_at update_sign_count
    update-lost salt salt' p r f im i count b room taken foreign =
        let g = slot_full d n (target_slot r) im f in
        let r' : Ram = record (started d n build (new_image d n build v w p r im) (target_slot r)) {
          loaded = true;
          payload_crc32 = crc32_bytes (d.bytes_of (d.raw_of p));
        } in
        let first : load d n build salt' none g ≡ (r', g) =
          complete-load d n build v w salt salt' p r f g im b (λ k. refl)
            (old-stale d n build v w salt p r f im b) in
        let q : Ram = with_slots (sign_count_set i count p.credentials.slots) r' in
        let k = i % 2 ^ 16 in
        let g'' = first_entry k count q g in
        let appended = first_append w room salt' k count (target_slot r) q g refl refl in
        let updated : update_sign_count d n salt' i count r' g
            ≡ (true, advanced (fresh d n q), g'') =
          rw (taken, appended, update_sign_count) refl in
        let images : (j : ℕ) → n.image g'' j ≡ n.image g j = λ j.
          w.program_entry-image 0 (entry_for k count (fresh d n q)) j (initialized d n q g)
          ∙ w.program_journal_header-image (journal_header d n q) j (n.erase_journal g)
          ∙ w.erase_journal-image j g in
        let written : (n.journal g'').header ≡ journal_header d n q =
          w.program_entry-header 0 (entry_for k count (fresh d n q)) (initialized d n q g)
          ∙ w.program_journal_header-header (journal_header d n q) (n.erase_journal g) in
        let second = complete-load d n build v w salt salt' p r f g'' im b images (
          header-foreign (n.journal g'').header _
            (λ e. foreign (ap (λ (x : JournalHeader). x.store_payload_crc32) (sym written) ∙ e))) in
        rw (first, updated) (refl, refl, ap (λ (x : Ram × F). x.0.payload) second)
