-- ===== src/Store/PowerCut.antt =====
-- A commit of src/credential_store.c that the power cuts between two calls of the flash.
use meow_key.Prelude.{ℕ, ◌-◌, ◌<◌, Bool, true, false, List, none, some}
use meow_key.Prelude.{◌≡◌, ◌≢◌, refl, sym, ap, ◌∙◌, subst, inl, inr, ◌⊎◌}
use meow_key.Store.Payload.{Build}
use meow_key.Store.Flash.{Image, entry_is_blank, Device, Nor, program_from}
use meow_key.Store.Image.{Loaded, crc32_bytes, header_is_valid, load_slot}
use meow_key.Store.Machine.{
  Ram, replay, target_slot, committed, journal_header_is_valid, journal_load_if_present,
  journal_reset_state,
}
use meow_key.Store.Load.{best_slot, load}
use meow_key.Store.Clean.{IsClean, IsClean-sanitize}
use meow_key.Store.Durable.{Durable, best_slot-0, best_slot-1, load_slots-clean, started}
use meow_key.Store.Commit.{slot_full, target_slot-either, other_slot}
use meow_key.Store.Committed.{initialized}
use meow_key.Store.Ready.{target_slot-active}

-- How far a commit has come: nothing, the slot erased and this many pages behind the first one, the
-- whole slot, the journal erased, the header of the journal.
pub data Cut : Type 0 where
  unchanged : Cut
  pages_programmed : ℕ → Cut
  slot_programmed : Cut
  journal_erased : Cut
  finished : Cut

-- Whether the image is complete.
unfoldable pub is_complete : Cut → Bool
is_complete unchanged = false
is_complete (pages_programmed j) = false
is_complete slot_programmed = true
is_complete journal_erased = true
is_complete finished = true

module _ {Raw F : Type 0} (d : Device Raw) (n : Nor Raw F) where
  -- The flash at that point of a commit of the image by these variables.
  unfoldable pub flash_at : Cut → Image Raw → Ram → F → F
  flash_at unchanged im r f = f
  flash_at (pages_programmed j) im r f =
      program_from n (target_slot r) j 1 im (n.erase_slot (target_slot r) f)
  flash_at slot_programmed im r f = slot_full d n (target_slot r) im f
  flash_at journal_erased im r f = n.erase_journal (slot_full d n (target_slot r) im f)
  flash_at finished im r f = initialized d n (committed im r) (slot_full d n (target_slot r) im f)

  blank-load_slot : (im : Image Raw) → im.header.magic ≡ 0xffffffff → load_slot d im ≡ none
  unfolding load_slot header_is_valid
  blank-load_slot im e = rw (e) refl

  module _ (build : Build) where
    -- A flash whose target slot has no image and that is else what it was.
    pub untouched-Durable :
        (r : Ram) (f g : F)
        → Durable d n build r f
        → ((j : ℕ) → target_slot r ≢ j → n.image g j ≡ n.image f j)
        → n.journal g ≡ n.journal f
        → (n.image g (target_slot r)).header.magic ≡ 0xffffffff
        → Durable d n build r g
    untouched-Durable r f g h others same blank_slot = record {
      base = h.base;
      active = h.active;
      either = h.either;
      is_active = h.is_active;
      here =
          ap (load_slot d) (
            others h.active
              (λ e. other_slot r (e ∙ sym (target_slot-active r h.active h.either h.is_active))))
          ∙ h.here;
      is_wrapped = h.is_wrapped;
      same_generation = h.same_generation;
      older = λ l e.
          (let no : none ≡ some l =
              sym (blank-load_slot (n.image g (target_slot r)) blank_slot) ∙ e in
            absurd cc);
      header =
          ap
            (λ j.
              journal_header_is_valid d n j.header
                (record r { payload_crc32 = h.base.payload_crc32 }))
            same
          ∙ h.header;
      is_ready = h.is_ready;
      is_loaded = h.is_loaded;
      replays =
          ap
            (λ j.
              replay d.entry_capacity j.entries
                (record { slots = h.base.payload.credentials.slots; sequence = 1; index = 0 }))
            same
          ∙ h.replays;
      blank_after = λ k l. ap (λ j. entry_is_blank (j.entries k)) same ∙ h.blank_after k l;
      same_rest = h.same_rest;
      clean_base = h.clean_base;
      clean = h.clean;
    }

    best_slot-target :
        (r : Ram) (g : F) (new : Loaded)
        → load_slot d (n.image g (target_slot r)) ≡ some new
        → ((l : Loaded)
            → load_slot d (n.image g (1 - target_slot r)) ≡ some l
            → l.generation < new.generation)
        → best_slot d n build g ≡ some (target_slot r, new)
    best_slot-target r g new here older = at (target_slot r) (target_slot-either r) here older
      where
        at :
            (t : ℕ)
            → (t ≡ 0) ⊎ (t ≡ 1)
            → load_slot d (n.image g t) ≡ some new
            → ((l : Loaded)
                → load_slot d (n.image g (1 - t)) ≡ some l
                → l.generation < new.generation)
            → best_slot d n build g ≡ some (t, new)
        at t (inl e) here older =
            best_slot-0 d n build g new (subst (λ k. load_slot d (n.image g k) ≡ some new) e here) (
              subst
                (λ k.
                  (l : Loaded)
                  → load_slot d (n.image g (1 - k)) ≡ some l
                  → l.generation < new.generation)
                e older)
            ∙ ap (λ k. some (k, new)) (sym e)
        at t (inr e) here older =
            best_slot-1 d n build g new (subst (λ k. load_slot d (n.image g k) ≡ some new) e here) (
              subst
                (λ k.
                  (l : Loaded)
                  → load_slot d (n.image g (1 - k)) ≡ some l
                  → l.generation < new.generation)
                e older)
            ∙ ap (λ k. some (k, new)) (sym e)

    journal-ignored :
        (l : Loaded) (i : ℕ) (g : F)
        → journal_header_is_valid d n (n.journal g).header (started d n build l i) ≡ false
        → journal_load_if_present d n (started d n build l i) g ≡ started d n build l i
    unfolding journal_load_if_present journal_reset_state
    journal-ignored l i g e = rw (e) refl

    -- The load of a complete image that has no journal.
    pub new_image-load :
        (salt : List ℕ) (r : Ram) (g : F) (new : Loaded)
        → load_slot d (n.image g (target_slot r)) ≡ some new
        → ((l : Loaded)
            → load_slot d (n.image g (1 - target_slot r)) ≡ some l
            → l.generation < new.generation)
        → new.wrapped ≡ true
        → IsClean build new.payload
        → journal_header_is_valid d n (n.journal g).header (started d n build new (target_slot r))
          ≡ false
        → load d n build salt none g ≡ (
          record (started d n build new (target_slot r)) {
            loaded = true;
            payload_crc32 = crc32_bytes (d.bytes_of (d.raw_of new.payload));
          },
          g,
        )
    unfolding load
    new_image-load salt r g new here older wrapped c none_valid =
        rw (best_slot-target r g new here older) (
          load_slots-clean d n build salt none (target_slot r) new
            (started d n build new (target_slot r)) g (IsClean-sanitize build new.payload c) wrapped
            (journal-ignored new (target_slot r) g none_valid))
