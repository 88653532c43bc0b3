-- ===== src/Store/Journal.antt =====
-- The writing of a signature count through the journal of src/credential_store.c.
use meow_key.Prelude.{ℕ, suc, ◌-◌, ◌<◌, true, false, List}
use meow_key.Prelude.{◌≡◌, refl, sym, ap, ◌∙◌, arith}
use meow_key.Prelude.{length, get_or, leb, ◌==◌, ==_iff, if◌then◌else◌, lt→ltb, add32}
use meow_key.Store.Slot.{Slot, blank, slot_is_valid}
use meow_key.Store.Payload.{Build}
use meow_key.Store.Flash.{Entry, entry_is_blank, entry_is_valid, entry_magic, Device, Nor, IsNor}
use meow_key.Store.Machine.{
  Ram, apply_entry, with_slots, sign_count_set, target_slot, journal_header_is_valid,
}
use meow_key.Store.Clean.{IsClean}
use meow_key.Store.Durable.{Durable, slots_of, header_same}
use meow_key.Store.Append.{replay-appended, IsWritten-other}
use meow_key.Store.Image.{load_slot}

-- The variables and the entry of a count that is written.
abbrev pub advanced : Ram → Ram
advanced r = record r {
  next_entry_index = suc r.next_entry_index;
  next_sequence = add32 r.next_sequence 1;
}

abbrev pub entry_for : ℕ → ℕ → Ram → Entry
entry_for i count r = record {
  magic = entry_magic;
  slot_index = i;
  slot_index_check = 0xffff - i;
  sign_count = count;
  sequence = r.next_sequence;
}

entry_for-blank : (i count : ℕ) (r : Ram) → entry_is_blank (entry_for i count r) ≡ false
unfolding entry_is_blank
entry_for-blank i count r = refl

entry_for-valid : (i count : ℕ) (r : Ram) → entry_is_valid (entry_for i count r) ≡ true
unfolding entry_is_valid
entry_for-valid i count r =
    let same : (0xffff - i == 0xffff - i) ≡ true = (==_iff (0xffff - i) (0xffff - i)).1 refl in
    rw (same) refl

entry_for-applied :
    (i count : ℕ) (r : Ram) (slots : List Slot)
    → i < length slots
    → slot_is_valid (get_or slots i blank) ≡ true
    → apply_entry (entry_for i count r) slots ≡ sign_count_set i count slots
unfolding apply_entry
entry_for-applied i count r slots h v = rw (lt→ltb i (length slots) h, v) refl

leb_refl : (a : ℕ) → leb a a ≡ true
leb_refl a = ground arith

module _ {Raw F : Type 0} (d : Device Raw) (n : Nor Raw F) (build : Build) where
  pub written-Durable :
      (i count : ℕ) (r : Ram) (f : F)
      → IsNor n
      → Durable d n build r f
      → r.next_entry_index < d.entry_capacity
      → i < length r.payload.credentials.slots
      → slot_is_valid (get_or r.payload.credentials.slots i blank) ≡ true
      → IsClean build (slots_of r.payload (sign_count_set i count r.payload.credentials.slots))
      → Durable d n build
          (advanced (with_slots (sign_count_set i count r.payload.credentials.slots) r))
          (n.program_entry r.next_entry_index (entry_for i count r) f)
  written-Durable i count r f w h room inside valid c =
      let slots = r.payload.credentials.slots in
      let e = entry_for i count r in
      let k = r.next_entry_index in
      let f' = n.program_entry k e f in
      let images : (j : ℕ) → n.image f' j ≡ n.image f j = λ j. w.program_entry-image k e j f in
      let blank_k = h.blank_after k (omega arith) in
      let written : (j : ℕ)
          → (n.journal f').entries j ≡ (if j == k then e else (n.journal f).entries j) =
        λ j. w.program_entry-entries k e f j blank_k in
      record {
        base = h.base;
        active = h.active;
        either = h.either;
        is_active = h.is_active;
        here = ap (load_slot d) (images h.active) ∙ h.here;
        is_wrapped = h.is_wrapped;
        same_generation = h.same_generation;
        older = λ l s. h.older l (ap (load_slot d) (sym (images (target_slot r))) ∙ s);
        header =
            header_same d n build (n.journal f').header
              (record (advanced (with_slots (sign_count_set i count slots) r)) {
                payload_crc32 = h.base.payload_crc32;
              })
              (record r { payload_crc32 = h.base.payload_crc32 }) refl refl
            ∙ ap
                (λ j.
                  journal_header_is_valid d n j (record r { payload_crc32 = h.base.payload_crc32 }))
                (w.program_entry-header k e f)
            ∙ h.header;
        is_ready = h.is_ready;
        is_loaded = h.is_loaded;
        replays =
            replay-appended d.entry_capacity (n.journal f).entries (n.journal f').entries _ _ e
              h.replays (omega arith) blank_k (h.blank_after (suc k) (omega arith))
              (entry_for-blank i count r) (entry_for-valid i count r) written
            ∙ rw (entry_for-applied i count r slots inside valid, leb_refl r.next_sequence) refl;
        blank_after = λ j l.
            ap entry_is_blank (
              IsWritten-other k j e (n.journal f).entries (n.journal f').entries written
                (λ x. absurd (omega arith)))
            ∙ h.blank_after j (omega arith);
        same_rest = ap (λ p. slots_of p (sign_count_set i count slots)) h.same_rest;
        clean_base = h.clean_base;
        clean = c;
      }
