-- ===== src/Store/Machine.antt =====
-- The loading and the committing of src/credential_store.c, and its journal of signature counts: the
-- static variables and the flash as one state.
use meow_key.Prelude.{ℕ, zero, suc, ◌-◌, ◌%◌, ◌^◌, Bool, true, false, ◌&&◌, not, List}
use meow_key.Prelude.{Option, none, some, length, get_or, set, ltb, leb, ◌==◌, if◌then◌else◌, add32}
use meow_key.Store.Slot.{Slot, blank, slot_is_valid}
use meow_key.Store.Slots.{slot_is_taken}
use meow_key.Store.Payload.{Payload}
use meow_key.Store.Flash.{
  JournalHeader, Entry, entry_is_blank, entry_is_valid, entry_magic, Image, Device, Nor,
  program_tail,
}
use meow_key.Store.Image.{prepare_slot_image, store_version}

-- The static variables; the active slot is `none` for -1.
pub record Ram : Type 0 where
  pub payload : Payload
  pub loaded : Bool
  pub generation : ℕ
  pub payload_crc32 : ℕ
  pub active_slot : Option ℕ
  pub journal_ready : Bool
  pub next_sequence : ℕ
  pub next_entry_index : ℕ

abbrev pub journal_magic : ℕ
journal_magic = 0x4d4b5343

-- `sign_count_journal_reset_state`
unfoldable pub journal_reset_state : Ram → Ram
journal_reset_state r = record r { journal_ready = false; next_sequence = 1; next_entry_index = 0 }

-- A count goes to its slot, if the slot is there and valid.
unfoldable pub apply_entry : Entry → List Slot → List Slot
apply_entry e slots =
    if ltb e.slot_index (length slots) && slot_is_valid (get_or slots e.slot_index blank)
    then set slots e.slot_index
        (record (get_or slots e.slot_index blank) { sign_count = e.sign_count })
    else slots

-- Where the loop over the journal stands: the slots, the next sequence number and index.
pub record Replay : Type 0 where
  pub slots : List Slot
  pub sequence : ℕ
  pub index : ℕ

abbrev pub replayed : Entry → Replay → Replay
replayed e r = record {
  slots = apply_entry e r.slots;
  sequence = if leb r.sequence e.sequence then add32 e.sequence 1 else r.sequence;
  index = suc r.index;
}

-- The loop of `sign_count_journal_load_if_present`; the first argument is the entries that remain.
unfoldable pub replay : ℕ → (ℕ → Entry) → Replay → Replay
replay zero entries r = r
replay (suc n) entries r =
    let rest = replay n entries (replayed (entries r.index) r) in
    if entry_is_blank (entries r.index)
    then r
    else if not (entry_is_valid (entries r.index))
    then r
    else rest

abbrev pub target_slot : Ram → ℕ
target_slot r = elim r.active_slot [ none ↦ 0 | some i ↦ if i == 0 then 1 else 0 ]

-- The variables once the image is in the flash.
abbrev pub committed : {Raw : Type 0} → Image Raw → Ram → Ram
committed im r = record r {
  active_slot = some (target_slot r);
  generation = add32 r.generation 1;
  payload_crc32 = im.header.payload_crc32;
}

abbrev pub with_slots : List Slot → Ram → Ram
with_slots slots r = record r {
  payload = record (r.payload) { credentials = record (r.payload.credentials) { slots = slots } };
}

abbrev pub sign_count_set : ℕ → ℕ → List Slot → List Slot
sign_count_set i count slots = set slots i (record (get_or slots i blank) { sign_count = count })

module _ {Raw F : Type 0} (d : Device Raw) (n : Nor Raw F) where
  unfoldable pub journal_header_is_valid : JournalHeader → Ram → Bool
  journal_header_is_valid h r =
      h.magic == journal_magic
      && (h.version == 2
          && (h.entry_size == 16
              && (h.entry_capacity == d.entry_capacity
                  && (h.store_version == store_version
                      && (h.store_generation == r.generation
                          && h.store_payload_crc32 == r.payload_crc32)))))

  -- The header that `sign_count_journal_erase_and_initialize` writes.
  abbrev pub journal_header : Ram → JournalHeader
  journal_header r = record {
    magic = journal_magic;
    version = 2;
    entry_size = 16;
    entry_capacity = d.entry_capacity;
    store_version = store_version;
    store_generation = r.generation;
    store_payload_crc32 = r.payload_crc32;
  }

  unfoldable pub journal_erase_and_initialize : Ram → F → Ram × F
  journal_erase_and_initialize r f = elim r.active_slot [
    | none ↦ (journal_reset_state r, f)
    | some i ↦ (
      record r { journal_ready = true; next_sequence = 1; next_entry_index = 0 },
      n.program_journal_header (journal_header r) (n.erase_journal f),
    )
  ]

  -- The header is programmed last, once the rest has been read back.
  unfoldable pub program_slot : ℕ → Image Raw → F → Bool × F
  program_slot i im f =
      let f' = program_tail n i im (n.erase_slot i f) in
      if not (n.tail_matches i im f')
      then (false, f')
      else (n.image_matches i im (n.program_head i im f'), n.program_head i im f')

  unfoldable pub commit_payload : List ℕ → Ram → F → Bool × Ram × F
  commit_payload salt r f = elim (prepare_slot_image d salt r.payload (add32 r.generation 1)) [
    | none ↦ (false, r, f)
    | some im ↦
        let (done, f') = program_slot (target_slot r) im f in
        if not done then (false, r, f') else (true, committed im r, f')
  ]

  unfoldable pub commit_transaction : List ℕ → Ram → F → Bool × Ram × F
  commit_transaction salt r f =
      let (done, r', f') = commit_payload salt r f in
      if not done
      then (false, r', f')
      else (let (r'', f'') = journal_erase_and_initialize r' f' in (true, r'', f''))

  unfoldable pub journal_load_if_present : Ram → F → Ram
  journal_load_if_present r f =
      let r' = journal_reset_state r in
      elim r'.active_slot [
        | none ↦ r'
        | some i ↦
            if not (journal_header_is_valid (n.journal f).header r')
            then r'
            else (let done =
                  replay d.entry_capacity (n.journal f).entries
                    (record { slots = r'.payload.credentials.slots; sequence = 1; index = 0 }) in
                record r' {
                  payload = record (r'.payload) {
                    credentials = record (r'.payload.credentials) { slots = done.slots };
                  };
                  journal_ready = true;
                  next_sequence = done.sequence;
                  next_entry_index = done.index;
                })
      ]

  -- The entry goes behind the last one, once the journal has been made ready and has room.
  unfoldable pub journal_program : ℕ → ℕ → Ram → F → Bool × Ram × F
  journal_program i count r f =
      if not (entry_is_blank ((n.journal f).entries r.next_entry_index)) then (false, r, f) else (
        true,
        record r {
          next_entry_index = suc r.next_entry_index;
          next_sequence = add32 r.next_sequence 1;
        },
        n.program_entry r.next_entry_index
            (record {
              magic = entry_magic;
              slot_index = i;
              slot_index_check = 0xffff - i;
              sign_count = count;
              sequence = r.next_sequence;
            })
            f,
      )

  unfoldable pub journal_ensure_ready : Ram → F → Ram × F
  journal_ensure_ready r f = if r.journal_ready then (r, f) else journal_erase_and_initialize r f

  unfoldable pub journal_append : List ℕ → ℕ → ℕ → Ram → F → Bool × Ram × F
  journal_append salt i count r f =
      let (r', f') = journal_ensure_ready r f in
      if leb d.entry_capacity r'.next_entry_index
      then (let (done, r'', f'') = commit_transaction salt r' f' in
          if not done then (false, r'', f'') else journal_program i count r'' f'')
      else journal_program i count r' f'

  -- `meowkey_store_update_sign_count`, with the journal.
  unfoldable pub update_sign_count : List ℕ → ℕ → ℕ → Ram → F → Bool × Ram × F
  update_sign_count salt i count r f =
      let slots = r.payload.credentials.slots in
      if not (slot_is_taken i r.payload.credentials)
      then (false, r, f)
      else (let previous = (get_or slots i blank).sign_count in
          let (done, r', f') =
            journal_append salt (i % 2 ^ 16) count (with_slots (sign_count_set i count slots) r)
              f in
          if not done
          then (false, with_slots (sign_count_set i previous r'.payload.credentials.slots) r', f')
          else (true, r', f'))
