-- ===== src/Store/Durable.antt =====
-- What the flash of src/credential_store.c holds when the variables in memory and the flash agree, and
-- what a load then gives.
use meow_key.Prelude.{ℕ, ◌≤◌, ◌<◌, true, false, List, Option, some}
use meow_key.Prelude.{◌≡◌, refl, sym, ap, ◌∙◌, subst, arith, inl, inr, ◌⊎◌, Option-cases, ltb}
use meow_key.Prelude.{lt→ltb}
use meow_key.Store.Slot.{Slot}
use meow_key.Store.Payload.{Payload, Build}
use meow_key.Store.Clean.{IsClean, IsClean-sanitize}
use meow_key.Store.Flash.{JournalHeader, entry_is_blank, Device, Nor}
use meow_key.Store.Image.{Loaded, crc32_bytes, load_slot}
use meow_key.Store.Machine.{Ram, replay, target_slot, journal_header_is_valid}
use meow_key.Store.Machine.{journal_load_if_present, journal_reset_state}
use meow_key.Store.Load.{best_slot, sanitize, load_slots, load, cold}

-- The payload with other slots.
abbrev pub slots_of : Payload → List Slot → Payload
slots_of p slots = record p { credentials = record (p.credentials) { slots = slots } }

module _ {Raw F : Type 0} (d : Device Raw) (n : Nor Raw F) (build : Build) where
  -- The flash holds the payload: an image in the active slot, none as new in the other, and behind the
  -- image the counts of the journal.
  pub record Durable (r : Ram) (f : F) : Type 0 where
    pub base : Loaded
    pub active : ℕ
    pub either : (active ≡ 0) ⊎ (active ≡ 1)
    pub is_active : r.active_slot ≡ some active
    pub here : load_slot d (n.image f active) ≡ some base
    pub is_wrapped : base.wrapped ≡ true
    pub same_generation : base.generation ≡ r.generation
    pub older :
        (l : Loaded)
        → load_slot d (n.image f (target_slot r)) ≡ some l
        → l.generation < r.generation
    pub header :
        journal_header_is_valid d n
          (n.journal f).header
          (record r { payload_crc32 = base.payload_crc32 })
        ≡ true
    pub is_ready : r.journal_ready ≡ true
    pub is_loaded : r.loaded ≡ true
    pub replays :
        replay d.entry_capacity
          (n.journal f).entries
          (record { slots = base.payload.credentials.slots; sequence = 1; index = 0 })
        ≡ record {
          slots = r.payload.credentials.slots;
          sequence = r.next_sequence;
          index = r.next_entry_index;
        }
    pub blank_after :
        (k : ℕ) → r.next_entry_index ≤ k → entry_is_blank ((n.journal f).entries k) ≡ true
    pub same_rest : slots_of base.payload r.payload.credentials.slots ≡ r.payload
    pub clean_base : IsClean build base.payload
    pub clean : IsClean build r.payload

  -- The variables after a load from such a flash.
  abbrev pub reloaded : Ram → Ram
  reloaded r = record r { payload_crc32 = crc32_bytes (d.bytes_of (d.raw_of r.payload)) }

  pub best_slot-0 :
      (f : F) (l : Loaded)
      → load_slot d (n.image f 0) ≡ some l
      → ((m : Loaded) → load_slot d (n.image f 1) ≡ some m → m.generation < l.generation)
      → best_slot d n build f ≡ some (0, l)
  unfolding best_slot
  best_slot-0 f l e older = elim (Option-cases (load_slot d (n.image f 1))) [
    | inl none_1 ↦ rw (e, none_1) refl
    | inr (m, some_1) ↦
        let h = older m some_1 in
        let no : ltb l.generation m.generation ≡ false = ground arith in rw (e, some_1, no) refl
  ]

  pub best_slot-1 :
      (f : F) (l : Loaded)
      → load_slot d (n.image f 1) ≡ some l
      → ((m : Loaded) → load_slot d (n.image f 0) ≡ some m → m.generation < l.generation)
      → best_slot d n build f ≡ some (1, l)
  unfolding best_slot
  best_slot-1 f l e older = elim (Option-cases (load_slot d (n.image f 0))) [
    | inl none_0 ↦ rw (e, none_0) refl
    | inr (m, some_0) ↦ rw (e, some_0, lt→ltb m.generation l.generation (older m some_0)) refl
  ]

  Durable-best_slot :
      (r : Ram) (f : F) (h : Durable r f) → best_slot d n build f ≡ some (h.active, h.base)
  Durable-best_slot r f h = at h.active h.either h.is_active h.here
    where
      at :
          (a : ℕ)
          → (a ≡ 0) ⊎ (a ≡ 1)
          → r.active_slot ≡ some a
          → load_slot d (n.image f a) ≡ some h.base
          → best_slot d n build f ≡ some (a, h.base)
      at a (inl e) is_active here =
          let other : target_slot r ≡ 1 = rw (is_active, e) refl in
          best_slot-0 f h.base (subst (λ k. load_slot d (n.image f k) ≡ some h.base) e here) (λ m s.
            subst (λ g. m.generation < g) (sym h.same_generation)
              (h.older m (ap (λ k. load_slot d (n.image f k)) other ∙ s)))
          ∙ ap (λ k. some (k, h.base)) (sym e)
      at a (inr e) is_active here =
          let other : target_slot r ≡ 0 = rw (is_active, e) refl in
          best_slot-1 f h.base (subst (λ k. load_slot d (n.image f k) ≡ some h.base) e here) (λ m s.
            subst (λ g. m.generation < g) (sym h.same_generation)
              (h.older m (ap (λ k. load_slot d (n.image f k)) other ∙ s)))
          ∙ ap (λ k. some (k, h.base)) (sym e)

  pub header_same :
      (j : JournalHeader) (q r : Ram)
      → q.generation ≡ r.generation
      → q.payload_crc32 ≡ r.payload_crc32
      → journal_header_is_valid d n j q ≡ journal_header_is_valid d n j r
  unfolding journal_header_is_valid
  header_same j q r e c = rw (e, c) refl

  -- The variables that the load starts the journal with.
  abbrev pub started : Loaded → ℕ → Ram
  started l i = record (cold d n build) {
    payload = l.payload;
    generation = l.generation;
    payload_crc32 = l.payload_crc32;
    active_slot = some i;
  }

  Durable-journal :
      (r : Ram) (f : F) (h : Durable r f)
      → journal_load_if_present d n (started h.base h.active) f
        ≡ record r { payload_crc32 = h.base.payload_crc32; loaded = false }
  unfolding journal_load_if_present journal_reset_state
  Durable-journal r f h =
      let q = started h.base h.active in
      let ok : journal_header_is_valid d n (n.journal f).header (journal_reset_state q) ≡ true =
        header_same (n.journal f).header q (record r { payload_crc32 = h.base.payload_crc32 })
          h.same_generation refl
        ∙ h.header in
      rw (ok, h.replays, h.same_rest, h.same_generation, h.is_active, h.is_ready) refl

  pub load_slots-clean :
      (salt : List ℕ) (imported : Option Payload) (i : ℕ) (l : Loaded) (r : Ram) (f : F)
      → sanitize build l.payload ≡ (false, l.payload)
      → l.wrapped ≡ true
      → journal_load_if_present d n (started l i) f ≡ r
      → load_slots d n build salt (some (i, l)) imported f ≡ (
        record r { loaded = true; payload_crc32 = crc32_bytes (d.bytes_of (d.raw_of r.payload)) },
        f,
      )
  unfolding load_slots
  load_slots-clean salt imported i l r f c w e = rw (c, w, e, load_slots) refl

  -- After a load the variables are what they were, but for the checksum of the payload.
  pub Durable-load :
      (salt : List ℕ) (imported : Option Payload) (r : Ram) (f : F)
      → Durable r f
      → load d n build salt imported f ≡ (reloaded r, f)
  unfolding load
  Durable-load salt imported r f h = rw (Durable-best_slot r f h) (
      load_slots-clean salt imported h.active h.base _ f
        (IsClean-sanitize build h.base.payload h.clean_base) h.is_wrapped (Durable-journal r f h)
      ∙ rw (h.is_loaded) refl)
