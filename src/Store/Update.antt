-- ===== src/Store/Update.antt =====
-- `meowkey_store_update_sign_count` of src/credential_store.c with its journal, which may be full.
use meow_key.Prelude.{ℕ, ◌+◌, ◌≤◌, ◌<◌, ◌^◌, ◌%◌, Bool, true, false, not, List}
use meow_key.Prelude.{◌≡◌, refl, sym, ap, ◌∙◌, subst, arith, inl, inr, Bool-cases}
use meow_key.Prelude.{length, length-set, get_or, leb, if◌then◌else◌}
use meow_key.Store.Slot.{blank, slot_is_valid}
use meow_key.Store.Slots.{Store, slot_is_taken, store_update_sign_count}
use meow_key.Store.Count.{slot_is_taken-inside}
use meow_key.Store.Steps.{operate, update, IsStorableIn}
use meow_key.Store.Payload.{Payload, Build}
use meow_key.Store.Flash.{entry_is_blank, Device, IsDevice, Nor, IsNor}
use meow_key.Store.Machine.{
  Ram, journal_program, journal_append, with_slots, sign_count_set, update_sign_count,
  commit_transaction, journal_ensure_ready, journal_erase_and_initialize,
}
use meow_key.Store.SetCount.{sign_count_set-twice, valid-set}
use meow_key.Store.Clean.{IsClean}
use meow_key.Store.Kept.{operate-IsClean, Commits}
use meow_key.Store.Durable.{Durable, slots_of}
use meow_key.Store.Committed.{commit_transaction-Durable}
use meow_key.Store.Ready.{Durable-Committable}
use meow_key.Store.Journal.{advanced, entry_for, written-Durable}

pub operate-update :
    (i count : ℕ) (st : Store)
    → slot_is_taken i st ≡ true
    → operate (update true i count) st ≡ record st { slots = sign_count_set i count st.slots }
unfolding operate store_update_sign_count
operate-update i count st t = rw (t, operate, store_update_sign_count) refl

module _ {Raw F : Type 0} (d : Device Raw) (n : Nor Raw F) (build : Build) where
  -- What a write of a count leaves: agreement, the new payload, and a generation.
  pub record Updated (i count next : ℕ) (r r' : Ram) (f' : F) : Type 0 where
    pub agrees : Durable d n build r' f'
    pub payload :
        r'.payload ≡ slots_of r.payload (sign_count_set i count r.payload.credentials.slots)
    pub generation : r'.generation ≡ next

  journal_program-blank :
      (i count : ℕ) (r : Ram) (f : F)
      → entry_is_blank ((n.journal f).entries r.next_entry_index) ≡ true
      → journal_program d n i count r f
        ≡ (true, advanced r, n.program_entry r.next_entry_index (entry_for i count r) f)
  unfolding journal_program
  journal_program-blank i count r f b = rw (b) refl

  picked : {A : Type 0} (b : Bool) (x y : A) → b ≡ true → (if b then x else y) ≡ x
  picked true x y e = refl
  picked false x y e = absurd cc

  ensured : (r : Ram) (f : F) → r.journal_ready ≡ true → journal_ensure_ready d n r f ≡ (r, f)
  unfolding journal_ensure_ready
  ensured r f ready = picked r.journal_ready (r, f) (journal_erase_and_initialize d n r f) ready

  journal_append-room :
      (salt : List ℕ) (i count : ℕ) (r : Ram) (f : F)
      → r.journal_ready ≡ true
      → leb d.entry_capacity r.next_entry_index ≡ false
      → journal_append d n salt i count r f ≡ journal_program d n i count r f
  unfolding journal_append
  journal_append-room salt i count r f ready room = rw (ensured r f ready, room) refl

  journal_append-full :
      (salt : List ℕ) (i count : ℕ) (r : Ram) (f : F) (done : Bool) (q : Ram) (g : F)
      → r.journal_ready ≡ true
      → leb d.entry_capacity r.next_entry_index ≡ true
      → commit_transaction d n salt r f ≡ (done, q, g)
      → journal_append d n salt i count r f
        ≡ (if not done then (false, q, g) else journal_program d n i count q g)
  unfolding journal_append
  journal_append-full salt i count r f done q g ready full e =
      rw (ensured r f ready, full, e, journal_append) refl

  module _ (v : IsDevice d) (w : IsNor n) (some_entry : 0 < d.entry_capacity) where
    room-Updated :
        (i count : ℕ) (r : Ram) (f : F)
        → Durable d n build r f
        → r.next_entry_index < d.entry_capacity
        → i < length r.payload.credentials.slots
        → slot_is_valid (get_or r.payload.credentials.slots i blank) ≡ true
        → IsClean build (slots_of r.payload (sign_count_set i count r.payload.credentials.slots))
        → (r' : Ram) (f' : F)
        → journal_program d n i count
            (with_slots (sign_count_set i count r.payload.credentials.slots) r)
            f
          ≡ (true, r', f')
        → Updated i count r.generation r r' f'
    room-Updated i count r f h room inside valid c r' f' e =
        let q = with_slots (sign_count_set i count r.payload.credentials.slots) r in
        let both =
          sym (journal_program-blank i count q f (h.blank_after r.next_entry_index (omega arith)))
          ∙ e in
        let same : advanced q ≡ r' = ap (λ x. x.1) both in
        record {
          agrees =
              subst (λ x. Durable d n build x f') same
                (subst (Durable d n build (advanced q)) (ap (λ x. x.2) both)
                  (written-Durable d n build i count r f w h room inside valid c));
          payload = ap (λ (x : Ram). x.payload) (sym same);
          generation = ap (λ (x : Ram). x.generation) (sym same);
        }

    full-Updated :
        (salt : List ℕ) (i count : ℕ) (r : Ram) (f : F)
        → Durable d n build r f
        → r.generation + 1 < 2 ^ 32
        → i < length r.payload.credentials.slots
        → slot_is_valid (get_or r.payload.credentials.slots i blank) ≡ true
        → IsClean build (slots_of r.payload (sign_count_set i count r.payload.credentials.slots))
        → (q : Ram) (g : F)
        → commit_transaction d n salt
            (with_slots (sign_count_set i count r.payload.credentials.slots) r)
            f
          ≡ (true, q, g)
        → (r' : Ram) (f' : F) → journal_program d n i count q g ≡ (true, r', f')
        → Updated i count (r.generation + 1) r r' f'
    full-Updated salt i count r f h small inside valid c q g p r' f' e =
        let slots = r.payload.credentials.slots in
        let new = sign_count_set i count slots in
        let ready = Durable-Committable d n build r (with_slots new r) f h refl refl refl c in
        let (agrees, payload, generation, empty) =
          commit_transaction-Durable d n build salt (with_slots new r) f q g v w p small ready in
        let same_slots : q.payload.credentials.slots ≡ new =
          ap (λ (x : Payload). x.credentials.slots) payload in
        let again : sign_count_set i count q.payload.credentials.slots
            ≡ q.payload.credentials.slots =
          ap (sign_count_set i count) same_slots
          ∙ sign_count_set-twice i count slots inside
          ∙ sym same_slots in
        let same : with_slots (sign_count_set i count q.payload.credentials.slots) q ≡ q =
          ap (λ x. with_slots x q) again in
        let written : slots_of q.payload (sign_count_set i count q.payload.credentials.slots)
            ≡ slots_of r.payload new =
          ap (slots_of q.payload) again ∙ payload in
        let long : length new ≡ length slots = length-set slots i _ in
        let u =
          room-Updated i count q g agrees (omega arith)
            (subst (λ x. i < length x) (sym same_slots) (omega (arith, long)))
            (subst (λ x. slot_is_valid (get_or x i blank) ≡ true) (sym same_slots)
              (valid-set i count slots inside valid))
            (subst (IsClean build) (sym written) c) r' f'
            (ap (λ x. journal_program d n i count x g) same ∙ e) in
        record {
          agrees = u.agrees;
          payload = u.payload ∙ written;
          generation = u.generation ∙ generation;
        }

    append-Updated :
        (salt : List ℕ) (i count : ℕ) (r : Ram) (f : F)
        → Durable d n build r f
        → r.generation + 1 < 2 ^ 32
        → i < length r.payload.credentials.slots
        → slot_is_valid (get_or r.payload.credentials.slots i blank) ≡ true
        → IsClean build (slots_of r.payload (sign_count_set i count r.payload.credentials.slots))
        → (r' : Ram) (f' : F)
        → journal_append d n salt i count
            (with_slots (sign_count_set i count r.payload.credentials.slots) r)
            f
          ≡ (true, r', f')
        → (next : ℕ) × Updated i count next r r' f' × (next ≤ r.generation + 1)
    append-Updated salt i count r f h small inside valid c r' f' e =
        elim (Bool-cases (leb d.entry_capacity r.next_entry_index)) [
          | inr room ↦ (
            r.generation,
            room-Updated i count r f h (ground (arith, room)) inside valid c r' f'
                (sym (journal_append-room salt i count q f h.is_ready room) ∙ e),
            omega arith,
          )
          | inl full ↦ by_commit full (commit_transaction d n salt q f) refl
        ]
      where
        q : Ram
        q = with_slots (sign_count_set i count r.payload.credentials.slots) r

        by_commit :
            leb d.entry_capacity r.next_entry_index ≡ true
            → (x : Bool × Ram × F) → commit_transaction d n salt q f ≡ x
            → (next : ℕ) × Updated i count next r r' f' × (next ≤ r.generation + 1)
        by_commit full (false, q', g) p =
            let shape =
              sym (journal_append-full salt i count q f false q' g h.is_ready full p) ∙ e in
            let no : false ≡ true = ap (λ x. x.0) shape in absurd cc
        by_commit full (true, q', g) p = (
          r.generation + 1,
          full-Updated salt i count r f h small inside valid c q' g p r' f'
              (sym (journal_append-full salt i count q f true q' g h.is_ready full p) ∙ e),
          omega arith,
        )

    -- A write of a count that reports success was to a slot that is taken, and leaves agreement.
    pub update_sign_count-Updated :
        (salt : List ℕ) (i count : ℕ) (r : Ram) (f : F) (r' : Ram) (f' : F)
        → Durable d n build r f
        → r.generation + 1 < 2 ^ 32
        → update_sign_count d n salt i count r f ≡ (true, r', f')
        → (slot_is_taken i r.payload.credentials ≡ true)
          × ((next : ℕ) × Updated i count next r r' f' × (next ≤ r.generation + 1))
    unfolding update_sign_count IsStorableIn Commits
    update_sign_count-Updated salt i count r f r' f' h small e =
        elim (Bool-cases (slot_is_taken i r.payload.credentials)) [
          | inr t ↦
              let shape : update_sign_count d n salt i count r f ≡ (false, r, f) =
                rw (t, update_sign_count) refl in
              let no : false ≡ true = ap (λ x. x.0) (sym shape ∙ e) in absurd cc
          | inl t ↦ (t, by_append t (journal_append d n salt (i % 2 ^ 16) count q f) refl)
        ]
      where
        q : Ram
        q = with_slots (sign_count_set i count r.payload.credentials.slots) r

        by_append :
            slot_is_taken i r.payload.credentials ≡ true
            → (x : Bool × Ram × F) → journal_append d n salt (i % 2 ^ 16) count q f ≡ x
            → (next : ℕ) × Updated i count next r r' f' × (next ≤ r.generation + 1)
        by_append t (false, q', g) p =
            let shape : (update_sign_count d n salt i count r f).0 ≡ false =
              rw (t, p, update_sign_count) refl in
            let no : false ≡ true = sym shape ∙ ap (λ x. x.0) e in absurd cc
        by_append t (true, q', g) p =
            let shape : update_sign_count d n salt i count r f ≡ (true, q', g) =
              rw (t, p, update_sign_count) refl in
            let (inside, valid) = slot_is_taken-inside i r.payload.credentials t in
            let few = h.clean.few in
            let index : i % 2 ^ 16 ≡ i = omega arith in
            let taken = operate-update i count r.payload.credentials t in
            append-Updated salt i count r f h small inside valid
              (subst (λ c. IsClean build (record (r.payload) { credentials = c })) taken
                (operate-IsClean build (update true i count) r.payload tt refl h.clean))
              r' f' (ap (λ k. journal_append d n salt k count q f) (sym index) ∙ p ∙ sym shape ∙ e)
