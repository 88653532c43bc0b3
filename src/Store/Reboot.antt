-- ===== src/Store/Reboot.antt =====
-- The store of src/credential_store.c over calls and cycles of the power.
use meow_key.Prelude.{ℕ, ◌+◌, ◌<◌, ◌^◌, Bool, true, false, not, List, Option, none, some}
use meow_key.Prelude.{◌≡◌, refl, sym, ap, ◌∙◌, arith, inl, inr, Bool-cases, Option-cases}
use meow_key.Store.Slot.{CredentialRecord, IsStorable, slot_is_valid}
use meow_key.Store.Slots.{Store, first_slot, slot_is_taken, store_add_credential}
use meow_key.Store.Slots.{store_delete_credential_by_slot, store_clear_credentials}
use meow_key.Store.Steps.{operate, add, delete, clear, IsStorableIn}
use meow_key.Store.Payload.{Build}
use meow_key.Store.Flash.{Device, IsDevice, Nor, IsNor}
use meow_key.Store.Machine.{Ram, update_sign_count}
use meow_key.Store.Changes.{
  commit_slots, add_credential, delete_credential_by_slot, clear_credentials,
}
use meow_key.Store.Kept.{operate-IsClean, Commits}
use meow_key.Store.Durable.{Durable}
use meow_key.Store.Update.{update_sign_count-Updated, operate-update}
use meow_key.Store.Calls.{add_record, update_count, delete_slot}
use meow_key.Store.Calls.{clear_all, expected}
use meow_key.Store.Stepped.{Stepped, commit_slots-Stepped}

-- An add that has a free slot but whose commit fails gives no index.
add-failed : (c : CredentialRecord) (st : Store) → (store_add_credential false c st).0 ≡ none
unfolding store_add_credential
add-failed c st = elim (Option-cases (first_slot (λ s. not (slot_is_valid s)) st.slots 0)) [
  | inl e ↦ rw (e, store_add_credential) refl
  | inr (p, e) ↦ rw (e, store_add_credential) refl
]

delete-failed : (i : ℕ) (st : Store) → (store_delete_credential_by_slot false i st).0 ≡ false
unfolding store_delete_credential_by_slot
delete-failed i st = elim (Bool-cases (slot_is_taken i st)) [
  | inl e ↦ rw (e, store_delete_credential_by_slot) refl
  | inr e ↦ rw (e, store_delete_credential_by_slot) refl
]

module _ {Raw F : Type 0} (d : Device Raw) (n : Nor Raw F) (build : Build) (v : IsDevice d)
    (w : IsNor n) (some_entry : 0 < d.entry_capacity) where
  pub add-Stepped :
      (salt : List ℕ) (c : CredentialRecord) (i : ℕ) (r : Ram) (f : F) (r' : Ram) (f' : F)
      → Durable d n build r f
      → r.generation + 1 < 2 ^ 32
      → IsStorable c
      → add_credential d n salt c r f ≡ (some i, r', f')
      → Stepped d n build v w some_entry
          (expected build (add_record c) r.payload)
          (r.generation + 1)
          r'
          f'
  unfolding add_credential expected operate IsStorableIn Commits
  add-Stepped salt c i r f r' f' h small fits e =
      elim (Option-cases (first_slot (λ s. not (slot_is_valid s)) r.payload.credentials.slots 0)) [
        | inl p ↦
            let shape : add_credential d n salt c r f ≡ (none, r, f) =
              rw (p, add_credential) refl in
            let no : none ≡ some i = ap (λ x. x.0) (sym shape ∙ e) in absurd cc
        | inr (q, p) ↦
            let change : Bool → Store → Option ℕ × Store =
              λ commits. store_add_credential commits c in
            let shape : add_credential d n salt c r f ≡ commit_slots d n salt change r f =
              rw (p, add_credential) refl in
            commit_slots-Stepped d n build v w some_entry salt change (some i) r f r' f' h small
              (operate-IsClean build (add true c) r.payload fits refl h.clean)
              (λ no.
                (let bad : none ≡ some i = sym (add-failed c r.payload.credentials) ∙ no in
                  absurd cc))
              (sym shape ∙ e)
      ]

  pub delete-Stepped :
      (salt : List ℕ) (i : ℕ) (r : Ram) (f : F) (r' : Ram) (f' : F)
      → Durable d n build r f
      → r.generation + 1 < 2 ^ 32
      → delete_credential_by_slot d n salt i r f ≡ (true, r', f')
      → Stepped d n build v w some_entry
          (expected build (delete_slot i) r.payload)
          (r.generation + 1)
          r'
          f'
  unfolding delete_credential_by_slot expected operate IsStorableIn Commits
  delete-Stepped salt i r f r' f' h small e =
      elim (Bool-cases (slot_is_taken i r.payload.credentials)) [
        | inr p ↦
            let shape : delete_credential_by_slot d n salt i r f ≡ (false, r, f) =
              rw (p, delete_credential_by_slot) refl in
            let no : false ≡ true = ap (λ x. x.0) (sym shape ∙ e) in absurd cc
        | inl p ↦
            let change : Bool → Store → Bool × Store =
              λ commits. store_delete_credential_by_slot commits i in
            let shape : delete_credential_by_slot d n salt i r f
                ≡ commit_slots d n salt change r f =
              rw (p, delete_credential_by_slot) refl in
            commit_slots-Stepped d n build v w some_entry salt change true r f r' f' h small
              (operate-IsClean build (delete true i) r.payload tt refl h.clean)
              (λ no.
                (let bad : false ≡ true = sym (delete-failed i r.payload.credentials) ∙ no in
                  absurd cc))
              (sym shape ∙ e)
      ]

  pub clear-Stepped :
      (salt : List ℕ) (r : Ram) (f : F) (r' : Ram) (f' : F)
      → Durable d n build r f
      → r.generation + 1 < 2 ^ 32
      → clear_credentials d n salt r f ≡ (true, r', f')
      → Stepped d n build v w some_entry
          (expected build clear_all r.payload)
          (r.generation + 1)
          r'
          f'
  unfolding clear_credentials store_clear_credentials expected operate IsStorableIn Commits
  clear-Stepped salt r f r' f' h small e =
      commit_slots-Stepped d n build v w some_entry salt store_clear_credentials true r f r' f' h
        small (operate-IsClean build (clear true) r.payload tt refl h.clean)
        (λ no. (let bad : false ≡ true = no in absurd cc)) e

  pub update-Stepped :
      (salt : List ℕ) (i count : ℕ) (r : Ram) (f : F) (r' : Ram) (f' : F)
      → Durable d n build r f
      → r.generation + 1 < 2 ^ 32
      → update_sign_count d n salt i count r f ≡ (true, r', f')
      → Stepped d n build v w some_entry
          (expected build (update_count i count) r.payload)
          (r.generation + 1)
          r'
          f'
  unfolding expected
  update-Stepped salt i count r f r' f' h small e =
      let (taken, (next, u, few)) =
        update_sign_count-Updated d n build v w some_entry salt i count r f r' f' h small e in
      let g = u.generation in
      record {
        agrees = u.agrees;
        payload =
            u.payload
            ∙ ap (λ c. record (r.payload) { credentials = c })
                (sym (operate-update i count r.payload.credentials taken));
        generation = omega arith;
      }
