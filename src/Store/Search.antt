-- ===== src/Store/Search.antt =====
-- What the searches of src/credential_store.c find.
use meow_key.Prelude.{ℕ, zero, suc, ◌+◌, ◌<◌, Bool, true, false, List, [], ◌∷◌}
use meow_key.Prelude.{Option, none, some, ◌≡◌, inl, inr, refl, sym, ap, ◌∙◌, arith, Bool-cases}
use meow_key.Prelude.{All, take, length, get_or, leb}
use meow_key.Store.Slot.{CredentialRecord, Slot, blank, slot_is_valid, copy_slot_to_record}
use meow_key.Store.Slots.{Store, first_slot, holds_credential_id, same_bytes, slot_is_taken}
use meow_key.Store.Slots.{found, store_find_by_credential_id, store_get_credential_by_slot}

-- The first slot that passes the test: it stands at the index, and none before it passes.
pub record IsFirst (test : Slot → Bool) (slots : List Slot) (i : ℕ) (slot : Slot) : Type 0 where
  pub inside : i < length slots
  pub there : get_or slots i blank ≡ slot
  pub passes : test slot ≡ true
  pub earlier : (j : ℕ) → j < i → test (get_or slots j blank) ≡ false

first_slot-from :
    (test : Slot → Bool) (slots : List Slot) (k i : ℕ) (slot : Slot)
    → first_slot test slots k ≡ some (i, slot)
    → (n : ℕ) × (i ≡ k + n) × IsFirst test slots n slot
unfolding first_slot
first_slot-from test [] k i slot e = absurd cc
first_slot-from test (s ∷ rest) k i slot e = elim (Bool-cases (test s)) [
  | inl t ↦ (
    0,
    ground (arith, e, t),
    record {
      inside = omega arith;
      there = ground (arith, e, t);
      passes = ground (arith, e, t);
      earlier = λ j h. absurd (omega arith);
    },
  )
  | inr t ↦
      let (n, at, f) = first_slot-from test rest (suc k) i slot (ground (arith, e, t)) in
      (
        suc n,
        omega arith,
        record {
          inside = let h = f.inside in omega arith;
          there = f.there;
          passes = f.passes;
          earlier = step t f.earlier;
        },
      )
]
  where
    step :
        {m : ℕ}
        → test s ≡ false
        → ((j : ℕ) → j < m → test (get_or rest j blank) ≡ false)
        → (j : ℕ) → j < suc m
        → test (get_or (s ∷ rest) j blank) ≡ false
    step t f zero h = t
    step t f (suc j) h = f j (omega arith)

pub first_slot-some :
    (test : Slot → Bool) (slots : List Slot) (i : ℕ) (slot : Slot)
    → first_slot test slots 0 ≡ some (i, slot)
    → IsFirst test slots i slot
first_slot-some test slots i slot e =
    let (n, at, f) = first_slot-from test slots 0 i slot e in
    let same : i ≡ n = omega arith in rw same f

first_slot-none :
    (test : Slot → Bool) (slots : List Slot) (k : ℕ)
    → first_slot test slots k ≡ none
    → All (λ slot. test slot ≡ false) slots
unfolding first_slot
first_slot-none test [] k e = tt
first_slot-none test (s ∷ rest) k e =
    (ground (arith, e), first_slot-none test rest (suc k) (ground (arith, e)))

All-take :
    (P : Slot → Type 0) (slots : List Slot) (n : ℕ)
    → n < length slots
    → ((j : ℕ) → j < n → P (get_or slots j blank))
    → All P (take n slots)
All-take P slots zero h each = tt
All-take P [] (suc n) h each = tt
All-take P (s ∷ rest) (suc n) h each =
    (each 0 (omega arith), All-take P rest n (omega arith) (λ j l. each (suc j) (omega arith)))

holds_credential_id-facts :
    (id : List ℕ) (id_length : ℕ) (slot : Slot)
    → holds_credential_id id id_length slot ≡ true
    → (slot_is_valid slot ≡ true)
      × (slot.credential_id_length ≡ id_length)
      × (same_bytes id_length slot.credential_id id ≡ true)
unfolding holds_credential_id
holds_credential_id-facts id id_length slot e = ground (arith, e)

pub store_get_credential_by_slot-taken :
    (i : ℕ) (st : Store)
    → i < length st.slots
    → slot_is_valid (get_or st.slots i blank) ≡ true
    → store_get_credential_by_slot i st ≡ some (copy_slot_to_record (get_or st.slots i blank))
unfolding store_get_credential_by_slot slot_is_taken
store_get_credential_by_slot-taken i st h v =
    let inside : leb (length st.slots) i ≡ false = ground arith in rw (inside, v) refl

copy_slot_to_record-id :
    (slot : Slot)
    → ((copy_slot_to_record slot).credential_id_length ≡ slot.credential_id_length)
      × ((copy_slot_to_record slot).credential_id ≡ slot.credential_id)
unfolding copy_slot_to_record
copy_slot_to_record-id slot = (refl, refl)

-- A search by credential id answers with the index and the content of a credential that the store
-- holds and whose id is the one sought; no slot before it holds that id.
pub store_find_by_credential_id-found :
    (id : List ℕ) (id_length : ℕ) (st : Store) (i : ℕ) (r : CredentialRecord)
    → store_find_by_credential_id id id_length st ≡ some (i, r)
    → (store_get_credential_by_slot i st ≡ some r)
      × (r.credential_id_length ≡ id_length)
      × (same_bytes id_length r.credential_id id ≡ true)
      × All (λ slot. holds_credential_id id id_length slot ≡ false) (take i st.slots)
unfolding store_find_by_credential_id
store_find_by_credential_id-found id id_length st i r e =
    go (first_slot (holds_credential_id id id_length) st.slots 0) refl e
  where
    go :
        (o : Option (ℕ × Slot))
        → first_slot (holds_credential_id id id_length) st.slots 0 ≡ o
        → found o ≡ some (i, r)
        → (store_get_credential_by_slot i st ≡ some r)
          × (r.credential_id_length ≡ id_length)
          × (same_bytes id_length r.credential_id id ≡ true)
          × All (λ slot. holds_credential_id id id_length slot ≡ false) (take i st.slots)
    go none q e = absurd cc
    go (some (k, slot)) q e =
        let f = first_slot-some (holds_credential_id id id_length) st.slots k slot q in
        let at : k ≡ i = cc in
        let content : copy_slot_to_record slot ≡ r = cc in
        let (valid, long, same) = holds_credential_id-facts id id_length slot f.passes in
        let v = ap slot_is_valid f.there ∙ valid in
        rw (sym at, sym content)
          (
            store_get_credential_by_slot-taken k st f.inside v
                ∙ ap (λ (x : Slot). some (copy_slot_to_record x)) f.there,
            (copy_slot_to_record-id slot).0 ∙ long,
            ap (λ (x : List ℕ). same_bytes id_length x id) (copy_slot_to_record-id slot).1 ∙ same,
            All-take _ st.slots k f.inside f.earlier,
          )

-- A search by credential id that finds nothing has left no slot out: none holds the id.
store_find_by_credential_id-absent :
    (id : List ℕ) (id_length : ℕ) (st : Store)
    → store_find_by_credential_id id id_length st ≡ none
    → All (λ slot. holds_credential_id id id_length slot ≡ false) st.slots
unfolding store_find_by_credential_id
store_find_by_credential_id-absent id id_length st e =
    first_slot-none (holds_credential_id id id_length) st.slots 0 (found-none _ e)
  where
    found-none : (o : Option (ℕ × Slot)) → found o ≡ none → o ≡ none
    found-none none q = refl
    found-none (some (i, slot)) q = absurd cc
