-- ===== src/WebAuthn/Matching.antt =====
-- The credentials of src/webauthn.c that answer a request without an allow list.
use meow_key.Prelude.{
  get_or, leb, ◌+◌, ◌<◌, ℕ, zero, suc, Bool, true, false, ◌&&◌, not, List, [], ◌∷◌, Option, none,
  some,
}
use meow_key.Prelude.{length, take, ◌==◌, if◌then◌else◌, ◌≡◌, refl, sym, ap, ◌∙◌, arith, All}
use meow_key.Prelude.{inl, inr, Bool-cases, Option-cases}
use meow_key.Store.Slot.{CredentialRecord, Slot, blank, slot_is_valid, copy_slot_to_record}
use meow_key.Store.Slots.{Store, same_bytes, store_get_credential_by_slot, slot_is_taken}
use meow_key.WebAuthn.Entries.{Bytes}

-- The record is of the request's rp: the test is `length == length && memcmp == 0`.
unfoldable pub is_of_rp : Bytes → CredentialRecord → Bool
is_of_rp rp_id r = r.rp_id_length == rp_id.size && same_bytes rp_id.size r.rp_id rp_id.content

-- Whether the body of the loop does not go on to the next slot.
unfoldable pub is_match : Bytes → Option CredentialRecord → Bool
is_match rp_id none = false
is_match rp_id (some r) = r.discoverable && is_of_rp rp_id r

-- The loop from a slot on, with the number of slots left and the room left in the output.
unfoldable pub collect_from : Bytes → Store → ℕ → ℕ → ℕ → List ℕ
collect_from rp_id st slot_index zero room = []
collect_from rp_id st slot_index (suc n) zero = []
collect_from rp_id st slot_index (suc n) (suc room) =
    let found = is_match rp_id (store_get_credential_by_slot slot_index st) in
    let rest = collect_from rp_id st (suc slot_index) n (if found then room else suc room) in
    if found then slot_index ∷ rest else rest

unfoldable pub collect_matching_slots : Bytes → ℕ → Store → List ℕ
collect_matching_slots rp_id slot_capacity st =
    collect_from rp_id st 0 (length st.slots) slot_capacity

-- What the slot itself has to be: valid, discoverable, and with the rp's id, by length and bytes.
abbrev pub is_wanted : Bytes → Slot → Bool
is_wanted rp_id slot =
    slot_is_valid slot
    && (not (slot.discoverable == 0)
        && (slot.rp_id_length == rp_id.size && same_bytes rp_id.size slot.rp_id rp_id.content))

-- All such slots from one on, by their indices.
unfoldable pub matching : Bytes → List Slot → ℕ → ℕ → List ℕ
matching rp_id slots i zero = []
matching rp_id slots i (suc n) =
    let rest = matching rp_id slots (suc i) n in
    if is_wanted rp_id (get_or slots i blank) then i ∷ rest else rest

is_match-wanted :
    (rp_id : Bytes) (st : Store) (i : ℕ)
    → i < length st.slots
    → is_match rp_id (store_get_credential_by_slot i st) ≡ is_wanted rp_id (get_or st.slots i blank)
unfolding is_match is_of_rp store_get_credential_by_slot slot_is_taken copy_slot_to_record
is_match-wanted rp_id st i h =
    let inside : leb (length st.slots) i ≡ false = ground arith in
    elim (Bool-cases (slot_is_valid (get_or st.slots i blank))) [
      | inl v ↦ rw (inside, v) refl
      | inr v ↦ rw (inside, v) refl
    ]

collect_from-take :
    (rp_id : Bytes) (st : Store) (i n room : ℕ)
    → i + n ≡ length st.slots
    → collect_from rp_id st i n room ≡ take room (matching rp_id st.slots i n)
unfolding collect_from matching
collect_from-take rp_id st i zero zero h = refl
collect_from-take rp_id st i zero (suc room) h = refl
collect_from-take rp_id st i (suc n) zero h = refl
collect_from-take rp_id st i (suc n) (suc room) h =
    let same = is_match-wanted rp_id st i (omega arith) in
    elim (Bool-cases (is_wanted rp_id (get_or st.slots i blank))) [
      | inl e ↦ rw (same ∙ e, e, collect_from-take rp_id st (suc i) n room (omega arith)) refl
      | inr e ↦ rw (same ∙ e, e, collect_from-take rp_id st (suc i) n (suc room) (omega arith)) refl
    ]

-- The collection answers with the first slots, as many as there is room for, of all those that are
-- valid and discoverable and have the request's rp id, by length and bytes, in the order of the slots.
pub collect_matching_slots-take :
    (rp_id : Bytes) (slot_capacity : ℕ) (st : Store)
    → collect_matching_slots rp_id slot_capacity st
      ≡ take slot_capacity (matching rp_id st.slots 0 (length st.slots))
unfolding collect_matching_slots
collect_matching_slots-take rp_id slot_capacity st =
    collect_from-take rp_id st 0 (length st.slots) slot_capacity (omega arith)

-- A slot that holds a discoverable credential of the rp.
pub record Matches (rp_id : Bytes) (st : Store) (i : ℕ) : Type 0 where
  pub content : CredentialRecord
  pub held : store_get_credential_by_slot i st ≡ some content
  pub discoverable : content.discoverable ≡ true
  pub of_rp : is_of_rp rp_id content ≡ true

is_match-Matches :
    (rp_id : Bytes) (st : Store) (i : ℕ)
    → is_match rp_id (store_get_credential_by_slot i st) ≡ true
    → Matches rp_id st i
unfolding is_match is_of_rp
is_match-Matches rp_id st i h = elim (Option-cases (store_get_credential_by_slot i st)) [
  | inl e ↦ absurd (ground (arith, h, e))
  | inr (r, e) ↦
      let m : is_match rp_id (some r) ≡ true = sym (ap (is_match rp_id) e) ∙ h in
      record { content = r; held = e; discoverable = ground (arith, m); of_rp = ground (arith, m) }
]

collect_from-Matches :
    (rp_id : Bytes) (st : Store) (i n room : ℕ)
    → All (Matches rp_id st) (collect_from rp_id st i n room)
unfolding collect_from
collect_from-Matches rp_id st i zero room = tt
collect_from-Matches rp_id st i (suc n) zero = tt
collect_from-Matches rp_id st i (suc n) (suc room) =
    go (is_match rp_id (store_get_credential_by_slot i st)) refl
      (collect_from-Matches rp_id st (suc i) n)
  where
    go :
        (b : Bool)
        → is_match rp_id (store_get_credential_by_slot i st) ≡ b
        → ((left : ℕ) → All (Matches rp_id st) (collect_from rp_id st (suc i) n left))
        → All (Matches rp_id st) (
            let rest = collect_from rp_id st (suc i) n (if b then room else suc room) in
            if b then i ∷ rest else rest)
    go true e later = (is_match-Matches rp_id st i e, later room)
    go false e later = later (suc room)

-- Each slot that is collected holds a discoverable credential of the rp.
pub collect_matching_slots-Matches :
    (rp_id : Bytes) (slot_capacity : ℕ) (st : Store)
    → All (Matches rp_id st) (collect_matching_slots rp_id slot_capacity st)
unfolding collect_matching_slots
collect_matching_slots-Matches rp_id slot_capacity st =
    collect_from-Matches rp_id st 0 (length st.slots) slot_capacity
