-- ===== src/WebAuthn/ExcludeList.antt =====
-- What src/webauthn.c makes of the exclude list of a makeCredential.
use meow_key.Prelude.{ℕ, Bool, true, false, List, [], ◌∷◌, if◌then◌else◌, codes}
use meow_key.Cbor.Reader.{View, Reader, Result, ok, failed, exhausted, M, ◌>>=◌, pure}
use meow_key.Cbor.Reader.{read_map_start, read_array_start, read_bytes, read_text}
use meow_key.Prelude.{Option, none, some}
use meow_key.Store.Slot.{CredentialRecord}
use meow_key.Store.Slots.{Store, store_find_by_credential_id}
use meow_key.WebAuthn.Entries.{loop, is_text, ignore}
use meow_key.WebAuthn.MakeRequest.{MakeRequest}

-- The same result with another value.
abbrev pub mapped : {A B : Type 0} → (A → B) → Result A → Result B
mapped f x = elim x [ ok a r ↦ ok (f a) r | failed ↦ failed | exhausted ↦ exhausted ]

module _ (fuel : ℕ) where
  -- The credential ids of an exclude list, the last one first, read without a look at the store.
  abbrev pub id_entry : List View → M (List View)
  id_entry ids = read_text >>= λ key.
      if is_text (codes "id") key then (read_bytes >>= λ v. pure (v ∷ ids)) else ignore fuel ids

  abbrev pub descriptor : List View → M (List View)
  descriptor ids = read_map_start >>= λ pairs. loop id_entry pairs ids

  abbrev pub ids_of_list : M (List View)
  ids_of_list = read_array_start >>= λ count. loop descriptor count []

abbrev pub in_store : Option (ℕ × CredentialRecord) → Bool
in_store none = false
in_store (some found) = true

-- Whether one of the ids is that of a credential in the store.
abbrev pub any_held : Store → List View → Bool
any_held st [] = false
any_held st (v ∷ ids) =
    if in_store (store_find_by_credential_id v.bytes v.length st) then true else any_held st ids

-- A request that one of these ids excludes, or that was excluded before.
abbrev pub excluded_by : Store → MakeRequest → List View → MakeRequest
excluded_by st r ids = record r {
  credential_excluded = if any_held st ids then true else r.credential_excluded;
}
