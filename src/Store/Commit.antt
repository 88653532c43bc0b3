-- ===== src/Store/Commit.antt =====
-- The commits of src/credential_store.c that report success, and what is then in the flash.
use meow_key.Prelude.{ℕ, ◌-◌, Bool, true, false, List, Option, none, some}
use meow_key.Prelude.{
  ◌≡◌, ◌≢◌, refl, sym, ap, ◌∙◌, subst, arith, inl, inr, ◌⊎◌, Option-cases, Bool-cases,
}
use meow_key.Prelude.{◌==◌, add32}
use meow_key.Store.Flash.{Image, Device, Nor, IsNor}
use meow_key.Store.Flash.{program_tail, program_from_other, program_from-journal}
use meow_key.Store.Image.{prepare_slot_image}
use meow_key.Store.Machine.{Ram, target_slot, committed, program_slot, commit_payload}

-- What the commit writes to is one of the two slots, and the next commit writes to the other.
pub target_slot-either : (r : Ram) → (target_slot r ≡ 0) ⊎ (target_slot r ≡ 1)
target_slot-either r = at r.active_slot refl
  where
    at : (o : Option ℕ) → r.active_slot ≡ o → (target_slot r ≡ 0) ⊎ (target_slot r ≡ 1)
    at none e = inl (rw (e) refl)
    at (some i) e = elim (Bool-cases (i == 0)) [
      | inl t ↦ inr (rw (e, t) refl)
      | inr t ↦ inl (rw (e, t) refl)
    ]

pub target_slot-committed :
    {Raw : Type 0} (im : Image Raw) (r : Ram) → target_slot (committed im r) ≡ 1 - target_slot r
target_slot-committed im r = elim (target_slot-either r) [
  | inl e ↦ rw (e) refl
  | inr e ↦ rw (e) refl
]

pub other_slot : (r : Ram) → target_slot r ≢ 1 - target_slot r
other_slot r e = elim (target_slot-either r) [
  | inl t ↦ absurd (omega arith)
  | inr t ↦ absurd (omega arith)
]

module _ {Raw F : Type 0} (d : Device Raw) (n : Nor Raw F) where
  -- What a slot that was programmed with success holds, and what is left as it was.
  pub record Programmed (i : ℕ) (im : Image Raw) (f f' : F) : Type 0 where
    pub holds : n.image f' i ≡ im
    pub others : (j : ℕ) → i ≢ j → n.image f' j ≡ n.image f j
    pub same_journal : n.journal f' ≡ n.journal f

  abbrev pub slot_tail : ℕ → Image Raw → F → F
  slot_tail i im f = program_tail n i im (n.erase_slot i f)

  abbrev pub slot_full : ℕ → Image Raw → F → F
  slot_full i im f = n.program_head i im (slot_tail i im f)

  pub slot_full-Programmed :
      IsNor n
      → (i : ℕ) (im : Image Raw) (f : F) → n.image_matches i im (slot_full i im f) ≡ true
      → Programmed i im f (slot_full i im f)
  slot_full-Programmed v i im f m = record {
    holds = v.image_matches-image i im (slot_full i im f) m;
    others = λ j h.
        v.program_head_other i j im (slot_tail i im f) h
        ∙ program_from_other n v i n.tail_pages 1 j im (n.erase_slot i f) h
        ∙ v.erase_slot_other i j f h;
    same_journal =
        v.program_head-journal i im (slot_tail i im f)
        ∙ program_from-journal n v i n.tail_pages 1 im (n.erase_slot i f)
        ∙ v.erase_slot-journal i f;
  }

  pub program_slot-Programmed :
      IsNor n
      → (i : ℕ) (im : Image Raw) (f f' : F) → program_slot d n i im f ≡ (true, f')
      → Programmed i im f f'
  unfolding program_slot
  program_slot-Programmed v i im f f' e =
      elim (Bool-cases (n.tail_matches i im (slot_tail i im f))) [
        | inl t ↦
            let g = slot_full i im f in
            let shape : program_slot d n i im f ≡ (n.image_matches i im g, g) =
              rw (t, program_slot) refl in
            let both = sym shape ∙ e in
            subst (Programmed i im f) (ap (λ x. x.1) both)
              (slot_full-Programmed v i im f (ap (λ x. x.0) both))
        | inr t ↦
            let shape : program_slot d n i im f ≡ (false, slot_tail i im f) =
              rw (t, program_slot) refl in
            let no : false ≡ true = ap (λ x. x.0) (sym shape ∙ e) in absurd cc
      ]

  pub record Succeeded (salt : List ℕ) (r : Ram) (f : F) (r' : Ram) (f' : F) : Type 0 where
    pub image : Image Raw
    pub prepared : prepare_slot_image d salt r.payload (add32 r.generation 1) ≡ some image
    pub programmed : program_slot d n (target_slot r) image f ≡ (true, f')
    pub same : committed image r ≡ r'

  pub commit_payload-Succeeded :
      (salt : List ℕ) (r : Ram) (f : F) (r' : Ram) (f' : F)
      → commit_payload d n salt r f ≡ (true, r', f')
      → Succeeded salt r f r' f'
  unfolding commit_payload
  commit_payload-Succeeded salt r f r' f' e =
      elim (Option-cases (prepare_slot_image d salt r.payload (add32 r.generation 1))) [
        | inl p ↦
            let shape : commit_payload d n salt r f ≡ (false, r, f) = rw (p, commit_payload) refl in
            let no : false ≡ true = ap (λ x. x.0) (sym shape ∙ e) in absurd cc
        | inr (im, p) ↦ by_slot im p (program_slot d n (target_slot r) im f) refl
      ]
    where
      by_slot :
          (im : Image Raw)
          → prepare_slot_image d salt r.payload (add32 r.generation 1) ≡ some im
          → (x : Bool × F) → program_slot d n (target_slot r) im f ≡ x
          → Succeeded salt r f r' f'
      by_slot im p (false, g) q =
          let shape : commit_payload d n salt r f ≡ (false, r, g) =
            rw (p, q, commit_payload) refl in
          let no : false ≡ true = ap (λ x. x.0) (sym shape ∙ e) in absurd cc
      by_slot im p (true, g) q =
          let shape : commit_payload d n salt r f ≡ (true, committed im r, g) =
            rw (p, q, commit_payload) refl in
          let both = sym shape ∙ e in
          record {
            image = im;
            prepared = p;
            programmed = q ∙ ap (λ y. (true, y)) (ap (λ x. x.2) both);
            same = ap (λ x. x.1) both;
          }
