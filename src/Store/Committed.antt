-- ===== src/Store/Committed.antt =====
-- The transactions of src/credential_store.c that report success leave variables and flash that agree.
use meow_key.Prelude.{ℕ, zero, suc, ◌+◌, ◌-◌, ◌≤◌, ◌<◌, ◌^◌, Bool, true, false, List, some}
use meow_key.Prelude.{◌≡◌, refl, sym, ap, ◌∙◌, subst, arith}
use meow_key.Prelude.{◌==◌, ==_iff, add32}
use meow_key.Store.Payload.{Build}
use meow_key.Store.Flash.{Image, Entry, entry_is_blank, Device, IsDevice, Nor, IsNor}
use meow_key.Store.Image.{Loaded, load_slot, prepare_slot_image}
use meow_key.Store.Images.{prepare_slot_image-load_slot}
use meow_key.Store.Machine.{
  Ram, Replay, replay, target_slot, committed, journal_header_is_valid, journal_header,
  journal_erase_and_initialize, program_slot, commit_payload, commit_transaction,
}
use meow_key.Store.Clean.{IsClean}
use meow_key.Store.Durable.{Durable}
use meow_key.Store.Commit.{
  target_slot-either, target_slot-committed, other_slot, Programmed, program_slot-Programmed,
  commit_payload-Succeeded,
}

==_refl : (a : ℕ) → (a == a) ≡ true
==_refl a = (==_iff a a).1 refl

pub replay-blank :
    (m : ℕ) (entries : ℕ → Entry) (q : Replay)
    → entry_is_blank (entries q.index) ≡ true
    → replay m entries q ≡ q
unfolding replay
replay-blank zero entries q e = refl
replay-blank (suc m) entries q e = rw (e) refl

-- Where a commit may start: no image in the slot that it leaves alone is newer.
pub record Committable {Raw F : Type 0} (d : Device Raw) (n : Nor Raw F) (build : Build) (r : Ram)
    (f : F) : Type 0 where
  pub no_newer :
      (l : Loaded)
      → load_slot d (n.image f (1 - target_slot r)) ≡ some l
      → l.generation ≤ r.generation
  pub clean : IsClean build r.payload
  pub is_loaded : r.loaded ≡ true

module _ {Raw F : Type 0} (d : Device Raw) (n : Nor Raw F) where
  -- The state after the journal is made ready.
  abbrev pub fresh : Ram → Ram
  fresh r = record r { journal_ready = true; next_sequence = 1; next_entry_index = 0 }

  journal_header-valid :
      (r q : Ram)
      → r.generation ≡ q.generation
      → r.payload_crc32 ≡ q.payload_crc32
      → journal_header_is_valid d n (journal_header d n r) q ≡ true
  unfolding journal_header_is_valid
  journal_header-valid r q e c =
      rw (e, c, ==_refl d.entry_capacity, ==_refl q.generation, ==_refl q.payload_crc32) refl

  abbrev pub initialized : Ram → F → F
  initialized r f = n.program_journal_header (journal_header d n r) (n.erase_journal f)

  pub record Transacted (salt : List ℕ) (r : Ram) (f : F) (r' : Ram) (f' : F) : Type 0 where
    pub flash : F
    pub image : Image Raw
    pub prepared : prepare_slot_image d salt r.payload (add32 r.generation 1) ≡ some image
    pub programmed : program_slot d n (target_slot r) image f ≡ (true, flash)
    pub same_ram : fresh (committed image r) ≡ r'
    pub same_flash : initialized (committed image r) flash ≡ f'

  commit_transaction-Transacted :
      (salt : List ℕ) (r : Ram) (f : F) (r' : Ram) (f' : F)
      → commit_transaction d n salt r f ≡ (true, r', f')
      → Transacted salt r f r' f'
  unfolding commit_transaction journal_erase_and_initialize
  commit_transaction-Transacted salt r f r' f' e = by_payload (commit_payload d n salt r f) refl
    where
      by_payload :
          (x : Bool × Ram × F) → commit_payload d n salt r f ≡ x → Transacted salt r f r' f'
      by_payload (false, q, g) p =
          let shape : commit_transaction d n salt r f ≡ (false, q, g) =
            rw (p, commit_transaction) refl in
          let no : false ≡ true = ap (λ x. x.0) (sym shape ∙ e) in absurd cc
      by_payload (true, q, g) p =
          let s = commit_payload-Succeeded d n salt r f q g p in
          let is_active : q.active_slot ≡ some (target_slot r) =
            ap (λ (x : Ram). x.active_slot) (sym s.same) in
          let shape : commit_transaction d n salt r f ≡ (true, fresh q, initialized q g) =
            rw (p, is_active, commit_transaction) refl in
          let both = sym shape ∙ e in
          record {
            flash = g;
            image = s.image;
            prepared = s.prepared;
            programmed = s.programmed;
            same_ram = ap fresh s.same ∙ ap (λ x. x.1) both;
            same_flash = ap (λ x. initialized x g) s.same ∙ ap (λ x. x.2) both;
          }

  pub journal_ready-Durable :
      (build : Build) (salt : List ℕ) (r : Ram) (f : F) (im : Image Raw) (g : F)
      → IsDevice d
      → IsNor n
      → prepare_slot_image d salt r.payload (add32 r.generation 1) ≡ some im
      → Programmed d n (target_slot r) im f g
      → r.generation + 1 < 2 ^ 32
      → Committable d n build r f
      → Durable d n build (fresh (committed im r)) (initialized (committed im r) g)
  journal_ready-Durable build salt r f im g v w prepared done small c =
      let q = fresh (committed im r) in
      let f' = initialized (committed im r) g in
      let next : add32 r.generation 1 ≡ r.generation + 1 = omega arith in
      let images : (i : ℕ) → n.image f' i ≡ n.image g i = λ i.
        w.program_journal_header-image (journal_header d n (committed im r)) i (n.erase_journal g)
        ∙ w.erase_journal-image i g in
      let blanks : (k : ℕ) → entry_is_blank ((n.journal f').entries k) ≡ true = λ k.
        ap entry_is_blank (
          w.program_journal_header-entries (journal_header d n (committed im r)) (n.erase_journal g)
            k)
        ∙ w.erase_journal-blank g k in
      let kept : n.image f' (target_slot q) ≡ n.image f (1 - target_slot r) =
        ap (n.image f') (target_slot-committed im r)
        ∙ images (1 - target_slot r)
        ∙ done.others (1 - target_slot r) (other_slot r) in
      record {
        base = record {
          payload = r.payload;
          generation = add32 r.generation 1;
          payload_crc32 = im.header.payload_crc32;
          wrapped = true;
        };
        active = target_slot r;
        either = target_slot-either r;
        is_active = refl;
        here =
            ap (load_slot d) (images (target_slot r) ∙ done.holds)
            ∙ prepare_slot_image-load_slot d v salt r.payload (add32 r.generation 1) im prepared
                (omega arith);
        is_wrapped = refl;
        same_generation = refl;
        older = λ l e.
            let h = c.no_newer l (ap (load_slot d) (sym kept) ∙ e) in
            subst (λ x. l.generation < x) (sym next) (omega arith);
        header =
            ap (λ j. journal_header_is_valid d n j q)
              (w.program_journal_header-header (journal_header d n (committed im r))
                (n.erase_journal g))
            ∙ journal_header-valid (committed im r) q refl refl;
        is_ready = refl;
        is_loaded = c.is_loaded;
        replays = replay-blank d.entry_capacity (n.journal f').entries _ (blanks 0);
        blank_after = λ k h. blanks k;
        same_rest = refl;
        clean_base = c.clean;
        clean = c.clean;
      }

  -- A transaction that reports success, from a state where it may start, leaves variables and flash
  -- that agree; the payload is what it was, the generation one more, and the journal
  -- empty.
  pub commit_transaction-Durable :
      (build : Build) (salt : List ℕ) (r : Ram) (f : F) (r' : Ram) (f' : F)
      → IsDevice d
      → IsNor n
      → commit_transaction d n salt r f ≡ (true, r', f')
      → r.generation + 1 < 2 ^ 32
      → Committable d n build r f
      → Durable d n build r' f'
        × (r'.payload ≡ r.payload)
        × (r'.generation ≡ r.generation + 1)
        × (r'.next_entry_index ≡ 0)
  commit_transaction-Durable build salt r f r' f' v w e small c =
      let t = commit_transaction-Transacted salt r f r' f' e in
      let done = program_slot-Programmed d n w (target_slot r) t.image f t.flash t.programmed in
      let next : add32 r.generation 1 ≡ r.generation + 1 = omega arith in
      (
        subst (λ x. Durable d n build x f') t.same_ram
            (subst (Durable d n build (fresh (committed t.image r))) t.same_flash
              (journal_ready-Durable build salt r f t.image t.flash v w t.prepared done small c)),
        ap (λ (x : Ram). x.payload) (sym t.same_ram),
        ap (λ (x : Ram). x.generation) (sym t.same_ram) ∙ next,
        ap (λ (x : Ram). x.next_entry_index) (sym t.same_ram),
      )
