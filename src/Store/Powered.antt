-- ===== src/Store/Powered.antt =====
-- The commits of src/credential_store.c on a flash that loses its power: the code runs on, but after a
-- number of calls nothing reaches the flash any more.
use meow_key.Prelude.{ℕ, zero, suc, ◌+◌, ◌≤◌, ◌<◌, Bool, true, false, List, none, some, leb}
use meow_key.Prelude.{
  subst, ◌-◌, ◌≡◌, refl, ap, ◌∙◌, arith, if◌then◌else◌, add32, inl, inr, Bool-cases,
}
use meow_key.Store.Payload.{Payload, Build}
use meow_key.Store.Flash.{JournalHeader, Image, Device, IsDevice, Nor, IsNor, program_from}
use meow_key.Store.Image.{prepare_slot_image}
use meow_key.Store.Machine.{
  Ram, target_slot, committed, program_slot, commit_payload, commit_transaction,
  journal_erase_and_initialize, journal_header,
}
use meow_key.Store.Load.{load}
use meow_key.Store.Commit.{slot_tail, slot_full}
use meow_key.Store.PowerCut.{Cut, unchanged, pages_programmed, slot_programmed, journal_erased}
use meow_key.Store.PowerCut.{finished, is_complete, flash_at}
use meow_key.Store.Atomic.{Begun, flash_at-load}

-- A call that changes the flash, while there is power for it.
abbrev spend : {F : Type 0} → (F → F) → ℕ × F → ℕ × F
spend g (zero, f) = (zero, f)
spend g (suc k, f) = (k, g f)

-- The flash with power for a number of calls that erase or program it; reads need none.
abbrev pub powered : {Raw F : Type 0} → Nor Raw F → Nor Raw (ℕ × F)
powered n = record {
  image = λ x i. n.image x.1 i;
  journal = λ x. n.journal x.1;
  erase_slot = λ i x. spend (n.erase_slot i) x;
  tail_pages = n.tail_pages;
  program_page = λ i k im x. spend (n.program_page i k im) x;
  program_head = λ i im x. spend (n.program_head i im) x;
  tail_matches = λ i im x. n.tail_matches i im x.1;
  image_matches = λ i im x. n.image_matches i im x.1;
  erase_journal = λ x. spend n.erase_journal x;
  program_journal_header = λ h x. spend (n.program_journal_header h) x;
  program_entry = λ k e x. spend (n.program_entry k e) x;
}

module _ {Raw F : Type 0} (d : Device Raw) (n : Nor Raw F) where
  payload_done :
      (salt : List ℕ) (r : Ram) (im : Image Raw) (x x' : F)
      → prepare_slot_image d salt r.payload (add32 r.generation 1) ≡ some im
      → program_slot d n (target_slot r) im x ≡ (true, x')
      → commit_payload d n salt r x ≡ (true, committed im r, x')
  unfolding commit_payload
  payload_done salt r im x x' p e = rw (p, e, commit_payload) refl

  payload_failed :
      (salt : List ℕ) (r : Ram) (im : Image Raw) (x x' : F)
      → prepare_slot_image d salt r.payload (add32 r.generation 1) ≡ some im
      → program_slot d n (target_slot r) im x ≡ (false, x')
      → commit_payload d n salt r x ≡ (false, r, x')
  unfolding commit_payload
  payload_failed salt r im x x' p e = rw (p, e, commit_payload) refl

  transaction_done :
      (salt : List ℕ) (r q : Ram) (x x' : F) (i : ℕ)
      → commit_payload d n salt r x ≡ (true, q, x')
      → q.active_slot ≡ some i
      → (commit_transaction d n salt r x).2
        ≡ n.program_journal_header (journal_header d n q) (n.erase_journal x')
  unfolding commit_transaction journal_erase_and_initialize
  transaction_done salt r q x x' i e active = rw (e, active, commit_transaction) refl

  transaction_failed :
      (salt : List ℕ) (r : Ram) (x x' : F)
      → commit_payload d n salt r x ≡ (false, r, x')
      → (commit_transaction d n salt r x).2 ≡ x'
  unfolding commit_transaction
  transaction_failed salt r x x' e = rw (e, commit_transaction) refl

module _ {Raw F : Type 0} (d : Device Raw) (n : Nor Raw F) where
  program_from_dead :
      (i left page : ℕ) (im : Image Raw) (f : F)
      → program_from (powered n) i left page im (0, f) ≡ (0, f)
  program_from_dead i zero page im f = refl
  program_from_dead i (suc left) page im f = program_from_dead i left (suc page) im f

  program_from_short :
      (i k left page : ℕ) (im : Image Raw) (f : F)
      → k ≤ left
      → program_from (powered n) i left page im (k, f) ≡ (0, program_from n i k page im f)
  program_from_short i zero left page im f h = program_from_dead i left page im f
  program_from_short i (suc k) zero page im f h = absurd (omega arith)
  program_from_short i (suc k) (suc left) page im f h =
      program_from_short i k left (suc page) im (n.program_page i page im f) (omega arith)

  program_from_long :
      (i k left page rest : ℕ) (im : Image Raw) (f : F)
      → k ≡ left + rest
      → program_from (powered n) i left page im (k, f) ≡ (rest, program_from n i left page im f)
  program_from_long i k zero page rest im f h =
      let same : k ≡ rest = omega arith in ap (λ (x : ℕ). (x, f)) same
  program_from_long i zero (suc left) page rest im f h = absurd (omega arith)
  program_from_long i (suc k) (suc left) page rest im f h =
      program_from_long i k left (suc page) rest im (n.program_page i page im f) (omega arith)

  program_slot_dead :
      (i : ℕ) (im : Image Raw) (f : F) → (program_slot d (powered n) i im (0, f)).1 ≡ (0, f)
  unfolding program_slot
  program_slot_dead i im f =
      let tail = program_from_dead i n.tail_pages 1 im f in
      elim (Bool-cases (n.tail_matches i im f)) [
        | inl e ↦ rw (tail, e) refl
        | inr e ↦ rw (tail, e) refl
      ]

  -- A slot whose tail takes all the power that is left is programmed no further.
  program_slot_short :
      (i k : ℕ) (im : Image Raw) (f : F)
      → k ≤ n.tail_pages
      → (program_slot d (powered n) i im (suc k, f)).1
        ≡ (0, program_from n i k 1 im (n.erase_slot i f))
  unfolding program_slot
  program_slot_short i k im f h =
      let tail = program_from_short i k n.tail_pages 1 im (n.erase_slot i f) h in
      elim (Bool-cases (n.tail_matches i im (program_from n i k 1 im (n.erase_slot i f)))) [
        | inl e ↦ rw (tail, e) refl
        | inr e ↦ rw (tail, e) refl
      ]

  program_slot_long :
      (i k : ℕ) (im : Image Raw) (f : F)
      → n.tail_matches i im (slot_tail d n i im f) ≡ true
      → n.image_matches i im (slot_full d n i im f) ≡ true
      → program_slot d (powered n) i im (suc (n.tail_pages + suc k), f)
        ≡ (true, (k, slot_full d n i im f))
  unfolding program_slot
  program_slot_long i k im f h m =
      let tail =
        program_from_long i (n.tail_pages + suc k) n.tail_pages 1 (suc k) im (n.erase_slot i f)
          refl in
      rw (tail, h, m) refl

  -- The journal's part of a commit, for variables that hold the header.
  abbrev finish : JournalHeader → ℕ × F → ℕ × F
  finish h x = (powered n).program_journal_header h ((powered n).erase_journal x)

  -- The flash of a commit is what its slot leaves, with the journal's part if that succeeded.
  commit_transaction-flash :
      (salt : List ℕ) (r : Ram) (im : Image Raw) (x x' : ℕ × F) (done : Bool)
      → prepare_slot_image d salt r.payload (add32 r.generation 1) ≡ some im
      → program_slot d (powered n) (target_slot r) im x ≡ (done, x')
      → (commit_transaction d (powered n) salt r x).2
        ≡ (if done then finish (journal_header d n (committed im r)) x' else x')
  commit_transaction-flash salt r im x x' true p e =
      transaction_done d (powered n) salt r (committed im r) x x' (target_slot r)
        (payload_done d (powered n) salt r im x x' p e) refl
  commit_transaction-flash salt r im x x' false p e =
      transaction_failed d (powered n) salt r x x' (payload_failed d (powered n) salt r im x x' p e)

  -- Without power nothing is left to do, whether the slot is taken for programmed or not.
  commit_transaction-dead :
      (salt : List ℕ) (r : Ram) (im : Image Raw) (x : ℕ × F) (g : F)
      → prepare_slot_image d salt r.payload (add32 r.generation 1) ≡ some im
      → (program_slot d (powered n) (target_slot r) im x).1 ≡ (0, g)
      → (commit_transaction d (powered n) salt r x).2 ≡ (0, g)
  commit_transaction-dead salt r im x g p e =
      go (program_slot d (powered n) (target_slot r) im x).0
        (ap (λ (y : ℕ × F). ((program_slot d (powered n) (target_slot r) im x).0, y)) e)
    where
      go :
          (done : Bool)
          → program_slot d (powered n) (target_slot r) im x ≡ (done, (0, g))
          → (commit_transaction d (powered n) salt r x).2 ≡ (0, g)
      go true q = commit_transaction-flash salt r im x (0, g) true p q
      go false q = commit_transaction-flash salt r im x (0, g) false p q

  -- How far a commit comes with power for a number of calls.
  record Reached (k : ℕ) (im : Image Raw) (r : Ram) (f : F) (x : ℕ × F) : Type 0 where
    cut : Cut
    complete : is_complete cut ≡ leb (2 + n.tail_pages) k
    flash : x.1 ≡ flash_at d n cut im r f

  module _ (w : IsNor n) (build : Build) where
    short-Reached :
        (k : ℕ) (salt : List ℕ) (p : Payload) (r : Ram) (f : F) (im : Image Raw)
        → Begun d n build salt p r f im
        → k < 2 + n.tail_pages
        → Reached k im r f
            (commit_transaction d (powered n) salt (record r { payload = p }) (k, f)).2
    unfolding is_complete flash_at
    short-Reached zero salt p r f im b h = record {
      cut = unchanged;
      complete = ground arith;
      flash =
          ap (λ (x : ℕ × F). x.1)
            (commit_transaction-dead salt (record r { payload = p }) im (0, f) f b.prepared
              (program_slot_dead (target_slot r) im f));
    }
    short-Reached (suc k) salt p r f im b h = record {
      cut = pages_programmed k;
      complete = ground arith;
      flash =
          ap (λ (x : ℕ × F). x.1)
            (commit_transaction-dead salt (record r { payload = p }) im (suc k, f) _ b.prepared
              (program_slot_short (target_slot r) k im f (omega arith)));
    }

    long-Reached :
        (k : ℕ) (salt : List ℕ) (p : Payload) (r : Ram) (f : F) (im : Image Raw)
        → Begun d n build salt p r f im
        → Reached
            (suc (n.tail_pages + suc k))
            im
            r
            f
            (commit_transaction d
              (powered n)
              salt
              (record r { payload = p })
              (suc (n.tail_pages + suc k), f)).2
    unfolding is_complete flash_at
    long-Reached k salt p r f im b = at k
      where
        slot :
            (j : ℕ)
            → (commit_transaction d
                (powered n)
                salt
                (record r { payload = p })
                (suc (n.tail_pages + suc j), f)).2
              ≡ finish (journal_header d n (committed im r)) (j, slot_full d n (target_slot r) im f)
        slot j =
            commit_transaction-flash salt (record r { payload = p }) im _ _ true b.prepared
              (program_slot_long (target_slot r) j im f
                (w.tail_matches-program_head (target_slot r) im (slot_tail d n (target_slot r) im f)
                  b.programs)
                b.programs)

        at :
            (j : ℕ)
            → Reached
                (suc (n.tail_pages + suc j))
                im
                r
                f
                (commit_transaction d
                  (powered n)
                  salt
                  (record r { payload = p })
                  (suc (n.tail_pages + suc j), f)).2
        at zero = record {
          cut = slot_programmed;
          complete = ground arith;
          flash = ap (λ (x : ℕ × F). x.1) (slot 0);
        }
        at (suc zero) = record {
          cut = journal_erased;
          complete = ground arith;
          flash = ap (λ (x : ℕ × F). x.1) (slot 1);
        }
        at (suc (suc j)) = record {
          cut = finished;
          complete = ground arith;
          flash = ap (λ (x : ℕ × F). x.1) (slot (suc (suc j)));
        }

    commit_transaction-Reached :
        (k : ℕ) (salt : List ℕ) (p : Payload) (r : Ram) (f : F) (im : Image Raw)
        → Begun d n build salt p r f im
        → Reached k im r f
            (commit_transaction d (powered n) salt (record r { payload = p }) (k, f)).2
    commit_transaction-Reached k salt p r f im b = elim (Bool-cases (leb (2 + n.tail_pages) k)) [
      | inl e ↦
          let j = k - (2 + n.tail_pages) in
          let enough : 2 + n.tail_pages ≤ k = ground (arith, e) in
          let same : suc (n.tail_pages + suc j) ≡ k = omega arith in
          subst
            (λ x.
              Reached x im r f
                (commit_transaction d (powered n) salt (record r { payload = p }) (x, f)).2)
            same (long-Reached j salt p r f im b)
      | inr e ↦ short-Reached k salt p r f im b (ground (arith, e))
    ]

    -- A commit begins from variables and flash that agree; the checks of a load leave its payload
    -- alone, its generation stays below 2 ^ 32, its image is made, and a flash with power takes the
    -- image. If the power goes after any number `k` of the calls that erase and program the flash, in
    -- the order in which the commit makes them, page by page, then a load from what is in the flash
    -- gives the payload of before as long as `k` is below the calls for one slot, which are one to
    -- erase, one for each page behind the head, and one for the head; and the new payload from then
    -- on. Memory, cipher and flash keep their laws.
    pub commit_transaction-load :
        IsDevice d
        → (k : ℕ) (salt salt' : List ℕ) (p : Payload) (r : Ram) (f : F) (im : Image Raw)
        → Begun d n build salt p r f im
        → let left =
            (commit_transaction d (powered n) salt (record r { payload = p }) (k, f)).2.1 in
          (load d n build salt' none left).0.payload
          ≡ (if leb (2 + n.tail_pages) k then p else r.payload)
    commit_transaction-load v k salt salt' p r f im b =
        let reached = commit_transaction-Reached k salt p r f im b in
        ap (λ (x : F). (load d n build salt' none x).0.payload) reached.flash
        ∙ flash_at-load d n build v w reached.cut salt salt' p r f im b
        ∙ ap (λ (x : Bool). if x then p else r.payload) reached.complete
