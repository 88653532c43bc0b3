-- ===== src/Store/Refinement.antt =====
-- The store of src/credential_store.c as the payload that its calls change, over cycles of the power.
use meow_key.Prelude.{
  ℕ, ◌+◌, ◌<◌, ◌^◌, Bool, true, false, List, [], ◌∷◌, Option, none, some, All, if◌then◌else◌,
}
use meow_key.Prelude.{◌≡◌, refl, sym, ap, ◌∙◌, subst, arith, length}
use meow_key.Store.Payload.{Payload, Build}
use meow_key.Store.Flash.{Device, IsDevice, Nor, IsNor}
use meow_key.Store.Machine.{Ram}
use meow_key.Store.Changes.{add_credential}
use meow_key.Store.Load.{load}
use meow_key.Store.Durable.{Durable, reloaded, Durable-load}
use meow_key.Store.Calls.{Call, set_pin, set_presence, add_record, update_count, delete_slot}
use meow_key.Store.Calls.{clear_all, power_cycle, perform, expected, IsAllowed, is_some}
use meow_key.Store.Stepped.{Stepped, set_pin-Stepped, set_presence-Stepped}
use meow_key.Store.Reboot.{add-Stepped, delete-Stepped, clear-Stepped, update-Stepped}

-- The calls in turn, each with a salt: whether all report success, and what they leave.
unfoldable pub perform_all :
    {Raw F : Type 0}
    → Device Raw
    → Nor Raw F
    → Build
    → List (List ℕ × Call)
    → Ram
    → F
    → Bool × Ram × F
perform_all d n build [] r f = (true, r, f)
perform_all d n build ((salt, c) ∷ rest) r f =
    let (done, r', f') = perform d n build salt c r f in
    let later = perform_all d n build rest r' f' in if done then later else (false, r', f')

unfoldable pub expected_all : Build → List (List ℕ × Call) → Payload → Payload
expected_all build [] p = p
expected_all build ((salt, c) ∷ rest) p = expected_all build rest (expected build c p)

module _ {Raw F : Type 0} (d : Device Raw) (n : Nor Raw F) (build : Build) where
  reloaded-Durable :
      (r : Ram) (f : F) → Durable d n build r f → Durable d n build (reloaded d n build r) f
  reloaded-Durable r f h = record {
    base = h.base;
    active = h.active;
    either = h.either;
    is_active = h.is_active;
    here = h.here;
    is_wrapped = h.is_wrapped;
    same_generation = h.same_generation;
    older = h.older;
    header = h.header;
    is_ready = h.is_ready;
    is_loaded = h.is_loaded;
    replays = h.replays;
    blank_after = h.blank_after;
    same_rest = h.same_rest;
    clean_base = h.clean_base;
    clean = h.clean;
  }

  module _ (v : IsDevice d) (w : IsNor n) (some_entry : 0 < d.entry_capacity) where
    perform-Stepped :
        (salt : List ℕ) (c : Call) (r : Ram) (f : F) (r' : Ram) (f' : F)
        → Durable d n build r f
        → r.generation + 1 < 2 ^ 32
        → IsAllowed c
        → perform d n build salt c r f ≡ (true, r', f')
        → Stepped d n build v w some_entry (expected build c r.payload) (r.generation + 1) r' f'
    unfolding perform IsAllowed expected
    perform-Stepped salt (set_pin pin) r f r' f' h small ok e =
        set_pin-Stepped d n build v w some_entry salt pin r f r' f' h small ok e
    perform-Stepped salt (set_presence c) r f r' f' h small ok e =
        set_presence-Stepped d n build v w some_entry salt c r f r' f' h small e
    perform-Stepped salt (add_record c) r f r' f' h small ok e =
        added (add_credential d n salt c r f) refl
      where
        added :
            (x : Option ℕ × Ram × F)
            → add_credential d n salt c r f ≡ x
            → Stepped d n build v w some_entry
                (expected build (add_record c) r.payload)
                (r.generation + 1)
                r'
                f'
        added (none, q, g) p =
            let bad : is_some (add_credential d n salt c r f).0 ≡ false = rw (p) refl in
            let no : false ≡ true = sym bad ∙ ap (λ x. x.0) e in absurd cc
        added (some i, q, g) p =
            let same : (true, q, g) ≡ (true, r', f') = sym (rw (p) refl) ∙ e in
            add-Stepped d n build v w some_entry salt c i r f r' f' h small ok
              (p ∙ ap (λ (x : Bool × Ram × F). (some i, x.1, x.2)) same)
    perform-Stepped salt (update_count i count) r f r' f' h small ok e =
        update-Stepped d n build v w some_entry salt i count r f r' f' h small e
    perform-Stepped salt (delete_slot i) r f r' f' h small ok e =
        delete-Stepped d n build v w some_entry salt i r f r' f' h small e
    perform-Stepped salt clear_all r f r' f' h small ok e =
        clear-Stepped d n build v w some_entry salt r f r' f' h small e
    perform-Stepped salt power_cycle r f r' f' h small ok e =
        let l = Durable-load d n build salt none r f h in
        let same : (true, reloaded d n build r, f) ≡ (true, r', f') =
          ap (λ (x : Ram × F). (true, x.0, x.1)) (sym l) ∙ e in
        let ram : reloaded d n build r ≡ r' = ap (λ x. x.1) same in
        let g : r'.generation ≡ r.generation = ap (λ (x : Ram). x.generation) (sym ram) in
        record {
          agrees =
              subst (λ x. Durable d n build x f') ram
                (subst (Durable d n build (reloaded d n build r)) (ap (λ x. x.2) same)
                  (reloaded-Durable r f h));
          payload = ap (λ (x : Ram). x.payload) (sym ram);
          generation = omega arith;
        }

    step :
        (b : Bool) (x y z : Bool × Ram × F)
        → (if b then x else (false, y.1, y.2)) ≡ (true, z.1, z.2)
        → (b ≡ true) × (x ≡ (true, z.1, z.2))
    step true x y z e = (refl, e)
    step false x y z e = (let no : false ≡ true = ap (λ u. u.0) e in absurd cc)

    -- From variables and flash that agree, calls that all report success, with cycles of the power
    -- among them, leave agreement again and the payload that the calls are to give to the one before,
    -- where a cycle of the power gives nothing; the next load gives this payload too. Memory, cipher
    -- and flash keep their laws, the journal has room for an entry, the calls are allowed (a PIN that
    -- is not set keeps attempts, a record fits a slot), and there are fewer than 2 ^ 32 generations.
    pub perform_all-load :
        (calls : List (List ℕ × Call)) (r : Ram) (f : F) (r' : Ram) (f' : F) (salt : List ℕ)
        → Durable d n build r f
        → r.generation + length calls < 2 ^ 32
        → All (λ (c : List ℕ × Call). IsAllowed (c.1)) calls
        → perform_all d n build calls r f ≡ (true, r', f')
        → Durable d n build r' f'
          × (r'.payload ≡ expected_all build calls r.payload)
          × ((load d n build salt none f').0.payload ≡ expected_all build calls r.payload)
    unfolding perform_all expected_all
    perform_all-load [] r f r' f' salt h small ok e =
        let ram : r ≡ r' = ap (λ x. x.1) e in
        let h' : Durable d n build r' f' =
          subst (λ x. Durable d n build x f') ram
            (subst (Durable d n build r) (ap (λ x. x.2) e) h) in
        let same : r'.payload ≡ r.payload = ap (λ (x : Ram). x.payload) (sym ram) in
        (
          h',
          same,
          ap (λ (x : Ram × F). x.0.payload) (Durable-load d n build salt none r' f' h') ∙ same,
        )
    perform_all-load ((s, c) ∷ rest) r f r' f' salt h small (ok, more) e =
        let x = perform d n build s c r f in
        let (done, later) = step x.0 (perform_all d n build rest x.1 x.2) x (true, r', f') e in
        let one =
          perform-Stepped s c r f x.1 x.2 h (omega arith) ok (ap (λ b. (b, x.1, x.2)) done) in
        let g = one.generation in
        let (agrees, payload, reload) =
          perform_all-load rest x.1 x.2 r' f' salt one.agrees (omega arith) more later in
        let same = ap (expected_all build rest) one.payload in
        (agrees, payload ∙ same, reload ∙ same)
