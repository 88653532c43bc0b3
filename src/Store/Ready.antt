-- ===== src/Store/Ready.antt =====
-- Agreement of variables and flash in src/credential_store.c: a commit may start from it.
use meow_key.Prelude.{ℕ, ◌-◌, some, ◌≡◌, refl, sym, ap, ◌∙◌, arith, inl, inr, ◌⊎◌}
use meow_key.Store.Payload.{Build}
use meow_key.Store.Flash.{Device, Nor}
use meow_key.Store.Image.{Loaded, load_slot}
use meow_key.Store.Machine.{Ram, target_slot}
use meow_key.Store.Clean.{IsClean}
use meow_key.Store.Durable.{Durable}
use meow_key.Store.Committed.{Committable}

pub target_slot-active :
    (r : Ram) (a : ℕ) → (a ≡ 0) ⊎ (a ≡ 1) → r.active_slot ≡ some a → 1 - target_slot r ≡ a
target_slot-active r a (inl e) is_active = rw (is_active, e) refl
target_slot-active r a (inr e) is_active = rw (is_active, e) refl

module _ {Raw F : Type 0} (d : Device Raw) (n : Nor Raw F) (build : Build) where
  -- Also if the payload in memory has been changed.
  pub Durable-Committable :
      (r q : Ram) (f : F)
      → Durable d n build r f
      → q.active_slot ≡ r.active_slot
      → q.generation ≡ r.generation
      → q.loaded ≡ r.loaded
      → IsClean build q.payload
      → Committable d n build q f
  Durable-Committable r q f h same_active same_generation same_loaded c =
      let kept : 1 - target_slot q ≡ h.active =
        target_slot-active q h.active h.either (same_active ∙ h.is_active) in
      record {
        no_newer = λ l e.
            let same : some h.base ≡ some l =
              sym h.here ∙ ap (λ k. load_slot d (n.image f k)) (sym kept) ∙ e in
            let b : h.base ≡ l = cc in
            let g : l.generation ≡ q.generation =
              ap (λ (x : Loaded). x.generation) (sym b) ∙ h.same_generation ∙ sym same_generation in
            omega arith;
        clean = c;
        is_loaded = same_loaded ∙ h.is_loaded;
      }
