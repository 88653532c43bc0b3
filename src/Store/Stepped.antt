-- ===== src/Store/Stepped.antt =====
-- Each call on the store of src/credential_store.c leaves variables and flash that agree.
use meow_key.Prelude.{ℕ, ◌+◌, ◌≤◌, ◌<◌, ◌^◌, Bool, true, false, List}
use meow_key.Prelude.{◌≡◌, refl, sym, ap, ◌∙◌, subst, arith, inl, inr, ◌⊎◌, Bool-cases}
use meow_key.UserPresence.Config.{Config, config_is_valid}
use meow_key.ClientPin.State.{PinState}
use meow_key.Store.Slots.{Store}
use meow_key.Store.Payload.{Payload, Build}
use meow_key.Store.Flash.{Device, IsDevice, Nor, IsNor}
use meow_key.Store.Machine.{Ram, commit_transaction}
use meow_key.Store.Changes.{
  with_credentials, pin_stored, presence_stored, store_set_pin_state,
  store_set_user_presence_config, commit_slots,
}
use meow_key.Store.Clean.{IsClean, mark-settings, pin-settings, pin-retries, marked-retries}
use meow_key.Store.Durable.{Durable}
use meow_key.Store.Committed.{commit_transaction-Durable}
use meow_key.Store.Ready.{Durable-Committable}
use meow_key.Store.Calls.{set_pin, set_presence, expected}

module _ {Raw F : Type 0} (d : Device Raw) (n : Nor Raw F) (build : Build) (v : IsDevice d)
    (w : IsNor n) (some_entry : 0 < d.entry_capacity) where
  pub record Stepped (p : Payload) (bound : ℕ) (r' : Ram) (f' : F) : Type 0 where
    pub agrees : Durable d n build r' f'
    pub payload : r'.payload ≡ p
    pub generation : r'.generation ≤ bound

  moved :
      (p : Payload) (bound : ℕ) (q q' : Ram) (g g' : F)
      → q ≡ q'
      → g ≡ g'
      → Stepped p bound q g
      → Stepped p bound q' g'
  moved p bound q q' g g' same same_flash s =
      subst (λ x. Stepped p bound x g') same (subst (Stepped p bound q) same_flash s)

  commit-Stepped :
      (salt : List ℕ) (p : Payload) (r : Ram) (f : F) (r' : Ram) (f' : F)
      → Durable d n build r f
      → r.generation + 1 < 2 ^ 32
      → IsClean build p
      → commit_transaction d n salt (record r { payload = p }) f ≡ (true, r', f')
      → Stepped p (r.generation + 1) r' f'
  commit-Stepped salt p r f r' f' h small c e =
      let q : Ram = record r { payload = p } in
      let ready = Durable-Committable d n build r q f h refl refl refl c in
      let (agrees, payload, generation, empty) =
        commit_transaction-Durable d n build salt q f r' f' v w e small ready in
      record { agrees = agrees; payload = payload; generation = omega arith }

  pub commit_slots-Stepped :
      {A : Type 0} (salt : List ℕ) (change : Bool → Store → A × Store) (a : A) (r : Ram) (f : F)
      (r' : Ram) (f' : F)
      → Durable d n build r f
      → r.generation + 1 < 2 ^ 32
      → IsClean build (record (r.payload) { credentials = (change true r.payload.credentials).1 })
      → ((change false r.payload.credentials).0 ≡ a → ⊥)
      → commit_slots d n salt change r f ≡ (a, r', f')
      → Stepped
          (record (r.payload) { credentials = (change true r.payload.credentials).1 })
          (r.generation + 1)
          r'
          f'
  commit_slots-Stepped salt change a r f r' f' h small c fails e =
      by_commit (commit_transaction d n salt q f) refl
    where
      st' : Store
      st' = (change true r.payload.credentials).1

      q : Ram
      q = with_credentials st' r

      by_commit :
          (x : Bool × Ram × F)
          → commit_transaction d n salt q f ≡ x
          → Stepped (record (r.payload) { credentials = st' }) (r.generation + 1) r' f'
      by_commit (false, q', g) p =
          let shape : (commit_slots d n salt change r f).0
              ≡ (change false r.payload.credentials).0 =
            rw (p, commit_slots) refl in
          absurd (fails (sym shape ∙ ap (λ x. x.0) e))
      by_commit (true, q', g) p =
          let s =
            commit-Stepped salt (record (r.payload) { credentials = st' }) r f q' g h small c p in
          let shape : commit_slots d n salt change r f
              ≡ ((change true r.payload.credentials).0, with_credentials st' q', g) =
            rw (p, commit_slots) refl in
          let kept : with_credentials st' q' ≡ q' =
            ap (λ x. with_credentials x q') (ap (λ (x : Payload). x.credentials) (sym s.payload)) in
          let same : q' ≡ r' = sym kept ∙ ap (λ x. x.1) (sym shape ∙ e) in
          let same_flash : g ≡ f' = ap (λ x. x.2) (sym shape ∙ e) in
          moved (record (r.payload) { credentials = st' }) (r.generation + 1) q' r' g f' same
            same_flash s

  pub set_pin-Stepped :
      (salt : List ℕ) (pin : PinState) (r : Ram) (f : F) (r' : Ram) (f' : F)
      → Durable d n build r f
      → r.generation + 1 < 2 ^ 32
      → (pin.configured ≡ true) ⊎ (0 < pin.retries)
      → store_set_pin_state d n salt pin r f ≡ (true, r', f')
      → Stepped (expected build (set_pin pin) r.payload) (r.generation + 1) r' f'
  unfolding store_set_pin_state expected
  set_pin-Stepped salt pin r f r' f' h small ok e =
      let c = h.clean in
      commit-Stepped salt (record (r.payload) { fixed = pin_stored pin r.payload.fixed }) r f r' f'
        h small
        (record {
          kept = c.kept;
          counted = c.counted;
          settings = pin-settings build pin r.payload.fixed c.settings;
          has_retries = pin-retries pin r.payload.fixed ok;
          few = c.few;
        })
        e

  pub set_presence-Stepped :
      (salt : List ℕ) (c : Config) (r : Ram) (f : F) (r' : Ram) (f' : F)
      → Durable d n build r f
      → r.generation + 1 < 2 ^ 32
      → store_set_user_presence_config d n build salt c r f ≡ (true, r', f')
      → Stepped (expected build (set_presence c) r.payload) (r.generation + 1) r' f'
  unfolding store_set_user_presence_config expected
  set_presence-Stepped salt c r f r' f' h small e = elim (Bool-cases (config_is_valid c)) [
    | inr b ↦
        let shape : store_set_user_presence_config d n build salt c r f ≡ (false, r, f) =
          rw (b, store_set_user_presence_config) refl in
        let no : false ≡ true = ap (λ x. x.0) (sym shape ∙ e) in absurd cc
    | inl b ↦
        let k = h.clean in
        let p = record (r.payload) { fixed = presence_stored build c r.payload.fixed } in
        let shape : store_set_user_presence_config d n build salt c r f
            ≡ commit_transaction d n salt (record r { payload = p }) f =
          rw (b, store_set_user_presence_config) refl in
        commit-Stepped salt p r f r' f' h small
          (record {
            kept = k.kept;
            counted = k.counted;
            settings = mark-settings build (record (r.payload.fixed) { user_presence = c }) b;
            has_retries =
                marked-retries build (record (r.payload.fixed) { user_presence = c }) k.has_retries;
            few = k.few;
          })
          (sym shape ∙ e)
  ]
