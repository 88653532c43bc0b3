-- ===== src/Store/Append.antt =====
-- The journal of src/credential_store.c after an entry is put behind the last one.
use meow_key.Prelude.{ℕ, zero, suc, ◌+◌, ◌<◌, true, false, ◌≡◌, ◌≢◌, refl, sym, ap, ◌∙◌, arith}
use meow_key.Prelude.{inl, inr, Bool-cases, ◌==◌, ==_iff, if◌then◌else◌}
use meow_key.Store.Flash.{Entry, entry_is_blank, entry_is_valid}
use meow_key.Store.Machine.{Replay, replay, replayed}
use meow_key.Store.Committed.{replay-blank}

-- The entries with one of them replaced.
abbrev pub IsWritten : ℕ → Entry → (ℕ → Entry) → (ℕ → Entry) → Type 0
IsWritten k e entries entries' = (j : ℕ) → entries' j ≡ (if j == k then e else entries j)

IsWritten-here :
    (k : ℕ) (e : Entry) (entries entries' : ℕ → Entry)
    → IsWritten k e entries entries'
    → entries' k ≡ e
IsWritten-here k e entries entries' h =
    let yes : (k == k) ≡ true = (==_iff k k).1 refl in h k ∙ rw (yes) refl

pub IsWritten-other :
    (k j : ℕ) (e : Entry) (entries entries' : ℕ → Entry)
    → IsWritten k e entries entries'
    → j ≢ k
    → entries' j ≡ entries j
IsWritten-other k j e entries entries' h l =
    let no : (j == k) ≡ false = ground arith in h j ∙ rw (no) refl

-- One round of the loop, for each kind of entry.
replay-more :
    (m : ℕ) (entries : ℕ → Entry) (q : Replay)
    → entry_is_blank (entries q.index) ≡ false
    → entry_is_valid (entries q.index) ≡ true
    → replay (suc m) entries q ≡ replay m entries (replayed (entries q.index) q)
unfolding replay
replay-more m entries q b v = rw (b, v) refl

replay-stop :
    (m : ℕ) (entries : ℕ → Entry) (q : Replay)
    → entry_is_blank (entries q.index) ≡ false
    → entry_is_valid (entries q.index) ≡ false
    → replay (suc m) entries q ≡ q
unfolding replay
replay-stop m entries q b v = rw (b, v) refl

-- The loop over the longer journal does what it did and then the new entry.
pub replay-appended :
    (m : ℕ) (entries entries' : ℕ → Entry) (q r : Replay) (e : Entry)
    → replay m entries q ≡ r
    → r.index < q.index + m
    → entry_is_blank (entries r.index) ≡ true
    → entry_is_blank (entries (suc r.index)) ≡ true
    → entry_is_blank e ≡ false
    → entry_is_valid e ≡ true
    → IsWritten r.index e entries entries'
    → replay m entries' q ≡ replayed e r
unfolding replay
replay-appended zero entries entries' q r e run room b b' nb ok w =
    let same : q.index ≡ r.index = ap (λ (x : Replay). x.index) run in absurd (omega arith)
replay-appended (suc m) entries entries' q r e run room b b' nb ok w =
    elim (Bool-cases (entry_is_blank (entries q.index))) [
      | inl t ↦
          let same : q ≡ r = sym (replay-blank (suc m) entries q t) ∙ run in
          let i : q.index ≡ r.index = ap (λ (x : Replay). x.index) same in
          let here : entries' q.index ≡ e =
            ap entries' i ∙ IsWritten-here r.index e entries entries' w in
          let next : entries' (suc q.index) ≡ entries (suc r.index) =
            ap (λ k. entries' (suc k)) i
            ∙ IsWritten-other r.index (suc r.index) e entries entries' w
                (λ x. absurd (omega arith)) in
          replay-more m entries' q (ap entry_is_blank here ∙ nb) (ap entry_is_valid here ∙ ok)
          ∙ ap (λ x. replay m entries' (replayed x q)) here
          ∙ replay-blank m entries' (replayed e q) (ap entry_is_blank next ∙ b')
          ∙ ap (replayed e) same
      | inr t ↦ elim (Bool-cases (entry_is_valid (entries q.index))) [
        | inl v ↦
            let apart : q.index ≢ r.index = λ i.
              (let no : true ≡ false = sym b ∙ ap (λ k. entry_is_blank (entries k)) (sym i) ∙ t in
                absurd cc) in
            let here = IsWritten-other r.index q.index e entries entries' w apart in
            replay-more m entries' q (ap entry_is_blank here ∙ t) (ap entry_is_valid here ∙ v)
            ∙ ap (λ x. replay m entries' (replayed x q)) here
            ∙ replay-appended m entries entries' (replayed (entries q.index) q) r e
                (sym (replay-more m entries q t v) ∙ run) (omega arith) b b' nb ok w
        | inr v ↦
            let i : q.index ≡ r.index =
              ap (λ (x : Replay). x.index) (sym (replay-stop m entries q t v) ∙ run) in
            let no : true ≡ false = sym b ∙ ap (λ k. entry_is_blank (entries k)) (sym i) ∙ t in
            absurd cc
      ]
    ]
