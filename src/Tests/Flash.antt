-- ===== src/Tests/Flash.antt =====
-- The flash of src/credential_store.c at concrete inputs: a flash that keeps what it is given, and an
-- encryption that turns a mark over.
use native.Mathlib.Decide.{ℕ_discrete}
use meow_key.Prelude.{
  ℕ, ◌==◌, Bool, true, false, not, [], ◌∷◌, some, ◌≡◌, ◌≢◌, refl, sym, ap, ◌∙◌, arith,
}
use meow_key.Prelude.{if◌then◌else◌, ==_iff}
use meow_key.Store.Payload.{Payload}
use meow_key.Store.Flash.{
  JournalHeader, Entry, entry_is_blank, Image, Journal, Device, IsDevice, Nor, IsNor,
}

abbrev pub Marked : Type 0
Marked = Payload × Bool

abbrev pub turned : Marked → Marked
turned (p, b) = (p, not b)

turned-turned : (x : Marked) → turned (turned x) ≡ x
turned-turned (p, true) = refl
turned-turned (p, false) = refl

abbrev pub device : Device Marked
device = record {
  raw_of = λ p. (p, false);
  payload_of = λ x. x.0;
  bytes_of = λ x. if x.1 then 1 ∷ [] else [];
  header_bytes = λ h. [];
  payload_size = 1;
  entry_capacity = 2;
  hmac = λ key text. some text;
  aes_ctr = λ key nonce x. some (turned x);
  unique_id = 7 ∷ [];
}

pub device-IsDevice : IsDevice device
device-IsDevice = record {
  payload_of-raw_of = λ p. refl;
  aes_ctr-aes_ctr = λ key nonce plain coded e.
      (let same : turned plain ≡ coded = cc in
        ap (λ x. some (turned x)) (sym same) ∙ ap some (turned-turned plain));
}

abbrev pub blank_entry : Entry
blank_entry = record {
  magic = 0xffffffff;
  slot_index = 0xffff;
  slot_index_check = 0xffff;
  sign_count = 0xffffffff;
  sequence = 0xffffffff;
}

pub record Flash : Type 0 where
  pub slots : ℕ → Image Marked
  pub journal : Journal

pub Image-discrete : Discrete (Image Marked)
Image-discrete = hlevel ℕ_discrete

-- Whether a decision is positive.
abbrev decided : {A : Type 0} → Dec A → Bool
decided (yes a) = true
decided (no f) = false

decided-true : {A : Type 0} (x : Dec A) → decided x ≡ true → A
decided-true (yes a) e = a
decided-true (no f) e = absurd cc

pub decided-yes : {A : Type 0} (x : Dec A) → A → decided x ≡ true
decided-yes (yes a) b = refl
decided-yes (no f) b = absurd (f b)

abbrev pub slot_of : Flash → ℕ → Image Marked
slot_of f i = f.slots i

abbrev pub with_slot : ℕ → Image Marked → Flash → Flash
with_slot i im f = record f { slots = λ j. if j == i then im else f.slots j }

abbrev pub with_journal : JournalHeader → (ℕ → Entry) → Flash → Flash
with_journal h entries f = record f { journal = record { header = h; entries = entries } }

abbrev pub nor : Nor Marked Flash
nor = record {
  image = slot_of;
  journal = λ f. f.journal;
  erase_slot = λ i f.
      with_slot i
        (record {
          header = record ((slot_of f i).header) { magic = 0xffffffff };
          payload = (slot_of f i).payload;
        })
        f;
  tail_pages = 1;
  program_page =
      λ i k im f. with_slot i (record { header = (slot_of f i).header; payload = im.payload }) f;
  program_head =
      λ i im f. with_slot i (record { header = im.header; payload = (slot_of f i).payload }) f;
  tail_matches = λ i im f. true;
  image_matches = λ i im f. decided (Image-discrete (slot_of f i) im);
  erase_journal =
      λ f. with_journal (record (f.journal.header) { magic = 0xffffffff }) (λ k. blank_entry) f;
  program_journal_header = λ h f. with_journal h f.journal.entries f;
  program_entry =
      λ k e f. with_journal f.journal.header (λ j. if j == k then e else f.journal.entries j) f;
}

pub with_slot-slot_of : (i : ℕ) (im : Image Marked) (f : Flash) → slot_of (with_slot i im f) i ≡ im
with_slot-slot_of i im f = let e : (i == i) ≡ true = (==_iff i i).1 refl in rw (e) refl

with_slot-other :
    (i j : ℕ) (im : Image Marked) (f : Flash) → i ≢ j → slot_of (with_slot i im f) j ≡ slot_of f j
with_slot-other i j im f h = let e : (j == i) ≡ false = ground arith in rw (e) refl

pub nor-IsNor : IsNor nor
unfolding entry_is_blank
nor-IsNor = record {
  erase_slot-header = λ i f. ap (λ (x : Image Marked). x.header.magic) (with_slot-slot_of i _ f);
  program_page-header = λ i k im f h. ap (λ (x : Image Marked). x.header) (with_slot-slot_of i _ f);
  erase_slot_other = λ i j f h. with_slot-other i j _ f h;
  program_page_other = λ i k j im f h. with_slot-other i j _ f h;
  program_head_other = λ i j im f h. with_slot-other i j _ f h;
  image_matches-image = λ i im f e. decided-true (Image-discrete (slot_of f i) im) e;
  erase_slot-journal = λ i f. refl;
  program_page-journal = λ i k im f. refl;
  tail_matches-program_head = λ i im f e. refl;
  program_head-journal = λ i im f. refl;
  erase_journal-image = λ i f. refl;
  program_journal_header-image = λ h i f. refl;
  program_entry-image = λ k e i f. refl;
  erase_journal-magic = λ f. refl;
  erase_journal-blank = λ f k. refl;
  program_journal_header-header = λ h f. refl;
  program_journal_header-entries = λ h f k. refl;
  program_entry-header = λ k e f. refl;
  program_entry-entries = λ k e f j b. refl;
}
