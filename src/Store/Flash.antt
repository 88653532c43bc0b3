-- ===== src/Store/Flash.antt =====
-- The flash behind src/credential_store.c: two slots for images of the store, and the journal of
-- signature counts. The headers and entries are the structures of the source; the flash itself, its
-- erasing and programming and how memory shows a structure as bytes, is a parameter.
use meow_key.Prelude.{
  ℕ, zero, suc, ◌≤◌, arith, ◌∙◌, refl, ◌-◌, Bool, true, ◌&&◌, List, Option, some, ◌≡◌, ◌≢◌, ◌==◌,
  if◌then◌else◌,
}
use meow_key.Store.Payload.{Payload}

-- `meowkey_store_wrap_metadata_t`
pub record WrapMetadata : Type 0 where
  pub magic : ℕ
  pub salt : List ℕ
  pub tag : List ℕ
  pub flags : ℕ

-- `meowkey_store_header_t`, whose reserved bytes hold the metadata.
pub record Header : Type 0 where
  pub magic : ℕ
  pub version : ℕ
  pub generation : ℕ
  pub payload_size : ℕ
  pub payload_crc32 : ℕ
  pub header_crc32 : ℕ
  pub wrap : WrapMetadata

-- `meowkey_sign_count_journal_header_t`
pub record JournalHeader : Type 0 where
  pub magic : ℕ
  pub version : ℕ
  pub entry_size : ℕ
  pub entry_capacity : ℕ
  pub store_version : ℕ
  pub store_generation : ℕ
  pub store_payload_crc32 : ℕ

-- `meowkey_sign_count_entry_t`
pub record Entry : Type 0 where
  pub magic : ℕ
  pub slot_index : ℕ
  pub slot_index_check : ℕ
  pub sign_count : ℕ
  pub sequence : ℕ

-- `sign_count_journal_entry_is_blank`: all bytes are 0xff.
unfoldable pub entry_is_blank : Entry → Bool
entry_is_blank e =
    e.magic == 0xffffffff
    && (e.slot_index == 0xffff
        && (e.slot_index_check == 0xffff
            && (e.sign_count == 0xffffffff && e.sequence == 0xffffffff)))

abbrev pub entry_magic : ℕ
entry_magic = 0x53434e54

-- `(uint16_t)~slot_index` is 0xffff less the index.
unfoldable pub entry_is_valid : Entry → Bool
entry_is_valid e = e.magic == entry_magic && e.slot_index_check == 0xffff - e.slot_index

-- An image is a header and a payload in the form `Raw` that memory gives it.
pub record Image (Raw : Type 0) : Type 0 where
  pub header : Header
  pub payload : Raw

pub record Journal : Type 0 where
  pub header : JournalHeader
  pub entries : ℕ → Entry

-- What the code takes from the compiler's layout of memory, from mbedtls and from the board.
pub record Device (Raw : Type 0) : Type 0 where
  pub raw_of : Payload → Raw
  pub payload_of : Raw → Payload
  pub bytes_of : Raw → List ℕ
  pub header_bytes : Header → List ℕ
  pub payload_size : ℕ
  pub entry_capacity : ℕ
  pub hmac : List ℕ → List ℕ → Option (List ℕ)
  pub aes_ctr : List ℕ → List ℕ → Raw → Option Raw
  pub unique_id : List ℕ

-- A structure is read back from the memory that it was written to; AES in counter mode undoes itself.
pub record IsDevice {Raw : Type 0} (d : Device Raw) : Type 0 where
  pub payload_of-raw_of : (p : Payload) → d.payload_of (d.raw_of p) ≡ p
  pub aes_ctr-aes_ctr :
      (key nonce : List ℕ) (plain coded : Raw)
      → d.aes_ctr key nonce plain ≡ some coded
      → d.aes_ctr key nonce coded ≡ some plain

-- `flash_range_erase` and `flash_range_program` on the regions that the code uses, and the reads and
-- comparisons through the mapped memory. The head of a slot is its first page, with the header; the
-- pages behind it are numbered from 1 on, and there are `tail_pages` of them.
pub record Nor (Raw F : Type 0) : Type 0 where
  pub image : F → ℕ → Image Raw
  pub journal : F → Journal
  pub erase_slot : ℕ → F → F
  pub tail_pages : ℕ
  pub program_page : ℕ → ℕ → Image Raw → F → F
  pub program_head : ℕ → Image Raw → F → F
  pub tail_matches : ℕ → Image Raw → F → Bool
  pub image_matches : ℕ → Image Raw → F → Bool
  pub erase_journal : F → F
  pub program_journal_header : JournalHeader → F → F
  pub program_entry : ℕ → Entry → F → F

-- Erasing leaves ones; an operation on one region leaves the others; a comparison that succeeds has
-- read what it was given, and a comparison of the whole slot after its head was programmed finds the
-- tail as it was before; programming the journal, which the code does not read back, succeeds.
pub record IsNor {Raw F : Type 0} (n : Nor Raw F) : Type 0 where
  pub erase_slot-header : (i : ℕ) (f : F) → (n.image (n.erase_slot i f) i).header.magic ≡ 0xffffffff
  pub program_page-header :
      (i k : ℕ) (im : Image Raw) (f : F)
      → 1 ≤ k
      → (n.image (n.program_page i k im f) i).header ≡ (n.image f i).header
  pub erase_slot_other : (i j : ℕ) (f : F) → i ≢ j → n.image (n.erase_slot i f) j ≡ n.image f j
  pub program_page_other :
      (i k j : ℕ) (im : Image Raw) (f : F)
      → i ≢ j
      → n.image (n.program_page i k im f) j ≡ n.image f j
  pub program_head_other :
      (i j : ℕ) (im : Image Raw) (f : F) → i ≢ j → n.image (n.program_head i im f) j ≡ n.image f j
  pub image_matches-image :
      (i : ℕ) (im : Image Raw) (f : F) → n.image_matches i im f ≡ true → n.image f i ≡ im
  pub erase_slot-journal : (i : ℕ) (f : F) → n.journal (n.erase_slot i f) ≡ n.journal f
  pub program_page-journal :
      (i k : ℕ) (im : Image Raw) (f : F) → n.journal (n.program_page i k im f) ≡ n.journal f
  pub tail_matches-program_head :
      (i : ℕ) (im : Image Raw) (f : F)
      → n.image_matches i im (n.program_head i im f) ≡ true
      → n.tail_matches i im f ≡ true
  pub program_head-journal :
      (i : ℕ) (im : Image Raw) (f : F) → n.journal (n.program_head i im f) ≡ n.journal f
  pub erase_journal-image : (i : ℕ) (f : F) → n.image (n.erase_journal f) i ≡ n.image f i
  pub program_journal_header-image :
      (h : JournalHeader) (i : ℕ) (f : F) → n.image (n.program_journal_header h f) i ≡ n.image f i
  pub program_entry-image :
      (k : ℕ) (e : Entry) (i : ℕ) (f : F) → n.image (n.program_entry k e f) i ≡ n.image f i
  pub erase_journal-magic : (f : F) → (n.journal (n.erase_journal f)).header.magic ≡ 0xffffffff
  pub erase_journal-blank :
      (f : F) (k : ℕ) → entry_is_blank ((n.journal (n.erase_journal f)).entries k) ≡ true
  pub program_journal_header-header :
      (h : JournalHeader) (f : F) → (n.journal (n.program_journal_header h f)).header ≡ h
  pub program_journal_header-entries :
      (h : JournalHeader) (f : F) (k : ℕ)
      → (n.journal (n.program_journal_header h f)).entries k ≡ (n.journal f).entries k
  pub program_entry-header :
      (k : ℕ) (e : Entry) (f : F)
      → (n.journal (n.program_entry k e f)).header ≡ (n.journal f).header
  pub program_entry-entries :
      (k : ℕ) (e : Entry) (f : F) (j : ℕ)
      → entry_is_blank ((n.journal f).entries k) ≡ true
      → (n.journal (n.program_entry k e f)).entries j
        ≡ (if j == k then e else (n.journal f).entries j)

module _ {Raw F : Type 0} (n : Nor Raw F) where
  -- The loop of `store_program_slot` over the pages behind the head: the pages that are left, and the
  -- number of the next one.
  abbrev pub program_from : ℕ → ℕ → ℕ → Image Raw → F → F
  program_from i zero page im f = f
  program_from i (suc left) page im f =
      program_from i left (suc page) im (n.program_page i page im f)

  abbrev pub program_tail : ℕ → Image Raw → F → F
  program_tail i im f = program_from i n.tail_pages 1 im f

  module _ (w : IsNor n) where
    pub program_from-header :
        (i left page : ℕ) (im : Image Raw) (f : F)
        → 1 ≤ page
        → (n.image (program_from i left page im f) i).header ≡ (n.image f i).header
    program_from-header i zero page im f h = refl
    program_from-header i (suc left) page im f h =
        program_from-header i left (suc page) im (n.program_page i page im f) (omega arith)
        ∙ w.program_page-header i page im f h

    pub program_from_other :
        (i left page j : ℕ) (im : Image Raw) (f : F)
        → i ≢ j
        → n.image (program_from i left page im f) j ≡ n.image f j
    program_from_other i zero page j im f h = refl
    program_from_other i (suc left) page j im f h =
        program_from_other i left (suc page) j im (n.program_page i page im f) h
        ∙ w.program_page_other i page j im f h

    pub program_from-journal :
        (i left page : ℕ) (im : Image Raw) (f : F)
        → n.journal (program_from i left page im f) ≡ n.journal f
    program_from-journal i zero page im f = refl
    program_from-journal i (suc left) page im f =
        program_from-journal i left (suc page) im (n.program_page i page im f)
        ∙ w.program_page-journal i page im f
