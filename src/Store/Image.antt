-- ===== src/Store/Image.antt =====
-- The images of src/credential_store.c: their checksum, the encryption of the payload, the making of
-- an image and the reading of one.
use Prim.Native.Nat.{bit_xor}
use meow_key.Prelude.{
  ℕ, zero, suc, ◌-◌, ◌/◌, ◌%◌, ◌^◌, ◌+◌, Bool, true, false, ◌&&◌, not, List, [], ◌∷◌, ◌++◌,
}
use meow_key.Prelude.{Option, none, some, take, replicate, length, ltb, ◌==◌, if◌then◌else◌, codes}
use meow_key.ClientPin.Crypto.{constant_time_equal}
use meow_key.Store.Payload.{Payload}
use meow_key.Store.Flash.{WrapMetadata, Header, Image, Device}

-- One of the eight rounds on a byte: `value & 1u` and `value >> 1u`.
unfoldable pub crc_rounds : ℕ → ℕ → ℕ
crc_rounds zero value = value
crc_rounds (suc n) value =
    crc_rounds n (if value % 2 == 0 then value / 2 else bit_xor 0xedb88320 (value / 2))

unfoldable pub crc_bytes : List ℕ → ℕ → ℕ
crc_bytes [] crc = crc
crc_bytes (b ∷ rest) crc =
    crc_bytes rest (bit_xor (crc_rounds 8 (bit_xor crc b % 2 ^ 8)) (crc / 2 ^ 8))

-- `~crc` of a word is 2 ^ 32 - 1 less it.
unfoldable pub crc32_bytes : List ℕ → ℕ
crc32_bytes bytes = 0xffffffff - crc_bytes bytes 0xffffffff

unfoldable pub store_constant_time_equal : List ℕ → List ℕ → ℕ → Bool
store_constant_time_equal left right n = constant_time_equal left right n

abbrev pub store_magic : ℕ
store_magic = 0x4d4b5331

abbrev pub store_version : ℕ
store_version = 6

abbrev pub wrap_magic : ℕ
wrap_magic = 0x4d4b5731

-- `store_wrap_metadata_is_valid`
unfoldable pub wrap_metadata_is_valid : WrapMetadata → Bool
wrap_metadata_is_valid w = w.magic == wrap_magic && w.flags == 1

-- `store_init_wrap_metadata`, with the random salt.
unfoldable pub init_wrap_metadata : List ℕ → WrapMetadata
init_wrap_metadata salt = record {
  magic = wrap_magic;
  salt = salt;
  tag = replicate 16 0;
  flags = 1;
}

-- What `store_load_slot` gives.
pub record Loaded : Type 0 where
  pub payload : Payload
  pub generation : ℕ
  pub payload_crc32 : ℕ
  pub wrapped : Bool

abbrev pub loaded : {Raw : Type 0} → Image Raw → ℕ → Bool → Option Payload → Option Loaded
loaded im crc wrapped none = none
loaded im crc wrapped (some p) = some (record {
  payload = p;
  generation = im.header.generation;
  payload_crc32 = crc;
  wrapped = wrapped;
})

module _ {Raw : Type 0} (d : Device Raw) where
  unfoldable pub derive_wrap_material : List ℕ → List ℕ → Option (List ℕ)
  derive_wrap_material salt label =
      if ltb 64 (length label + 16) then none else d.hmac d.unique_id (label ++ salt)

  -- The key is the whole code, the first counter its first 16 bytes.
  unfoldable pub payload_crypt : WrapMetadata → Raw → Option Raw
  payload_crypt w payload =
      elim (derive_wrap_material w.salt (codes "meowkey-store-wrap/aes-key")) [
        | none ↦ none
        | some key ↦ elim (derive_wrap_material w.salt (codes "meowkey-store-wrap/aes-ctr")) [
          | none ↦ none
          | some nonce ↦ d.aes_ctr key (take 16 nonce) payload
        ]
      ]

  unfoldable pub compute_wrap_tag : WrapMetadata → Raw → Option (List ℕ)
  compute_wrap_tag w payload =
      elim (derive_wrap_material w.salt (codes "meowkey-store-wrap/mac-key")) [
        | none ↦ none
        | some key ↦ elim (d.hmac key (d.bytes_of payload)) [
          | none ↦ none
          | some tag ↦ some (take 16 tag)
        ]
      ]

  -- `store_header_crc`: the checksum of the header with that field zero.
  unfoldable pub header_crc : Header → ℕ
  header_crc h = crc32_bytes (d.header_bytes (record h { header_crc32 = 0 }))

  abbrev pub fresh_header : ℕ → WrapMetadata → Raw → Header
  fresh_header generation w coded = record {
    magic = store_magic;
    version = store_version;
    generation = generation;
    payload_size = d.payload_size;
    payload_crc32 = crc32_bytes (d.bytes_of coded);
    header_crc32 = 0;
    wrap = w;
  }

  unfoldable pub prepare_slot_image : List ℕ → Payload → ℕ → Option (Image Raw)
  prepare_slot_image salt payload generation =
      let w = init_wrap_metadata salt in
      elim (payload_crypt w (d.raw_of payload)) [
        | none ↦ none
        | some coded ↦ elim (compute_wrap_tag w coded) [
          | none ↦ none
          | some tag ↦
              let h = fresh_header generation (record w { tag = tag }) coded in
              some (record { header = record h { header_crc32 = header_crc h }; payload = coded })
        ]
      ]

  unfoldable pub header_is_valid : Header → Bool
  header_is_valid h =
      h.magic == store_magic
      && (h.version == store_version
          && (ltb 0 h.generation
              && (h.payload_size == d.payload_size && h.header_crc32 == header_crc h)))

  -- The end of `store_load_slot` for a wrapped payload.
  unfoldable pub unwrap : Image Raw → Option Payload
  unwrap im = elim (compute_wrap_tag im.header.wrap im.payload) [
    | none ↦ none
    | some expected ↦
        if not (store_constant_time_equal expected im.header.wrap.tag 16)
        then none
        else elim (payload_crypt im.header.wrap im.payload) [
          | none ↦ none
          | some plain ↦ some (d.payload_of plain)
        ]
  ]

  unfoldable pub load_slot : Image Raw → Option Loaded
  load_slot im =
      let crc = crc32_bytes (d.bytes_of im.payload) in
      if not (header_is_valid im.header)
      then none
      else if not (crc == im.header.payload_crc32)
      then none
      else if wrap_metadata_is_valid im.header.wrap
      then loaded im crc true (unwrap im)
      else loaded im crc false (some (d.payload_of im.payload))
