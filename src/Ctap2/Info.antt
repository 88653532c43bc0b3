-- ===== src/Ctap2/Info.antt =====
-- The information that src/ctap2.c answers with.
use meow_key.Prelude.{ℕ, ◌<◌, ◌^◌, Bool, true, false, List, ◌≡◌, refl, ap, ◌∙◌}
use meow_key.Prelude.{
  length, leb, if◌then◌else◌, codes, arith, pos, negsuc, Bool-cases, ◌⊎◌, inl, inr, All,
}
use meow_key.Cbor.Writer.{Writer, writer_init, header_bytes}
use meow_key.Cbor.Writer.Emits.{
  encodings, perform_all, IsBounded, IsSmall, WroteAll, perform_all-WroteAll,
}
use meow_key.Cbor.Item.{
  Item, leaf, flag, byte_string, text_string, array, table, none, item, end, pair, encode,
}
use meow_key.ClientPin.Responses.{Reply, failure}
use meow_key.WebAuthn.AuthData.{aaguid}
use meow_key.Ctap2.{get_info_calls, build_get_info}

-- The information as one item of CBOR.
unfoldable pub info : Bool → Item
info configured = table (
    pair (leaf (pos 1)) (array (item (text_string (codes "FIDO_2_0")) none)) (
      pair (leaf (pos 2)) (array (item (text_string (codes "hmac-secret")) none)) (
        pair (leaf (pos 3)) (byte_string aaguid) (
          pair (leaf (pos 4))
            (table (
              pair (text_string (codes "rk")) (flag true) (
                pair (text_string (codes "up")) (flag true) (
                  pair (text_string (codes "uv")) (flag false) (
                    pair (text_string (codes "plat")) (flag false) (
                      pair (text_string (codes "clientPin")) (flag configured)
                        (pair (text_string (codes "makeCredUvNotRqd")) (flag true) end)))))))
            (pair (leaf (pos 5)) (leaf (pos 1024)) (
              pair (leaf (pos 6)) (array (item (leaf (pos 1)) none)) (
                pair (leaf (pos 9)) (array (item (text_string (codes "usb")) none)) (
                  pair (leaf (pos 10))
                    (array (
                      item
                        (table (
                          pair (text_string (codes "type")) (text_string (codes "public-key"))
                            (pair (text_string (codes "alg")) (leaf (negsuc 6)) end)))
                        none))
                    end))))))))

calls-encode :
    (configured : Bool) → encodings (get_info_calls configured) ≡ encode (info configured)
unfolding get_info_calls info encode header_bytes
calls-encode true = refl
calls-encode false = refl

length-info : (configured : Bool) → length (encode (info configured)) ≡ 130
unfolding info encode header_bytes
length-info true = refl
length-info false = refl

calls-IsSmall : (configured : Bool) → All IsSmall (get_info_calls configured)
unfolding get_info_calls
calls-IsSmall configured = ground arith

-- In a buffer below 2 ^ 31 bytes, the information, for a PIN that is or is not configured, is one item
-- of CBOR, of 130 bytes; where the buffer has less room, the status is `CTAP2_ERR_INVALID_LENGTH`.
pub build_get_info-info :
    (capacity : ℕ) (configured : Bool)
    → capacity < 2 ^ 31
    → build_get_info capacity configured ≡ (
        if leb 130 capacity
        then (let r : Reply = (0, encode (info configured)) in r)
        else failure 0x03)
unfolding build_get_info writer_init
build_get_info-info capacity configured small = go (Bool-cases w.failed)
  where
    w : Writer
    w = perform_all (get_info_calls configured) (writer_init capacity)

    start : IsBounded (writer_init capacity)
    start = record { counted = refl; inside = omega arith; small = small }

    fresh : (writer_init capacity).failed ≡ false
    fresh = refl

    wrote : WroteAll (writer_init capacity) (encodings (get_info_calls configured)) w
    wrote =
        perform_all-WroteAll (get_info_calls configured) (writer_init capacity) start fresh
          (calls-IsSmall configured)

    long : length (encodings (get_info_calls configured)) ≡ 130
    long = ap length (calls-encode configured) ∙ length-info configured

    go :
        ((w.failed ≡ true) ⊎ (w.failed ≡ false))
        → (if w.failed then failure 0x03 else (let r : Reply = (0, w.bytes) in r)) ≡ (
            if leb 130 capacity
            then (let r : Reply = (0, encode (info configured)) in r)
            else failure 0x03)
    go (inl e) =
        let over = wrote.full e in
        let l : leb 130 capacity ≡ false = ground (arith, over, long) in rw (e, l) refl
    go (inr e) =
        let (fits, same) = wrote.fits e in
        let l : leb 130 capacity ≡ true = ground (arith, fits, long) in
        rw (e, l)
          (ap (λ (b : List ℕ). (let r : Reply = (0, b) in r)) (same ∙ calls-encode configured))
