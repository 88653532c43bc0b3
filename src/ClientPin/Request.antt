-- ===== src/ClientPin/Request.antt =====
-- The parameters of a clientPIN request, and how src/client_pin.c reads them from CBOR.
use meow_key.Prelude.{ℕ, zero, suc, ◌-◌, Bool, false, ◌&&◌, not}
use meow_key.Prelude.{List, [], ◌∷◌, ◌++◌, Option, none, some, take, ltb, ◌==◌, if◌then◌else◌}
use meow_key.Prelude.{ℤ, pos, negsuc, low_byte}
use meow_key.Cbor.Reader.{View, ok, failed, exhausted, M, ◌>>=◌, pure, check}
use meow_key.Cbor.Reader.{reader_init, read_map_start, read_int, read_bytes, skip}

-- `client_pin_request_t`. A field is `none` while its `have_` flag is false; the list of a byte
-- string holds the bytes that its length counts.
pub record Request : Type 0 where
  pub protocol : Option ℕ
  pub subcommand : Option ℕ
  pub key_agreement : Option (List ℕ)
  pub pin_uv_auth_param : Option (List ℕ)
  pub new_pin_enc : Option (List ℕ)
  pub pin_hash_enc : Option (List ℕ)
  pub permissions : Option ℤ

abbrev pub no_request : Request
no_request = record {
  protocol = none;
  subcommand = none;
  key_agreement = none;
  pin_uv_auth_param = none;
  new_pin_enc = none;
  pin_hash_enc = none;
  permissions = none;
}

-- `(uint8_t)value` of an `int64_t`
unfoldable pub to_byte : ℤ → ℕ
to_byte (pos n) = low_byte n
to_byte (negsuc n) = 255 - low_byte n

-- The bytes that a view shows.
abbrev pub shown : View → List ℕ
shown v = take v.length v.bytes

abbrev pub no_view : View
no_view = record { bytes = []; length = 0 }

unfoldable pub is_int : ℤ → ℤ → Bool
is_int (pos m) (pos n) = m == n
is_int (negsuc m) (negsuc n) = m == n
is_int (pos m) (negsuc n) = false
is_int (negsuc m) (pos n) = false

-- The loop of `parse_key_agreement_map` over its entries: the coordinates under -2 and -3.
unfoldable pub key_agreement_entries : ℕ → ℕ → View × View → M (View × View)
unfolding is_int
key_agreement_entries fuel zero xy = pure xy
key_agreement_entries fuel (suc count) xy = read_int >>= λ key.
    (if is_int key (negsuc 1)
      then (read_bytes >>= λ x. pure (x, xy.1))
      else if is_int key (negsuc 2)
      then (read_bytes >>= λ y. pure (xy.0, y))
      else (skip fuel >>= λ _. pure xy))
    >>= λ next. key_agreement_entries fuel count next

-- The uncompressed point.
unfoldable pub parse_key_agreement_map : ℕ → M (List ℕ)
unfolding key_agreement_entries
parse_key_agreement_map fuel = read_map_start >>= λ count.
    key_agreement_entries fuel count (no_view, no_view) >>= λ xy.
    check (xy.0.length == 32 && xy.1.length == 32) >>= λ _. pure (0x04 ∷ (shown xy.0 ++ shown xy.1))

-- A byte string of at most `limit` bytes.
unfoldable pub bounded_bytes : ℕ → M (List ℕ)
bounded_bytes limit = read_bytes >>= λ v. check (not (ltb limit v.length)) >>= λ _. pure (shown v)

-- One entry of the request, by its key.
request_entry : ℕ → ℤ → Request → M Request
unfolding to_byte parse_key_agreement_map bounded_bytes
request_entry fuel (negsuc n) r = skip fuel >>= λ _. pure r
request_entry fuel (pos key) r =
    if key == 1
    then (read_int >>= λ v. pure (record r { protocol = some (to_byte v) }))
    else if key == 2
    then (read_int >>= λ v. pure (record r { subcommand = some (to_byte v) }))
    else if key == 3
    then (parse_key_agreement_map fuel >>= λ k. pure (record r { key_agreement = some k }))
    else if key == 4
    then (bounded_bytes 32 >>= λ b. pure (record r { pin_uv_auth_param = some b }))
    else if key == 5
    then (bounded_bytes 80 >>= λ b. pure (record r { new_pin_enc = some b }))
    else if key == 6
    then (bounded_bytes 32 >>= λ b. pure (record r { pin_hash_enc = some b }))
    else if key == 9
    then (read_int >>= λ v. pure (record r { permissions = some v }))
    else (skip fuel >>= λ _. pure r)

request_entries : ℕ → ℕ → Request → M Request
unfolding request_entry
request_entries fuel zero r = pure r
request_entries fuel (suc count) r =
    read_int >>= λ key. request_entry fuel key r >>= λ r'. request_entries fuel count r'

-- What parsing comes to: the request with its protocol and subcommand, or a refusal. `unfinished`
-- says that the fuel of `skip` ran out.
pub data Parsed : Type 0 where
  parsed : ℕ → ℕ → Request → Parsed
  refused : Parsed
  unfinished : Parsed

-- `request->have_protocol && request->have_subcommand`
complete : Request → Option ℕ → Option ℕ → Parsed
complete r (some protocol) (some subcommand) = parsed protocol subcommand r
complete r (some protocol) none = refused
complete r none subcommand = refused

unfoldable pub parse_client_pin_request : ℕ → List ℕ → ℕ → Parsed
unfolding request_entries complete
parse_client_pin_request fuel request_data request_length =
    elim ((read_map_start >>= λ count. request_entries fuel count no_request)
      (reader_init request_data request_length)) [
        | ok r reader ↦ complete r r.protocol r.subcommand
        | failed ↦ refused
        | exhausted ↦ unfinished
      ]
