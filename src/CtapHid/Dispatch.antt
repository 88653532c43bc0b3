-- ===== src/CtapHid/Dispatch.antt =====
-- The commands of src/ctap_hid.c. What a CBOR request and the text of a diagnostic request do
-- outside the interface is an argument; the diagnostic log is left out.
use meow_key.Prelude.{
  ℕ, Bool, true, false, ◌&&◌, ◌||◌, not, List, [], ◌∷◌, ◌++◌, Option, none, some,
}
use meow_key.Prelude.{length, ltb, leb, ◌==◌, if◌then◌else◌, be32}
use meow_key.CtapHid.State.{Interface, Keepalive, queue_response, queue_error, broadcast_cid}
use meow_key.CtapHid.State.{max_message_size}
use meow_key.CtapHid.Channels.{allocate_channel}

-- `cbor` is `ctap2_handle_cbor` (`none` for its `false`) and `diagnostics` the text that an allowed
-- diagnostic request is answered with, over a state of the rest of the firmware.
pub record Firmware (W : Type 0) : Type 0 where
  pub debug_hid : Bool
  pub cbor : List ℕ → W → Option (List ℕ) × W
  pub diagnostics : List ℕ → W → List ℕ × W

-- What all interfaces share.
pub record Shared (W : Type 0) : Type 0 where
  pub next_channel_id : ℕ
  pub keepalive : Keepalive
  pub world : W

abbrev pub no_keepalive : Keepalive
no_keepalive = record { active = false; instance_index = 0; cid = 0; last_sent_ms = 0 }

abbrev pub err_invalid_cmd : ℕ
err_invalid_cmd = 0x01

abbrev pub err_invalid_len : ℕ
err_invalid_len = 0x03

abbrev pub err_invalid_seq : ℕ
err_invalid_seq = 0x04

abbrev pub err_invalid_cid : ℕ
err_invalid_cid = 0x0b

-- CTAP_HID_CMD_*
abbrev pub cmd_ping : ℕ
cmd_ping = 0x01

abbrev pub cmd_init : ℕ
cmd_init = 0x06

abbrev pub cmd_cbor : ℕ
cmd_cbor = 0x10

abbrev pub cmd_cancel : ℕ
cmd_cancel = 0x11

abbrev pub cmd_diag : ℕ
cmd_diag = 0x40

abbrev pub fido_instance : ℕ
fido_instance = 0

abbrev pub debug_instance : ℕ
debug_instance = 1

-- What `handle_cbor` does with the answer of `ctap2_handle_cbor`.
unfoldable pub cbor_answer : ℕ → ℕ → List ℕ → Option (List ℕ) → Interface → Interface
cbor_answer index cid payload none i = queue_error cid err_invalid_cmd i
cbor_answer index cid payload (some response) i =
    let seen = index == fido_instance && ltb 0 (length payload) in
    let i' = record i { seen_cbor = if seen then true else i.seen_cbor } in
    if ltb max_message_size (length response)
    then queue_error cid err_invalid_len i'
    else queue_response cid cmd_cbor response i'

module _ {W : Type 0} (firmware : Firmware W) where
  abbrev pub interface_count : ℕ
  interface_count = if firmware.debug_hid then 2 else 1

  -- The channel is allocated before the length of the payload is looked at.
  unfoldable pub handle_init : ℕ → List ℕ → Interface → Shared W → Interface × Shared W
  handle_init cid payload i s =
      let fresh = allocate_channel s.next_channel_id in
      let allocated = if cid == broadcast_cid then fresh.0 else cid in
      let s' = if cid == broadcast_cid then record s { next_channel_id = fresh.1 } else s in
      if not (length payload == 8) then (queue_error cid err_invalid_len i, s') else (
        queue_response cid cmd_init (payload ++ (be32 allocated ++ (2 ∷ 1 ∷ 0 ∷ 1 ∷ 0x0c ∷ [])))
            (record i { seen_init = true }),
        s',
      )

  unfoldable pub handle_ping : ℕ → List ℕ → Interface → Shared W → Interface × Shared W
  handle_ping cid payload i s = (queue_response cid cmd_ping payload i, s)

  -- Only the debug interface of a build that has one answers.
  unfoldable pub handle_diagnostics : ℕ → ℕ → List ℕ → Interface → Shared W → Interface × Shared W
  handle_diagnostics index cid payload i s =
      if not firmware.debug_hid || not (index == debug_instance)
      then (queue_error cid err_invalid_cmd i, s)
      else (let (text, w) = firmware.diagnostics payload s.world in
          (queue_response cid cmd_diag text i, record s { world = w }))

  unfoldable pub keepalive_begin : ℕ → ℕ → Shared W → Shared W
  keepalive_begin index cid s = if leb interface_count index then s else record s {
    keepalive = record { active = true; instance_index = index; cid = cid; last_sent_ms = 0 };
  }

  unfoldable pub keepalive_end : Shared W → Shared W
  keepalive_end s = record s { keepalive = no_keepalive }

  -- The request runs while the keepalive is on; it is over when the answer is queued.
  unfoldable pub handle_cbor : ℕ → ℕ → List ℕ → Interface → Shared W → Interface × Shared W
  handle_cbor index cid payload i s =
      let s' = keepalive_begin index cid s in
      let (answer, w) = firmware.cbor payload s'.world in
      (cbor_answer index cid payload answer i, keepalive_end (record s' { world = w }))

  unfoldable pub dispatch_request : ℕ → ℕ → ℕ → List ℕ → Interface → Shared W → Interface × Shared W
  dispatch_request index cid command payload i s =
      if command == cmd_init
      then handle_init cid payload i s
      else if command == cmd_ping
      then handle_ping cid payload i s
      else if command == cmd_cbor
      then handle_cbor index cid payload i s
      else if command == cmd_cancel
      then (i, s)
      else if command == cmd_diag
      then handle_diagnostics index cid payload i s
      else (queue_error cid err_invalid_cmd i, s)
