-- ===== src/CtapHid/Frames.antt =====
-- `ctap_hid_handle_report` and `send_next_response_packet` of src/ctap_hid.c.
use meow_key.Prelude.{ℕ, ◌+◌, ◌-◌, ◌*◌, ◌/◌, ◌%◌, ◌^◌, Bool, true, ◌&&◌, ◌||◌, not}
use meow_key.Prelude.{
  List, ◌∷◌, ◌++◌, Option, none, some, length, take, drop, get_or, set, replicate,
}
use meow_key.Prelude.{ltb, leb, ◌==◌, if◌then◌else◌, be32, of_be32, low_byte, sub32}
use meow_key.CtapHid.State.{Interface, write_at, clear_request_state, clear_response_state}
use meow_key.CtapHid.State.{queue_error, min_size, broadcast_cid, packet_size, max_message_size}
use meow_key.CtapHid.State.{init_payload_size, cont_payload_size}
use meow_key.CtapHid.Dispatch.{Firmware, Shared, dispatch_request, interface_count, cmd_init}
use meow_key.CtapHid.Dispatch.{err_invalid_len, err_invalid_seq, err_invalid_cid}

abbrev byte : List ℕ → ℕ → ℕ
byte report n = get_or report n 0

-- `read_be32(report)` and `read_be16(&report[5])`
abbrev pub report_cid : List ℕ → ℕ
report_cid report = of_be32 (byte report 0) (byte report 1) (byte report 2) (byte report 3)

abbrev pub report_length : List ℕ → ℕ
report_length report = byte report 5 * 2 ^ 8 + byte report 6

module _ {W : Type 0} (firmware : Firmware W) where
  -- A request that is whole is carried out, and its state cleared.
  unfoldable pub finish : ℕ → ℕ → ℕ → Interface → Shared W → Interface × Shared W
  finish index cid command i s =
      let payload = take i.request_total_length i.request_buffer in
      let (i', s') = dispatch_request firmware index cid command payload i s in
      (clear_request_state i', s')

  -- A packet without the bit 0x80 in its fifth byte.
  unfoldable pub receive_continuation : ℕ → List ℕ → Interface → Shared W → Interface × Shared W
  receive_continuation index report i s =
      let cid = report_cid report in
      if not i.request_in_progress || not (cid == i.request_cid)
      then (if cid == broadcast_cid then i else queue_error cid err_invalid_seq i, s)
      else if not (byte report 4 == i.request_next_seq)
      then (clear_request_state (queue_error cid err_invalid_seq i), s)
      else (let n = min_size (sub32 i.request_total_length i.request_received) cont_payload_size in
          let i' = record i {
            request_next_seq = low_byte (i.request_next_seq + 1);
            request_buffer = write_at i.request_received (take n (drop 5 report)) i.request_buffer;
            request_received = i.request_received + n;
          } in
          if leb i'.request_total_length i'.request_received
          then finish index i'.request_cid i'.request_cmd i' s
          else (i', s))

  -- A packet with that bit starts a request, and drops one that is under way.
  unfoldable pub receive_initial : ℕ → List ℕ → Interface → Shared W → Interface × Shared W
  receive_initial index report i s =
      let cid = report_cid report in
      let command = byte report 4 % 2 ^ 7 in
      let total = report_length report in
      if ltb max_message_size total
      then (clear_request_state (queue_error cid err_invalid_len i), s)
      else if cid == broadcast_cid && not (command == cmd_init)
      then (clear_request_state (queue_error cid err_invalid_cid i), s)
      else (let n = min_size total init_payload_size in
          let i' = record (clear_request_state i) {
            request_in_progress = true;
            request_cid = cid;
            request_cmd = command;
            request_total_length = total;
            request_received = n;
            request_buffer = write_at 0 (take n (drop 7 report)) i.request_buffer;
          } in
          if leb i'.request_total_length i'.request_received
          then finish index cid command i' s
          else (i', s))

  unfoldable pub receive : ℕ → List ℕ → Interface → Shared W → Interface × Shared W
  receive index report i s =
      if not (length report == packet_size)
      then (i, s)
      else if ltb (byte report 4) 0x80
      then receive_continuation index report i s
      else receive_initial index report i s

  -- All interfaces: `s_interfaces` has `CTAP_HID_INTERFACE_COUNT` of them.
  unfoldable pub handle_report :
      ℕ → List ℕ → Interface → List Interface → Shared W → List Interface × Shared W
  handle_report index report spare interfaces s =
      if leb (interface_count firmware) index
      then (interfaces, s)
      else (let (i, s') = receive index report (get_or interfaces index spare) s in
          (set interfaces index i, s'))

-- A packet is its head and payload, filled with zeros.
abbrev pub padded : List ℕ → List ℕ
padded content = content ++ replicate (packet_size - length content) 0

-- How many bytes of the response go into the next packet.
abbrev pub chunk_length : Interface → ℕ
chunk_length i =
    min_size (sub32 i.response_length i.response_sent)
      (if i.response_sent == 0 then init_payload_size else cont_payload_size)

-- The next packet before it is filled up: the first one has the command and the length.
unfoldable pub response_content : Interface → List ℕ
response_content i =
    let chunk = take (chunk_length i) (drop i.response_sent i.response_buffer) in
    be32 i.response_cid
    ++ (if i.response_sent == 0
        then (0x80 + i.response_cmd % 2 ^ 7)
          ∷ low_byte (i.response_length / 2 ^ 8)
          ∷ low_byte i.response_length
          ∷ chunk
        else i.response_next_seq ∷ chunk)

-- The packet handed to the USB stack, if there is a response and the endpoint is ready.
unfoldable pub send_next_response_packet : Bool → Interface → Option (List ℕ) × Interface
send_next_response_packet ready i =
    if not i.response_in_progress || not ready
    then (none, i)
    else (let i' = record i {
      response_next_seq =
          if i.response_sent == 0 then i.response_next_seq else low_byte (i.response_next_seq + 1);
      response_sent = i.response_sent + chunk_length i;
    } in
        (
          some (padded (response_content i)),
          if leb i'.response_length i'.response_sent then clear_response_state i' else i',
        ))
