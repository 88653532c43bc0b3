-- ===== src/CtapHid/State.antt =====
-- The state of src/ctap_hid.c, and the buffers that its packets are copied to and from.
use meow_key.Prelude.{ℕ, ◌+◌, ◌≤◌, Bool, true, false, List, [], ◌∷◌, ◌++◌, ◌≡◌, ◌∙◌, ap, sym}
use meow_key.Prelude.{length, take, drop, length-append, length-take, length-drop, take-append}
use meow_key.Prelude.{append_assoc, ltb, if◌then◌else◌, arith}

abbrev pub packet_size : ℕ
packet_size = 64

abbrev pub max_message_size : ℕ
max_message_size = 1024

abbrev pub broadcast_cid : ℕ
broadcast_cid = 0xffffffff

abbrev pub init_payload_size : ℕ
init_payload_size = 57

abbrev pub cont_payload_size : ℕ
cont_payload_size = 59

-- `ctap_hid_interface_state_t`
pub record Interface : Type 0 where
  pub seen_init : Bool
  pub seen_cbor : Bool
  pub request_in_progress : Bool
  pub request_cid : ℕ
  pub request_cmd : ℕ
  pub request_total_length : ℕ
  pub request_received : ℕ
  pub request_next_seq : ℕ
  pub request_buffer : List ℕ
  pub response_in_progress : Bool
  pub response_cid : ℕ
  pub response_cmd : ℕ
  pub response_length : ℕ
  pub response_sent : ℕ
  pub response_next_seq : ℕ
  pub response_buffer : List ℕ

-- `ctap_hid_keepalive_state_t`
pub record Keepalive : Type 0 where
  pub active : Bool
  pub instance_index : ℕ
  pub cid : ℕ
  pub last_sent_ms : ℕ

-- `memcpy(&buffer[at], bytes, length)`
pub write_at : ℕ → List ℕ → List ℕ → List ℕ
write_at at bytes buffer = take at buffer ++ (bytes ++ drop (at + length bytes) buffer)

pub length-write_at :
    (at : ℕ) (bytes buffer : List ℕ)
    → at + length bytes ≤ length buffer
    → length (write_at at bytes buffer) ≡ length buffer
unfolding write_at
length-write_at at bytes buffer h = omega (
  arith,
  length-append (take at buffer) (bytes ++ drop (at + length bytes) buffer),
  length-append bytes (drop (at + length bytes) buffer),
  length-take at buffer,
  length-drop (at + length bytes) buffer,
)

pub take-write_at :
    (at n : ℕ) (bytes buffer : List ℕ)
    → at + length bytes ≤ length buffer
    → n ≡ at + length bytes
    → take n (write_at at bytes buffer) ≡ take at buffer ++ bytes
unfolding write_at
take-write_at at n bytes buffer h e =
    ap (take n) (sym (append_assoc (take at buffer) bytes (drop (at + length bytes) buffer)))
    ∙ take-append (take at buffer ++ bytes) (drop (at + length bytes) buffer) n
        (omega (arith, length-append (take at buffer) bytes, length-take at buffer))

unfoldable pub clear_request_state : Interface → Interface
clear_request_state i = record i {
  request_in_progress = false;
  request_cid = 0;
  request_cmd = 0;
  request_total_length = 0;
  request_received = 0;
  request_next_seq = 0;
}

unfoldable pub clear_response_state : Interface → Interface
clear_response_state i = record i {
  response_in_progress = false;
  response_cid = 0;
  response_cmd = 0;
  response_length = 0;
  response_sent = 0;
  response_next_seq = 0;
}

abbrev pub min_size : ℕ → ℕ → ℕ
min_size a b = if ltb a b then a else b

abbrev pub cmd_error : ℕ
cmd_error = 0x3f

unfoldable pub queue_response : ℕ → ℕ → List ℕ → Interface → Interface
unfolding clear_response_state
queue_response cid command payload i =
    let n = if ltb max_message_size (length payload) then max_message_size else length payload in
    record (clear_response_state i) {
      response_cid = cid;
      response_cmd = command;
      response_length = n;
      response_buffer = write_at 0 (take n payload) i.response_buffer;
      response_in_progress = true;
    }

unfoldable pub queue_error : ℕ → ℕ → Interface → Interface
unfolding queue_response
queue_error cid error i = queue_response cid cmd_error (error ∷ []) i
