-- ===== src/CtapHid/Bounds.antt =====
-- The buffers of src/ctap_hid.c are never read or written out of range.
use meow_key.Prelude.{ℕ, ◌≤◌, List, [], ◌∷◌, ◌≡◌}
use meow_key.Prelude.{Option, none, some, length, take, arith, length-take, ltb, if◌then◌else◌}
use meow_key.CtapHid.State.{min_size, packet_size, clear_response_state}
use meow_key.CtapHid.Frames.{chunk_length, padded, response_content}
use meow_key.Prelude.{Bool, replicate, length-append, length-replicate, ◌-◌}
use meow_key.Prelude.{true, get_or, ◌%◌, ◌^◌}
use meow_key.Prelude.{sub32, low_byte, drop, length-drop, ◌+◌}
use meow_key.CtapHid.Frames.{report_cid, report_length, receive, receive_initial, finish}
use meow_key.CtapHid.Frames.{receive_continuation, send_next_response_packet}
use meow_key.CtapHid.State.{Interface, write_at, length-write_at, clear_request_state}
use meow_key.CtapHid.State.{queue_response, queue_error}
use meow_key.CtapHid.Dispatch.{Firmware, Shared, dispatch_request, handle_init, handle_ping}
use meow_key.CtapHid.Dispatch.{handle_cbor, cbor_answer, handle_diagnostics}

-- Both buffers have their size, and the counters stay within them. In the model a copy out of range
-- would change the length of a buffer.
pub record IsBounded (i : Interface) : Type 0 where
  pub request_buffer : length i.request_buffer ≡ 1024
  pub response_buffer : length i.response_buffer ≡ 1024
  pub received : i.request_received ≤ i.request_total_length
  pub total : i.request_total_length ≤ 1024
  pub sent : i.response_sent ≤ i.response_length
  pub answer : i.response_length ≤ 1024

copied :
    (n : ℕ) (payload buffer : List ℕ)
    → n ≤ length payload
    → n ≤ 1024
    → length buffer ≡ 1024
    → length (write_at 0 (take n payload) buffer) ≡ 1024
copied n payload buffer h k e =
    omega (arith, length-write_at 0 (take n payload) buffer, length-take n payload)

capped : (n : ℕ) → let m = if ltb 1024 n then 1024 else n in (m ≤ n) × (m ≤ 1024)
capped n = ground arith

pub queue_response-IsBounded :
    (cid command : ℕ) (payload : List ℕ) (i : Interface)
    → IsBounded i
    → IsBounded (queue_response cid command payload i)
unfolding queue_response
queue_response-IsBounded cid command payload i b = record {
  request_buffer = b.request_buffer;
  response_buffer =
      copied _ payload i.response_buffer (capped (length payload)).0 (capped (length payload)).1
        b.response_buffer;
  received = b.received;
  total = b.total;
  sent = omega arith;
  answer = (capped (length payload)).1;
}

pub queue_error-IsBounded :
    (cid error : ℕ) (i : Interface) → IsBounded i → IsBounded (queue_error cid error i)
queue_error-IsBounded cid error i b =
    unfold queue_error in queue_response-IsBounded cid 0x3f (error ∷ []) i b

clear_request-IsBounded : (i : Interface) → IsBounded i → IsBounded (clear_request_state i)
unfolding clear_request_state
clear_request-IsBounded i b = ground arith

answer-IsBounded :
    (index cid : ℕ) (payload : List ℕ) (answer : Option (List ℕ)) (i : Interface)
    → IsBounded i
    → IsBounded (cbor_answer index cid payload answer i)
unfolding cbor_answer
answer-IsBounded index cid payload none i b = queue_error-IsBounded cid 1 i b
answer-IsBounded index cid payload (some response) i b =
    grind (arith, queue_response-IsBounded, queue_error-IsBounded)

module _ {W : Type 0} (firmware : Firmware W) where
  init-IsBounded :
      (cid : ℕ) (payload : List ℕ) (i : Interface) (s : Shared W)
      → IsBounded i
      → IsBounded (handle_init firmware cid payload i s).0
  unfolding handle_init
  init-IsBounded cid payload i s b = grind (arith, queue_response-IsBounded, queue_error-IsBounded)

  cbor-IsBounded :
      (index cid : ℕ) (payload : List ℕ) (i : Interface) (s : Shared W)
      → IsBounded i
      → IsBounded (handle_cbor firmware index cid payload i s).0
  unfolding handle_cbor
  cbor-IsBounded index cid payload i s b = answer-IsBounded index cid payload _ i b

  diagnostics-IsBounded :
      (index cid : ℕ) (payload : List ℕ) (i : Interface) (s : Shared W)
      → IsBounded i
      → IsBounded (handle_diagnostics firmware index cid payload i s).0
  unfolding handle_diagnostics
  diagnostics-IsBounded index cid payload i s b =
      grind (arith, queue_response-IsBounded, queue_error-IsBounded)

  dispatch_request-IsBounded :
      (index cid command : ℕ) (payload : List ℕ) (i : Interface) (s : Shared W)
      → IsBounded i
      → IsBounded (dispatch_request firmware index cid command payload i s).0
  unfolding dispatch_request handle_ping
  dispatch_request-IsBounded index cid command payload i s b = ground (
    arith,
    init-IsBounded cid payload i s,
    cbor-IsBounded index cid payload i s,
    diagnostics-IsBounded index cid payload i s,
    queue_response-IsBounded cid 1 payload i,
    queue_error-IsBounded cid 1 i,
  )

  finish-IsBounded :
      (index cid command : ℕ) (i : Interface) (s : Shared W)
      → IsBounded i
      → IsBounded (finish firmware index cid command i s).0
  unfolding finish
  finish-IsBounded index cid command i s b =
      clear_request-IsBounded _ (dispatch_request-IsBounded index cid command _ i s b)

  -- The request buffer after a chunk of `n` bytes, from byte `at` of the report on.
  chunk-room :
      (at n where_to : ℕ) (report buffer : List ℕ)
      → length report ≡ 64
      → at + n ≤ 64
      → where_to + n ≤ 1024
      → length buffer ≡ 1024
      → length (write_at where_to (take n (drop at report)) buffer) ≡ 1024
  chunk-room at n where_to report buffer h k l e = omega (
    arith,
    length-write_at where_to (take n (drop at report)) buffer,
    length-take n (drop at report),
    length-drop at report,
  )

  continuation-IsBounded :
      (index : ℕ) (report : List ℕ) (i : Interface) (s : Shared W)
      → length report ≡ 64
      → IsBounded i
      → IsBounded (receive_continuation firmware index report i s).0
  unfolding receive_continuation
  continuation-IsBounded index report i s h b =
      let n = min_size (sub32 i.request_total_length i.request_received) 59 in
      let small : (n ≤ 59) × (i.request_received + n ≤ i.request_total_length) = ground arith in
      let i' : Interface = record i {
        request_next_seq = low_byte (i.request_next_seq + 1);
        request_buffer = write_at i.request_received (take n (drop 5 report)) i.request_buffer;
        request_received = i.request_received + n;
      } in
      let b' : IsBounded i' = record {
        request_buffer =
            chunk-room 5 n i.request_received report i.request_buffer h (omega arith) (omega arith)
              b.request_buffer;
        response_buffer = b.response_buffer;
        received = small.1;
        total = b.total;
        sent = b.sent;
        answer = b.answer;
      } in
      let error = queue_error-IsBounded (report_cid report) 4 i b in
      ground (
        arith,
        error,
        b',
        clear_request-IsBounded (queue_error (report_cid report) 4 i) error,
        finish-IsBounded index i.request_cid i.request_cmd i' s b',
      )

  initial-IsBounded :
      (index : ℕ) (report : List ℕ) (i : Interface) (s : Shared W)
      → length report ≡ 64
      → IsBounded i
      → IsBounded (receive_initial firmware index report i s).0
  unfolding receive_initial clear_request_state
  initial-IsBounded index report i s h b =
      let total = report_length report in
      let n = min_size total 57 in
      let small : (n ≤ 57) × (n ≤ total) = ground arith in
      let i' : Interface = record (clear_request_state i) {
        request_in_progress = true;
        request_cid = report_cid report;
        request_cmd = get_or report 4 0 % 2 ^ 7;
        request_total_length = total;
        request_received = n;
        request_buffer = write_at 0 (take n (drop 7 report)) i.request_buffer;
      } in
      let within : total ≤ 1024 → IsBounded i' = λ k. record {
        request_buffer =
            chunk-room 7 n 0 report i.request_buffer h (omega arith) (omega arith) b.request_buffer;
        response_buffer = b.response_buffer;
        received = small.1;
        total = k;
        sent = b.sent;
        answer = b.answer;
      } in
      ground (
        arith,
        within,
        clear_request-IsBounded _ (queue_error-IsBounded (report_cid report) 3 i b),
        clear_request-IsBounded _ (queue_error-IsBounded (report_cid report) 0x0b i b),
        λ (b' : IsBounded i'). finish-IsBounded index (report_cid report) i'.request_cmd i' s b',
      )

  receive-IsBounded :
      (index : ℕ) (report : List ℕ) (i : Interface) (s : Shared W)
      → IsBounded i
      → IsBounded (receive firmware index report i s).0
  unfolding receive
  receive-IsBounded index report i s b =
      ground (arith, continuation-IsBounded index report i s, initial-IsBounded index report i s)

pub send-IsBounded :
    (ready : Bool) (i : Interface) → IsBounded i → IsBounded (send_next_response_packet ready i).1
unfolding send_next_response_packet clear_response_state
send-IsBounded ready i b = ground arith

-- The copies of the packets to come, with the sizes that the code computes for them: what the next
-- packet takes out of the answer's buffer, and what the next continuation puts into the request's.
pub record CopiesInside (i : Interface) : Type 0 where
  pub read : i.response_sent + chunk_length i ≤ length i.response_buffer
  pub written :
      i.request_received + min_size (sub32 i.request_total_length i.request_received) 59
      ≤ length i.request_buffer

IsBounded-CopiesInside : (i : Interface) → IsBounded i → CopiesInside i
IsBounded-CopiesInside i b = ground arith

-- What is in a packet besides its padding fits in it.
pub length-padded : (content : List ℕ) → length content ≤ 64 → length (padded content) ≡ 64
length-padded content h = omega (
  arith,
  length-append content (replicate (64 - length content) 0),
  length-replicate (64 - length content) (let z : ℕ = 0 in z),
)

length-content : (i : Interface) → length (response_content i) ≤ 64
unfolding response_content
length-content i = ground (
  arith,
  length-take (min_size (sub32 i.response_length i.response_sent) 57)
      (drop i.response_sent i.response_buffer),
  length-take (min_size (sub32 i.response_length i.response_sent) 59)
      (drop i.response_sent i.response_buffer),
)

-- Every packet that is sent has 64 bytes.
send-packet_size :
    (ready : Bool) (i : Interface) (packet : List ℕ)
    → (send_next_response_packet ready i).0 ≡ some packet
    → length packet ≡ packet_size
unfolding send_next_response_packet
send-packet_size ready i packet e =
    ground (arith, length-padded (response_content i) (length-content i))

-- What happens at an interface: a report comes in, or the task looks for a packet to send.
pub data Event : Type 0 where
  report : List ℕ → Event
  poll : Bool → Event

module _ {W : Type 0} (firmware : Firmware W) (index : ℕ) where
  abbrev pub happens : Event → Interface × Shared W → Interface × Shared W
  happens (report r) (i, s) = receive firmware index r i s
  happens (poll ready) (i, s) = ((send_next_response_packet ready i).1, s)

  abbrev pub run : List Event → Interface × Shared W → Interface × Shared W
  run [] t = t
  run (e ∷ es) t = run es (happens e t)

  run-IsBounded_only :
      (es : List Event) (t : Interface × Shared W) → IsBounded t.0 → IsBounded (run es t).0
  run-IsBounded_only [] t b = b
  run-IsBounded_only (report r ∷ es) (i, s) b =
      run-IsBounded_only es (receive firmware index r i s)
        (receive-IsBounded firmware index r i s b)
  run-IsBounded_only (poll ready ∷ es) (i, s) b =
      run-IsBounded_only es ((send_next_response_packet ready i).1, s) (send-IsBounded ready i b)

  -- After every sequence of reports, of whatever content and size, and of packets sent, both buffers
  -- of an interface have their size and the counters stay within them; and the bytes that the next
  -- packet copies out of the answer, and those that a next continuation copies into the request, lie
  -- inside the buffers.
  pub run-IsBounded :
      (es : List Event) (t : Interface × Shared W)
      → IsBounded t.0
      → IsBounded (run es t).0 × CopiesInside (run es t).0
  run-IsBounded es t b =
      let after = run-IsBounded_only es t b in (after, IsBounded-CopiesInside (run es t).0 after)
