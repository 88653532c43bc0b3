-- ===== src/Tests/CtapHid.antt =====
-- src/ctap_hid.c at concrete inputs.
use meow_key.Prelude.{ℕ, ◌≡◌, ◌≢◌, ◌+◌, true, false, List, [], ◌∷◌, ◌++◌, some, replicate, refl}
use meow_key.Prelude.{arith, take, inl}
use meow_key.CtapHid.State.{Interface, broadcast_cid}
use meow_key.CtapHid.Channels.{allocation, allocations_distinct}
use meow_key.CtapHid.Dispatch.{Firmware, Shared, no_keepalive}
use meow_key.CtapHid.Frames.{send_next_response_packet, padded, response_content}
use meow_key.CtapHid.Bounds.{CopiesInside, IsBounded, Event, report, poll, run, run-IsBounded}
use meow_key.CtapHid.Reassembly.{packets, Queued, SameAnswers, receive_all, delivered}
use meow_key.CtapHid.Reassembly.Arrival.{packets_arrive}

abbrev toy : Firmware ℕ
toy = record {
  debug_hid = false;
  cbor = λ request w. (some request, w + 1);
  diagnostics = λ request w. ([], w);
}

abbrev shared : Shared ℕ
shared = record { next_channel_id = 1; keepalive = no_keepalive; world = 0 }

abbrev idle : Interface
idle = record {
  seen_init = false;
  seen_cbor = false;
  request_in_progress = false;
  request_cid = 0;
  request_cmd = 0;
  request_total_length = 0;
  request_received = 0;
  request_next_seq = 0;
  request_buffer = replicate 1024 0;
  response_in_progress = false;
  response_cid = 0;
  response_cmd = 0;
  response_length = 0;
  response_sent = 0;
  response_next_seq = 0;
  response_buffer = replicate 1024 0;
}

-- A ping of 100 bytes on channel 5, queued.
abbrev pinging : Interface
pinging = record idle {
  response_in_progress = true;
  response_cid = 5;
  response_cmd = 1;
  response_length = 100;
}

pinging-Queued : Queued pinging
pinging-Queued = record {
  waiting = refl;
  command = omega arith;
  channel = omega arith;
  addressed = inl (omega arith);
  fits = omega arith;
  buffer = refl;
}

packets_arrive_example :
    (j : Interface) × SameAnswers idle j
    × (receive_all toy 0 (packets 18 pinging) (idle, shared)
        ≡ delivered toy 0 pinging.response_cid pinging.response_cmd
            (take pinging.response_length pinging.response_buffer)
            j
            shared)
packets_arrive_example =
    packets_arrive toy 0 shared 18 pinging idle pinging-Queued refl refl refl (omega arith)

idle-IsBounded : IsBounded idle
idle-IsBounded = record {
  request_buffer = refl;
  response_buffer = refl;
  received = omega arith;
  total = omega arith;
  sent = omega arith;
  answer = omega arith;
}

-- A report that starts a request of 1000 bytes, a stray one, and a look for a packet.
abbrev events : List Event
events =
    report ((0 ∷ 0 ∷ 0 ∷ 5 ∷ 0x81 ∷ 3 ∷ 0xe8 ∷ []) ++ replicate 57 1)
    ∷ report (replicate 64 2)
    ∷ poll true
    ∷ []

run-IsBounded_example :
    IsBounded (run toy 0 events (idle, shared)).0 × CopiesInside (run toy 0 events (idle, shared)).0
run-IsBounded_example = run-IsBounded toy 0 events (idle, shared) idle-IsBounded

sends : (send_next_response_packet true pinging).0 ≡ some (padded (response_content pinging))
unfolding send_next_response_packet
sends = refl

allocations_distinct_example :
    (allocation 0 1 ≢ allocation 5 1)
    × (allocation 0 1 ≢ 0)
    × (allocation 0 1 ≢ broadcast_cid)
    × (allocation 5 1 ≢ 0)
    × (allocation 5 1 ≢ broadcast_cid)
allocations_distinct_example =
    allocations_distinct 0 5 1 (omega arith) (omega arith) (omega arith) (omega arith)
