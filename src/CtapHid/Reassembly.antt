-- ===== src/CtapHid/Reassembly.antt =====
-- The sender and the receiver of src/ctap_hid.c side by side: the packets of a queued response, and
-- an interface that takes them.
pub mod Receipt
pub mod Sender
pub mod Arrival
use meow_key.Prelude.{ℕ, zero, suc, ◌+◌, ◌-◌, ◌*◌, ◌/◌, ◌%◌, ◌^◌, ◌≤◌, ◌<◌, true, false}
use meow_key.Prelude.{
  List, [], ◌∷◌, ◌++◌, ◌≡◌, ◌≢◌, ◌⊎◌, inl, inr, refl, sym, ap, ◌∙◌, arith, none, some,
}
use meow_key.Prelude.{length, take, drop, take-append, take-add, length-take, length-drop}
use meow_key.Prelude.{
  if◌then◌else◌, leb, be32, low_byte, sub32, of_be32-be32, replicate, Bool-cases,
}
use meow_key.CtapHid.State.{
  Interface, write_at, length-write_at, take-write_at, clear_request_state,
}
use meow_key.CtapHid.State.{clear_response_state, min_size, broadcast_cid}
use meow_key.CtapHid.Dispatch.{Firmware, Shared, dispatch_request, cmd_init}
use meow_key.CtapHid.Bounds.{length-padded}
use meow_key.CtapHid.Frames.{receive, receive_initial, receive_continuation, finish, padded}
use meow_key.CtapHid.Frames.{response_content, send_next_response_packet}

-- The packets that `n` calls of the sender give while the endpoint is ready.
unfoldable pub packets : ℕ → Interface → List (List ℕ)
packets zero a = []
packets (suc n) a = elim (send_next_response_packet true a).0 [
  | none ↦ []
  | some packet ↦ packet ∷ packets n (send_next_response_packet true a).1
]

-- A response that is ready to be sent, of a command and on a channel that a request can have.
pub record Queued (a : Interface) : Type 0 where
  pub waiting : a.response_in_progress ≡ true
  pub command : a.response_cmd < 128
  pub channel : a.response_cid < 2 ^ 32
  pub addressed : (a.response_cid ≢ broadcast_cid) ⊎ (a.response_cmd ≡ cmd_init)
  pub fits : a.response_length ≤ 1024
  pub buffer : length a.response_buffer ≡ 1024

-- The part of an interface that receiving does not touch.
pub record SameAnswers (i j : Interface) : Type 0 where
  pub seen_init : j.seen_init ≡ i.seen_init
  pub seen_cbor : j.seen_cbor ≡ i.seen_cbor
  pub in_progress : j.response_in_progress ≡ i.response_in_progress
  pub cid : j.response_cid ≡ i.response_cid
  pub cmd : j.response_cmd ≡ i.response_cmd
  pub size : j.response_length ≡ i.response_length
  pub sent : j.response_sent ≡ i.response_sent
  pub seq : j.response_next_seq ≡ i.response_next_seq
  pub buffer : j.response_buffer ≡ i.response_buffer

-- The two kinds of packets, by what they carry.
abbrev pub first_packet : ℕ → ℕ → ℕ → List ℕ → List ℕ
first_packet cid command len chunk =
    padded (be32 cid ++ ((0x80 + command % 2 ^ 7) ∷ low_byte (len / 2 ^ 8) ∷ low_byte len ∷ chunk))

abbrev pub next_packet : ℕ → ℕ → List ℕ → List ℕ
next_packet cid seq chunk = padded (be32 cid ++ (seq ∷ chunk))

-- The request as the first packet leaves it.
abbrev pub begun : ℕ → ℕ → ℕ → ℕ → List ℕ → Interface → Interface
begun cid command len n chunk i = record (clear_request_state i) {
  request_in_progress = true;
  request_cid = cid;
  request_cmd = command;
  request_total_length = len;
  request_received = n;
  request_buffer = write_at 0 chunk i.request_buffer;
}

-- An interface takes packets one after the other.
abbrev pub receive_all :
    {W : Type 0} → Firmware W → ℕ → List (List ℕ) → Interface × Shared W → Interface × Shared W
receive_all firmware index [] t = t
receive_all firmware index (p ∷ ps) t =
    receive_all firmware index ps (receive firmware index p t.0 t.1)

-- The command is carried out on `payload`, and the request cleared.
abbrev pub delivered :
    {W : Type 0} → Firmware W → ℕ → ℕ → ℕ → List ℕ → Interface → Shared W → Interface × Shared W
delivered firmware index cid command payload i s =
    let r = dispatch_request firmware index cid command payload i s in
    (clear_request_state r.0, r.1)
