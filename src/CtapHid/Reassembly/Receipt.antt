-- ===== src/CtapHid/Reassembly/Receipt.antt =====
-- What `ctap_hid_handle_report` of src/ctap_hid.c does with one packet of the sender.
use meow_key.Prelude.{ℕ, ◌+◌, ◌-◌, ◌^◌, ◌≤◌, ◌<◌, true}
use meow_key.Prelude.{List, ◌∷◌, ◌++◌, ◌≡◌, ◌≢◌, ◌⊎◌, arith}
use meow_key.Prelude.{length, take-append}
use meow_key.Prelude.{if◌then◌else◌, leb, be32, low_byte, sub32, of_be32-be32, replicate}
use meow_key.CtapHid.State.{Interface, write_at}
use meow_key.CtapHid.State.{min_size, broadcast_cid}
use meow_key.CtapHid.Dispatch.{Firmware, Shared, cmd_init}
use meow_key.CtapHid.Bounds.{length-padded}
use meow_key.CtapHid.Frames.{receive, receive_initial, receive_continuation, finish}
use meow_key.CtapHid.Reassembly.{first_packet, next_packet, begun}

module _ {W : Type 0} (firmware : Firmware W) (index cid command len : ℕ) (s : Shared W) where
  pub receive_first :
      (n : ℕ) (chunk : List ℕ) (i : Interface)
      → cid < 2 ^ 32
      → command < 128
      → (cid ≢ broadcast_cid) ⊎ (command ≡ cmd_init)
      → len ≤ 1024
      → n ≡ min_size len 57
      → n ≡ length chunk
      → receive firmware index (first_packet cid command len chunk) i s ≡ (
          if leb len n
          then finish firmware index cid command (begun cid command len n chunk i) s
          else (begun cid command len n chunk i, s))
  unfolding receive receive_initial
  receive_first n chunk i hc hm ha hl hn e =
      let size : length (first_packet cid command len chunk) ≡ 64 =
        length-padded (be32 cid ++ (0 ∷ 0 ∷ 0 ∷ chunk)) (ground arith) in
      ground
        (arith, size, of_be32-be32 cid hc, take-append chunk (replicate (57 - length chunk) 0) n e)

  -- The request as one more packet leaves it.
  abbrev pub continued : ℕ → List ℕ → Interface → Interface
  continued n chunk i = record i {
    request_next_seq = low_byte (i.request_next_seq + 1);
    request_buffer = write_at i.request_received chunk i.request_buffer;
    request_received = i.request_received + n;
  }

  -- `i` has received the first `k` bytes of a request, in `seq` packets after the first.
  pub record Receiving (k seq : ℕ) (i : Interface) : Type 0 where
    pub under_way : i.request_in_progress ≡ true
    pub channel : i.request_cid ≡ cid
    pub order : i.request_cmd ≡ command
    pub total : i.request_total_length ≡ len
    pub received : i.request_received ≡ k
    pub expected : i.request_next_seq ≡ seq
    pub buffer : length i.request_buffer ≡ 1024

  pub receive_next :
      (k seq n : ℕ) (chunk : List ℕ) (i : Interface)
      → Receiving k seq i
      → cid < 2 ^ 32
      → seq < 128
      → len ≤ 1024
      → k ≤ len
      → n ≡ min_size (len - k) 59
      → n ≡ length chunk
      → receive firmware index (next_packet cid seq chunk) i s ≡ (
          if leb len (k + n)
          then finish firmware index cid command (continued n chunk i) s
          else (continued n chunk i, s))
  unfolding receive receive_continuation
  receive_next k seq n chunk i r hc hs hl hk hn e =
      let size : length (next_packet cid seq chunk) ≡ 64 =
        length-padded (be32 cid ++ (0 ∷ chunk)) (ground arith) in
      let room : sub32 i.request_total_length i.request_received ≡ len - k = omega arith in
      ground (
        arith,
        size,
        room,
        of_be32-be32 cid hc,
        take-append chunk (replicate (59 - length chunk) 0) n e,
      )
