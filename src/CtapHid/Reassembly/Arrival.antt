-- ===== src/CtapHid/Reassembly/Arrival.antt =====
-- The receiver of src/ctap_hid.c on all packets of its sender.
use meow_key.Prelude.{ℕ, zero, suc, ◌+◌, ◌-◌, ◌*◌, ◌^◌, ◌≤◌, ◌<◌}
use meow_key.Prelude.{List, ◌++◌, ◌≡◌, inl, inr, refl, sym, ap, ◌∙◌, arith}
use meow_key.Prelude.{length, take, drop, take-add, length-take, length-drop}
use meow_key.Prelude.{leb, Bool-cases}
use meow_key.CtapHid.State.{
  Interface, write_at, length-write_at, take-write_at, clear_request_state,
}
use meow_key.CtapHid.State.{clear_response_state, min_size}
use meow_key.CtapHid.Dispatch.{Firmware, Shared}
use meow_key.CtapHid.Frames.{finish}
use meow_key.CtapHid.Reassembly.{packets, Queued, SameAnswers, begun, receive_all, delivered}
use meow_key.CtapHid.Reassembly.Receipt.{Receiving, receive_first, continued, receive_next}
use meow_key.CtapHid.Reassembly.Sender.{
  receive_all-cons, packets-idle, Sending, advanced, packets-next, clear_response-idle, started,
  packets-first,
}

module _ {W : Type 0} (firmware : Firmware W) (index cid command len : ℕ) (s : Shared W)
    (b : List ℕ) where
  -- The request is carried out on the first `len` bytes of `b`, by an interface whose answers are
  -- those of `i`.
  Arrives : Interface → Interface × Shared W → Type 0
  Arrives i t =
      (j : Interface) × SameAnswers i j
      × (t ≡ delivered firmware index cid command (take len b) j s)

  finish-Arrives :
      (i j : Interface)
      → SameAnswers i j
      → j.request_total_length ≡ len
      → take len j.request_buffer ≡ take len b
      → Arrives i (finish firmware index cid command j s)
  unfolding Arrives finish
  finish-Arrives i j same e p = (
    j,
    same,
    ap (λ (l : List ℕ). delivered firmware index cid command l j s)
        (ap (λ (m : ℕ). take m j.request_buffer) e ∙ p),
  )

  module _ (hb : length b ≡ 1024) (hc : cid < 2 ^ 32) (hl : len ≤ 1024) where
    -- One more chunk of `b` in the request's buffer.
    chunk_lem :
        (k n : ℕ) (buffer : List ℕ)
        → k + n ≤ 1024
        → length buffer ≡ 1024
        → take k buffer ≡ take k b
        → let chunk = take n (drop k b) in
          (length chunk ≡ n)
          × (length (write_at k chunk buffer) ≡ 1024)
          × (take (k + n) (write_at k chunk buffer) ≡ take (k + n) b)
    chunk_lem k n buffer h e p =
        let chunk = take n (drop k b) in
        let size : length chunk ≡ n = omega (arith, length-take n (drop k b), length-drop k b) in
        (
          size,
          omega (arith, size, length-write_at k chunk buffer),
          take-write_at k (k + n) chunk buffer (omega arith) (omega arith)
              ∙ ap (λ (l : List ℕ). l ++ chunk) p
              ∙ sym (take-add k n b),
        )

    continued_lem :
        (k seq n : ℕ) (i : Interface)
        → Receiving firmware index cid command len s k seq i
        → take k i.request_buffer ≡ take k b
        → k + n ≤ 1024
        → seq < 128
        → let chunk = take n (drop k b) in
          let i' = continued firmware index cid command len s n chunk i in
          SameAnswers i i'
          × Receiving firmware index cid command len s (k + n) (seq + 1) i'
          × (take (k + n) i'.request_buffer ≡ take (k + n) b)
    continued_lem k seq n i r p h small =
        let (size, fits, prefix) = chunk_lem k n i.request_buffer h r.buffer p in
        (
          ground arith,
          record {
            under_way = r.under_way;
            channel = r.channel;
            order = r.order;
            total = r.total;
            received = omega (arith, r.received);
            expected = omega (arith, r.expected);
            buffer =
                ap (λ (m : ℕ). length (write_at m (take n (drop k b)) i.request_buffer)) r.received
                ∙ fits;
          },
          ap (λ (m : ℕ). take (k + n) (write_at m (take n (drop k b)) i.request_buffer)) r.received
              ∙ prefix,
        )

    advanced_lem :
        (k seq n : ℕ) (a : Interface)
        → Sending cid len b k seq a
        → seq < 128
        → Sending cid len b (k + n) (seq + 1) (advanced n a)
    advanced_lem k seq n a h small = ground arith

    Arrives-trans :
        (i j : Interface) (t : Interface × Shared W) → SameAnswers i j → Arrives j t → Arrives i t
    unfolding Arrives
    Arrives-trans i j t p (m, q, e) = (m, ground arith, e)

    rest-Arrives :
        (fuel k seq : ℕ) (a i : Interface)
        → Sending cid len b k seq a
        → Receiving firmware index cid command len s k seq i
        → take k i.request_buffer ≡ take k b
        → k < len
        → k ≡ 57 + 59 * seq
        → len ≤ k + 59 * fuel
        → Arrives i (receive_all firmware index (packets fuel a) (i, s))
    rest-Arrives zero k seq a i hs hr p hk he hf = absurd (omega arith)
    rest-Arrives (suc fuel) k seq a i hs hr p hk he hf =
        let n = min_size (len - k) 59 in
        let small : (k + n ≤ len) × (seq < 128) = ground arith in
        let (same, after, prefix) = continued_lem k seq n i hr p (omega arith) small.1 in
        let (size, fits, joined) = chunk_lem k n i.request_buffer (omega arith) hr.buffer p in
        let e1 = packets-next fuel cid len k seq n b a hs (omega arith) (omega arith) hl refl in
        let e2 =
          receive_next firmware index cid command len s k seq n (take n (drop k b)) i hr hc small.1
            hl (omega arith) refl (sym size) in
        let e = receive_all-cons firmware index i s _ _ _ _ e1 e2 in
        elim (Bool-cases (leb len (k + n))) [
          | inl t ↦
              let idle =
                packets-idle fuel (clear_response_state (advanced n a))
                  (clear_response-idle (advanced n a)) in
              let all : k + n ≡ len = ground arith in
              rw (e, t, idle) (finish-Arrives i _ same after.total (rw all at prefix))
          | inr f ↦
              let full : n ≡ 59 = ground arith in
              rw (e, f)
                (Arrives-trans i _ _ same (
                  rest-Arrives fuel (k + n) (seq + 1) (advanced n a)
                    (continued firmware index cid command len s n (take n (drop k b)) i)
                    (advanced_lem k seq n a hs small.1) after prefix (ground arith) (omega arith)
                    (omega arith)))
        ]

module _ {W : Type 0} (firmware : Firmware W) (index : ℕ) (s : Shared W) where
  arrives_lem :
      (fuel : ℕ) (a i : Interface)
      → Queued a
      → a.response_sent ≡ 0
      → a.response_next_seq ≡ 0
      → length i.request_buffer ≡ 1024
      → 18 ≤ fuel
      → Arrives firmware index a.response_cid a.response_cmd a.response_length s a.response_buffer i
          (receive_all firmware index (packets fuel a) (i, s))
  arrives_lem zero a i q z w hb hf = absurd (omega arith)
  arrives_lem (suc fuel) a i q z w hb hf =
      let cid = a.response_cid in
      let command = a.response_cmd in
      let len = a.response_length in
      let b = a.response_buffer in
      let fits = q.fits in
      let n = min_size len 57 in
      let small : (n ≤ 57) × (n ≤ len) = ground arith in
      let size : length (take n b) ≡ n = omega (arith, length-take n b, q.buffer) in
      let held = length-write_at 0 (take n b) i.request_buffer (omega arith) in
      let prefix : take n (write_at 0 (take n b) i.request_buffer) ≡ take n b =
        take-write_at 0 n (take n b) i.request_buffer (omega arith) (omega arith) in
      let e1 = packets-first fuel n a q z refl in
      let e2 =
        receive_first firmware index cid command len s n (take n b) i q.channel q.command
          q.addressed fits refl (sym size) in
      let e = receive_all-cons firmware index i s _ _ _ _ e1 e2 in
      let same : SameAnswers i (begun cid command len n (take n b) i) =
        unfold clear_request_state in ground arith in
      elim (Bool-cases (leb len n)) [
        | inl t ↦
            let idle =
              packets-idle fuel (clear_response_state (started n a))
                (clear_response-idle (started n a)) in
            let all : n ≡ len = ground arith in
            rw (e, t, idle)
              (finish-Arrives firmware index cid command len s b i _ same refl (
                ap (λ (m : ℕ). take m (write_at 0 (take n b) i.request_buffer)) (sym all)
                ∙ prefix
                ∙ ap (λ (m : ℕ). take m b) all))
        | inr f ↦
            let full : n ≡ 57 = ground arith in
            rw (e, f)
              (Arrives-trans firmware index cid command len s b q.buffer q.channel fits i _ _ same (
                rest-Arrives firmware index cid command len s b q.buffer q.channel fits fuel n 0
                  (started n a) (begun cid command len n (take n b) i)
                  (record {
                    under_way = q.waiting;
                    channel = refl;
                    size = refl;
                    sent = refl;
                    next = w;
                    buffer = refl;
                  })
                  (unfold clear_request_state in
                    record {
                      under_way = refl;
                      channel = refl;
                      order = refl;
                      total = refl;
                      received = refl;
                      expected = refl;
                      buffer = omega arith;
                    })
                  prefix (ground arith) (omega arith) (omega arith)))
      ]

  -- Any message of at most 1024 bytes that one interface has queued, on a channel and with a command
  -- of a request, arrives at another interface in whatever state that one is: after the packets that
  -- the sender gives, the command has been carried out on exactly the bytes of the message, once,
  -- and no request is under way.
  pub packets_arrive :
      (fuel : ℕ) (a i : Interface)
      → Queued a
      → a.response_sent ≡ 0
      → a.response_next_seq ≡ 0
      → length i.request_buffer ≡ 1024
      → 18 ≤ fuel
      → (j : Interface) × SameAnswers i j
        × (receive_all firmware index (packets fuel a) (i, s)
            ≡ delivered firmware index a.response_cid a.response_cmd
                (take a.response_length a.response_buffer)
                j
                s)
  unfolding Arrives
  packets_arrive fuel a i q z w hb hf = arrives_lem fuel a i q z w hb hf
