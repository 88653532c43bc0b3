-- ===== src/CtapHid/Reassembly/Sender.antt =====
-- The packets that `send_next_response_packet` of src/ctap_hid.c gives, one by one.
use meow_key.Prelude.{ℕ, zero, suc, ◌+◌, ◌-◌, ◌≤◌, ◌<◌, true, false}
use meow_key.Prelude.{List, [], ◌∷◌, ◌≡◌, refl, ap, ◌∙◌, arith}
use meow_key.Prelude.{take, drop}
use meow_key.Prelude.{if◌then◌else◌, leb, low_byte, sub32}
use meow_key.CtapHid.State.{Interface}
use meow_key.CtapHid.State.{clear_response_state, min_size}
use meow_key.CtapHid.Dispatch.{Firmware, Shared}
use meow_key.CtapHid.Frames.{receive}
use meow_key.CtapHid.Frames.{response_content, send_next_response_packet}
use meow_key.CtapHid.Reassembly.{packets, Queued, first_packet, next_packet, receive_all}

pub receive_all-cons :
    {W : Type 0} (firmware : Firmware W) (index : ℕ) (i : Interface) (s : Shared W)
    → (ps later : List (List ℕ)) (p : List ℕ) (t : Interface × Shared W) → ps ≡ p ∷ later
    → receive firmware index p i s ≡ t
    → receive_all firmware index ps (i, s) ≡ receive_all firmware index later t
receive_all-cons firmware index i s ps later p t e f =
    ap (λ (l : List (List ℕ)). receive_all firmware index l (i, s)) e
    ∙ ap (receive_all firmware index later) f

pub packets-idle : (n : ℕ) (a : Interface) → a.response_in_progress ≡ false → packets n a ≡ []
unfolding packets send_next_response_packet
packets-idle zero a e = refl
packets-idle (suc n) a e = ground arith

-- `a` has sent the first `k` bytes of its response, in `seq` packets after the first.
pub record Sending (cid len : ℕ) (b : List ℕ) (k seq : ℕ) (a : Interface) : Type 0 where
  pub under_way : a.response_in_progress ≡ true
  pub channel : a.response_cid ≡ cid
  pub size : a.response_length ≡ len
  pub sent : a.response_sent ≡ k
  pub next : a.response_next_seq ≡ seq
  pub buffer : a.response_buffer ≡ b

-- What is sent behind the first packet, and what is left to send.
abbrev pub advanced : ℕ → Interface → Interface
advanced n a = record a {
  response_next_seq = low_byte (a.response_next_seq + 1);
  response_sent = a.response_sent + n;
}

pub packets-next :
    (fuel cid len k seq n : ℕ) (b : List ℕ) (a : Interface)
    → Sending cid len b k seq a
    → 0 < k
    → k ≤ len
    → len ≤ 1024
    → n ≡ min_size (len - k) 59
    → packets (suc fuel) a
      ≡ next_packet cid seq (take n (drop k b))
        ∷ packets fuel
            (if leb len (k + n) then clear_response_state (advanced n a) else advanced n a)
unfolding packets send_next_response_packet response_content
packets-next fuel cid len k seq n b a h pos hk hl e =
    let room : sub32 a.response_length a.response_sent ≡ len - k = omega arith in
    ground (arith, room)

pub clear_response-idle : (a : Interface) → (clear_response_state a).response_in_progress ≡ false
unfolding clear_response_state
clear_response-idle a = refl

-- What is left to send behind the first packet.
abbrev pub started : ℕ → Interface → Interface
started n a = record a { response_sent = n }

pub packets-first :
    (fuel n : ℕ) (a : Interface)
    → Queued a
    → a.response_sent ≡ 0
    → n ≡ min_size a.response_length 57
    → packets (suc fuel) a
      ≡ first_packet a.response_cid a.response_cmd a.response_length (take n a.response_buffer)
        ∷ packets fuel
            (if leb a.response_length n then clear_response_state (started n a) else started n a)
unfolding packets send_next_response_packet response_content
packets-first fuel n a q zero_sent e =
    let h = q.fits in
    let room : sub32 a.response_length a.response_sent ≡ a.response_length = omega arith in
    ground (arith, room)
