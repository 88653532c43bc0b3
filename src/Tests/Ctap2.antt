-- ===== src/Tests/Ctap2.antt =====
-- src/ctap2.c at concrete commands.
use meow_key.Prelude.{ℕ, true, List, [], ◌∷◌, Option, none, some, leb, if◌then◌else◌}
use meow_key.Prelude.{◌≡◌, refl, arith, replicate}
use meow_key.Cbor.Reader.{}
use meow_key.Cbor.Item.{encode}
use meow_key.ClientPin.State.{Env}
use meow_key.ClientPin.Responses.{Reply, failure}
use meow_key.Store.Slot.{blank, slot_is_valid}
use meow_key.Store.Slots.{valid_count}
use meow_key.WebAuthn.Pending.{pending_assertion_is_current}
use meow_key.WebAuthn.GetRequest.{GetRequest}
use meow_key.WebAuthn.Assertions.{next_assertion}
use meow_key.WebAuthn.Sound.{IsSound}
use meow_key.Ctap2.{build_get_info, answer, dispatch, ctap2_handle_cbor}
use meow_key.Ctap2.Info.{info, build_get_info-info}
use meow_key.Ctap2.Counted.{start, command, Reaches-IsSound}
use meow_key.Tests.Creation.{toy, fresh, call}

build_get_info-info_example :
    build_get_info 200 true
    ≡ (if leb 130 200 then (let r : Reply = (0, encode (info true)) in r) else failure 0x03)
build_get_info-info_example = build_get_info-info 200 true (omega arith)

abbrev env : Env
env = record { now_ms = 1500; random_token = replicate 32 9; keypair = none; commits = true }

abbrev no_sign : List ℕ → List ℕ → Option (List ℕ)
no_sign key hash = none

abbrev no_image : GetRequest → List ℕ
no_image r = []

fresh-IsSound : IsSound fresh
unfolding valid_count slot_is_valid blank
fresh-IsSound = record {
  store = record { counted = refl; small = omega arith };
  queue = record { all = refl; few = omega arith; inside = omega arith };
}

-- getNextAssertion, where nothing is queued.
refused :
    ctap2_handle_cbor toy no_sign no_image 4 call env (8 ∷ []) 400 fresh ≡ some (0x30 ∷ [], fresh)
unfolding ctap2_handle_cbor dispatch answer next_assertion pending_assertion_is_current
refused = refl

Reaches-IsSound_example : IsSound fresh
Reaches-IsSound_example =
    Reaches-IsSound toy no_sign no_image 4 fresh fresh fresh-IsSound
      (command call env (8 ∷ []) 400 (0x30 ∷ []) start refused)
