-- ===== src/Lib.antt =====
-- The firmware of MeowKey, a FIDO2 security key on an RP2350.
--
-- A report from the host reaches the transport (src/ctap_hid.c), which puts messages together from
-- packets of 64 bytes and carries out the commands. A CBOR command goes to src/ctap2.c, and from
-- there to clientPIN (src/client_pin.c) and WebAuthn (src/webauthn.c), which read their parameters
-- and write their answers with src/cbor.c, ask for a touch of the button (src/user_presence.c), and
-- keep PIN and credentials in the store (src/credential_store.c).
--
-- The files, each under the name of the part that it models:
--   Prelude       numbers, words of 32 bits, bit operations, lists and tests shared by all.
--   Cbor          src/cbor.c. Reader and Writer have a function for each function of the source;
--                 the reader is a state monad over `Reader`, a write returns its `bool` and the
--                 writer. Item, Skip and RoundTrip relate the two; Reader/Rewind is about the
--                 recursion of `skip`.
--   UserPresence  src/user_presence.c. Service has the static variables and the configuration calls,
--                 which return the calls of the SDK in order, and Pins and Agrees say what those
--                 ask of the pins; Wait is the polling loop, a recursion
--                 over what its rounds read from clock and button.
--   CtapHid       src/ctap_hid.c. State has the interface's record and the response queue, Channels
--                 the allocation, Dispatch the commands, Frames the receipt of a report and the
--                 sending of a packet, Reassembly the receiver on the packets of the sender.
--   ClientPin     src/client_pin.c. Request is the parser, Crypto, Checks and Responses the helpers,
--                 Handlers the subcommands and the check of the token. `State` has the static
--                 variables and the PIN state that the store keeps. Retries and Token are about
--                 what requests can do.
--   Store         src/credential_store.c. Slot and Slots are the slots in memory and the operations
--                 on credentials, where the outcome of a commit is a flag; Search, Count, Steps,
--                 Refused and Added are about them. Payload, Flash and Image are what is kept and
--                 how; Machine is the commit and the journal of signature counts with the static
--                 variables and the flash as one state, Changes the calls that commit, Load the load
--                 after a reset. Durable says when variables and flash agree; Calls and Refinement
--                 are about sequences of calls, Powered is a flash whose power goes after a
--                 number of calls, PowerCut, Atomic and Rollback are about cuts of the power.
--   WebAuthn      src/webauthn.c. Entries, MakeRequest, GetRequest and Verified are the parsers, AuthData
--                 the bytes of the answers, Matching the collection of the credentials that match,
--                 Assertion the answer from one slot, Session and Assertions the handlers, on a state
--                 with the client PIN, the store, the queue and the confirmation that a retry of
--                 getAssertion may reuse; Confirmation and Pending look at it and at that queue by themselves.
--                 Ensures, Outcome and the files on what the parsers and handlers keep or find are
--                 about these.
--   Ctap2         src/ctap2.c: getInfo, the dispatch, and the states that commands lead to.
--   Tests         the theorems at concrete inputs.
--
-- Numbers are natural numbers, and a sum in `size_t` or `uint32_t` is taken modulo 2 ^ 32. Only
-- `skip` of the CBOR reader runs on fuel, which is the depth of its recursion; it goes one level down
-- for each level of the nesting of arrays and maps.
--
-- Parameters: the cryptography of mbedtls (`Primitives`), the random source, the clock and the
-- outcome of a commit to the flash (`Env`, and the flags of the store's operations), the flash with
-- its erasing and programming (`Nor`, with the laws `IsNor`), the memory's layout of structures
-- (`Device`, with the laws `IsDevice`; `image` for a parsed request), the readings of the button
-- (`Sample`), the statuses of the wait and of the response in an assertion (`Assertion`, and `respond`
-- in Pending), what a call of src/webauthn.c meets (`Call`: the clock, the status of the wait, the
-- outcome of a commit, mbedtls's pair of keys and the random bytes), the signature with a private key
-- (`sign`), and, for the transport, the rest of the firmware (`Firmware`).
--
-- Not modelled: the import of images of older firmware in src/credential_store.c, whose outcome is an
-- input of the load, and its build with the simulated secure element; the diagnostic texts and the
-- keepalive's timing in src/ctap_hid.c; the wiping of scratch buffers; src/manager_channel.c,
-- src/board_id.c, src/security_status.c and src/diagnostics.c; the probe firmware, the USB
-- descriptors and the start-up code, which drive hardware; and the desktop tools.
pub mod Prelude
pub mod Cbor
pub mod UserPresence
pub mod CtapHid
pub mod ClientPin
pub mod Store
pub mod WebAuthn
pub mod Ctap2
pub mod Tests
