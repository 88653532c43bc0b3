-- ===== src/CtapHid/Channels.antt =====
-- `allocate_channel` of src/ctap_hid.c.
use meow_key.Prelude.{ℕ, zero, suc, ◌+◌, ◌-◌, ◌%◌, ◌^◌, ◌≤◌, ◌<◌, ◌||◌, ◌≡◌, ◌≢◌, arith}
use meow_key.Prelude.{◌==◌, if◌then◌else◌, add32}
use meow_key.CtapHid.State.{broadcast_cid}

-- The channel and the new `s_next_channel_id`.
unfoldable pub allocate_channel : ℕ → ℕ × ℕ
allocate_channel next =
    if next == 0 || next == broadcast_cid then (1, add32 1 1) else (next, add32 next 1)

-- The channel of the k-th allocation from now on, counting from 0.
unfoldable pub allocation : ℕ → ℕ → ℕ
unfolding allocate_channel
allocation zero next = (allocate_channel next).0
allocation (suc k) next = allocation k (allocate_channel next).1

-- From a counter between 1 and 2 ^ 32 - 1, the channels come round in a cycle of 2 ^ 32 - 2, which leaves out 0 and the broadcast channel.
allocation_cycle :
    (k next : ℕ) → 1 ≤ next → next < 2 ^ 32 → allocation k next ≡ 1 + (next - 1 + k) % (2 ^ 32 - 2)
unfolding allocation allocate_channel
allocation_cycle zero next lo hi = ground arith
allocation_cycle (suc k) next lo hi =
    ground (arith, allocation_cycle k (next + 1), allocation_cycle k 2)

-- From a counter between 1 and 2 ^ 32 - 1, no two of any 2 ^ 32 - 2 allocations in a row give the same
-- channel, and none, the first one included, gives 0 or the broadcast channel.
pub allocations_distinct :
    (j k next : ℕ)
    → 1 ≤ next
    → next < 2 ^ 32
    → j < k
    → k < 2 ^ 32 - 2
    → (allocation j next ≢ allocation k next)
      × (allocation j next ≢ 0)
      × (allocation j next ≢ broadcast_cid)
      × (allocation k next ≢ 0)
      × (allocation k next ≢ broadcast_cid)
allocations_distinct j k next lo hi h small =
    omega (arith, allocation_cycle j next lo hi, allocation_cycle k next lo hi)
