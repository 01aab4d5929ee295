-- ===== src/Wire/Fragments.antt =====
-- How many fragments a message takes (`fragment_count_for` of wire_protocol.cpp).
use ipc_data_relay.Common.{ℕ, ◌-◌, ◌*◌, ◌≤◌, ◌<◌, arith}
use ipc_data_relay.Wire.{fragment_count_for}

-- With room for payload, the fragments hold the message, one fewer would not, and there is always
-- at least one.
pub fragment_count_for_bounds :
    (len chunk : ℕ)
    → 0 < chunk
    → let n = fragment_count_for len chunk in
      (1 ≤ n)
      × (len ≤ n * chunk)
      × (n < 2 → len ≤ chunk)
      × ((n - 1) * chunk ≤ len)
      × (1 < n → (n - 1) * chunk < len)
unfolding fragment_count_for
fragment_count_for_bounds len chunk h = grind arith
