-- ===== src/Routing/Prefix.antt =====
-- src/routing/aggregator.rs, lines 295-315: the free functions on IPv4 networks. A network is the
-- `u32` of its address and its prefix length.
pub mod Blocks
pub mod Networks
use Prim.Native.Nat.{bit_and, bit_or}
use leshy.Prelude.{ℕ, ◌+◌, ◌-◌, Bool, eqb, if◌then◌else◌}
use leshy.Prelude.Word.{not32, bit32}

-- `!((1u32 << (32 - prefix_len)) - 1)`
abbrev pub mask : ℕ → ℕ
mask prefix_len = not32 (bit32 (32 - prefix_len) - 1)

unfoldable pub network_address : ℕ → ℕ → ℕ
network_address ip prefix_len = if eqb prefix_len 0 then 0 else bit_and ip (mask prefix_len)

unfoldable pub split_network : ℕ → ℕ → ℕ × ℕ
split_network net prefix_len =
    let child_prefix = prefix_len + 1 in
    let right = bit_or net (bit32 (32 - child_prefix)) in (net, right)

unfoldable pub ip_in_network : ℕ → ℕ → ℕ → Bool
unfolding network_address
ip_in_network ip network prefix_len = eqb (network_address ip prefix_len) network
