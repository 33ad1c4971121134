-- ===== src/Net/Addr.antt =====
-- crates/net/src/addr.rs: reserved radio addresses.
use tower.Prelude.{ℕ, Bool, not, ◌&&◌, ◌||◌, ◌==◌, u32_max}

abbrev pub addr_unassigned : ℕ
addr_unassigned = 0

abbrev pub addr_broadcast : ℕ
addr_broadcast = u32_max

unfoldable pub is_reserved_addr : ℕ → Bool
is_reserved_addr addr = addr == addr_unassigned || addr == addr_broadcast

unfoldable pub peer_addr_valid : ℕ → ℕ → Bool
unfolding is_reserved_addr
peer_addr_valid peer own = not (is_reserved_addr peer) && not (peer == own)
