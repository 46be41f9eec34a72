-- ===== src/Election/Sid.antt =====
-- The macros on the state identifier, [TERM|L|IDX], of RDMA/src/include/rdma/dare_server.h. The
-- bits that a setter joins do not overlap, so `|` is a sum; an index is below 256.
use rdma_paxos.Prelude.{ℕ, ◌+◌, ◌-◌, ◌*◌, ◌/◌, ◌%◌, u64, ◌==◌, if◌then◌else◌}

unfoldable pub sid_get_idx : ℕ → ℕ
sid_get_idx sid = sid % 256

unfoldable pub sid_set_idx : ℕ → ℕ → ℕ
sid_set_idx sid idx = idx + sid / 256 * 256

-- The L flag, as 0 or 1.
unfoldable pub sid_get_l : ℕ → ℕ
sid_get_l sid = sid / 256 % 2

unfoldable pub sid_set_l : ℕ → ℕ
unfolding sid_get_l
sid_set_l sid = if sid_get_l sid == 0 then sid + 256 else sid

unfoldable pub sid_unset_l : ℕ → ℕ
unfolding sid_get_l
sid_unset_l sid = if sid_get_l sid == 0 then sid else sid - 256

unfoldable pub sid_get_term : ℕ → ℕ
sid_get_term sid = sid / 512

unfoldable pub sid_set_term : ℕ → ℕ → ℕ
sid_set_term sid term = u64 (term * 512) + sid % 512
