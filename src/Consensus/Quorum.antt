-- ===== src/Consensus/Quorum.antt =====
-- The acknowledgements that the leader counts. `bit_map | (1 << id)` sets bit `id`; the shift is
-- done in `int`, so an id is below 31.
use rdma_paxos.Prelude.{
  ℕ, zero, suc, ◌+◌, ◌/◌, ◌%◌, ◌^◌, bit_or, Bool, ◌&&◌, ◌==◌, leb, if◌then◌else◌,
}
use rdma_paxos.ViewStamp.{ViewStamp}
use rdma_paxos.Log.{AcceptAck, max_server_count}

-- `__builtin_popcountl` over the lowest `w` bits.
unfoldable pub popcount : ℕ → ℕ → ℕ
popcount zero n = 0
popcount (suc w) n = n % 2 + popcount w (n / 2)

unfoldable pub reached_quorum : ℕ → ℕ → Bool
reached_quorum bit_map group_size = leb (group_size / 2 + 1) (popcount 64 bit_map)

-- The acknowledgement is one of the entry with the stamp `next`.
unfoldable pub acks : ViewStamp → AcceptAck → Bool
acks next a = a.msg_vs.view_id == next.view_id && a.msg_vs.req_id == next.req_id

-- The first `n` rounds of the loop at `recheck`.
unfoldable pub recheck_loop : ℕ → ViewStamp → (ℕ → AcceptAck) → ℕ → ℕ
recheck_loop zero next ack bit_map = bit_map
recheck_loop (suc n) next ack bit_map =
    let before = recheck_loop n next ack bit_map in
    if acks next (ack n) then bit_or before (2 ^ (ack n).node_id) else before

-- One pass over all the acknowledgement slots of the entry.
unfoldable pub recheck : ViewStamp → (ℕ → AcceptAck) → ℕ → ℕ
recheck next ack bit_map = recheck_loop max_server_count next ack bit_map
