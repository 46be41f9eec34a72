-- ===== src/Consensus/Offsets.antt =====
-- Where the leader puts an entry and where a replica looks for it.
use native.Mathlib.Omega.{arith}
use rdma_paxos.Prelude.{ℕ, ◌-◌, ◌≤◌, ◌<◌, ◌≡◌, ◌≢◌, ◌↔◌, sub64}
use rdma_paxos.Log.{
  DareLog, log_size, entry_header_size, is_log_empty, log_fit_entry_header, log_add_new_entry,
  log_get_entry,
}
use rdma_paxos.Consensus.Leader.{place_entry}

-- In a log of the size that `log_new` makes, with `end` in it, the leader sends an entry to the
-- offset at which a replica with the same `end` looks for it. The pointer that the leader fills and
-- reads acknowledgements through is at another offset exactly when between `end` and the end of the
-- log there is room, but not for the header of an entry.
pub place_entry-log_get_entry :
    (log : DareLog) (data_size : ℕ)
    → log.len ≡ log_size
    → log.end ≤ log.len
    → ((place_entry log data_size).tail ≡ log_get_entry log log.end)
      × ((log_add_new_entry log ≢ (place_entry log data_size).tail)
          ↔ ((0 < log.len - log.end) × (log.len - log.end < entry_header_size)))
unfolding place_entry log_get_entry log_add_new_entry log_fit_entry_header is_log_empty
place_entry-log_get_entry log data_size size le =
    (ground arith, ((λ apart. ground (arith, room, apart)), λ narrow. ground (arith, room, narrow)))
  where
    room : sub64 log.len log.end ≡ log.len - log.end
    room = omega (arith, size)
