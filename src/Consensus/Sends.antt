-- ===== src/Consensus/Sends.antt =====
-- To whom the leader writes an entry.
use native.Mathlib.Omega.{arith}
use rdma_paxos.Prelude.{
  ℕ, zero, suc, ◌+◌, ◌≡◌, ◌∙◌, ap, refl, ◌==◌, ltb, if◌then◌else◌, Bool, ◌&&◌, not, ◌%◌, List, [],
  ◌∷◌, ◌++◌, Bool-cases, inl, inr, u32, u64,
}
use rdma_paxos.ViewStamp.{ViewStamp}
use rdma_paxos.Log.{DareLog, entries_offset, entry_header_size, log_entry_len, log_add_new_entry}
use rdma_paxos.Consensus.Types.{ConsensusComponent, ServerData, Send, send_to, count_send}
use rdma_paxos.Consensus.Leader.{skipped, send_list, count_sends, place_entry, reserve}

-- The writes to the server `k`.
abbrev pub to_peer : ℕ → List Send → List Send
to_peer k [] = []
to_peer k (s ∷ more) = if s.server_id == k then s ∷ to_peer k more else to_peer k more

to_peer-append : (k : ℕ) (xs ys : List Send) → to_peer k (xs ++ ys) ≡ to_peer k xs ++ to_peer k ys
to_peer-append k [] ys = refl
to_peer-append k (s ∷ more) ys = ground (arith, to_peer-append k more ys)

-- The server `k` is one of the first `n`, another one, and connected.
abbrev pub is_peer : ServerData → ℕ → ℕ → Bool
is_peer srv n k = ltb k n && (not (k == srv.idx) && not ((srv.servers k).rc_connected == 0))

send_list-to_peer :
    (n : ℕ) (srv : ServerData) (len offset k : ℕ)
    → to_peer k (send_list n srv len offset)
      ≡ (if is_peer srv n k then send_to k len offset (srv.servers k) ∷ [] else [])
unfolding send_list send_to
send_list-to_peer zero srv len offset k = ground arith
send_list-to_peer (suc n) srv len offset k = elim (Bool-cases (skipped srv n)) [
  | inl skip ↦ rw (skip, send_list) (ground (arith, skip, send_list-to_peer n srv len offset k))
  | inr sends ↦
      rw (sends, send_list)
        (to_peer-append k (send_list n srv len offset) (send_to n len offset (srv.servers n) ∷ [])
          ∙ ground (arith, sends, send_list-to_peer n srv len offset k))
]

count_sends-is_peer :
    (n : ℕ) (srv : ServerData) (k : ℕ)
    → count_sends n srv k ≡ (if is_peer srv n k then count_send (srv.servers k) else srv.servers k)
unfolding count_sends
count_sends-is_peer n srv k = elim (Bool-cases (ltb k n)) [
  | inl inside ↦ elim (Bool-cases (k == srv.idx)) [
    | inl own ↦ rw (inside, own, count_sends) refl
    | inr other ↦ elim (Bool-cases ((srv.servers k).rc_connected == 0)) [
      | inl off ↦ rw (inside, other, off, count_sends) refl
      | inr on ↦ rw (inside, other, on, count_sends) refl
    ]
  ]
  | inr outside ↦ rw (outside, count_sends) refl
]

placed-len :
    (log : DareLog) (data_size : ℕ)
    → log_entry_len ((place_entry log data_size).entries (log_add_new_entry log))
      ≡ u32 (entry_header_size + u64 (data_size + 1))
unfolding place_entry log_entry_len
placed-len log data_size = ground arith

-- Of the servers of its group the leader writes to every other one that is connected, once, and to
-- no one else: the whole entry, to the place of the entry in the log of that server. The write is
-- signaled if 4096 divides the counter of its endpoint, and waited for if the rest is 4095. The
-- counters of just these endpoints go up by one, modulo 2 ^ 32, and nothing else of them changes.
pub reserve-sends :
    (comp : ConsensusComponent) (srv : ServerData) (data_size type : ℕ) (clt_id : ViewStamp) (k : ℕ)
    → let (r, comp', srv') = reserve comp srv data_size type clt_id in
      (to_peer k r.sends ≡ (
        if is_peer srv comp.group_size k
        then record {
          server_id = k;
          len = u32 (entry_header_size + u64 (data_size + 1));
          raddr = (srv.servers k).raddr + u32 (entries_offset + srv'.log.tail);
          rkey = (srv.servers k).rkey;
          signaled = (srv.servers k).send_count % 4096 == 0;
          poll_completion = (srv.servers k).send_count % 4096 == 4095;
        }
          ∷ []
        else []))
      × (srv'.servers k ≡ (
          if is_peer srv comp.group_size k
          then record (srv.servers k) { send_count = u32 ((srv.servers k).send_count + 1) }
          else srv.servers k))
unfolding reserve send_to count_send
reserve-sends comp srv data_size type clt_id k = (
  send_list-to_peer comp.group_size srv _ _ k
      ∙ ap
          (λ len.
            if is_peer srv comp.group_size k
            then send_to k len (u32 (entries_offset + (place_entry srv.log data_size).tail))
                (srv.servers k)
              ∷ []
            else [])
          (placed-len srv.log data_size),
  count_sends-is_peer comp.group_size srv k,
)
