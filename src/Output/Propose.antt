-- ===== src/Output/Propose.antt =====
-- When the leader proposes a hash, and what is left of a connection that is closed.

use rdma_paxos.Prelude.{ℕ, ◌+◌, ◌%◌, ◌<◌, ◌≡◌, ◌≢◌, ◌∙◌, ◌↔◌, ap, sym, none, length, arith, pos}
use rdma_paxos.Output.Library.{OutputLib}
use rdma_paxos.Output.Handler.{OutputHandler, determine}
use rdma_paxos.Output.Manager.{
  OutputManager, max_fd_size, existing, determine_at, determine_output, del_output,
}
use rdma_paxos.Output.Stream.{IsHandler, values_of, view, view-new}
use rdma_paxos.Output.Calls.{
  empty_stream, handler_at, stream_at, IsManager, written, got_handler, handler-written,
  written-IsManager,
}

module _ (lib : OutputLib) (mgr : OutputManager lib) (fd : ℕ) where
  abbrev h : OutputHandler lib
  h = handler_at lib mgr fd

  determine_output_at :
      fd < max_fd_size
      → determine_output lib mgr fd ≡ ((determine lib h).0, written lib mgr fd (determine lib h).1)
  unfolding determine_output determine_at
  determine_output_at lt = rw (got_handler lib mgr fd lt)

  determine_state : (determine lib h).1 ≡ record h { called_cnt = h.called_cnt + 1 }
  unfolding determine
  determine_state = ground arith

  determine_value :
      (k : ℕ) → ((determine lib h).0 ≡ pos k) ↔ (((h.called_cnt + 1) % 10 ≡ 0) × (h.count ≡ k + 5))
  unfolding determine
  determine_value k = ground arith

  -- On a valid manager and a connection below the limit, `determine_output` proposes index `k`
  -- exactly at every tenth call for the connection when the connection has `k + 5` hashes; it counts
  -- the call, keeps every stream, and the manager stays valid.
  pub determine_output_lem :
      (k : ℕ)
      → IsManager lib mgr
      → fd < max_fd_size
      → let (index, after) = determine_output lib mgr fd in
        ((index ≡ pos k)
          ↔ (((h.called_cnt + 1) % 10 ≡ 0) × (length (stream_at lib mgr fd).hashes ≡ k + 5)))
        × ((handler_at lib after fd).called_cnt ≡ h.called_cnt + 1)
        × (stream_at lib after fd ≡ stream_at lib mgr fd)
        × IsManager lib after
  determine_output_lem k m lt = (
    rw (determine_output_at lt) (ground (arith, determine_value k, counts)),
    rw (determine_output_at lt) (ap (λ r. r.called_cnt) after),
    rw (determine_output_at lt) (ap (view lib) after),
    rw (determine_output_at lt)
        (written-IsManager lib mgr fd (determine lib h).1 m (rw determine_state (called v))),
  )
    where
      v : IsHandler lib h
      v = m.valid fd

      counts : h.count ≡ length (stream_at lib mgr fd).hashes
      counts = v.counted ∙ ap (λ o. length (values_of lib o)) (sym v.listed)

      after :
          handler_at lib (written lib mgr fd (determine lib h).1) fd
          ≡ record h { called_cnt = h.called_cnt + 1 }
      after = handler-written lib mgr fd (determine lib h).1 ∙ determine_state

      called : IsHandler lib h → IsHandler lib (record h { called_cnt = h.called_cnt + 1 })
      called w = record {
        room = w.room;
        size = w.size;
        list = w.list;
        listed = w.listed;
        counted = w.counted;
      }

  gone : fd < max_fd_size → (del_output lib mgr fd).1.fd_handler fd ≡ none
  unfolding del_output
  gone lt = ground arith

  -- Below the limit `del_output` returns 0, empties the stream of its connection and leaves every
  -- other handler.
  pub del_output_lem :
      (other : ℕ)
      → fd < max_fd_size
      → other ≢ fd
      → let (ret, after) = del_output lib mgr fd in
        (ret ≡ pos 0)
        × (stream_at lib after fd ≡ empty_stream)
        × (after.fd_handler other ≡ mgr.fd_handler other)
  unfolding del_output existing
  del_output_lem other lt ne = (
    ground arith,
    ap (λ o. view lib (existing lib fd o)) (gone lt) ∙ view-new lib fd,
    ground arith,
  )
