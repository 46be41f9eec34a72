-- ===== src/Output/Agree.antt =====
-- Reading the hashes back, and why two nodes whose servers write the same bytes propose and confirm
-- the same hashes.

use rdma_paxos.Prelude.{
  ℕ, zero, suc, ◌+◌, ◌<◌, ◌≡◌, ◌∙◌, ap, sym, List, [], ◌∷◌, some, length, get_or, get_or_beyond,
  arith, ltb, Bool-cases, inl, inr, false, pos,
}
use rdma_paxos.Output.Library.{OutputLib}
use rdma_paxos.Output.Handler.{OutputHandler, index_loop, get_val_by_index, is_index}
use rdma_paxos.Output.Manager.{
  OutputManager, max_fd_size, init_output_mgr, get_output_handler_by_fd, below_count, hash_at,
  get_hash_at, get_output_hash,
}
use rdma_paxos.Output.Stream.{absorb_all, IsHandler, view}
use rdma_paxos.Output.Calls.{
  empty_stream, bytes_of, handler_at, stream_at, IsManager, init-IsManager, stream-init, store_all,
  store_all_lem, AllSmall,
}

module _ (lib : OutputLib) where
  open lib use {AdList, Iter, list_rewind, list_next, values, remaining, remaining-rewind}

  later : (cnt k : ℕ) → is_index (pos (cnt + suc k)) cnt ≡ false
  later cnt k = ground arith

  -- The walk from an iterator finds the value `k` places on, or 0.
  index_loop_lem :
      (fuel : ℕ) (it : Iter) (xs : List ℕ) (cnt k : ℕ)
      → remaining it ≡ xs
      → length xs < fuel
      → index_loop lib fuel it (pos (cnt + k)) cnt ≡ some (get_or xs k 0)
  unfolding index_loop
  index_loop_lem zero it xs cnt k e lt = absurd (omega arith)
  index_loop_lem (suc fuel) it [] cnt k e lt = rw (lib.next_end it e, index_loop)
  index_loop_lem (suc fuel) it (x ∷ xs) cnt zero e lt =
      let (it', p, q) = lib.next_value it x xs e in rw (p, index_loop) (ground arith)
  index_loop_lem (suc fuel) it (x ∷ xs) cnt (suc k) e lt =
      let (it', p, q) = lib.next_value it x xs e in
      rw (p, index_loop, later cnt k)
        (ap (λ j. index_loop lib fuel it' (pos j) (cnt + 1)) (omega arith)
          ∙ index_loop_lem fuel it' xs (cnt + 1) k q (omega arith))

  from_zero :
      (h : OutputHandler lib) (l : AdList) (i : ℕ)
      → index_loop lib (suc h.count) (list_rewind l) (pos i) 0
        ≡ index_loop lib (suc h.count) (list_rewind l) (pos (0 + i)) 0
  from_zero h l i = ap (λ j. index_loop lib (suc h.count) (list_rewind l) (pos j) 0) (omega arith)

  -- The hash that a handler reports for a place in its stream; 0 where there is none.
  get_hash_at_lem :
      (h : OutputHandler lib) (i : ℕ)
      → IsHandler lib h
      → get_hash_at lib (some h) (pos i) ≡ some (get_or (view lib h).hashes i 0)
  unfolding get_hash_at hash_at below_count get_val_by_index
  get_hash_at_lem h i v =
      rw (v.listed, hash_at)
        (elim (Bool-cases (ltb i h.count)) [
          | inl below ↦ rw below (
              (from_zero h v.list i
                ∙ index_loop_lem (suc h.count) (list_rewind v.list) (values v.list) 0 i
                    (remaining-rewind v.list) (omega (arith, v.counted))))
          | inr beyond ↦
              rw beyond
                (ap some (sym (get_or_beyond (values v.list) i 0 (ground (arith, v.counted)))))
        ])

  -- For a valid manager and a connection below the limit, `get_output_hash` at an index that is not
  -- negative returns that entry of the hashes of the connection's stream, and 0 past their end.
  pub get_output_hash_lem :
      (mgr : OutputManager lib) (fd i : ℕ)
      → IsManager lib mgr
      → fd < max_fd_size
      → (get_output_hash lib mgr fd (pos i)).0 ≡ some (get_or (stream_at lib mgr fd).hashes i 0)
  unfolding get_output_hash get_output_handler_by_fd
  get_output_hash_lem mgr fd i m lt =
      ground (arith, get_hash_at_lem (handler_at lib mgr fd) i (m.valid fd))

  -- Two nodes whose servers write the same bytes, split in any way into writes of fewer than
  -- 2 ^ 31 bytes each and on any descriptors below the limit, end with the same hash at every index; no call fails.
  pub hashes_agree :
      (fd fd' i : ℕ) (bs bs' : List (List ℕ))
      → fd < max_fd_size
      → fd' < max_fd_size
      → bytes_of bs ≡ bytes_of bs'
      → AllSmall lib bs
      → AllSmall lib bs'
      → (after after' : OutputManager lib) × (store_all lib (init_output_mgr lib) fd bs
          ≡ some after)
        × (store_all lib (init_output_mgr lib) fd' bs' ≡ some after')
        × ((get_output_hash lib after fd (pos i)).0 ≡ (get_output_hash lib after' fd' (pos i)).0)
  hashes_agree fd fd' i bs bs' lt lt' same small small' =
      let (a, e, m, s) =
        store_all_lem lib (init_output_mgr lib) fd bs (init-IsManager lib) lt small in
      let (a', e', m', s') =
        store_all_lem lib (init_output_mgr lib) fd' bs' (init-IsManager lib) lt' small' in
      (
        a,
        a',
        e,
        e',
        get_output_hash_lem a fd i m lt
            ∙ ap (λ t. some (get_or t.hashes i 0)) (s ∙ same_stream ∙ sym s')
            ∙ sym (get_output_hash_lem a' fd' i m' lt'),
      )
    where
      fresh : (k : ℕ) → stream_at lib (init_output_mgr lib) k ≡ empty_stream
      fresh = stream-init lib

      same_stream :
          absorb_all lib (stream_at lib (init_output_mgr lib) fd) (bytes_of bs)
          ≡ absorb_all lib (stream_at lib (init_output_mgr lib) fd') (bytes_of bs')
      same_stream =
          ap (λ t. absorb_all lib t (bytes_of bs)) (fresh fd ∙ sym (fresh fd'))
          ∙ ap (absorb_all lib (stream_at lib (init_output_mgr lib) fd')) same
