-- ===== src/Output/Manager.antt =====
-- `output_manager_t`, one handler for each connection, and the functions that output.h offers.
use rdma_paxos.Prelude.{
  ℕ, zero, suc, ◌+◌, List, [], ◌∷◌, Option, none, some, length, ltb, leb, if◌then◌else◌, ℤ, pos,
  negsuc, minus_one, Bool, true, update,
}
use rdma_paxos.Output.Library.{OutputLib}
use rdma_paxos.Output.Handler.{
  OutputHandler, new_output_handler, store_loop, determine, get_val_by_index,
}

abbrev pub max_fd_size : ℕ
max_fd_size = 65536

module _ (lib : OutputLib) where
  pub record OutputManager : Type 0 where
    pub fd_handler : ℕ → Option (OutputHandler lib)

  -- The manager after `get_output_mgr` has made it.
  unfoldable pub init_output_mgr : OutputManager
  init_output_mgr = record { fd_handler = λ fd. none }

  -- The handler that stands at `fd`, or a new one.
  unfoldable pub existing : ℕ → Option (OutputHandler lib) → OutputHandler lib
  existing fd none = new_output_handler lib fd
  existing fd (some h) = h

  -- `none` is the null pointer; the manager has a handler at `fd` afterwards.
  unfoldable pub get_output_handler_by_fd :
      OutputManager → ℕ → Option (OutputHandler lib) × OutputManager
  get_output_handler_by_fd mgr fd = if leb max_fd_size fd then (none, mgr) else (
    some (existing fd (mgr.fd_handler fd)),
    record { fd_handler = update mgr.fd_handler fd (some (existing fd (mgr.fd_handler fd))) },
  )

  -- A write through the pointer that `get_output_handler_by_fd` returned.
  unfoldable pub write_handler : OutputManager → ℕ → OutputHandler lib → OutputManager
  write_handler mgr fd h = record { fd_handler = update mgr.fd_handler fd (some h) }

  unfoldable pub store_at :
      OutputManager → ℕ → List ℕ → Option (OutputHandler lib) → Option (ℤ × OutputManager)
  store_at mgr fd buff none = some (minus_one, mgr)
  store_at mgr fd buff (some h) = elim (store_loop lib (suc (length buff)) h buff 0 0) [
    | none ↦ none
    | some r ↦ some (pos r.1, write_handler mgr fd r.0)
  ]

  -- The first `none` is a null `buff`; the result is `none` if the fuel runs out.
  unfoldable pub store_output : OutputManager → ℕ → Option (List ℕ) → Option (ℤ × OutputManager)
  store_output mgr fd none = some (pos 0, mgr)
  store_output mgr fd (some []) = some (pos 0, mgr)
  store_output mgr fd (some (b ∷ bs)) =
      let r = get_output_handler_by_fd mgr fd in store_at r.1 fd (b ∷ bs) r.0

  unfoldable pub determine_at : OutputManager → ℕ → Option (OutputHandler lib) → ℤ × OutputManager
  determine_at mgr fd none = (minus_one, mgr)
  determine_at mgr fd (some h) = let r = determine lib h in (r.0, write_handler mgr fd r.1)

  unfoldable pub determine_output : OutputManager → ℕ → ℤ × OutputManager
  determine_output mgr fd = let r = get_output_handler_by_fd mgr fd in determine_at r.1 fd r.0

  -- `hash_index < count`
  unfoldable pub below_count : ℤ → ℕ → Bool
  below_count (pos i) count = ltb i count
  below_count (negsuc i) count = true

  -- A list that is null here is dereferenced by the code; no handler that output.c makes has one.
  unfoldable pub hash_at : OutputHandler lib → Option (OutputLib.AdList lib) → ℤ → Option ℕ
  hash_at h none index = none
  hash_at h (some l) index =
      if below_count index h.count then get_val_by_index lib (suc h.count) l index else some 0

  unfoldable pub get_hash_at : Option (OutputHandler lib) → ℤ → Option ℕ
  get_hash_at none index = some 0
  get_hash_at (some h) index = hash_at h h.output_list index

  -- The value and the manager, which has a handler at `fd` afterwards.
  unfoldable pub get_output_hash : OutputManager → ℕ → ℤ → Option ℕ × OutputManager
  get_output_hash mgr fd hash_index =
      let r = get_output_handler_by_fd mgr fd in (get_hash_at r.0 hash_index, r.1)

  -- Both branches on the handler leave no handler at `fd`.
  unfoldable pub del_output : OutputManager → ℕ → ℤ × OutputManager
  del_output mgr fd =
      if leb max_fd_size fd
      then (minus_one, mgr)
      else (pos 0, record { fd_handler = update mgr.fd_handler fd none })

  -- `deinit_fd_handler`: how many handlers the loop from `i` on, with `n` rounds left, frees.
  unfoldable pub deinit_loop : ℕ → ℕ → OutputManager → ℕ × OutputManager
  deinit_loop zero i mgr = (0, mgr)
  deinit_loop (suc n) i mgr =
      let r = deinit_loop n (i + 1) (record { fd_handler = update mgr.fd_handler i none }) in
      elim (mgr.fd_handler i) [ none ↦ deinit_loop n (i + 1) mgr | some h ↦ (r.0 + 1, r.1) ]
