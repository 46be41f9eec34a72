-- ===== src/EvMgr/Hooks.antt =====
-- RDMA/src/spec_hooks.cpp: the interposed calls of libc, with the results of the real calls as
-- arguments. The manager is none while `ev_mgr` is null.

use rdma_paxos.Prelude.{
  ℕ, suc, ◌-◌, ◌^◌, if◌then◌else◌, Bool, List, [], Option, none, some, ℤ, pos, negsuc, is_positive,
}
use rdma_paxos.Log.{AcceptAck}
use rdma_paxos.Db.{BerkeleyDb}
use rdma_paxos.Output.Library.{OutputLib}
use rdma_paxos.EvMgr.Leader.{
  LeaderMgr, mgr_on_accept, mgr_on_close, mgr_on_recvfrom, server_side_on_read,
}
use rdma_paxos.EvMgr.Check.{Checked, mgr_on_check}

-- A `ssize_t` as a `size_t`.
abbrev pub size_of : ℤ → ℕ
size_of (pos n) = n
size_of (negsuc n) = 2 ^ 64 - suc n

module _ (bdb : BerkeleyDb) (lib : OutputLib) where
  abbrev pub Managed : Type 0
  Managed = Option (LeaderMgr bdb lib)

  -- `accept` and `accept4`
  unfoldable pub accept : (internal is_socket : Bool) → Managed → (ret : ℤ) → Managed
  accept internal is_socket none ret = none
  accept internal is_socket (some m) (negsuc k) = some m
  accept internal is_socket (some m) (pos fd) =
      if is_socket then some (mgr_on_accept bdb lib internal m fd) else some m

  unfoldable pub close : (internal is_socket : Bool) → Managed → (fildes : ℕ) → Managed
  close internal is_socket none fildes = none
  close internal is_socket (some m) fildes =
      if is_socket then some (mgr_on_close bdb lib internal m fildes) else some m

  -- `recv`, `read` and `recvmsg`; the outer none is the use of a null pointer.
  unfoldable pub read :
      (internal is_socket : Bool) → Managed → (fd : ℕ) → List ℕ → (ret : ℤ) → Option Managed
  read internal is_socket none fd buf ret = some none
  read internal is_socket (some m) fd buf ret =
      if is_positive ret
      then elim (server_side_on_read bdb lib internal is_socket m buf (size_of ret) fd) [
        | none ↦ none
        | some m' ↦ some (some m')
      ]
      else some (some m)

  -- `recvfrom`, which looks neither at the manager nor at the result.
  unfoldable pub recvfrom :
      (internal : Bool) → Managed → List ℕ → (sa_data : List ℕ) → (ret : ℤ) → Option Managed
  recvfrom internal none buf sa_data ret = none
  recvfrom internal (some m) buf sa_data ret =
      some (some (mgr_on_recvfrom bdb lib internal m buf (size_of ret) sa_data))

  -- `write` and `send`, with the acknowledgements of a proposal.
  unfoldable pub write :
      (internal is_socket : Bool)
      → Managed
      → (fd : ℕ) → List ℕ
      → (ret : ℤ) → (ℕ → AcceptAck)
      → (fp : Bool) → Option (Option (Checked bdb lib))
  write internal is_socket none fd buf ret ack fp = some none
  write internal is_socket (some m) fd buf ret ack fp =
      if is_positive ret
      then (if is_socket
          then elim (mgr_on_check bdb lib internal m fd buf ack fp) [
            | none ↦ none
            | some c ↦ some (some c)
          ]
          else some (some (record { mgr = m; commands = [] })))
      else some (some (record { mgr = m; commands = [] }))
