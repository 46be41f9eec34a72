-- ===== src/EvMgr/Commands.antt =====
-- RDMA/src/ev_mgr/check_point_thread.c: the commands that come on its socket. The two commands begin
-- with different letters, so a message is at most one of them.
use rdma_paxos.Prelude.{ℕ, ◌==◌, if◌then◌else◌, Bool, true, false, List, [], ◌∷◌, ◌++◌, ◌≡◌, arith}

-- `strncmp` with the length of the prefix is 0.
unfoldable pub starts_with : (prefix bytes : List ℕ) → Bool
starts_with [] bytes = true
starts_with (p ∷ ps) [] = false
starts_with (p ∷ ps) (b ∷ bs) = let rest = starts_with ps bs in if p == b then rest else false

abbrev pub unix_cmd_disconnect : List ℕ
unix_cmd_disconnect = b'd' ∷ b'i' ∷ b's' ∷ b'c' ∷ b'o' ∷ b'n' ∷ b'n' ∷ b'e' ∷ b'c' ∷ b't' ∷ []

abbrev pub unix_cmd_reconnect : List ℕ
unix_cmd_reconnect = b'r' ∷ b'e' ∷ b'c' ∷ b'o' ∷ b'n' ∷ b'n' ∷ b'e' ∷ b'c' ∷ b't' ∷ []

-- The functions that a new thread is started for.
pub data Command : Type 0 where
  call_disconnect_start call_reconnect_start : Command

-- `unix_read_cb`: the threads that are started, and whether the answer is OK. `created` says whether
-- `pthread_create` starts a thread.
unfoldable pub unix_read_cb : (created : Bool) → List ℕ → List Command × Bool
unix_read_cb created bytes =
    let dis = starts_with unix_cmd_disconnect bytes in
    let re = starts_with unix_cmd_reconnect bytes in
    (
      if created
          then (if dis then call_disconnect_start ∷ [] else [])
            ++ (if re then call_reconnect_start ∷ [] else [])
          else [],
      if re then created else if dis then created else true,
    )

-- A message that begins with the command to disconnect starts a thread for it and no other, and is
-- answered with OK just when the thread could be started.
pub unix_read_cb-disconnect :
    (created : Bool) (bytes : List ℕ)
    → starts_with unix_cmd_disconnect bytes ≡ true
    → unix_read_cb created bytes ≡ (if created then call_disconnect_start ∷ [] else [], created)
unfolding unix_read_cb starts_with
unix_read_cb-disconnect created [] e = ground (arith, e)
unix_read_cb-disconnect created (b ∷ bs) e = ground (arith, e)
