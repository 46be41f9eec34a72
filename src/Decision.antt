-- ===== src/Decision.antt =====
-- RDMA/src/output/decision.c: who is restored, given the output hash that each node reported. An
-- array of peers with its `group_size` is a list; a command to guard.py is the pair that is sent.
pub mod Majority
pub mod Restore
mod Tests
use rdma_paxos.Prelude.{
  ℕ, suc, ◌+◌, ◌/◌, Bool, true, false, ◌||◌, List, [], ◌∷◌, Option, none, some, ltb, leb, ◌==◌,
  if◌then◌else◌, length, ℤ, pos, minus_one,
}

-- `output_peer_t`
pub record OutputPeer : Type 0 where
  pub leader_id : ℕ
  pub node_id : ℕ
  pub hash : ℕ
  pub hash_index : ℤ
  pub fd : ℤ

-- The text "restore <node_id> <hash_index>" that goes to the guard socket.
pub record RestoreCmd : Type 0 where
  pub node_id : ℕ
  pub hash_index : ℤ

pub count_hash : List OutputPeer → ℕ → ℕ
count_hash [] aim_hash = 0
count_hash (p ∷ ps) aim_hash =
    let cnt = count_hash ps aim_hash in if p.hash == aim_hash then suc cnt else cnt

-- The loop of `major_count_hash` over the peers from index `i` on, with `max_cnt` and `*hash_ptr`.
pub major_loop : List OutputPeer → List OutputPeer → ℕ → ℕ → ℕ × ℕ
major_loop output_peers [] max_cnt hash = (max_cnt, hash)
major_loop output_peers (p ∷ rest) max_cnt hash =
    let ret = count_hash output_peers p.hash in
    let better = major_loop output_peers rest ret p.hash in
    let same = major_loop output_peers rest max_cnt hash in if ltb max_cnt ret then better else same

-- The count, and what is left in `*hash_ptr`, which is `hash` before.
pub major_count_hash : List OutputPeer → ℕ → ℕ × ℕ
major_count_hash output_peers hash = major_loop output_peers output_peers 0 hash

pub get_master_hash : List OutputPeer → ℕ
get_master_hash [] = 0
get_master_hash (p ∷ ps) = if p.leader_id == p.node_id then p.hash else get_master_hash ps

-- `send_restore_cmd` starts a thread that writes this command to the socket.
pub send_restore_cmd : ℕ → ℤ → RestoreCmd
send_restore_cmd node_id hash_index = record { node_id = node_id; hash_index = hash_index }

-- The commands that the loop of `do_restore` sends, in order.
pub restore_loop : List OutputPeer → ℕ → List RestoreCmd
restore_loop [] aim_hash = []
restore_loop (p ∷ ps) aim_hash =
    let rest = restore_loop ps aim_hash in
    if (0 == aim_hash) || (if p.hash == aim_hash then false else true)
    then send_restore_cmd p.node_id p.hash_index ∷ rest
    else rest

-- `none` is the null pointer.
pub do_restore : Option (List OutputPeer) → ℕ → ℤ × List RestoreCmd
do_restore none aim_hash = (minus_one, [])
do_restore (some []) aim_hash = (minus_one, [])
do_restore (some (p ∷ ps)) aim_hash = (pos 0, restore_loop (p ∷ ps) aim_hash)

pub count_zero : List OutputPeer → ℕ
count_zero [] = 0
count_zero (p ∷ ps) = let rest = count_zero ps in if 0 == p.hash then suc rest else rest

-- The decision for a group of `output_peers` with no null hash: D.0 to D.3.
pub decide_group : List OutputPeer → ℤ × List RestoreCmd
decide_group output_peers =
    let group_size = length output_peers in
    let threshold = group_size / 2 + 1 in
    let master_hash = get_master_hash output_peers in
    let con_num = count_hash output_peers master_hash in
    let (major_cnt, major_hash) = major_count_hash output_peers 0 in
    if con_num == group_size
    then (pos 0, [])
    else if leb threshold con_num
    then (pos 1, (do_restore (some output_peers) master_hash).1)
    else if leb threshold major_cnt
    then (pos 2, (do_restore (some output_peers) major_hash).1)
    else (pos 3, (do_restore (some output_peers) 0).1)

-- `fp` says whether the log file is open; the result comes with the commands that were sent.
pub do_decision : (fp : Bool) → Option (List OutputPeer) → ℤ × List RestoreCmd
do_decision fp none = (minus_one, [])
do_decision fp (some []) = (minus_one, [])
do_decision false (some (p ∷ ps)) = (minus_one, [])
do_decision true (some (p ∷ ps)) =
    if ltb 0 (count_zero (p ∷ ps)) then (pos 0, []) else decide_group (p ∷ ps)
