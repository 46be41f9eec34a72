-- ===== src/Consensus/Reached.antt =====
-- The write of the leader that reaches one replica, and the connection that stays.
use native.Mathlib.Omega.{arith}
use rdma_paxos.Prelude.{
  ℕ, ◌+◌, ◌≡◌, ◌∙◌, refl, ap, ◌==◌, ==_refl, Bool, true, false, ◌&&◌, ◌||◌, not, ltb, List, [], ◌∷◌,
  Option, Bool-cases, inl, inr, u32,
}
use rdma_paxos.ViewStamp.{ViewStamp}
use rdma_paxos.Log.{entries_offset}
use rdma_paxos.Db.{BerkeleyDb, store_record}
use rdma_paxos.Consensus.Types.{ConsensusComponent, ServerData, Send}
use rdma_paxos.Consensus.Leader.{Reserved, reserve, fill_entry, record_of, submit_entry}
use rdma_paxos.Consensus.Sends.{to_peer, is_peer, reserve-sends}

-- One of the writes is to this address.
abbrev pub reaches : (raddr : ℕ) → List Send → Bool
reaches raddr [] = false
reaches raddr (w ∷ more) = w.raddr == raddr || reaches raddr more

-- One of the posted writes is to the server `k` and to the place of the entry in its log.
abbrev pub is_sent : ServerData → ℕ → Reserved × ConsensusComponent × ServerData → Bool
is_sent srv k (r, comp', srv') =
    reaches ((srv.servers k).raddr + u32 (entries_offset + srv'.log.tail)) (to_peer k r.sends)

module _ (comp : ConsensusComponent) (srv : ServerData) (data_size type : ℕ) (clt_id : ViewStamp)
    (k : ℕ) (peer : is_peer srv comp.group_size k ≡ true) where
  pub reserve-is_sent : is_sent srv k (reserve comp srv data_size type clt_id) ≡ true
  reserve-is_sent =
      let sent = (reserve-sends comp srv data_size type clt_id k).0 in
      let at =
        (srv.servers k).raddr
        + u32 (entries_offset + (reserve comp srv data_size type clt_id).2.log.tail) in
      rw (sent, peer) (ground (arith, ==_refl at))

  pub reserve-is_peer :
      let (r, comp', srv') = reserve comp srv data_size type clt_id in
      is_peer srv' comp'.group_size k ≡ true
  unfolding reserve
  reserve-is_peer =
      let counted = (reserve-sends comp srv data_size type clt_id k).1 in
      let kept : ((reserve comp srv data_size type clt_id).2.servers k).rc_connected
          ≡ (srv.servers k).rc_connected =
        rw (counted, peer) refl in
      ap (λ c. ltb k comp.group_size && (not (k == srv.idx) && not (c == 0))) kept ∙ peer

pub submit_entry-is_peer :
    (bdb : BerkeleyDb) (comp : ConsensusComponent) (srv : ServerData)
    (db : Option (BerkeleyDb.Handle bdb)) (r : Reserved) (type : ℕ) (payload : Option (List ℕ))
    (n k : ℕ)
    → is_peer (submit_entry bdb comp srv db r type payload).1 n k ≡ is_peer srv n k
unfolding submit_entry
submit_entry-is_peer bdb comp srv db r type payload n k =
    let filled = fill_entry comp r type payload (srv.log.entries r.at) in
    elim (Bool-cases ((store_record bdb db r.record_no (record_of filled)).0 == 0)) [
      | inl ok ↦ rw (ok, submit_entry) refl
      | inr failed ↦ rw (failed, submit_entry) refl
    ]
