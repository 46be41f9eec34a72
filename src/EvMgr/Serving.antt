-- ===== src/EvMgr/Serving.antt =====
-- What the leader's hooks store for the reads of a connection.
use native.Mathlib.Omega.{arith}
use rdma_paxos.Prelude.{
  ℕ, ◌+◌, ◌^◌, ◌<◌, ◌≡◌, ◌∙◌, refl, ap, sym, ◌==◌, ==_refl, true, false, ◌&&◌, List, [], ◌∷◌, ◌++◌,
  Option, none, some, map, length, append_assoc, append-nil,
}
use rdma_paxos.ViewStamp.{ViewStamp}
use rdma_paxos.Log.{log_add_new_entry}
use rdma_paxos.Db.{BerkeleyDb, RequestRecord}
use rdma_paxos.Consensus.Types.{p_send}
use rdma_paxos.Consensus.Leader.{reserve, place_entry, fill_entry, record_of}
use rdma_paxos.Output.Library.{OutputLib}
use rdma_paxos.EvMgr.Maps.{hash_find}
use rdma_paxos.Consensus.Flowing.{IsWritable}
use rdma_paxos.EvMgr.Rsm.{Node, rsm_op}
use rdma_paxos.EvMgr.Idle.{IsIdle, stored_by, rsm_op-records, rsm_op-view, rsm_op-IsIdle}
use rdma_paxos.EvMgr.Leader.{LeaderMgr, leads, server_side_on_read}
use rdma_paxos.EvMgr.Replayed.{IsSend, Sends}

-- Every read is shorter than the word that holds its size.
abbrev pub AllShort : List (List ℕ) → Type 0
AllShort [] = Unit
AllShort (bs ∷ more) = (length bs + 1 < 2 ^ 64) × AllShort more

module _ (bdb : BerkeleyDb) (lib : OutputLib) where
  pub stored-IsSend :
      (node : Node bdb) (bs : List ℕ) (vs : ViewStamp)
      → length bs + 1 < 2 ^ 64
      → IsSend vs bs (stored_by bdb node (length bs) (some bs) p_send vs)
  unfolding reserve place_entry fill_entry record_of
  stored-IsSend node bs vs lt = record {
    call = record { type_is = refl; clt_is = refl };
    size_is = ground (arith, ==_refl (log_add_new_entry node.srv.log));
    bytes_are = refl;
  }

  abbrev pub recs : Node bdb → List RequestRecord
  recs node = map (λ p. p.1) node.records

  pub rsm_op-recs :
      (node : Node bdb) (size : ℕ) (payload : Option (List ℕ)) (type : ℕ) (clt_id : ViewStamp)
      → IsWritable bdb
      → IsIdle bdb node
      → recs (rsm_op bdb node size payload type clt_id).2
        ≡ recs node ++ stored_by bdb node size payload type clt_id ∷ []
  rsm_op-recs node size payload type clt_id puts idle =
      rsm_op-records bdb puts node idle size payload type clt_id

  pub record InSession (m : LeaderMgr bdb lib) (fd : ℕ) (vs : ViewStamp) : Type 0 where
    pub leading : leads bdb lib m ≡ true
    pub replicated : m.rsm ≡ true
    pub resting : IsIdle bdb m.con_node
    pub found : hash_find ◌==◌ m.leader_tcp_map fd ≡ some vs

  -- The manager after a read.
  abbrev pub after_read : LeaderMgr bdb lib → List ℕ → ViewStamp → LeaderMgr bdb lib
  after_read m bs vs = record m {
    con_node = (rsm_op bdb m.con_node (length bs) (some bs) p_send vs).2;
  }

  guard :
      (m : LeaderMgr bdb lib) (fd : ℕ) (vs : ViewStamp)
      → InSession m fd vs
      → leads bdb lib m && true && m.rsm ≡ true
  guard m fd vs i = rw (i.leading, i.replicated) refl

  read_in :
      (m : LeaderMgr bdb lib) (bs : List ℕ) (fd : ℕ) (vs : ViewStamp)
      → InSession m fd vs
      → server_side_on_read bdb lib false true m bs (length bs) fd ≡ some (after_read m bs vs)
  unfolding server_side_on_read
  read_in m bs fd vs i = rw (guard m fd vs i, i.found, server_side_on_read) refl

  after_read-InSession :
      (m : LeaderMgr bdb lib) (bs : List ℕ) (fd : ℕ) (vs : ViewStamp)
      → IsWritable bdb
      → InSession m fd vs
      → InSession (after_read m bs vs) fd vs
  after_read-InSession m bs fd vs puts i = record {
    leading =
        ap (λ v. m.node_id == v.leader_id)
          (rsm_op-view bdb puts m.con_node i.resting (length bs) (some bs) p_send vs)
        ∙ i.leading;
    resting = rsm_op-IsIdle bdb puts m.con_node i.resting (length bs) (some bs) p_send vs;
    replicated = i.replicated;
    found = i.found;
  }

  -- The reads of a session.
  unfoldable pub reads : LeaderMgr bdb lib → List (List ℕ) → ℕ → Option (LeaderMgr bdb lib)
  reads m [] fd = some m
  reads m (bs ∷ more) fd = elim (server_side_on_read bdb lib false true m bs (length bs) fd) [
    | none ↦ none
    | some m' ↦ reads m' more fd
  ]

  pub record Read (m : LeaderMgr bdb lib) (fd : ℕ) (vs : ViewStamp) (datas : List (List ℕ))
      (m' : LeaderMgr bdb lib) (rs : List RequestRecord) : Type 0 where
    pub ends : reads m datas fd ≡ some m'
    pub open_still : InSession m' fd vs
    pub sends : Sends vs datas rs
    pub stored : recs m'.con_node ≡ recs m.con_node ++ rs

  pub reads_lem :
      (m : LeaderMgr bdb lib) (datas : List (List ℕ)) (fd : ℕ) (vs : ViewStamp)
      → IsWritable bdb
      → InSession m fd vs
      → AllShort datas
      → (m' : LeaderMgr bdb lib) × (rs : List RequestRecord) × Read m fd vs datas m' rs
  unfolding reads
  reads_lem m [] fd vs puts i short = (
    m,
    [],
    record { ends = refl; open_still = i; sends = tt; stored = sym (append-nil (recs m.con_node)) },
  )
  reads_lem m (bs ∷ more) fd vs puts i short =
      let r = stored_by bdb m.con_node (length bs) (some bs) p_send vs in
      let (m', rs, d) =
        reads_lem (after_read m bs vs) more fd vs puts (after_read-InSession m bs fd vs puts i)
          short.1 in
      (
        m',
        r ∷ rs,
        record {
          ends = rw (read_in m bs fd vs i, reads) d.ends;
          open_still = d.open_still;
          sends = (stored-IsSend m.con_node bs vs short.0, d.sends);
          stored =
              d.stored
              ∙ ap (λ l. l ++ rs)
                  (rsm_op-recs m.con_node (length bs) (some bs) p_send vs puts i.resting)
              ∙ append_assoc (recs m.con_node) (r ∷ []) rs;
        },
      )
