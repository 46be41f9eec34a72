-- ===== src/Db/Store.antt =====
-- What is stored is read back, and other keys keep their records.
use rdma_paxos.Prelude.{ℕ, ◌≡◌, ◌≢◌, Option, none, some, arith}
use rdma_paxos.Db.{BerkeleyDb, RequestRecord, store_record, retrieve_record}

-- After a `store_record` that returned 0, `retrieve_record` returns the record under its key, and
-- under another key what it returned before.
pub store-retrieve :
    (bdb : BerkeleyDb) (db : Option (BerkeleyDb.Handle bdb)) (key other : ℕ) (r : RequestRecord)
    → (store_record bdb db key r).0 ≡ 0
    → key ≢ other
    → (retrieve_record bdb (store_record bdb db key r).1 key ≡ (0, some r))
      × (retrieve_record bdb (store_record bdb db key r).1 other ≡ retrieve_record bdb db other)
unfolding store_record retrieve_record
store-retrieve bdb none key other r e ne = absurd (omega arith)
store-retrieve bdb (some db) key other r e ne =
    (bdb.get-put_self db key r e, bdb.get-put_other db key other r ne)
