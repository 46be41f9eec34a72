-- ===== src/Db.antt =====
-- RDMA/src/db/db-interface.c: the wrapper of Berkeley DB, with the library as a parameter.
pub mod Store
use rdma_paxos.Prelude.{ℕ, ◌≡◌, ◌≢◌, Option, none, some, List}
use rdma_paxos.ViewStamp.{ViewStamp}

-- `request_record` of RDMA/src/include/replica-sys/replica.h
pub record RequestRecord : Type 0 where
  pub data_size : ℕ
  pub type : ℕ
  pub clt_id : ViewStamp
  pub bytes : List ℕ

-- What the wrapper relies on of an open B-tree database. A result of 0 is success.
pub record BerkeleyDb : Type 1 where
  pub Handle : Type 0
  pub put : Handle → ℕ → RequestRecord → ℕ × Handle
  pub get : Handle → ℕ → ℕ × Option RequestRecord
  pub get-put_self :
      (db : Handle) (key : ℕ) (r : RequestRecord)
      → (put db key r).0 ≡ 0
      → get (put db key r).1 key ≡ (0, some r)
  pub get-put_other :
      (db : Handle) (key other : ℕ) (r : RequestRecord)
      → key ≢ other
      → get (put db key r).1 other ≡ get db other

module _ (bdb : BerkeleyDb) where
  open bdb use {Handle, put, get}

  -- `none` stands for a null `db_p` or `bdb_ptr`.
  unfoldable pub store_record : Option Handle → ℕ → RequestRecord → ℕ × Option Handle
  store_record none key r = (1, none)
  store_record (some db) key r = let res = put db key r in (res.0, some res.1)

  -- A value that is read is never of size 0: a record holds its header.
  unfoldable pub retrieve_record : Option Handle → ℕ → ℕ × Option RequestRecord
  retrieve_record none key = (1, none)
  retrieve_record (some db) key = get db key
