-- ===== src/Consensus/Alike.antt =====
-- Databases that hold the same, and what a put leaves of that.
use native.Mathlib.Omega.{arith}
use rdma_paxos.Prelude.{
  ℕ, ◌≡◌, ◌==◌, refl, sym, subst, ap, ◌∙◌, some, Option, Bool-cases, inl, inr, if◌then◌else◌,
}
use rdma_paxos.Db.{BerkeleyDb, RequestRecord, store_record, retrieve_record}
use rdma_paxos.Consensus.Flowing.{IsWritable}

module _ (bdb : BerkeleyDb) where
  -- Two databases that hold the same.
  pub record Alike (db db' : Option (BerkeleyDb.Handle bdb)) : Type 0 where
    pub agree : (key : ℕ) → retrieve_record bdb db key ≡ retrieve_record bdb db' key

  -- A read of a database with the record `kept` under `key`.
  abbrev read_after :
      Option (BerkeleyDb.Handle bdb) → ℕ → RequestRecord → ℕ → ℕ × Option RequestRecord
  read_after db key kept k = if key == k then (0, some kept) else retrieve_record bdb db k

  store_record_self :
      (h : BerkeleyDb.Handle bdb) (key : ℕ) (kept : RequestRecord)
      → IsWritable bdb
      → bdb.get (bdb.put h key kept).1 key ≡ read_after (some h) key kept key
  store_record_self h key kept puts = ground (arith, bdb.get-put_self h key kept (puts h key kept))

  store_record-read :
      (db : Option (BerkeleyDb.Handle bdb)) (h : BerkeleyDb.Handle bdb) (key k : ℕ)
      (kept : RequestRecord)
      → IsWritable bdb
      → db ≡ some h
      → retrieve_record bdb (store_record bdb db key kept).1 k ≡ read_after db key kept k
  unfolding store_record retrieve_record
  store_record-read db h key k kept puts e = elim (Bool-cases (key == k)) [
    | inl same ↦
        let at : key ≡ k = ground (arith, same) in
        rw (e, store_record, retrieve_record)
          (subst (λ n. bdb.get (bdb.put h key kept).1 n ≡ read_after (some h) key kept n) at
            (store_record_self h key kept puts))
    | inr other ↦
        rw (e, other, store_record, retrieve_record)
          (bdb.get-put_other h key k kept (ground (arith, other)))
  ]

  pub store_record-Alike :
      (db db' : Option (BerkeleyDb.Handle bdb)) (h h' : BerkeleyDb.Handle bdb) (key : ℕ)
      (kept : RequestRecord)
      → IsWritable bdb
      → db ≡ some h
      → db' ≡ some h'
      → Alike db db'
      → Alike (store_record bdb db key kept).1 (store_record bdb db' key kept).1
  store_record-Alike db db' h h' key kept puts e e' same = record {
    agree = λ k.
        store_record-read db h key k kept puts e
        ∙ ap (λ r. if key == k then (0, some kept) else r) (same.agree k)
        ∙ sym (store_record-read db' h' key k kept puts e');
  }

  pub store_record-open :
      (db : Option (BerkeleyDb.Handle bdb)) (h : BerkeleyDb.Handle bdb) (key : ℕ)
      (kept : RequestRecord)
      → db ≡ some h
      → (h' : BerkeleyDb.Handle bdb) × ((store_record bdb db key kept).1 ≡ some h')
  unfolding store_record
  store_record-open db h key kept e = rw (e, store_record) ((bdb.put h key kept).1, refl)
