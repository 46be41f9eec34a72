-- ===== src/Start/Database.antt =====
-- `initialize_db` and `close_db` of RDMA/src/db/db-interface.c, without ENV. What Berkeley DB makes
-- of a handle is an argument.
use rdma_paxos.Prelude.{ℕ, ◌*◌, List, [], ◌∷◌, Option, none, some}

-- `H` is a handle. A call that fails gives none.
pub record DbOpening (H : Type 0) : Type 0 where
  pub db_create : (flag : ℕ) → Option H
  pub set_pagesize : H → ℕ → Option H
  pub set_cachesize : H → ℕ → Option H
  pub open_btree : H → (db_name : Option (List ℕ)) → Option H

abbrev pub pagesize : ℕ
pagesize = 32 * 1024

abbrev pub cachesize : ℕ
cachesize = 32 * 1024 * 1024

unfoldable pub initialize_db : {H : Type 0} → DbOpening H → Option (List ℕ) → ℕ → Option H
initialize_db lib db_name flag = elim (lib.db_create flag) [
  | none ↦ none
  | some b_db ↦ elim (lib.set_pagesize b_db pagesize) [
    | none ↦ none
    | some paged ↦ elim (lib.set_cachesize paged cachesize) [
      | none ↦ none
      | some cached ↦ lib.open_btree cached db_name
    ]
  ]
]

-- What `close_db` does: it closes the handle with the mode, and frees the structure.
pub data DbCall (H : Type 0) : Type 0 where
  closed : H → ℕ → DbCall H
  freed : DbCall H

-- The outer none is a null `db_p`, the inner one a null `bdb_ptr`.
unfoldable pub close_db : {H : Type 0} → Option (Option H) → ℕ → List (DbCall H)
close_db none mode = []
close_db (some none) mode = freed ∷ []
close_db (some (some b_db)) mode = closed b_db mode ∷ freed ∷ []
