-- ===== src/Consensus/Threads.antt =====
-- The application threads of the leader inside `leader_handle_submit_req`, in any order: one step of
-- a thread is the part under the lock, the filling of the entry with the store and the writes, one
-- pass at `recheck`, a test of the busy wait on the committed stamp, or the commit. The test reads the
-- stamp in the entry again. What others write to the log of the leader are acknowledgements.
use rdma_paxos.Prelude.{
  ℕ, zero, suc, if◌then◌else◌, List, [], ◌∷◌, ◌++◌, Option, none, some, get_elem?, ◌≢◌,
}
use rdma_paxos.ViewStamp.{ViewStamp}
use rdma_paxos.Log.{DareLog, AcceptAck, log_add_new_entry}
use rdma_paxos.Db.{BerkeleyDb}
use rdma_paxos.Consensus.Types.{ConsensusComponent, ServerData, Send}
use rdma_paxos.Consensus.Quorum.{reached_quorum, recheck}
use rdma_paxos.Consensus.Leader.{Reserved, reserve, submit_entry, first_votes, may_commit, commit}

-- Where a thread stands: it has its stamp; it counts votes, with its bit map; it has a quorum and
-- waits for the entries before; it has left the wait and is about to commit.
pub data Stage : Type 0 where
  reserved : Stage
  counting : ℕ → Stage
  decided passed : Stage

pub record Call : Type 0 where
  pub r : Reserved
  pub type : ℕ
  pub payload : Option (List ℕ)
  pub stage : Stage

-- The call that has just left the part under the lock.
unfoldable pub entered :
    ConsensusComponent → ServerData → ℕ → ℕ → ViewStamp → Option (List ℕ) → Call
entered comp srv size type clt_id payload = record {
  r = (reserve comp srv size type clt_id).0;
  type = type;
  payload = payload;
  stage = reserved;
}

-- The new value of the call at `n`, or its removal.
unfoldable pub edit : ℕ → Option Call → List Call → List Call
edit n new [] = []
edit zero none (c ∷ cs) = cs
edit zero (some c') (c ∷ cs) = c' ∷ cs
edit (suc n) new (c ∷ cs) = c ∷ edit n new cs

-- The calls after the store of the call at `n`: if it failed, the call is over.
unfoldable pub stored_calls :
    ConsensusComponent → List Call → ℕ → Call → Option (List Send) → List Call
stored_calls comp calls n c none = edit n none calls
stored_calls comp calls n c (some writes) =
    edit n (some (record c { stage = counting (first_votes comp) })) calls

unfoldable pub stage_after : ℕ → ℕ → Stage
stage_after group_size bit_map =
    if reached_quorum bit_map group_size then decided else counting bit_map

-- The entries of the calls are at other places.
abbrev pub IsApart : ℕ → List Call → Type 0
IsApart at [] = Unit
IsApart at (c ∷ cs) = (c.r.at ≢ at) × IsApart at cs

-- The log with these acknowledgements in its entries.
abbrev pub acknowledged : DareLog → (ℕ → ℕ → AcceptAck) → DareLog
acknowledged log acks = record log { entries = λ at. record (log.entries at) { ack = acks at } }

module _ (bdb : BerkeleyDb) where
  open bdb use {Handle}

  pub record LeaderState : Type 0 where
    pub comp : ConsensusComponent
    pub srv : ServerData
    pub db : Option Handle
    pub calls : List Call

  -- A new call, with its data size, type, `clt_id` and payload; the acknowledgements that replicas
  -- have written into the slots of the entries; or the next step of the call at an index.
  pub data Event : Type 0 where
    enter : ℕ → ℕ → ViewStamp → Option (List ℕ) → Event
    memory : (ℕ → ℕ → AcceptAck) → Event
    advance : ℕ → Event

  unfoldable pub enter_call : LeaderState → ℕ → ℕ → ViewStamp → Option (List ℕ) → LeaderState
  enter_call s size type clt_id payload =
      let (r, comp', srv') = reserve s.comp s.srv size type clt_id in
      record s {
        comp = comp';
        srv = srv';
        calls = s.calls ++ entered s.comp s.srv size type clt_id payload ∷ [];
      }

  unfoldable pub store_call : LeaderState → ℕ → Call → LeaderState
  store_call s n c =
      let (sends, srv', db') = submit_entry bdb s.comp s.srv s.db c.r c.type c.payload in
      record s { srv = srv'; db = db'; calls = stored_calls s.comp s.calls n c sends }

  unfoldable pub count_call : LeaderState → ℕ → Call → ℕ → LeaderState
  count_call s n c bit_map =
      let bit_map' = recheck c.r.next (s.srv.log.entries c.r.at).ack bit_map in
      let stage' = stage_after s.comp.group_size bit_map' in
      record s { calls = edit n (some (record c { stage = stage' })) s.calls }

  unfoldable pub wait_call : LeaderState → ℕ → Call → LeaderState
  wait_call s n c =
      if may_commit s.comp (s.srv.log.entries c.r.at).msg_vs
      then record s { calls = edit n (some (record c { stage = passed })) s.calls }
      else s

  unfoldable pub commit_call : LeaderState → ℕ → LeaderState
  commit_call s n = record s { comp = commit s.comp; calls = edit n none s.calls }

  -- A step of the call `c`, which is at `n`, and the `req_id`s of the entries that it commits.
  unfoldable pub advance_call : LeaderState → ℕ → Call → Stage → LeaderState × List ℕ
  advance_call s n c reserved = (store_call s n c, [])
  advance_call s n c (counting bit_map) = (count_call s n c bit_map, [])
  advance_call s n c decided = (wait_call s n c, [])
  advance_call s n c passed = (commit_call s n, c.r.next.req_id ∷ [])

  unfoldable pub step : LeaderState → Event → LeaderState × List ℕ
  step s (enter size type clt_id payload) = (enter_call s size type clt_id payload, [])
  step s (memory acks) = (record s { srv = record s.srv { log = acknowledged s.srv.log acks } }, [])
  step s (advance n) = elim (get_elem? s.calls n) [
    | none ↦ (s, [])
    | some c ↦ advance_call s n c c.stage
  ]

  unfoldable pub run : LeaderState → List Event → LeaderState × List ℕ
  run s [] = (s, [])
  run s (e ∷ es) = let first = step s e in let rest = run first.0 es in (rest.0, first.1 ++ rest.1)

  -- A call does not enter at the place of an entry whose call is in flight.
  abbrev pub IsFresh : LeaderState → Event → Type 0
  IsFresh s (enter size type clt_id payload) = IsApart (log_add_new_entry s.srv.log) s.calls
  IsFresh s (memory acks) = Unit
  IsFresh s (advance n) = Unit

  -- This holds of all calls of a run, as it does while the log has not been written round.
  abbrev pub AllFresh : LeaderState → List Event → Type 0
  AllFresh s [] = Unit
  AllFresh s (e ∷ es) = IsFresh s e × AllFresh (step s e).0 es
