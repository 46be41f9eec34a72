-- ===== src/EvMgr/Replayed.antt =====
-- What the records of one session come to when a replica replays them.
use native.Mathlib.Omega.{arith}
use rdma_paxos.Prelude.{
  ℕ, ◌+◌, ◌-◌, ◌≡◌, ◌∙◌, refl, ap, subst, true, List, [], ◌∷◌, ◌++◌, Option, none, some, map, take,
  length,
}
use rdma_paxos.ViewStamp.{ViewStamp}
use rdma_paxos.Db.{RequestRecord}
use rdma_paxos.Consensus.Types.{p_tcp_connect, p_send, p_close, p_nop}
use rdma_paxos.EvMgr.Maps.{hash_find, hash_del, hash_put, same_stamp}
use rdma_paxos.EvMgr.Replay.{
  Effect, connected, written, closed, ReplicaTcpPair, ReplicaMgr, new_pair, replay_record,
  do_action_tcp_connect, do_action_send, do_action_close, open_pair, with_pair, accept_pair,
}

-- A record of a type and a client.
pub record IsCall (type : ℕ) (vs : ViewStamp) (r : RequestRecord) : Type 0 where
  pub type_is : r.type ≡ type
  pub clt_is : r.clt_id ≡ vs

pub record IsSend (vs : ViewStamp) (bs : List ℕ) (r : RequestRecord) : Type 0 where
  pub call : IsCall p_send vs r
  pub size_is : r.data_size ≡ length bs + 1
  pub bytes_are : r.bytes ≡ bs

abbrev pub opened : ReplicaMgr → ViewStamp → (fd s_p : ℕ) → ReplicaMgr
opened rm vs fd s_p = record rm {
  replica_tcp_map = (vs, record { p_s = fd; s_p = s_p; accepted = true }) ∷ rm.replica_tcp_map;
}

pub take_whole : (bs : List ℕ) → take (length bs + 1 - 1) bs ≡ bs
take_whole bs = ap (λ n. take n bs) {y = length bs} (omega arith) ∙ take_all bs
  where
    take_all : (xs : List ℕ) → take (length xs) xs ≡ xs
    take_all [] = refl
    take_all (x ∷ xs) = ap (λ l. x ∷ l) (take_all xs)

same_stamp_refl : (vs : ViewStamp) → same_stamp vs vs ≡ true
same_stamp_refl vs = ground arith

module _ (vs : ViewStamp) (p : ReplicaTcpPair) (m : List (ViewStamp × ReplicaTcpPair)) where
  pub find_first : hash_find same_stamp ((vs, p) ∷ m) vs ≡ some p
  unfolding hash_find
  find_first = ground (arith, same_stamp_refl vs)

  del_first : hash_del same_stamp ((vs, p) ∷ m) vs ≡ m
  unfolding hash_del
  del_first = ground (arith, same_stamp_refl vs)

  pub put_first : (q : ReplicaTcpPair) → hash_put same_stamp ((vs, p) ∷ m) vs q ≡ (vs, q) ∷ m
  unfolding hash_put
  put_first q = ground (arith, same_stamp_refl vs)

abbrev pair_of : (fd s_p : ℕ) → ReplicaTcpPair
pair_of fd s_p = record { p_s = fd; s_p = s_p; accepted = true }

send_own :
    (rm : ReplicaMgr) (r : RequestRecord) (fd s_p fd' s_p' : ℕ)
    → r.type ≡ p_send
    → replay_record (opened rm r.clt_id fd s_p) r fd' s_p'
      ≡ some (opened rm r.clt_id fd s_p, written fd (take (r.data_size - 1) r.bytes) ∷ [])
unfolding replay_record do_action_send
send_own rm r fd s_p fd' s_p' is =
    rw (is, find_first r.clt_id (pair_of fd s_p) rm.replica_tcp_map, do_action_send) refl

pub replay-send :
    (rm : ReplicaMgr) (vs : ViewStamp) (bs : List ℕ) (r : RequestRecord) (fd s_p fd' s_p' : ℕ)
    → IsSend vs bs r
    → replay_record (opened rm vs fd s_p) r fd' s_p'
      ≡ some (opened rm vs fd s_p, written fd bs ∷ [])
replay-send rm vs bs r fd s_p fd' s_p' is =
    subst
      (λ k.
        replay_record (opened rm k fd s_p) r fd' s_p'
        ≡ some (opened rm k fd s_p, written fd bs ∷ []))
      is.call.clt_is
      (send_own rm r fd s_p fd' s_p' is.call.type_is
        ∙ ap (λ l. some (opened rm r.clt_id fd s_p, written fd l ∷ []))
            (ap (λ n. take (n - 1) r.bytes) is.size_is
              ∙ ap (take (length bs + 1 - 1)) is.bytes_are
              ∙ take_whole bs))

close_own :
    (rm : ReplicaMgr) (r : RequestRecord) (fd s_p fd' s_p' : ℕ)
    → r.type ≡ p_close
    → replay_record (opened rm r.clt_id fd s_p) r fd' s_p' ≡ some (rm, closed fd ∷ [])
unfolding replay_record do_action_close
close_own rm r fd s_p fd' s_p' is =
    rw (is, find_first r.clt_id (pair_of fd s_p) rm.replica_tcp_map, do_action_close)
      (ap (λ l. some (record rm { replica_tcp_map = l }, closed fd ∷ []))
        (del_first r.clt_id (pair_of fd s_p) rm.replica_tcp_map))

pub replay-close :
    (rm : ReplicaMgr) (vs : ViewStamp) (r : RequestRecord) (fd s_p fd' s_p' : ℕ)
    → IsCall p_close vs r
    → replay_record (opened rm vs fd s_p) r fd' s_p' ≡ some (rm, closed fd ∷ [])
replay-close rm vs r fd s_p fd' s_p' is =
    subst (λ k. replay_record (opened rm k fd s_p) r fd' s_p' ≡ some (rm, closed fd ∷ [])) is.clt_is
      (close_own rm r fd s_p fd' s_p' is.type_is)

pub open_fresh :
    (rm : ReplicaMgr) (vs : ViewStamp) (fd : ℕ)
    → hash_find same_stamp rm.replica_tcp_map vs ≡ none
    → open_pair rm vs fd
      ≡ record rm { replica_tcp_map = (vs, record new_pair { p_s = fd }) ∷ rm.replica_tcp_map }
unfolding open_pair with_pair
open_fresh rm vs fd fresh =
    rw (fresh, with_pair, put_first vs new_pair rm.replica_tcp_map (record new_pair { p_s = fd }))
      refl

accept_opened :
    (rm : ReplicaMgr) (r : RequestRecord) (fd s_p : ℕ)
    → accept_pair
        (record rm {
          replica_tcp_map = (r.clt_id, record new_pair { p_s = fd }) ∷ rm.replica_tcp_map;
        })
        r
        s_p
      ≡ some (opened rm r.clt_id fd s_p)
unfolding accept_pair
accept_opened rm r fd s_p =
    rw
      (
        find_first r.clt_id (record new_pair { p_s = fd }) rm.replica_tcp_map,
        accept_pair,
        put_first r.clt_id (record new_pair { p_s = fd }) rm.replica_tcp_map (pair_of fd s_p),
      )
      refl

pub replay-connect :
    (rm : ReplicaMgr) (vs : ViewStamp) (r : RequestRecord) (fd s_p : ℕ)
    → IsCall p_tcp_connect vs r
    → hash_find same_stamp rm.replica_tcp_map vs ≡ none
    → replay_record rm r fd s_p ≡ some (opened rm vs fd s_p, connected fd ∷ [])
unfolding replay_record do_action_tcp_connect
replay-connect rm vs r fd s_p is fresh =
    rw
      (
        is.type_is,
        is.clt_is,
        open_fresh rm vs fd fresh,
        do_action_tcp_connect,
        accept_opened rm (record r { type = p_tcp_connect; clt_id = vs }) fd s_p,
      )
      refl

pub replay-nop :
    (rm : ReplicaMgr) (r : RequestRecord) (fd s_p : ℕ)
    → r.type ≡ p_nop
    → replay_record rm r fd s_p ≡ some (rm, [])
unfolding replay_record
replay-nop rm r fd s_p is = rw is refl

-- The records one after the other.
unfoldable pub replay_all :
    ReplicaMgr → List RequestRecord → (fd s_p : ℕ) → Option (ReplicaMgr × List Effect)
replay_all rm [] fd s_p = some (rm, [])
replay_all rm (r ∷ rs) fd s_p = elim (replay_record rm r fd s_p) [
  | none ↦ none
  | some a ↦ elim (replay_all a.0 rs fd s_p) [ none ↦ none | some b ↦ some (b.0, a.1 ++ b.1) ]
]

replay_all-nil : (rm : ReplicaMgr) (fd s_p : ℕ) → replay_all rm [] fd s_p ≡ some (rm, [])
unfolding replay_all
replay_all-nil rm fd s_p = refl

pub replay_all-cons :
    (rm rm' rm'' : ReplicaMgr) (r : RequestRecord) (rs : List RequestRecord) (fd s_p : ℕ)
    (xs ys : List Effect)
    → replay_record rm r fd s_p ≡ some (rm', xs)
    → replay_all rm' rs fd s_p ≡ some (rm'', ys)
    → replay_all rm (r ∷ rs) fd s_p ≡ some (rm'', xs ++ ys)
unfolding replay_all
replay_all-cons rm rm' rm'' r rs fd s_p xs ys e e' = rw (e, replay_all, e') refl

-- The records of the reads of a session.
abbrev pub Sends : ViewStamp → List (List ℕ) → List RequestRecord → Type 0
Sends vs [] [] = Unit
Sends vs [] (r ∷ rs) = ⊥
Sends vs (bs ∷ more) [] = ⊥
Sends vs (bs ∷ more) (r ∷ rs) = IsSend vs bs r × Sends vs more rs

-- Reads and the close of a session that is open.
pub replay-Sends :
    (rm : ReplicaMgr) (vs : ViewStamp) (datas : List (List ℕ)) (rs : List RequestRecord)
    (c n : RequestRecord) (fd s_p : ℕ)
    → Sends vs datas rs
    → IsCall p_close vs c
    → n.type ≡ p_nop
    → replay_all (opened rm vs fd s_p) (rs ++ c ∷ n ∷ []) fd s_p
      ≡ some (rm, map (written fd) datas ++ closed fd ∷ [])
replay-Sends rm vs [] [] c n fd s_p is close nop =
    replay_all-cons (opened rm vs fd s_p) rm rm c (n ∷ []) fd s_p (closed fd ∷ []) []
      (replay-close rm vs c fd s_p fd s_p close)
      (replay_all-cons rm rm rm n [] fd s_p [] [] (replay-nop rm n fd s_p nop)
        (replay_all-nil rm fd s_p))
replay-Sends rm vs [] (r ∷ rs) c n fd s_p is close nop = elim is [ ]
replay-Sends rm vs (bs ∷ more) [] c n fd s_p is close nop = elim is [ ]
replay-Sends rm vs (bs ∷ more) (r ∷ rs) c n fd s_p is close nop =
    replay_all-cons (opened rm vs fd s_p) (opened rm vs fd s_p) rm r (rs ++ c ∷ n ∷ []) fd s_p
      (written fd bs ∷ []) (map (written fd) more ++ closed fd ∷ [])
      (replay-send rm vs bs r fd s_p fd s_p is.0)
      (replay-Sends rm vs more rs c n fd s_p is.1 close nop)
