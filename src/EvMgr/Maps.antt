-- ===== src/EvMgr/Maps.antt =====
-- The hash tables of the event manager, as far as it uses uthash.h: a table is a list of pairs, the
-- latest first; an addition does not look for the key, and the pair that is found is the latest.
use rdma_paxos.Prelude.{
  ℕ, Bool, true, false, ◌&&◌, ◌==◌, if◌then◌else◌, List, [], ◌∷◌, Option, none, some,
}
use rdma_paxos.ViewStamp.{ViewStamp}

module _ {K V : Type 0} (same : K → K → Bool) where
  unfoldable pub hash_find : List (K × V) → K → Option V
  hash_find [] key = none
  hash_find (p ∷ m) key = if same key p.0 then some p.1 else hash_find m key

  -- The pair that `hash_find` names is taken out.
  unfoldable pub hash_del : List (K × V) → K → List (K × V)
  hash_del [] key = []
  hash_del (p ∷ m) key = if same key p.0 then m else p ∷ hash_del m key

  -- The pair that `hash_find` names is written.
  unfoldable pub hash_put : List (K × V) → K → V → List (K × V)
  hash_put [] key v = []
  hash_put (p ∷ m) key v = if same key p.0 then (p.0, v) ∷ m else p ∷ hash_put m key v

-- The keys are compared as bytes.
abbrev pub same_stamp : ViewStamp → ViewStamp → Bool
same_stamp a b = a.view_id == b.view_id && a.req_id == b.req_id

abbrev pub same_bytes : List ℕ → List ℕ → Bool
same_bytes [] [] = true
same_bytes [] (y ∷ ys) = false
same_bytes (x ∷ xs) [] = false
same_bytes (x ∷ xs) (y ∷ ys) = x == y && same_bytes xs ys

-- The string that the bytes hold: what stands before the first 0.
unfoldable pub c_string : List ℕ → List ℕ
c_string [] = []
c_string (b ∷ bs) = if b == 0 then [] else b ∷ c_string bs
