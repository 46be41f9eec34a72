-- ===== src/Output/Library.antt =====
-- What output.c calls and this development does not model: `crc64`, and the list library of
-- adlist.c as far as output.c uses it, with the documented behaviour of both.
use rdma_paxos.Prelude.{ℕ, ◌≡◌, List, [], ◌∷◌, ◌++◌, Option, none, some}

-- `List` is the lists of hash values, `Iter` the state of a `listIter` that goes from the head.
pub record OutputLib : Type 1 where
  pub crc64 : ℕ → List ℕ → ℕ
  pub AdList : Type 0
  pub Iter : Type 0
  pub list_create : AdList
  pub list_add_node_tail : AdList → ℕ → AdList
  pub list_rewind : AdList → Iter
  pub list_next : Iter → Option (ℕ × Iter)
  pub values : AdList → List ℕ
  pub remaining : Iter → List ℕ
  pub values-create : values list_create ≡ []
  pub values-add : (l : AdList) (v : ℕ) → values (list_add_node_tail l v) ≡ values l ++ v ∷ []
  pub remaining-rewind : (l : AdList) → remaining (list_rewind l) ≡ values l
  pub next_end : (it : Iter) → remaining it ≡ [] → list_next it ≡ none
  pub next_value :
      (it : Iter) (v : ℕ) (rest : List ℕ)
      → remaining it ≡ v ∷ rest
      → (it' : Iter) × (list_next it ≡ some (v, it')) × (remaining it' ≡ rest)
