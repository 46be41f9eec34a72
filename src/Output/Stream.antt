-- ===== src/Output/Stream.antt =====
-- The handler as a function of the bytes that went through it, one at a time.

use rdma_paxos.Prelude.{
  ℕ, zero, suc, ◌+◌, ◌≤◌, ◌<◌, ◌≡◌, ◌∙◌, ap, refl, List, [], ◌∷◌, ◌++◌, append_assoc, append-nil,
  Option, none, some, length, take, drop, length-append, length-take, length-drop, take-append,
  arith, ◌==◌, if◌then◌else◌, sym,
}
use rdma_paxos.Output.Library.{OutputLib}
use rdma_paxos.Output.Handler.{OutputHandler, hash_buffer_size, zeros, memcpy, new_output_handler}

pub record Stream : Type 0 where
  pub hash : ℕ
  pub pending : List ℕ
  pub hashes : List ℕ

pub length-memcpy :
    (buf : List ℕ) (at : ℕ) (src : List ℕ)
    → at + length src ≤ length buf
    → length (memcpy buf at src) ≡ length buf
length-memcpy buf at src h = omega (
  arith,
  length-append (take at buf) (src ++ drop (at + length src) buf),
  length-append src (drop (at + length src) buf),
  length-take at buf (omega arith),
  length-drop (at + length src) buf,
)

pub take-memcpy :
    (buf : List ℕ) (at : ℕ) (src : List ℕ)
    → at + length src ≤ length buf
    → take (at + length src) (memcpy buf at src) ≡ take at buf ++ src
take-memcpy buf at src h =
    ap (λ n. take n (memcpy buf at src)) (sym whole)
    ∙ ap (take (length (take at buf ++ src))) (sym (append_assoc (take at buf) src rest))
    ∙ take-append (take at buf ++ src) rest
  where
    rest : List ℕ
    rest = drop (at + length src) buf

    whole : length (take at buf ++ src) ≡ at + length src
    whole = omega (arith, length-append (take at buf) src, length-take at buf (omega arith))

pub length-zeros : (n : ℕ) → length (zeros n) ≡ n
length-zeros zero = refl
length-zeros (suc n) = ap suc (length-zeros n)

module _ (lib : OutputLib) where
  open lib use {crc64, AdList, list_create, values, values-create, values-add}

  -- A full block is hashed after its predecessors.
  abbrev pub close : Stream → List ℕ → Stream
  close s block = record {
    hash = crc64 s.hash block;
    pending = [];
    hashes = s.hashes ++ crc64 s.hash block ∷ [];
  }

  -- One more byte.
  unfoldable pub absorb : Stream → ℕ → Stream
  absorb s b =
      if length (s.pending ++ b ∷ []) == hash_buffer_size
      then close s (s.pending ++ b ∷ [])
      else record s { pending = s.pending ++ b ∷ [] }

  unfoldable pub absorb_all : Stream → List ℕ → Stream
  absorb_all s [] = s
  absorb_all s (b ∷ bs) = absorb_all (absorb s b) bs

  pub absorb_all-append :
      (s : Stream) (xs ys : List ℕ) → absorb_all s (xs ++ ys) ≡ absorb_all (absorb_all s xs) ys
  unfolding absorb_all
  absorb_all-append s [] ys = refl
  absorb_all-append s (x ∷ xs) ys = absorb_all-append (absorb s x) xs ys

  pub absorb_all_short :
      (xs : List ℕ) (s : Stream)
      → length s.pending + length xs < hash_buffer_size
      → absorb_all s xs ≡ record s { pending = s.pending ++ xs }
  unfolding absorb_all absorb
  absorb_all_short [] s h = ground (arith, append-nil s.pending)
  absorb_all_short (x ∷ xs) s h = ground (
    arith,
    length-append s.pending (x ∷ []),
    append_assoc s.pending (x ∷ []) xs,
    absorb_all_short xs (record s { pending = s.pending ++ x ∷ [] }),
  )

  pub absorb_all_full :
      (xs : List ℕ) (s : Stream)
      → length s.pending < hash_buffer_size
      → length s.pending + length xs ≡ hash_buffer_size
      → absorb_all s xs ≡ close s (s.pending ++ xs)
  unfolding absorb_all absorb
  absorb_all_full [] s lt e = absurd (omega arith)
  absorb_all_full (x ∷ []) s lt e = ground (arith, length-append s.pending (x ∷ []))
  absorb_all_full (x ∷ y ∷ xs) s lt e = ground (
    arith,
    length-append s.pending (x ∷ []),
    append_assoc s.pending (x ∷ []) (y ∷ xs),
    absorb_all_full (y ∷ xs) (record s { pending = s.pending ++ x ∷ [] }),
  )

  -- The list of a handler holds one value for each hash counted, and the buffer is not full.
  pub record IsHandler (h : OutputHandler lib) : Type 0 where
    pub room : h.hash_buffer_curr < hash_buffer_size
    pub size : length h.hash_buffer ≡ hash_buffer_size
    pub list : AdList
    pub listed : h.output_list ≡ some list
    pub counted : h.count ≡ length (values list)

  abbrev pub values_of : Option AdList → List ℕ
  values_of none = []
  values_of (some l) = values l

  -- The stream that a handler stands for.
  abbrev pub view : OutputHandler lib → Stream
  view h = record {
    hash = h.hash;
    pending = take h.hash_buffer_curr h.hash_buffer;
    hashes = values_of h.output_list;
  }

  pub new-IsHandler : (fd : ℕ) → IsHandler (new_output_handler lib fd)
  unfolding new_output_handler
  new-IsHandler fd = record {
    room = omega arith;
    size = length-zeros 1024;
    list = list_create;
    listed = refl;
    counted = rw values-create;
  }

  pub view-new :
      (fd : ℕ) → view (new_output_handler lib fd) ≡ record { hash = 0; pending = []; hashes = [] }
  unfolding new_output_handler
  view-new fd = rw values-create
