-- ===== src/Output/Round.antt =====
-- One round of the loop of `store_output` feeds a chunk of the buffer to the stream of its handler.
use Prim.Native.Nat.{min}
use rdma_paxos.Prelude.{
  ℕ, ◌+◌, ◌-◌, ◌^◌, ◌≤◌, ◌<◌, ◌≡◌, ◌∙◌, ap, refl, List, [], ◌∷◌, ◌++◌, some, length, take, drop,
  length-append, length-take, length-drop, arith, Bool, subst, ◌==◌, Bool-cases, inl, inr, sym,
}
use rdma_paxos.Output.Library.{OutputLib}
use rdma_paxos.Output.Handler.{
  OutputHandler, hash_buffer_size, memcpy, push_hash, full_buffer, wait_bits, store_step,
}
use rdma_paxos.Output.Stream.{
  Stream, length-memcpy, take-memcpy, absorb_all, absorb_all_short, absorb_all_full, close,
  IsHandler, values_of, view,
}

take_all : (xs : List ℕ) → take (length xs) xs ≡ xs
take_all [] = refl
take_all (x ∷ xs) = rw (take_all xs)

take_whole : (n : ℕ) (xs : List ℕ) → n ≡ length xs → take n xs ≡ xs
take_whole n xs e = rw e (take_all xs)

module _ (lib : OutputLib) where
  open lib use {crc64, AdList, list_add_node_tail, values, values-add}

  -- What a handler is after `bytes` went through a stream `s`, when `grown` hashes came of them.
  pub record Fed (s : Stream) (bytes : List ℕ) (h : OutputHandler lib) (grown : ℕ) : Type 0 where
    pub valid : IsHandler lib h
    pub fed : view lib h ≡ absorb_all lib s bytes
    pub hashes : length (values_of lib h.output_list) ≡ length s.hashes + grown

  full_buffer-Fed :
      (h : OutputHandler lib) (s : Stream) (bytes : List ℕ)
      → (l : AdList) → h.output_list ≡ some l
      → length h.hash_buffer ≡ hash_buffer_size
      → h.count ≡ length (values l)
      → values l ≡ s.hashes
      → absorb_all lib s bytes ≡ close lib s h.hash_buffer
      → h.hash ≡ s.hash
      → Fed s bytes (full_buffer lib h).0 (full_buffer lib h).1
  unfolding full_buffer push_hash
  full_buffer-Fed h s bytes l here size counted same full hash =
      rw (here, push_hash)
        (record {
          valid = record {
            room = omega arith;
            size = size;
            list = list_add_node_tail l (crc64 h.hash h.hash_buffer);
            listed = refl;
            counted = ground (
              arith,
              values-add l (crc64 h.hash h.hash_buffer),
              length-append (values l) (crc64 h.hash h.hash_buffer ∷ []),
            );
          };
          fed = ground (
            arith,
            values-add l (crc64 h.hash h.hash_buffer),
            length-append (values l) (crc64 h.hash h.hash_buffer ∷ []),
          );
          hashes = ground (
            arith,
            values-add l (crc64 h.hash h.hash_buffer),
            length-append (values l) (crc64 h.hash h.hash_buffer ∷ []),
          );
        })

  -- The handler after the `memcpy` of a chunk.
  abbrev moved : OutputHandler lib → List ℕ → ℕ → OutputHandler lib
  moved h chunk n = record h {
    hash_buffer = memcpy h.hash_buffer h.hash_buffer_curr chunk;
    hash_buffer_curr = h.hash_buffer_curr + n;
  }

  abbrev copied : OutputHandler lib → List ℕ → OutputHandler lib
  copied h chunk = moved h chunk (length chunk)

  module _ (h : OutputHandler lib) (chunk : List ℕ) (v : IsHandler lib h) where
    open v use {room, size, list, listed, counted}

    view-copied :
        h.hash_buffer_curr + length chunk ≤ hash_buffer_size
        → take (h.hash_buffer_curr + length chunk) (copied h chunk).hash_buffer
          ≡ take h.hash_buffer_curr h.hash_buffer ++ chunk
    view-copied fits = take-memcpy h.hash_buffer h.hash_buffer_curr chunk (omega arith)

    pending-lt : length (take h.hash_buffer_curr h.hash_buffer) ≡ h.hash_buffer_curr
    pending-lt = length-take h.hash_buffer_curr h.hash_buffer (omega arith)

    partial-Fed :
        h.hash_buffer_curr + length chunk < hash_buffer_size
        → Fed (view lib h) chunk (copied h chunk) 0
    partial-Fed fits = record {
      valid = record {
        room = fits;
        size = omega (arith, length-memcpy h.hash_buffer h.hash_buffer_curr chunk);
        list = list;
        listed = listed;
        counted = counted;
      };
      fed = ground (arith, pending-lt, view-copied, absorb_all_short lib chunk (view lib h));
      hashes = omega arith;
    }

    whole_pending :
        h.hash_buffer_curr + length chunk ≡ hash_buffer_size
        → take h.hash_buffer_curr h.hash_buffer ++ chunk ≡ (copied h chunk).hash_buffer
    whole_pending fits =
        sym (view-copied (omega arith))
        ∙ take_whole (h.hash_buffer_curr + length chunk) (copied h chunk).hash_buffer
            (omega (arith, length-memcpy h.hash_buffer h.hash_buffer_curr chunk))

    whole-Fed :
        h.hash_buffer_curr + length chunk ≡ hash_buffer_size
        → Fed
            (view lib h)
            chunk
            (full_buffer lib (copied h chunk)).0
            (full_buffer lib (copied h chunk)).1
    whole-Fed fits =
        full_buffer-Fed (copied h chunk) (view lib h) chunk list listed
          (omega (arith, length-memcpy h.hash_buffer h.hash_buffer_curr chunk)) counted (rw listed)
          (absorb_all_full lib chunk (view lib h) (omega (arith, pending-lt))
              (omega (arith, pending-lt))
            ∙ ap (close lib (view lib h)) (whole_pending fits))
          refl

  -- One round copies a chunk of at least one byte, and not more than is left.
  pub record Stepped (h : OutputHandler lib) (buff : List ℕ) (push : ℕ)
      (r : OutputHandler lib × ℕ × ℕ) : Type 0 where
    pub after : Fed (view lib h) (take r.1 (drop push buff)) r.0 r.2
    pub moves : 0 < r.1
    pub stays : push + r.1 ≤ length buff

  length-chunk :
      (h : OutputHandler lib) (buff : List ℕ) (push : ℕ)
      → length buff < 2 ^ 31
      → let n = min (hash_buffer_size - h.hash_buffer_curr) (wait_bits buff push) in
        length (take n (drop push buff)) ≡ n
  length-chunk h buff push small =
      length-take _ (drop push buff) (omega (arith, length-drop push buff))

  pub store_step-Stepped :
      (h : OutputHandler lib) (buff : List ℕ) (push : ℕ)
      → IsHandler lib h
      → push < length buff
      → length buff < 2 ^ 31
      → Stepped h buff push (store_step lib h buff push)
  unfolding store_step
  store_step-Stepped h buff push v lt small = elim (Bool-cases test) [
    | inl full ↦ rw full (record {
      after =
          subst
            (λ k.
              Fed (view lib h) chunk (full_buffer lib (moved h chunk k)).0
                (full_buffer lib (moved h chunk k)).1)
            (length-chunk h buff push small)
            (whole-Fed h chunk v (ground (arith, length-chunk h buff push small, v.room)));
      moves = omega (arith, v.room);
      stays = omega arith;
    })
    | inr part ↦ rw part (record {
      after =
          subst (λ k. Fed (view lib h) chunk (moved h chunk k) 0) (length-chunk h buff push small)
            (partial-Fed h chunk v (ground (arith, length-chunk h buff push small, v.room)));
      moves = omega (arith, v.room);
      stays = omega arith;
    })
  ]
    where
      n : ℕ
      n = min (hash_buffer_size - h.hash_buffer_curr) (wait_bits buff push)

      chunk : List ℕ
      chunk = take n (drop push buff)

      test : Bool
      test = 0 == hash_buffer_size - (h.hash_buffer_curr + n)
