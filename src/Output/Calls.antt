-- ===== src/Output/Calls.antt =====
-- The manager: what `store_output` does to its connection and to the others.
use native.Mathlib.Decide.{ℕ_discrete}
use rdma_paxos.Prelude.{
  ℕ, suc, ◌+◌, ◌^◌, ◌<◌, ◌≡◌, ◌≢◌, ◌∙◌, ap, refl, sym, List, [], ◌∷◌, ◌++◌, Option, none, some,
  length, arith, pos, subst,
}
use rdma_paxos.Output.Library.{OutputLib}
use rdma_paxos.Output.Handler.{OutputHandler, store_loop}
use rdma_paxos.Output.Manager.{
  OutputManager, max_fd_size, init_output_mgr, existing, get_output_handler_by_fd, write_handler,
  store_at, store_output,
}
use rdma_paxos.Output.Stream.{
  Stream, absorb_all, absorb_all-append, IsHandler, view, new-IsHandler, view-new,
}
use rdma_paxos.Output.Round.{Fed}
use rdma_paxos.Output.Store.{store_loop-Ends}

abbrev pub empty_stream : Stream
empty_stream = record { hash = 0; pending = []; hashes = [] }

-- The bytes of successive writes.
abbrev pub bytes_of : List (List ℕ) → List ℕ
bytes_of [] = []
bytes_of (b ∷ bs) = b ++ bytes_of bs

module _ (lib : OutputLib) where
  open lib use {AdList, Iter, list_rewind, list_next, values, remaining, remaining-rewind}

  abbrev pub handler_at : OutputManager lib → ℕ → OutputHandler lib
  handler_at mgr fd = existing lib fd (mgr.fd_handler fd)

  -- The stream of a connection; it is empty for one that has no handler yet.
  abbrev pub stream_at : OutputManager lib → ℕ → Stream
  stream_at mgr fd = view lib (handler_at mgr fd)

  pub record IsManager (mgr : OutputManager lib) : Type 0 where
    pub valid : (fd : ℕ) → IsHandler lib (handler_at mgr fd)

  pub init-IsManager : IsManager (init_output_mgr lib)
  unfolding init_output_mgr existing
  init-IsManager = record { valid = new-IsHandler lib }

  pub stream-init : (fd : ℕ) → stream_at (init_output_mgr lib) fd ≡ empty_stream
  unfolding init_output_mgr existing
  stream-init fd = view-new lib fd

  -- The manager after `get_output_handler_by_fd` and a write to the handler.
  abbrev pub written : OutputManager lib → ℕ → OutputHandler lib → OutputManager lib
  written mgr fd h = write_handler lib (get_output_handler_by_fd lib mgr fd).1 fd h

  pub got_handler :
      (mgr : OutputManager lib) (fd : ℕ)
      → fd < max_fd_size
      → (get_output_handler_by_fd lib mgr fd).0 ≡ some (handler_at mgr fd)
  unfolding get_output_handler_by_fd
  got_handler mgr fd lt = ground arith

  written_self :
      (mgr : OutputManager lib) (fd : ℕ) (h : OutputHandler lib)
      → (written mgr fd h).fd_handler fd ≡ some h
  unfolding write_handler
  written_self mgr fd h = ground arith

  pub written_other :
      (mgr : OutputManager lib) (fd : ℕ) (h : OutputHandler lib) (other : ℕ)
      → other ≢ fd
      → (written mgr fd h).fd_handler other ≡ mgr.fd_handler other
  unfolding write_handler get_output_handler_by_fd
  written_other mgr fd h other ne = ground arith

  pub handler-written :
      (mgr : OutputManager lib) (fd : ℕ) (h : OutputHandler lib)
      → handler_at (written mgr fd h) fd ≡ h
  unfolding existing
  handler-written mgr fd h = rw (written_self mgr fd h)

  pub written-IsManager :
      (mgr : OutputManager lib) (fd : ℕ) (h : OutputHandler lib)
      → IsManager mgr
      → IsHandler lib h
      → IsManager (written mgr fd h)
  written-IsManager mgr fd h m v = record {
    valid = λ other. elim (ℕ_discrete other fd) [
      | yes e ↦
          subst (λ k. IsHandler lib (handler_at (written mgr fd h) k)) (sym e)
            (subst (IsHandler lib) (sym (handler-written mgr fd h)) v)
      | no ne ↦
          subst (λ o. IsHandler lib (existing lib other o)) (sym (written_other mgr fd h other ne))
            (m.valid other)
    ];
  }

  -- What a call at `fd` that returned `r` has done to the manager.
  pub record Stored (mgr : OutputManager lib) (fd : ℕ) (buff : List ℕ) (n : ℕ)
      (after : OutputManager lib) : Type 0 where
    pub valid : IsManager after
    pub fed : stream_at after fd ≡ absorb_all lib (stream_at mgr fd) buff
    pub counted : length (stream_at after fd).hashes ≡ length (stream_at mgr fd).hashes + n
    pub others : (other : ℕ) → other ≢ fd → after.fd_handler other ≡ mgr.fd_handler other

  Stored-written :
      (mgr : OutputManager lib) (fd : ℕ) (buff : List ℕ) (n : ℕ) (h : OutputHandler lib)
      → IsManager mgr
      → Fed lib (stream_at mgr fd) buff h n
      → Stored mgr fd buff n (written mgr fd h)
  Stored-written mgr fd buff n h m f = record {
    valid = written-IsManager mgr fd h m f.valid;
    fed = ap (view lib) (handler-written mgr fd h) ∙ f.fed;
    counted = ap (λ k. length (view lib k).hashes) (handler-written mgr fd h) ∙ f.hashes;
    others = written_other mgr fd h;
  }

  Stored-nothing : (mgr : OutputManager lib) (fd : ℕ) → IsManager mgr → Stored mgr fd [] 0 mgr
  unfolding absorb_all
  Stored-nothing mgr fd m = record {
    valid = m;
    fed = refl;
    counted = omega arith;
    others = λ other ne. refl;
  }

  store_at_ends :
      (mgr : OutputManager lib) (fd : ℕ) (buff : List ℕ) (h : OutputHandler lib)
      (r : OutputHandler lib × ℕ) (n : ℕ)
      → store_loop lib (suc (length buff)) h buff 0 0 ≡ some r
      → r.1 ≡ 0 + n
      → store_at lib mgr fd buff (some h) ≡ some (pos n, write_handler lib mgr fd r.0)
  unfolding store_at
  store_at_ends mgr fd buff h r n e eq = rw (e, store_at) (ground arith)

  -- For a connection below the limit and fewer than 2 ^ 31 bytes `store_output` returns; the number that it returns is the
  -- number of hashes that the bytes added, the stream of the connection went on by exactly these
  -- bytes, and no other connection changed.
  pub store_output_lem :
      (mgr : OutputManager lib) (fd : ℕ) (buff : List ℕ)
      → IsManager mgr
      → fd < max_fd_size
      → length buff < 2 ^ 31
      → (n : ℕ) × (after : OutputManager lib) × (store_output lib mgr fd (some buff)
          ≡ some (pos n, after))
        × Stored mgr fd buff n after
  unfolding store_output
  store_output_lem mgr fd [] m lt small = (0, mgr, refl, Stored-nothing mgr fd m)
  store_output_lem mgr fd (b ∷ bs) m lt small =
      let (r, e, grew) =
        store_loop-Ends lib (suc (length (b ∷ bs))) (handler_at mgr fd) (b ∷ bs) 0 0 (m.valid fd)
          (omega arith) (omega arith) small in
      let (n, eq, fed) = grew in
      (
        n,
        written mgr fd r.0,
        rw (got_handler mgr fd lt) (
            store_at_ends (get_output_handler_by_fd lib mgr fd).1 fd (b ∷ bs) (handler_at mgr fd) r
              n e eq),
        Stored-written mgr fd (b ∷ bs) n r.0 m fed,
      )

  -- Successive writes to one connection.
  unfoldable pub store_all : OutputManager lib → ℕ → List (List ℕ) → Option (OutputManager lib)
  store_all mgr fd [] = some mgr
  store_all mgr fd (b ∷ bs) = elim (store_output lib mgr fd (some b)) [
    | none ↦ none
    | some r ↦ store_all r.1 fd bs
  ]

  -- Every write is of fewer bytes than an `int` counts.
  abbrev pub AllSmall : List (List ℕ) → Type 0
  AllSmall [] = Unit
  AllSmall (b ∷ bs) = (length b < 2 ^ 31) × AllSmall bs

  pub store_all_lem :
      (mgr : OutputManager lib) (fd : ℕ) (bs : List (List ℕ))
      → IsManager mgr
      → fd < max_fd_size
      → AllSmall bs
      → (after : OutputManager lib) × (store_all mgr fd bs ≡ some after)
        × IsManager after
        × (stream_at after fd ≡ absorb_all lib (stream_at mgr fd) (bytes_of bs))
  unfolding store_all absorb_all
  store_all_lem mgr fd [] m lt small = (mgr, refl, m, refl)
  store_all_lem mgr fd (b ∷ bs) m lt small =
      let (n, mid, e, s) = store_output_lem mgr fd b m lt small.0 in
      let (after, e', m', fed) = store_all_lem mid fd bs s.valid lt small.1 in
      (
        after,
        rw (e, store_all) e',
        m',
        fed
            ∙ ap (λ t. absorb_all lib t (bytes_of bs)) s.fed
            ∙ sym (absorb_all-append lib (stream_at mgr fd) b (bytes_of bs)),
      )
