-- ===== src/Consensus/Apply.antt =====
-- A replica applies the record numbers one after the other, whatever its log holds.
use Prim.Native.Nat.add
use rdma_paxos.Prelude.{
  ℕ, zero, suc, ◌+◌, ◌-◌, ◌^◌, ◌≤◌, ◌<◌, ◌≡◌, ◌∙◌, ap, refl, sym, List, [], ◌∷◌, ◌++◌, some, arith,
  ◌==◌, Bool-cases, inl, inr, u64, is_positive, ℤ,
}
use rdma_paxos.ViewStamp.{ViewStamp, IsStamp, vstol, view_stamp_comp}
use rdma_paxos.ViewStamp.Order.{is_positive-view_stamp_comp}
use rdma_paxos.Log.{LogEntry, log_get_entry}
use rdma_paxos.Db.{BerkeleyDb}
use rdma_paxos.Consensus.Replica.{
  apply_loop, apply_committed, is_complete, ReplicaState, Accepted, accept_entry, accept_round,
  accept_rounds, accept_at, idle, located, overwritten,
}

-- `n` record numbers from `a` on.
abbrev pub range : ℕ → ℕ → List ℕ
range a zero = []
range a (suc n) = a ∷ range (a + 1) n

pub range-append : (a m n : ℕ) → range a m ++ range (a + m) n ≡ range a (m + n)
range-append a zero n = ap (λ k. range k n) (omega arith) ∙ ap (range a) (omega arith)
range-append a (suc m) n =
    ap (λ r. a ∷ r)
      (ap (λ k. range (a + 1) m ++ range k n) (omega arith) ∙ range-append (a + 1) m n)
    ∙ ap (range a) (sym (add.suc m n))

apply_loop_lem :
    (n index end : ℕ)
    → end + 1 ≡ index + n
    → end + 1 < 2 ^ 64
    → apply_loop (suc n) index end ≡ some (range index n)
unfolding apply_loop
apply_loop_lem zero index end e lt = ground arith
apply_loop_lem (suc n) index end e lt = ground (arith, apply_loop_lem n (index + 1) end)

-- A stamp that a `for` loop over `uint64_t` can count up to.
pub record IsBounded (vs : ViewStamp) : Type 0 where
  pub stamp : IsStamp vs
  pub below : vstol vs + 1 < 2 ^ 64

-- What a step from the committed stamp `c` applies, and where it ends.
pub record Applies (c c' : ViewStamp) (indices : List ℕ) : Type 0 where
  pub grows : vstol c ≤ vstol c'
  pub bounded : IsBounded c'
  pub here : indices ≡ range (vstol c + 1) (vstol c' - vstol c)

Applies-nothing : (c : ViewStamp) → IsBounded c → Applies c c []
Applies-nothing c b = record {
  grows = omega arith;
  bounded = b;
  here = ap (range (vstol c + 1)) {x = 0} (omega arith);
}

Applies-append :
    (a b c : ViewStamp) (xs ys : List ℕ) → Applies a b xs → Applies b c ys → Applies a c (xs ++ ys)
Applies-append a b c xs ys p q = record {
  grows = omega (arith, p.grows, q.grows);
  bounded = q.bounded;
  here =
      ap (λ z. z ++ ys) p.here
      ∙ ap (λ z. range (vstol a + 1) (vstol b - vstol a) ++ z) q.here
      ∙ ap (λ k. range (vstol a + 1) (vstol b - vstol a) ++ range k (vstol c - vstol b))
          (omega (arith, p.grows))
      ∙ range-append (vstol a + 1) (vstol b - vstol a) (vstol c - vstol b)
      ∙ ap (range (vstol a + 1)) (omega (arith, p.grows, q.grows));
}

loop_between :
    (c x : ℕ)
    → c < x
    → x + 1 < 2 ^ 64
    → apply_loop (x + 2 - u64 (c + 1)) (u64 (c + 1)) x ≡ some (range (c + 1) (x - c))
loop_between c x lt below =
    ap (λ k. apply_loop k (u64 (c + 1)) x) fuel
    ∙ ap (λ k. apply_loop (suc (x - c)) k x) start
    ∙ apply_loop_lem (x - c) (c + 1) x (omega arith) below
  where
    fuel : x + 2 - u64 (c + 1) ≡ suc (x - c)
    fuel = omega arith

    start : u64 (c + 1) ≡ c + 1
    start = omega arith

-- The callbacks of one entry run to an end and are as `Applies` says.
pub apply_committed-Applies :
    (c x : ViewStamp)
    → IsBounded c
    → IsBounded x
    → (indices : List ℕ) × ((apply_committed c x).0 ≡ some indices)
      × Applies c (apply_committed c x).1 indices
unfolding apply_committed
apply_committed-Applies c x bc bx = elim (Bool-cases (is_positive (view_stamp_comp x c))) [
  | inl up ↦
      let lt = (is_positive-view_stamp_comp x c bx.stamp bc.stamp).0 up in
      (
        range (vstol c + 1) (vstol x - vstol c),
        rw up (loop_between (vstol c) (vstol x) lt bx.below),
        rw up (record { grows = omega (arith, lt); bounded = bx; here = refl }),
      )
  | inr down ↦ ([], rw down, rw down (Applies-nothing c bc))
]

-- The stamps that the entries of a memory commit are bounded.
pub record IsSane (memory : ℕ → LogEntry) : Type 0 where
  pub at : (offset : ℕ) → IsBounded (memory offset).req_canbe_exed

module _ (bdb : BerkeleyDb) (ug : ViewStamp → ℕ) (get_output_hash : ℕ → ℤ → ℕ) where
  abbrev pub committed : ReplicaState bdb → ViewStamp
  committed s = s.comp.highest_committed_vs

  accept_entry-Applies :
      (s : ReplicaState bdb) (at : ℕ)
      → IsBounded (committed s)
      → IsSane s.srv.log.entries
      → (a : Accepted bdb) × (accept_entry bdb ug get_output_hash s at ≡ some a)
        × Applies (committed s) (committed a.state) a.applied
  unfolding accept_entry
  accept_entry-Applies s at b sane =
      let (indices, e, p) =
        apply_committed-Applies (committed s) (s.srv.log.entries at).req_canbe_exed b
          (sane.at at) in
      (
        accept_at bdb ug get_output_hash s at
            (apply_committed (committed s) (s.srv.log.entries at).req_canbe_exed).1 indices,
        rw (e, accept_entry),
        p,
      )

  accept_round-Applies :
      (s : ReplicaState bdb)
      → IsBounded (committed s)
      → IsSane s.srv.log.entries
      → (a : Accepted bdb) × (accept_round bdb ug get_output_hash s ≡ some a)
        × Applies (committed s) (committed a.state) a.applied
  unfolding accept_round
  accept_round-Applies s b sane = elim (Bool-cases (s.comp.cur_view.leader_id == s.comp.node_id)) [
    | inl leads ↦ (idle bdb ug get_output_hash s, rw leads, Applies-nothing (committed s) b)
    | inr follows ↦
        elim (Bool-cases
          (is_complete (s.srv.log.entries (log_get_entry s.srv.log s.srv.log.end)))) [
            | inl full ↦
                rw (follows, full)
                  (accept_entry-Applies (located bdb ug get_output_hash s)
                    (log_get_entry s.srv.log s.srv.log.end) b sane)
            | inr part ↦ (
              idle bdb ug get_output_hash (located bdb ug get_output_hash s),
              rw (follows, part),
              Applies-nothing (committed s) b,
            )
          ]
  ]

  abbrev AllSane : List (ℕ → LogEntry) → Type 0
  AllSane [] = Unit
  AllSane (memory ∷ later) = IsSane memory × AllSane later

  accept_rounds-Applies :
      (s : ReplicaState bdb) (memories : List (ℕ → LogEntry))
      → IsBounded (committed s)
      → AllSane memories
      → (r : ReplicaState bdb × List ℕ) × (accept_rounds bdb ug get_output_hash s memories ≡ some r)
        × Applies (committed s) (committed r.0) r.1
  unfolding accept_rounds
  accept_rounds-Applies s [] b sane = ((s, []), refl, Applies-nothing (committed s) b)
  accept_rounds-Applies s (memory ∷ later) b sane =
      let (a, e, p) = accept_round-Applies (overwritten bdb ug get_output_hash s memory) b sane.0 in
      let (r, e', q) = accept_rounds-Applies a.state later p.bounded sane.1 in
      (
        (r.0, a.applied ++ r.1),
        rw (e, accept_rounds, e'),
        Applies-append (committed s) (committed a.state) (committed r.0) a.applied r.1 p q,
      )

  -- However the memory of the log changes between the rounds, as long as the stamps in it are
  -- bounded, the rounds end, the committed stamp never goes back, and the callback was called with
  -- the record numbers after the old committed one up to the new one, each once and in order.
  pub accept_rounds-in_order :
      (s : ReplicaState bdb) (memories : List (ℕ → LogEntry))
      → IsBounded (committed s)
      → AllSane memories
      → (s' : ReplicaState bdb) × (applied : List ℕ) × (accept_rounds bdb ug get_output_hash s
            memories
          ≡ some (s', applied))
        × (vstol (committed s) ≤ vstol (committed s'))
        × (applied ≡ range (vstol (committed s) + 1) (vstol (committed s') - vstol (committed s)))
  accept_rounds-in_order s memories b sane =
      let (r, e, p) = accept_rounds-Applies s memories b sane in (r.0, r.1, e, p.grows, p.here)
