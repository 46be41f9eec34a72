-- ===== src/SharedMemory/Replicated.antt =====
-- A leader and a replica from their start on.
use native.Mathlib.Omega.{arith}
use rdma_paxos.Prelude.{
  ℕ, zero, suc, ◌+◌, ◌^◌, ◌<◌, ◌≤◌, ◌≡◌, ◌≢◌, refl, ap, subst, ◌∙◌, sym, List, [], ◌∷◌, ◌++◌, map,
  append-nil, append_assoc, Option, none, some, length,
}
use rdma_paxos.Consensus.Types.{leader, secondary}
use rdma_paxos.SharedMemory.Types.{SharedDb, zero_shared_entry, init_shared_comp, shared_log_size}
use rdma_paxos.SharedMemory.Held.{datas}
use rdma_paxos.SharedMemory.Service.{stamp_of, SharedTurn, Group, serve_shared, IsSharedWritable}
use rdma_paxos.SharedMemory.Turns.{AfterTurns}
use rdma_paxos.SharedMemory.Steps.{serve_shared-AfterTurns}

abbrev pub requests : List SharedTurn → List (List ℕ)
requests = map (λ t. t.bytes)

-- The bytes that the entries of the requests take.
abbrev pub shared_size : List SharedTurn → ℕ
shared_size [] = 0
shared_size (t ∷ later) = 192 + length t.bytes + shared_size later

length-shared_size : (turns : List SharedTurn) → length turns ≤ shared_size turns
length-shared_size [] = omega arith
length-shared_size (t ∷ later) = omega (arith, length-shared_size later)

leads_started : (i size : ℕ) → (init_shared_comp i size b's').my_role ≡ leader
unfolding init_shared_comp
leads_started i size = ground arith

follows_started :
    (j size mode : ℕ)
    → j < 4
    → j ≢ 0
    → mode ≢ b's'
    → (init_shared_comp j size mode).my_role ≡ secondary
unfolding init_shared_comp
follows_started j size mode lt later other = ground (arith, lt, later, other)

module _ (sdb : SharedDb) where
  open sdb use {Handle}

  -- Requests, one after the other: what the replica has sent to its server.
  unfoldable pub serve_all : List SharedTurn → Group sdb → Option (Group sdb × List (List ℕ))
  serve_all [] g = some (g, [])
  serve_all (t ∷ later) g = elim (serve_shared sdb t g) [
    | none ↦ none
    | some (g', sent) ↦ elim (serve_all later g') [
      | none ↦ none
      | some (g'', rest) ↦ some (g'', datas sent ++ rest)
    ]
  ]

  -- The data that the replica has not sent is at most one request.
  pending_short :
      (n : ℕ) (pending : List (List ℕ)) (g : Group sdb)
      → AfterTurns sdb n pending g
      → length pending ≤ 1
  pending_short zero pending g inv = rw inv.holds (omega arith)
  pending_short (suc n) pending g inv = rw (inv.holds.4) (omega arith)

  serve_all-AfterTurns :
      (writable : IsSharedWritable sdb) (n : ℕ) (pending : List (List ℕ)) (turns : List SharedTurn)
      (g : Group sdb)
      → AfterTurns sdb n pending g
      → n + length turns < 2 ^ 32
      → g.lead.tail + shared_size turns < 2 ^ 32
      → (g' : Group sdb) × (sent pending' : List (List ℕ)) × (serve_all turns g ≡ some (g', sent))
        × (sent ++ pending' ≡ pending ++ requests turns)
        × AfterTurns sdb (n + length turns) pending' g'
  unfolding serve_all
  serve_all-AfterTurns writable n pending [] g inv lt room = (
    g,
    [],
    pending,
    refl,
    sym (append-nil pending),
    subst (λ k. AfterTurns sdb k pending g) (omega arith) inv,
  )
  serve_all-AfterTurns writable n pending (t ∷ later) g inv lt room =
      let (g', sent, serves, all, inv', tail) =
        serve_shared-AfterTurns sdb writable n pending t g inv (omega (arith, lt))
          (omega (arith, room)) in
      let (g'', rest, pending', serves', all', inv'') =
        serve_all-AfterTurns writable (suc n) (t.bytes ∷ []) later g' inv' (omega (arith, lt))
          (omega (arith, room, tail)) in
      (
        g'',
        datas sent ++ rest,
        pending',
        rw (serves, serve_all, serves') refl,
        append_assoc (datas sent) rest pending' ∙ rw (all, all') refl,
        subst (λ k. AfterTurns sdb k pending' g'') (omega arith) inv'',
      )

  -- A leader and a replica that have just started, over segments that are all zero.
  abbrev pub started : (i j size mode : ℕ) → Handle → Handle → Group sdb
  started i j size mode h h' = record {
    lead = record { comp = init_shared_comp i size b's'; tail = 0; db = some h };
    rep = record { comp = init_shared_comp j size mode; tail = 0; db = some h' };
    mem = λ node at. zero_shared_entry;
    last = none;
  }

  started-AfterTurns :
      (i j size mode : ℕ) (h h' : Handle)
      → 1 < size
      → size < 4
      → i < size
      → j < size
      → j ≢ i
      → AfterTurns sdb 0 [] (started i j size mode h h')
  unfolding init_shared_comp
  started-AfterTurns i j size mode h h' several few li lj apart = record {
    group = record {
      several = several;
      few = few;
      lead_in = omega (arith, li, few);
      rep_in = omega (arith, lj, few);
      apart = omega (arith, li, lj, few, apart);
    };
    seen = refl;
    committed = refl;
    behind = refl;
    tails = refl;
    empty = λ node at le. refl;
    lead_open = (h, refl);
    rep_open = (h', refl);
    holds = refl;
  }

  -- From the components that a leader and a replica of a group of two or three start with.
  pub serve_all-replicates :
      (i j size mode : ℕ) (h h' : Handle) (turns : List SharedTurn)
      → IsSharedWritable sdb
      → 1 < size
      → size < 4
      → i < size
      → j < size
      → j ≢ i
      → j ≢ 0
      → mode ≢ b's'
      → shared_size turns ≤ shared_log_size
      → ((started i j size mode h h').lead.comp.my_role ≡ leader)
        × ((started i j size mode h h').rep.comp.my_role ≡ secondary)
        × (g : Group sdb) × (sent pending : List (List ℕ)) × (serve_all turns
              (started i j size mode h h')
            ≡ some (g, sent))
        × (g.lead.comp.committed ≡ stamp_of (length turns))
        × (sent ++ pending ≡ requests turns)
        × (length pending ≤ 1)
  serve_all-replicates i j size mode h h' turns writable several few li lj apart later other fits =
      let (g, sent, pending, serves, all, inv) =
        serve_all-AfterTurns writable 0 [] turns (started i j size mode h h')
          (started-AfterTurns i j size mode h h' several few li lj apart)
          (omega (arith, fits, length-shared_size turns)) (omega (arith, fits)) in
      (
        leads_started i size,
        follows_started j size mode (omega (arith, lj, few)) later other,
        g,
        sent,
        pending,
        serves,
        inv.committed ∙ ap stamp_of (omega arith),
        all,
        pending_short (0 + length turns) pending g inv,
      )
