-- ===== src/Rc/Setup.antt =====
-- `rc_init` and `rc_free`: the protection domain, the registered memory, and the queues for every
-- server. What the library can make is an argument.
use native.Mathlib.Omega.{arith}
use rdma_paxos.Prelude.{
  some, none, Option, ℕ, zero, suc, ◌<◌, ◌≡◌, refl, ◌==◌, if◌then◌else◌, Bool, true, false, ◌&&◌,
  every_below, List, [], ◌∷◌, ◌++◌, update,
}

-- Which calls of the library make something, with the result of `find_max_inline`.
pub record Library : Type 0 where
  pub ibv_alloc_pd : Bool
  pub inline : ℕ × ℕ
  pub ibv_reg_mr : Bool
  pub ibv_create_cq : ℕ → Bool
  pub ibv_create_qp : ℕ → Bool
  pub max_qp_wr : ℕ
  pub max_cqe : ℕ

-- What `dare_ib_device_t` and the endpoints hold of it; a null pointer is false.
pub record Resources : Type 0 where
  pub rc_max_send_wr : ℕ
  pub rc_cqe : ℕ
  pub rc_pd : Bool
  pub rc_max_inline_data : ℕ
  pub lcl_mr : Bool
  pub cq : ℕ → Bool
  pub qp : ℕ → Bool

unfoldable pub rc_prerequisite : Library → Resources → ℕ × Resources
rc_prerequisite lib r =
    let r' : Resources = record r {
      rc_max_send_wr = lib.max_qp_wr;
      rc_cqe = lib.max_cqe;
      rc_pd = lib.ibv_alloc_pd;
    } in
    if lib.ibv_alloc_pd
    then (if lib.inline.0 == 0
        then (0, record r' { rc_max_inline_data = lib.inline.1 })
        else (1, record r' { rc_max_inline_data = lib.inline.1 }))
    else (1, r')

unfoldable pub rc_memory_reg : Library → Resources → ℕ × Resources
rc_memory_reg lib r = (if lib.ibv_reg_mr then 0 else 1, record r { lcl_mr = lib.ibv_reg_mr })

unfoldable pub rc_cq_create : Library → ℕ → Resources → ℕ × Resources
rc_cq_create lib i r =
    (if lib.ibv_create_cq i then 0 else 1, record r { cq = update r.cq i (lib.ibv_create_cq i) })

unfoldable pub rc_qp_create : Library → ℕ → Resources → ℕ × Resources
rc_qp_create lib i r =
    (if lib.ibv_create_qp i then 0 else 1, record r { qp = update r.qp i (lib.ibv_create_qp i) })

-- The loop of `rc_init` over the servers below `n`.
unfoldable pub create_queues : ℕ → Library → Resources → ℕ × Resources
create_queues zero lib r = (0, r)
create_queues (suc n) lib r =
    let (rc, r1) = create_queues n lib r in
    let (rc', r2) = rc_cq_create lib n r1 in
    let (rc'', r3) = rc_qp_create lib n r2 in
    if rc == 0
    then (if rc' == 0 then (if rc'' == 0 then (0, r3) else (1, r3)) else (1, r2))
    else (1, r1)

unfoldable pub rc_init : (len : ℕ) → Library → Resources → ℕ × Resources
rc_init len lib r =
    let (rc, r1) = rc_prerequisite lib r in
    let (rc', r2) = rc_memory_reg lib r1 in
    if rc == 0 then (if rc' == 0 then create_queues len lib r2 else (1, r2)) else (1, r1)

-- The calls that give something back.
pub data Release : Type 0 where
  destroy_qp destroy_cq : ℕ → Release
  dealloc_pd dereg_mr : Release

unfoldable pub rc_qp_destroy : ℕ → Resources → Resources
rc_qp_destroy i r = record r { qp = update r.qp i false }

unfoldable pub rc_cq_destroy : ℕ → Resources → Resources
rc_cq_destroy i r = record r { cq = update r.cq i false }

-- The loop of `rc_free` over the servers below `n`; `ep` says who has an endpoint. None: a queue that
-- was never made is destroyed through a null pointer. The handles of a server change only at its own
-- turn.
unfoldable pub destroy_queues : ℕ → (ep : ℕ → Bool) → Resources → Option (List Release × Resources)
destroy_queues zero ep r = some ([], r)
destroy_queues (suc n) ep r = elim (destroy_queues n ep r) [
  | none ↦ none
  | some (calls, r') ↦
      if ep n
      then (if r.qp n && r.cq n
          then some
              (calls ++ destroy_qp n ∷ destroy_cq n ∷ [], rc_cq_destroy n (rc_qp_destroy n r'))
          else none)
      else some (calls, r')
]

-- `rc_memory_dereg`, where the library does not fail.
unfoldable pub rc_memory_dereg : Resources → List Release × Resources
rc_memory_dereg r = if r.lcl_mr then (dereg_mr ∷ [], record r { lcl_mr = false }) else ([], r)

-- The pointer to the protection domain is left as it is.
unfoldable pub rc_free : (len : ℕ) → (ep : ℕ → Bool) → Resources → Option (List Release × Resources)
rc_free len ep r = elim (destroy_queues len ep r) [
  | none ↦ none
  | some (calls, r') ↦
      let (last, r'') = rc_memory_dereg r' in
      some (calls ++ (if r'.rc_pd then dealloc_pd ∷ [] else []) ++ last, r'')
]

-- Both queues of a server can be made.
abbrev pub both : Library → ℕ → Bool
both lib i = lib.ibv_create_cq i && lib.ibv_create_qp i

create_queues-able :
    (n : ℕ) (lib : Library) (r : Resources)
    → (create_queues n lib r).0 ≡ (if every_below (both lib) n then 0 else 1)
unfolding create_queues rc_cq_create rc_qp_create every_below
create_queues-able zero lib r = refl
create_queues-able (suc n) lib r = ground (arith, create_queues-able n lib r)

-- The queues of server `i` are held.
abbrev pub Held : Resources → ℕ → Type 0
Held r i = (r.cq i ≡ true) × (r.qp i ≡ true)

create_queues-made :
    (n : ℕ) (lib : Library) (r : Resources) (i : ℕ)
    → (create_queues n lib r).0 ≡ 0
    → i < n
    → Held (create_queues n lib r).1 i
unfolding create_queues rc_cq_create rc_qp_create
create_queues-made zero lib r i e lt = elim lt [ ]
create_queues-made (suc n) lib r i e lt = ground (arith, create_queues-made n lib r i)

-- Before the queues are made.
abbrev with_memory : Library → Resources → Resources
with_memory lib r = (rc_memory_reg lib (rc_prerequisite lib r).1).1

-- Everything that `rc_init` needs can be had.
abbrev pub able : ℕ → Library → Bool
able len lib = lib.ibv_alloc_pd && lib.inline.0 == 0 && lib.ibv_reg_mr && every_below (both lib) len

-- `rc_init` succeeds just when the domain, the inline size, the memory and both queues of every
-- server can be had, and returns 1 otherwise.
pub rc_init-able :
    (len : ℕ) (lib : Library) (r : Resources)
    → (rc_init len lib r).0 ≡ (if able len lib then 0 else 1)
unfolding rc_init rc_prerequisite rc_memory_reg
rc_init-able len lib r = ground (arith, create_queues-able len lib (with_memory lib r))

create_queues-lcl_mr :
    (n : ℕ) (lib : Library) (r : Resources) → (create_queues n lib r).1.lcl_mr ≡ r.lcl_mr
unfolding create_queues rc_cq_create rc_qp_create
create_queues-lcl_mr zero lib r = refl
create_queues-lcl_mr (suc n) lib r = ground (arith, create_queues-lcl_mr n lib r)

-- After an `rc_init` that succeeds, the memory and both queues of every server are held.
pub rc_init_lem :
    (len : ℕ) (lib : Library) (r : Resources)
    → (rc_init len lib r).0 ≡ 0
    → ((rc_init len lib r).1.lcl_mr ≡ true) × ((i : ℕ) → i < len → Held (rc_init len lib r).1 i)
unfolding rc_init rc_prerequisite rc_memory_reg
rc_init_lem len lib r e = (
  ground (arith, e, create_queues-lcl_mr len lib (with_memory lib r)),
  λ i lt. ground (arith, e, lt, create_queues-made len lib (with_memory lib r) i),
)
