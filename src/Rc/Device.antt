-- ===== src/Rc/Device.antt =====
-- `dare_init_ib_device` and `init_one_device` of dare_ibv.c: the choice of a device and of its port.
use native.Mathlib.Omega.{arith}
use rdma_paxos.Prelude.{
  ℕ, suc, ◌+◌, ◌≡◌, ◌==◌, refl, sym, ap, ◌∙◌, if◌then◌else◌, Bool, true, false, Bool-cases, inl,
  inr, List, [], ◌∷◌, Option, none, some, Option-cases, zero,
}
use mathlib.Core.Option.{none-ne-some, some-injective}

-- What the library says of a port: whether it can be queried, whether it is active, its lid, and its
-- pkeys, with none for one that cannot be read.
pub record Port : Type 0 where
  pub answers : Bool
  pub is_active : Bool
  pub lid : ℕ
  pub pkeys : List (Option ℕ)

-- A device, its ports from number 1 on.
pub record Hca : Type 0 where
  pub opens : Bool
  pub has_attr : Bool
  pub ports : List Port

-- What `init_one_device` fills in.
pub record Opened : Type 0 where
  pub port_num : ℕ
  pub pkey_index : ℕ
  pub mtu : ℕ
  pub lid : ℕ
  pub gid_idx : ℕ

-- The loop over the pkeys from index `j` on; `index` is the field before. None is an error.
unfoldable pub find_pkey : ℕ → List (Option ℕ) → (index : ℕ) → Option ℕ
find_pkey j [] index = some index
find_pkey j (none ∷ rest) index = none
find_pkey j (some pkey ∷ rest) index =
    let later = find_pkey (j + 1) rest index in if pkey == 65535 then some j else later

abbrev opened_at : ℕ → Port → Option ℕ → Option Opened
opened_at i p none = none
opened_at i p (some index) =
    some (record { port_num = i; pkey_index = index; mtu = 5; lid = p.lid; gid_idx = 0 })

-- The loop over the ports from number `i` on.
unfoldable pub find_port : ℕ → List Port → Option Opened
find_port i [] = none
find_port i (p ∷ ps) =
    let later = find_port (i + 1) ps in
    if p.answers
    then (if p.is_active then opened_at i p (find_pkey 0 p.pkeys 0) else later)
    else none

unfoldable pub init_one_device : Hca → Option Opened
init_one_device hca =
    if hca.opens then (if hca.has_attr then find_port 1 hca.ports else none) else none

-- The first device that can be set up.
unfoldable pub first_device : List Hca → Option Opened
first_device [] = none
first_device (hca ∷ rest) =
    let later = first_device rest in elim (init_one_device hca) [ none ↦ later | some d ↦ some d ]

unfoldable pub dare_init_ib_device : List Hca → ℕ × Option Opened
dare_init_ib_device hcas = elim (first_device hcas) [ none ↦ (1, none) | some d ↦ (0, some d) ]

-- Port `k` of the list is active, and none before it is.
abbrev pub IsFirstActive : ℕ → List Port → Type 0
IsFirstActive k [] = ⊥
IsFirstActive zero (p ∷ ps) = p.is_active ≡ true
IsFirstActive (suc k) (p ∷ ps) = (p.is_active ≡ false) × IsFirstActive k ps

find_port-first :
    (i : ℕ) (ports : List Port) (d : Opened)
    → find_port i ports ≡ some d
    → (k : ℕ) × (d.port_num ≡ i + k) × IsFirstActive k ports
unfolding find_port
find_port-first i [] d = λ e. absurd (none-ne-some d e)
find_port-first i (p ∷ ps) d = elim (Bool-cases p.answers) [
  | inl ok ↦ elim (Bool-cases p.is_active) [
    | inl active ↦ elim (Option-cases (find_pkey 0 p.pkeys 0)) [
      | inl bad ↦ rw (ok, active, bad, find_port) (λ e. absurd (none-ne-some d e))
      | inr (index, found) ↦
          rw (ok, active, found, find_port)
            (λ e. (0, ap (λ o. o.port_num) (sym (some-injective _ d e)) ∙ omega arith, refl))
    ]
    | inr idle ↦
        rw (ok, idle, find_port)
          (λ e.
            let (k, at, is) = find_port-first (i + 1) ps d e in
            (suc k, omega (arith, at), (refl, is)))
  ]
  | inr bad ↦ rw (bad, find_port) (λ e. absurd (none-ne-some d e))
]

-- The port of a device that is set up is its first active one.
pub init_one_device-first :
    (hca : Hca) (d : Opened)
    → init_one_device hca ≡ some d
    → (k : ℕ) × (d.port_num ≡ 1 + k) × IsFirstActive k hca.ports
unfolding init_one_device
init_one_device-first hca d e = elim (Bool-cases hca.opens) [
  | inl open_ok ↦ elim (Bool-cases hca.has_attr) [
    | inl known ↦ find_port-first 1 hca.ports d (ground (arith, e, open_ok, known))
    | inr bad ↦ absurd (ground (arith, e, open_ok, bad))
  ]
  | inr bad ↦ absurd (ground (arith, e, bad))
]
