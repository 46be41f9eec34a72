-- ===== src/Consensus/Flight.antt =====
-- The calls in flight as a list that ascends in the stamps that they were given.
use native.Mathlib.Omega.{arith}
use rdma_paxos.Prelude.{
  ℕ, zero, suc, ◌+◌, ◌≤◌, ◌<◌, ◌≡◌, ◌≢◌, ap, sym, ◌∙◌, subst, List, [], ◌∷◌, ◌++◌, none, some,
  get_elem?,
}
use mathlib.Core.Option.{none-ne-some, some-injective}
use rdma_paxos.Consensus.Threads.{passed, Call, edit}

abbrev pub req : Call → ℕ
req c = c.r.next.req_id

-- The stamps ascend, above `lo` and up to `hi`.
abbrev pub Between : ℕ → ℕ → List Call → Type 0
Between lo hi [] = lo ≤ hi
Between lo hi (c ∷ cs) = (lo < req c) × Between (req c) hi cs

-- No call has the stamp `k`.
abbrev pub Absent : ℕ → List Call → Type 0
Absent k [] = Unit
Absent k (c ∷ cs) = (req c ≢ k) × Absent k cs

-- A call that has left the wait has the stamp after `lo`.
abbrev pub Passing : ℕ → List Call → Type 0
Passing lo [] = Unit
Passing lo (c ∷ cs) = (c.stage ≡ passed → req c ≡ lo + 1) × Passing lo cs

pub Between-le : (lo hi : ℕ) (cs : List Call) → Between lo hi cs → lo ≤ hi
Between-le lo hi [] b = b
Between-le lo hi (c ∷ cs) b = omega (arith, b.0, Between-le (req c) hi cs b.1)

Between-lower : (lo lo' hi : ℕ) (cs : List Call) → lo ≤ lo' → Between lo' hi cs → Between lo hi cs
Between-lower lo lo' hi [] le b = omega (arith, b)
Between-lower lo lo' hi (c ∷ cs) le b = (omega (arith, b.0), b.1)

pub Between-enter :
    (lo hi : ℕ) (cs : List Call) (c : Call)
    → Between lo hi cs
    → req c ≡ hi + 1
    → Between lo (hi + 1) (cs ++ c ∷ [])
Between-enter lo hi [] c b e = (omega (arith, b), omega arith)
Between-enter lo hi (d ∷ ds) c b e = (b.0, Between-enter (req d) hi ds c b.1 e)

pub Between-get :
    (lo hi n : ℕ) (cs : List Call) (c : Call)
    → Between lo hi cs
    → get_elem? cs n ≡ some c
    → (lo < req c) × (req c ≤ hi)
Between-get lo hi n [] c b e = absurd (none-ne-some c e)
Between-get lo hi zero (d ∷ ds) c b e =
    subst (λ x. (lo < req x) × (req x ≤ hi)) (some-injective d c e)
      (b.0, Between-le (req d) hi ds b.1)
Between-get lo hi (suc n) (d ∷ ds) c b e =
    let (above, below) = Between-get (req d) hi n ds c b.1 e in (omega (arith, b.0), below)

-- A call is changed and keeps its stamp.
pub Between-edit :
    (lo hi n : ℕ) (cs : List Call) (c c' : Call)
    → Between lo hi cs
    → get_elem? cs n ≡ some c
    → req c' ≡ req c
    → Between lo hi (edit n (some c') cs)
unfolding edit
Between-edit lo hi n [] c c' b e same = b
Between-edit lo hi zero (d ∷ ds) c c' b e same =
    let again : req c' ≡ req d = same ∙ sym (ap req (some-injective d c e)) in
    (omega (arith, b.0, again), subst (λ k. Between k hi ds) (sym again) b.1)
Between-edit lo hi (suc n) (d ∷ ds) c c' b e same =
    (b.0, Between-edit (req d) hi n ds c c' b.1 e same)

pub Between-remove :
    (lo hi n : ℕ) (cs : List Call) → Between lo hi cs → Between lo hi (edit n none cs)
unfolding edit
Between-remove lo hi n [] b = b
Between-remove lo hi zero (d ∷ ds) b = Between-lower lo (req d) hi ds (omega (arith, b.0)) b.1
Between-remove lo hi (suc n) (d ∷ ds) b = (b.0, Between-remove (req d) hi n ds b.1)

-- The call that commits is the first one.
pub Between-commit :
    (lo hi n : ℕ) (cs : List Call) (c : Call)
    → Between lo hi cs
    → get_elem? cs n ≡ some c
    → req c ≡ lo + 1
    → Between (lo + 1) hi (edit n none cs)
unfolding edit
Between-commit lo hi n [] c b e next = absurd (none-ne-some c e)
Between-commit lo hi zero (d ∷ ds) c b e next =
    subst (λ k. Between k hi ds) (ap req (some-injective d c e) ∙ next) b.1
Between-commit lo hi (suc n) (d ∷ ds) c b e next =
    absurd (omega (arith, b.0, Between-get (req d) hi n ds c b.1 e))

pub Passing-get :
    (lo n : ℕ) (cs : List Call) (c : Call)
    → Passing lo cs
    → get_elem? cs n ≡ some c
    → c.stage ≡ passed
    → req c ≡ lo + 1
Passing-get lo n [] c p e = absurd (none-ne-some c e)
Passing-get lo zero (x ∷ xs) c p e =
    subst (λ y. y.stage ≡ passed → req y ≡ lo + 1) (some-injective x c e) p.0
Passing-get lo (suc n) (x ∷ xs) c p e = Passing-get lo n xs c p.1 e

pub Passing-edit :
    (lo n : ℕ) (cs : List Call) (c' : Call)
    → Passing lo cs
    → (c'.stage ≡ passed → req c' ≡ lo + 1)
    → Passing lo (edit n (some c') cs)
unfolding edit
Passing-edit lo n [] c' p new = p
Passing-edit lo zero (x ∷ xs) c' p new = (new, p.1)
Passing-edit lo (suc n) (x ∷ xs) c' p new = (p.0, Passing-edit lo n xs c' p.1 new)

pub Passing-remove : (lo n : ℕ) (cs : List Call) → Passing lo cs → Passing lo (edit n none cs)
unfolding edit
Passing-remove lo n [] p = p
Passing-remove lo zero (x ∷ xs) p = p.1
Passing-remove lo (suc n) (x ∷ xs) p = (p.0, Passing-remove lo n xs p.1)

pub Passing-enter :
    (lo : ℕ) (cs : List Call) (c : Call)
    → Passing lo cs
    → (c.stage ≡ passed → req c ≡ lo + 1)
    → Passing lo (cs ++ c ∷ [])
Passing-enter lo [] c p new = (new, p)
Passing-enter lo (x ∷ xs) c p new = (p.0, Passing-enter lo xs c p.1 new)

-- Once the stamp after `lo` is committed, no other call has left the wait.
pub Passing-commit :
    (lo lo' hi : ℕ) (cs : List Call)
    → Passing lo cs
    → lo + 1 ≤ lo'
    → Between lo' hi cs
    → Passing (lo + 1) cs
Passing-commit lo lo' hi [] p le b = p
Passing-commit lo lo' hi (x ∷ xs) p le b = (
  (λ is. absurd (omega (arith, p.0 is, b.0))),
  Passing-commit lo (req x) hi xs p.1 (omega (arith, b.0)) b.1,
)

pub Absent-enter :
    (k : ℕ) (cs : List Call) (c : Call) → Absent k cs → req c ≢ k → Absent k (cs ++ c ∷ [])
Absent-enter k [] c a new = (new, a)
Absent-enter k (x ∷ xs) c a new = (a.0, Absent-enter k xs c a.1 new)

pub Absent-get :
    (k n : ℕ) (cs : List Call) (c : Call) → Absent k cs → get_elem? cs n ≡ some c → req c ≢ k
Absent-get k n [] c a e = absurd (none-ne-some c e)
Absent-get k zero (x ∷ xs) c a e = subst (λ y. req y ≢ k) (some-injective x c e) a.0
Absent-get k (suc n) (x ∷ xs) c a e = Absent-get k n xs c a.1 e

pub Absent-edit :
    (k n : ℕ) (cs : List Call) (c' : Call)
    → Absent k cs
    → req c' ≢ k
    → Absent k (edit n (some c') cs)
unfolding edit
Absent-edit k n [] c' a new = a
Absent-edit k zero (x ∷ xs) c' a new = (new, a.1)
Absent-edit k (suc n) (x ∷ xs) c' a new = (a.0, Absent-edit k n xs c' a.1 new)

pub Absent-remove : (k n : ℕ) (cs : List Call) → Absent k cs → Absent k (edit n none cs)
unfolding edit
Absent-remove k n [] a = a
Absent-remove k zero (x ∷ xs) a = a.1
Absent-remove k (suc n) (x ∷ xs) a = (a.0, Absent-remove k n xs a.1)
