-- ===== src/Consensus/Written.antt =====
-- The entries of the calls in flight keep the stamps that were written to them.

use rdma_paxos.Prelude.{
  ℕ, zero, suc, ◌≡◌, ◌≢◌, ◌∙◌, ap, sym, subst, List, [], ◌∷◌, ◌++◌, none, some, get_elem?,
}
use mathlib.Core.Option.{none-ne-some, some-injective}
use rdma_paxos.Log.{LogEntry}
use rdma_paxos.Consensus.Threads.{reserved, Call, edit, IsApart}

-- The entry of a call that has come behind the filling has its stamp, and every call has an entry
-- of its own.
abbrev pub Written : (ℕ → LogEntry) → List Call → Type 0
Written entries [] = Unit
Written entries (c ∷ cs) =
    (c.stage ≢ reserved → (entries c.r.at).msg_vs ≡ c.r.next)
    × IsApart c.r.at cs
    × Written entries cs

pub Written-get :
    (entries : ℕ → LogEntry) (n : ℕ) (cs : List Call) (c : Call)
    → Written entries cs
    → get_elem? cs n ≡ some c
    → c.stage ≢ reserved
    → (entries c.r.at).msg_vs ≡ c.r.next
Written-get entries n [] c w e = absurd (none-ne-some c e)
Written-get entries zero (x ∷ xs) c w e =
    subst (λ y. y.stage ≢ reserved → (entries y.r.at).msg_vs ≡ y.r.next) (some-injective x c e) w.0
Written-get entries (suc n) (x ∷ xs) c w e = Written-get entries n xs c (w.2) e

IsApart-get :
    (at n : ℕ) (cs : List Call) (c : Call) → IsApart at cs → get_elem? cs n ≡ some c → c.r.at ≢ at
IsApart-get at n [] c a e = absurd (none-ne-some c e)
IsApart-get at zero (x ∷ xs) c a e = subst (λ y. y.r.at ≢ at) (some-injective x c e) a.0
IsApart-get at (suc n) (x ∷ xs) c a e = IsApart-get at n xs c a.1 e

IsApart-edit :
    (at n : ℕ) (cs : List Call) (c c' : Call)
    → IsApart at cs
    → get_elem? cs n ≡ some c
    → c'.r.at ≡ c.r.at
    → IsApart at (edit n (some c') cs)
unfolding edit
IsApart-edit at n [] c c' a e same = a
IsApart-edit at zero (x ∷ xs) c c' a e same =
    (λ is. a.0 (ap (λ y. y.r.at) (some-injective x c e) ∙ sym same ∙ is), a.1)
IsApart-edit at (suc n) (x ∷ xs) c c' a e same = (a.0, IsApart-edit at n xs c c' a.1 e same)

IsApart-remove : (at n : ℕ) (cs : List Call) → IsApart at cs → IsApart at (edit n none cs)
unfolding edit
IsApart-remove at n [] a = a
IsApart-remove at zero (x ∷ xs) a = a.1
IsApart-remove at (suc n) (x ∷ xs) a = (a.0, IsApart-remove at n xs a.1)

IsApart-enter :
    (at : ℕ) (cs : List Call) (c : Call) → IsApart at cs → c.r.at ≢ at → IsApart at (cs ++ c ∷ [])
IsApart-enter at [] c a new = (new, tt)
IsApart-enter at (x ∷ xs) c a new = (a.0, IsApart-enter at xs c a.1 new)

-- Other memory, with the same stamps.
pub Written-same :
    (entries entries' : ℕ → LogEntry) (cs : List Call)
    → ((at : ℕ) → (entries' at).msg_vs ≡ (entries at).msg_vs)
    → Written entries cs
    → Written entries' cs
Written-same entries entries' [] same w = tt
Written-same entries entries' (c ∷ cs) same w =
    (λ is. same c.r.at ∙ w.0 is, w.1, Written-same entries entries' cs same (w.2))

pub Written-enter :
    (entries : ℕ → LogEntry) (cs : List Call) (c : Call)
    → Written entries cs
    → IsApart c.r.at cs
    → c.stage ≡ reserved
    → Written entries (cs ++ c ∷ [])
Written-enter entries [] c w a is = (λ isnt. absurd (isnt is), tt, tt)
Written-enter entries (x ∷ xs) c w a is =
    (w.0, IsApart-enter x.r.at xs c w.1 (λ e. a.0 (sym e)), Written-enter entries xs c (w.2) a.1 is)

pub Written-edit :
    (entries : ℕ → LogEntry) (n : ℕ) (cs : List Call) (c c' : Call)
    → Written entries cs
    → get_elem? cs n ≡ some c
    → c'.r ≡ c.r
    → (c'.stage ≢ reserved → (entries c.r.at).msg_vs ≡ c.r.next)
    → Written entries (edit n (some c') cs)
unfolding edit
Written-edit entries n [] c c' w e same has = w
Written-edit entries zero (x ∷ xs) c c' w e same has =
    let at_same : x.r ≡ c'.r = ap (λ y. y.r) (some-injective x c e) ∙ sym same in
    (
      subst (λ r. c'.stage ≢ reserved → (entries r.at).msg_vs ≡ r.next) (sym same) has,
      subst (λ r. IsApart r.at xs) at_same w.1,
      w.2,
    )
Written-edit entries (suc n) (x ∷ xs) c c' w e same has = (
  w.0,
  IsApart-edit x.r.at n xs c c' w.1 e (ap (λ r. r.at) same),
  Written-edit entries n xs c c' (w.2) e same has,
)

pub Written-remove :
    (entries : ℕ → LogEntry) (n : ℕ) (cs : List Call)
    → Written entries cs
    → Written entries (edit n none cs)
unfolding edit
Written-remove entries n [] w = w
Written-remove entries zero (x ∷ xs) w = w.2
Written-remove entries (suc n) (x ∷ xs) w =
    (w.0, IsApart-remove x.r.at n xs w.1, Written-remove entries n xs (w.2))

-- The entry of a call is written with its stamp, and no other entry.
pub Written-write :
    (entries entries' : ℕ → LogEntry) (n : ℕ) (cs : List Call) (c : Call)
    → ((at : ℕ) → c.r.at ≢ at → (entries' at).msg_vs ≡ (entries at).msg_vs)
    → (entries' c.r.at).msg_vs ≡ c.r.next
    → Written entries cs
    → get_elem? cs n ≡ some c
    → Written entries' cs
Written-write entries entries' n [] c off on w e = tt
Written-write entries entries' zero (x ∷ xs) c off on w e =
    let same = some-injective x c e in
    (
      λ is. subst (λ y. (entries' y.r.at).msg_vs ≡ y.r.next) (sym same) on,
      w.1,
      others xs (subst (λ y. IsApart y.r.at xs) same w.1) (w.2),
    )
  where
    others : (ys : List Call) → IsApart c.r.at ys → Written entries ys → Written entries' ys
    others [] a v = tt
    others (y ∷ ys) a v =
        (λ is. off y.r.at (λ here. a.0 (sym here)) ∙ v.0 is, v.1, others ys a.1 (v.2))
Written-write entries entries' (suc n) (x ∷ xs) c off on w e = (
  λ is. off x.r.at (IsApart-get x.r.at n xs c w.1 e) ∙ w.0 is,
  w.1,
  Written-write entries entries' n xs c off on (w.2) e,
)
