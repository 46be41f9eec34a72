-- ===== src/Election/Scan.antt =====
-- What the two loops over the vote requests keep: an identifier that they take is the old one or a
-- request above it.
use native.Mathlib.Omega.{arith}
use rdma_paxos.Prelude.{
  ℕ, zero, suc, ◌/◌, ◌%◌, ◌^◌, ◌≤◌, ◌<◌, ◌≡◌, ◌⊎◌, inl, inr, refl, ◌==◌, false, update, ltb, leb,
  Bool-cases,
}
use rdma_paxos.Election.Sid.{sid_get_term}
use rdma_paxos.Election.Server.{VoteReq, Server}
use rdma_paxos.Election.Poll.{
  dropped, Scanned, scan_step, scan, Choice, consider, choose, highest_with, is_better,
}

-- A request as `send_vote_request` makes them, or none: no leader flag, and in range.
pub record IsRequest (r : VoteReq) : Type 0 where
  pub no_leader : r.sid / 256 % 2 ≡ 0
  pub fits : r.sid < 2 ^ 63

abbrev pub AllRequests : (ℕ → VoteReq) → Type 0
AllRequests reqs = (i : ℕ) → IsRequest (reqs i)

dropped-IsRequest : (r : VoteReq) → IsRequest (dropped r)
dropped-IsRequest r = record { no_leader = refl; fits = omega arith }

update-AllRequests :
    (reqs : ℕ → VoteReq) (n : ℕ) (r : VoteReq)
    → AllRequests reqs
    → IsRequest r
    → AllRequests (update reqs n r)
update-AllRequests reqs n r all is i = elim (Bool-cases (n == i)) [
  | inl here ↦ rw here is
  | inr there ↦ rw there (all i)
]

-- `old`, or the identifier of a request above it.
abbrev pub Above : (old sid : ℕ) → Type 0
Above old sid = (sid ≡ old) ⊎ ((old < sid) × (sid / 256 % 2 ≡ 0) × (sid < 2 ^ 63))

pub record IsScanned (old : ℕ) (f : Scanned) : Type 0 where
  pub higher : Above old f.best_sid
  pub all : AllRequests f.reqs

Above-trans : (old mid sid : ℕ) → Above old mid → Above mid sid → Above old sid
Above-trans old mid sid (inl e) (inl e') = inl (omega arith)
Above-trans old mid sid (inl e) (inr u) = inr (omega (arith, u.0), u.1, u.2)
Above-trans old mid sid (inr u) (inl e) =
    inr (omega (arith, u.0), ground (arith, u.1), omega (arith, u.2))
Above-trans old mid sid (inr u) (inr v) = inr (omega (arith, u.0, v.0), v.1, v.2)

scan_step-IsScanned :
    (s : Server) (old : ℕ) (f : Scanned) (n : ℕ) → IsScanned old f → IsScanned old (scan_step s f n)
unfolding scan_step
scan_step-IsScanned s old f n g = elim (Bool-cases (n == s.idx)) [
  | inl own ↦ rw own g
  | inr other ↦ elim (Bool-cases (leb (f.reqs n).sid f.best_sid)) [
    | inl low ↦
        rw (other, low)
          (record {
            higher = g.higher;
            all =
                update-AllRequests f.reqs n (dropped (f.reqs n)) g.all
                  (dropped-IsRequest (f.reqs n));
          })
    | inr high ↦
        rw (other, high)
          (record {
            higher =
                Above-trans old f.best_sid (f.reqs n).sid g.higher
                  (inr (ground arith, (g.all n).no_leader, (g.all n).fits));
            all = g.all;
          })
  ]
]

pub scan-IsScanned :
    (n : ℕ) (s : Server) (old : ℕ) → AllRequests s.vote_req → IsScanned old (scan n s old)
unfolding scan
scan-IsScanned zero s old all = record { higher = inl refl; all = all }
scan-IsScanned (suc n) s old all =
    scan_step-IsScanned s old (scan n s old) n (scan-IsScanned n s old all)

pub record IsChoice (old term : ℕ) (c : Choice) : Type 0 where
  pub higher : Above old c.best.sid
  pub risen : term ≤ c.highest_term
  pub small : c.highest_term < 2 ^ 54
  pub all : AllRequests c.reqs

highest_with-le :
    (term highest : ℕ) (r : VoteReq)
    → IsRequest r
    → term ≤ highest
    → highest < 2 ^ 54
    → (term ≤ highest_with highest r) × (highest_with highest r < 2 ^ 54)
unfolding sid_get_term
highest_with-le term highest r is le lt = ground (arith, is.fits)

Above-least : (old : ℕ) (r : VoteReq) → IsRequest r → ltb r.sid old ≡ false → Above old r.sid
Above-least old r is high = elim (Bool-cases (r.sid == old)) [
  | inl same ↦ inl (ground arith)
  | inr differ ↦ inr (ground arith, is.no_leader, is.fits)
]

consider-IsChoice :
    (old term : ℕ) (c : Choice) (n : ℕ) → IsChoice old term c → IsChoice old term (consider c n)
unfolding consider
consider-IsChoice old term c n g = elim (Bool-cases (ltb (c.reqs n).sid c.best.sid)) [
  | inl low ↦ rw low (record {
    higher = g.higher;
    risen = g.risen;
    small = g.small;
    all = update-AllRequests c.reqs n (dropped (c.reqs n)) g.all (dropped-IsRequest (c.reqs n));
  })
  | inr high ↦ elim (Bool-cases (is_better c.best (c.reqs n))) [
    | inl worse ↦
        rw (high, worse)
          (record {
            higher = g.higher;
            risen = (highest_with-le term c.highest_term (c.reqs n) (g.all n) g.risen g.small).0;
            small = (highest_with-le term c.highest_term (c.reqs n) (g.all n) g.risen g.small).1;
            all = g.all;
          })
    | inr liked ↦
        rw (high, liked)
          (record {
            higher =
                Above-trans old c.best.sid (c.reqs n).sid g.higher
                  (Above-least c.best.sid (c.reqs n) (g.all n) high);
            risen = (highest_with-le term c.highest_term (c.reqs n) (g.all n) g.risen g.small).0;
            small = (highest_with-le term c.highest_term (c.reqs n) (g.all n) g.risen g.small).1;
            all =
                update-AllRequests c.reqs n (dropped (c.reqs n)) g.all
                  (dropped-IsRequest (c.reqs n));
          })
  ]
]

pub choose-IsChoice :
    (n old term : ℕ) (c : Choice) → IsChoice old term c → IsChoice old term (choose n c)
unfolding choose
choose-IsChoice zero old term c g = g
choose-IsChoice (suc n) old term c g =
    consider-IsChoice old term (choose n c) n (choose-IsChoice n old term c g)
