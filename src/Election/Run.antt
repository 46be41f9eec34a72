-- ===== src/Election/Run.antt =====
-- The callbacks of one server one after the other, and of the servers of a group: whom their
-- identifiers name in a term.
use native.Mathlib.Omega.{arith}
use rdma_paxos.Prelude.{
  ℕ, ◌+◌, ◌/◌, ◌^◌, ◌≤◌, ◌<◌, ◌≡◌, ◌∙◌, ◌⊎◌, inl, inr, sym, subst, ◌==◌, Bool, true, false, ◌&&◌,
  Bool-cases, if◌then◌else◌, List, [], ◌∷◌, count_below, count_below_both,
}
use rdma_paxos.Election.Sid.{sid_get_idx, sid_get_term}
use rdma_paxos.Election.Server.{Server, hb_receive_cb}
use rdma_paxos.Election.Poll.{polling}
use rdma_paxos.Election.Scan.{AllRequests}
use rdma_paxos.Election.Turns.{
  IsNumbered, Advances, Memory, written, hb_receive_cb-Advances, polling-Advances,
}

-- A callback of the loop, after writes to the memory: the heartbeat timer, in a term that is not the
-- last one, or the polling, where the requests in the memory are ones that a server sends.
pub data Turn (s t : Server) : Type 0 where
  alarm : (m : Memory) → s.sid / 512 + 1 < 2 ^ 54 → t ≡ (hb_receive_cb (written m s)).1 → Turn s t
  poll : (m : Memory) → AllRequests m.vote_req → t ≡ (polling (written m s)).1 → Turn s t

-- The states of a server, the last one first.
pub data History : List Server → Type 0 where
  start : (s : Server) → IsNumbered s → History (s ∷ [])
  next : {s t : Server} {ss : List Server} → History (s ∷ ss) → Turn s t → History (t ∷ s ∷ ss)

-- In one of the states the identifier has this term and names this server: it votes for it, or is
-- itself the candidate.
unfoldable pub names : (term c : ℕ) → Server → Bool
names term c s = sid_get_term s.sid == term && sid_get_idx s.sid == c

unfoldable pub backs : (term c : ℕ) → List Server → Bool
backs term c [] = false
backs term c (s ∷ ss) = if names term c s then true else backs term c ss

Turn-Advances : {s t : Server} → Turn s t → IsNumbered s → IsNumbered t × Advances s t
Turn-Advances {s} {t} (alarm m small e) g =
    subst (λ t. IsNumbered t × Advances s t) (sym e) (hb_receive_cb-Advances (written m s) g small)
Turn-Advances {s} {t} (poll m all e) g =
    subst (λ t. IsNumbered t × Advances s t) (sym e) (polling-Advances (written m s) all g)

History-IsNumbered : {s : Server} {ss : List Server} → History (s ∷ ss) → IsNumbered s
History-IsNumbered (start s g) = g
History-IsNumbered (next h t) = (Turn-Advances t (History-IsNumbered h)).0

-- What the last state knows of one before.
abbrev Past : (term c : ℕ) → Server → Type 0
Past term c s =
    (term < sid_get_term s.sid) ⊎ ((term ≡ sid_get_term s.sid) × (c ≡ sid_get_idx s.sid))

names-Past : (term c : ℕ) (s : Server) → names term c s ≡ true → Past term c s
unfolding names
names-Past term c s e = inr (ground (arith, e), ground (arith, e))

Past-Advances : (term c : ℕ) (s t : Server) → Past term c s → Advances s t → Past term c t
Past-Advances term c s t (inl old) (inl up) = inl (omega (arith, old, up))
Past-Advances term c s t (inl old) (inr (e, i)) = inl (omega (arith, old, e))
Past-Advances term c s t (inr (e, i)) (inl up) = inl (omega (arith, e, up))
Past-Advances term c s t (inr (e, i)) (inr (e', i')) = inr (e ∙ e', i ∙ i')

backs-Past :
    {s : Server} {ss : List Server} (term c : ℕ)
    → History (s ∷ ss)
    → backs term c (s ∷ ss) ≡ true
    → Past term c s
unfolding backs
backs-Past {s} term c (start s' g) b = names-Past term c s (ground (arith, b))
backs-Past {s = t} term c (next {s} h turn) b = elim (Bool-cases (names term c t)) [
  | inl now ↦ names-Past term c t now
  | inr before ↦
      Past-Advances term c s t (backs-Past term c h (ground (arith, b, before)))
        (Turn-Advances turn (History-IsNumbered h)).1
]

same_Past : (term c c' : ℕ) (s : Server) → Past term c s → names term c' s ≡ true → c ≡ c'
unfolding names
same_Past term c c' s (inl old) e = absurd (ground (arith, e, old))
same_Past term c c' s (inr (e, i)) n = i ∙ ground (arith, n)

-- A server starts with an index below 256 and an identifier below 2 ^ 63. Its states come one from
-- the other by writes to its memory and then the heartbeat timer, while the next term is below 2 ^ 54,
-- or the polling, while every request in the memory is without leader flag and below 2 ^ 63. Then, in
-- all of these states, the identifiers of one term name one server: it never votes for two candidates
-- of a term, or for another once it is one.
pub backs_unique :
    (term c c' : ℕ) (ss : List Server)
    → History ss
    → backs term c ss ≡ true
    → backs term c' ss ≡ true
    → c ≡ c'
unfolding backs
backs_unique term c c' ss (start s g) b b' =
    same_Past term c c' s (names-Past term c s (ground (arith, b))) (ground (arith, b'))
backs_unique term c c' ss (next {s} {t} {ss = before} h turn) b b' =
    let h' = next h turn in
    elim (Bool-cases (names term c' t)) [
      | inl now' ↦ same_Past term c c' t (backs-Past term c h' b) now'
      | inr not' ↦ elim (Bool-cases (names term c t)) [
        | inl now ↦ sym (same_Past term c' c t (backs-Past term c' h' b') now)
        | inr not ↦
            backs_unique term c c' (s ∷ before) h (ground (arith, b, not))
              (ground (arith, b', not'))
      ]
    ]

-- In a group of `size` servers, each with its own history, the candidates that a majority of them
-- backs in one term are the same.
pub one_winner :
    (size term c c' : ℕ) (group : ℕ → List Server)
    → ((i : ℕ) → i < size → History (group i))
    → size / 2 + 1 ≤ count_below size (λ i. backs term c (group i))
    → size / 2 + 1 ≤ count_below size (λ i. backs term c' (group i))
    → c ≡ c'
one_winner size term c c' group h m m' =
    let (i, lt, b, b') =
      count_below_both size (λ i. backs term c (group i)) (λ i. backs term c' (group i))
        (omega (arith, m, m')) in
    backs_unique term c c' (group i) (h i lt) b b'
