-- ===== src/Output/Store.antt =====
-- `store_output` feeds the bytes of its buffer, in order, to the stream of its handler, and ends.

use rdma_paxos.Prelude.{
  ℕ, zero, suc, ◌+◌, ◌≤◌, ◌<◌, ◌≡◌, ◌∙◌, ap, refl, List, [], ◌∷◌, ◌++◌, Option, some, length, take,
  drop, length-drop, take-append-drop, drop-drop, arith, subst, ltb→lt, leb, false, ◌^◌, Bool-cases,
  inl, inr, ltb, sym,
}
use rdma_paxos.Output.Library.{OutputLib}
use rdma_paxos.Output.Handler.{OutputHandler, wait_bits, store_step, store_loop}
use rdma_paxos.Output.Stream.{Stream, absorb_all, absorb_all-append, IsHandler, view}
use rdma_paxos.Output.Round.{Fed, store_step-Stepped}

module _ (lib : OutputLib) where
  rest_of_buffer :
      (buff : List ℕ) (push n : ℕ)
      → drop push buff ≡ take n (drop push buff) ++ drop (push + n) buff
  rest_of_buffer buff push n =
      sym (take-append-drop n (drop push buff))
      ∙ ap (λ r. take n (drop push buff) ++ r) (drop-drop n push buff)

  Fed-nothing : (h : OutputHandler lib) → IsHandler lib h → Fed lib (view lib h) [] h 0
  unfolding absorb_all
  Fed-nothing h v = record { valid = v; fed = refl; hashes = omega arith }

  Fed-append :
      (s : Stream) (xs ys : List ℕ) (h h' : OutputHandler lib) (m n : ℕ)
      → Fed lib s xs h m
      → Fed lib (view lib h) ys h' n
      → Fed lib s (xs ++ ys) h' (m + n)
  Fed-append s xs ys h h' m n a b = record {
    valid = b.valid;
    fed = b.fed ∙ ap (λ t. absorb_all lib t ys) a.fed ∙ sym (absorb_all-append lib s xs ys);
    hashes = omega (arith, a.hashes, b.hashes);
  }

  drop_none : (buff : List ℕ) (push : ℕ) → length buff ≤ push → drop push buff ≡ []
  drop_none buff push le = empty (drop push buff) (omega (arith, length-drop push buff))
    where
      empty : (xs : List ℕ) → length xs ≡ 0 → xs ≡ []
      empty [] e = refl
      empty (x ∷ xs) e = absurd (omega arith)

  -- The loop ended with `r`, having fed `bytes`.
  abbrev Ends : Stream → List ℕ → ℕ → Option (OutputHandler lib × ℕ) → Type 0
  Ends s bytes retval out =
      (r : OutputHandler lib × ℕ) × (out ≡ some r)
      × ((grown : ℕ) × (r.1 ≡ retval + grown) × Fed lib s bytes r.0 grown)

  -- From `push_size`, with more fuel than bytes are left, the loop ends, and has fed the rest.
  pub store_loop-Ends :
      (fuel : ℕ) (h : OutputHandler lib) (buff : List ℕ) (push retval : ℕ)
      → IsHandler lib h
      → push ≤ length buff
      → length buff < fuel + push
      → length buff < 2 ^ 31
      → Ends (view lib h) (drop push buff) retval (store_loop lib fuel h buff push retval)
  unfolding store_loop
  store_loop-Ends zero h buff push retval v le f small = absurd (omega arith)
  store_loop-Ends (suc fuel) h buff push retval v le f small =
      elim (Bool-cases (ltb push (length buff))) [
        | inl more ↦
            let st = store_step-Stepped lib h buff push v (ltb→lt push (length buff) more) small in
            let sized : leb (2 ^ 31) (wait_bits buff push) ≡ false = ground (arith, small) in
            let r = store_step lib h buff push in
            let (out, e, more_fed) =
              store_loop-Ends fuel r.0 buff (push + r.1) (retval + r.2) st.after.valid st.stays
                (omega (arith, st.moves)) small in
            let (g, eg, fed) = more_fed in
            (
              out,
              rw (more, sized) e,
              (
                r.2 + g,
                omega (arith, eg),
                subst (λ bs. Fed lib (view lib h) bs out.0 (r.2 + g))
                    (sym (rest_of_buffer buff push r.1))
                    (Fed-append (view lib h) (take r.1 (drop push buff)) (drop (push + r.1) buff)
                      r.0 out.0 r.2 g st.after fed),
              ),
            )
        | inr done ↦ (
          (h, retval),
          rw done,
          (0, omega arith, rw (drop_none buff push (ground arith)) (Fed-nothing h v)),
        )
      ]
