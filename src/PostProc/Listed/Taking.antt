-- ===== src/PostProc/Listed/Taking.antt =====
-- sabnzbd/postproc.py: a job that the loop takes from one of the queues.
use sabnzbd.Prelude.{
  ℕ, ◌≡◌, ap, sym, subst, ◌∙◌, true, false, ◌||◌, ◌==◌, List, ◌∷◌, contains, arith, Bool-cases, inl,
  inr, Distinct, ==_iff, ==_refl, both,
}
use sabnzbd.PostProc.Listed.Views.{View, IsListed}

module _ (v : View) (h : IsListed v) where
  -- While no job is processed, the head of a queue is taken.
  module _ (i : ℕ) (none_current : (j : ℕ) → v.current j ≡ false) where
    taken-IsListed :
        (fast slow : List ℕ)
        → Distinct fast
        → Distinct slow
        → ((j : ℕ)
            → (contains j v.fast || contains j v.slow)
              ≡ ((i == j) || contains j fast || contains j slow))
        → (contains i fast || contains i slow) ≡ false
        → ((j : ℕ) → contains j fast ≡ true → contains j slow ≡ false)
        → IsListed (record v { fast = fast; slow = slow; current = λ j. i == j })
    taken-IsListed fast slow fast_once slow_once union out apart = record {
      once = h.once;
      fast_once = fast_once;
      slow_once = slow_once;
      apart = apart;
      idle =
          λ j c. subst (λ k. (contains k fast || contains k slow) ≡ false) ((==_iff i j).0 c) out;
      listed = λ j q n. h.listed j (more j (union j) q) n;
      named = h.named;
      pending = λ j l. pending j (h.pending j l) (none_current j) (union j);
      saved = h.saved;
    }
      where
        more :
            (j : ℕ)
            → (contains j v.fast || contains j v.slow)
              ≡ ((i == j) || contains j fast || contains j slow)
            → (contains j fast || contains j slow || (i == j)) ≡ true
            → (contains j v.fast || contains j v.slow || v.current j) ≡ true
        more j u q = ground arith

        pending :
            (j : ℕ)
            → (contains j v.fast || contains j v.slow || v.current j) ≡ true
            → v.current j ≡ false
            → (contains j v.fast || contains j v.slow)
              ≡ ((i == j) || contains j fast || contains j slow)
            → (contains j fast || contains j slow || (i == j)) ≡ true
        pending j p n u = ground arith

    pub take_fast-IsListed :
        (fast : List ℕ)
        → v.fast ≡ i ∷ fast
        → IsListed (record v { fast = fast; current = λ j. i == j })
    take_fast-IsListed fast e =
        let cut = subst Distinct e h.fast_once in
        taken-IsListed fast v.slow cut.1 h.slow_once (λ j. union j (at j)) (out cut.0 (own (at i)))
          (λ j q. h.apart j (at j ∙ more j q))
      where
        at : (j : ℕ) → contains j v.fast ≡ ((i == j) || contains j fast)
        at j = ap (contains j) e

        own : contains i v.fast ≡ ((i == i) || contains i fast) → contains i v.slow ≡ false
        own a = h.apart i (a ∙ here)
          where
            here : ((i == i) || contains i fast) ≡ true
            here = ground (arith, ==_refl i)

        out :
            contains i fast ≡ false
            → contains i v.slow ≡ false
            → (contains i fast || contains i v.slow) ≡ false
        out a b = ground arith

        union :
            (j : ℕ)
            → contains j v.fast ≡ ((i == j) || contains j fast)
            → (contains j v.fast || contains j v.slow)
              ≡ ((i == j) || contains j fast || contains j v.slow)
        union j a = ground arith

        more : (j : ℕ) → contains j fast ≡ true → ((i == j) || contains j fast) ≡ true
        more j q = ground arith

    pub take_slow-IsListed :
        (slow : List ℕ)
        → v.slow ≡ i ∷ slow
        → IsListed (record v { slow = slow; current = λ j. i == j })
    take_slow-IsListed slow e =
        let cut = subst Distinct e h.slow_once in
        taken-IsListed v.fast slow h.fast_once cut.1 (λ j. union j (at j)) (out cut.0 (own (at i)))
          (λ j q. less j (sym (at j) ∙ h.apart j q))
      where
        at : (j : ℕ) → contains j v.slow ≡ ((i == j) || contains j slow)
        at j = ap (contains j) e

        own : contains i v.slow ≡ ((i == i) || contains i slow) → contains i v.fast ≡ false
        own a = elim (Bool-cases (contains i v.fast)) [
          | inl q ↦ absurd (both (a ∙ here) (h.apart i q))
          | inr q ↦ q
        ]
          where
            here : ((i == i) || contains i slow) ≡ true
            here = ground (arith, ==_refl i)

        out :
            contains i slow ≡ false
            → contains i v.fast ≡ false
            → (contains i v.fast || contains i slow) ≡ false
        out a b = ground arith

        union :
            (j : ℕ)
            → contains j v.slow ≡ ((i == j) || contains j slow)
            → (contains j v.fast || contains j v.slow)
              ≡ ((i == j) || contains j v.fast || contains j slow)
        union j a = ground arith

        less : (j : ℕ) → ((i == j) || contains j slow) ≡ false → contains j slow ≡ false
        less j q = ground arith
