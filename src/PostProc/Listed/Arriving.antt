-- ===== src/PostProc/Listed/Arriving.antt =====
-- sabnzbd/postproc.py: a job that comes into one of the queues.
use sabnzbd.Prelude.{
  ℕ, ◌≡◌, refl, sym, subst, ◌∙◌, true, false, ◌||◌, ◌==◌, List, [], ◌∷◌, ◌++◌, contains, arith,
  Bool-cases, inl, inr, Distinct, snoc-Distinct, contains-append, ==_iff, both, contains-add_key,
  add_key, add_key-Distinct,
}
use sabnzbd.PostProc.Listed.Views.{View, IsListed}

module _ (v : View) (h : IsListed v) where
  -- A job that is neither queued nor processed arrives.
  module _ (i : ℕ) (fresh : (contains i v.fast || contains i v.slow || v.current i) ≡ false)
      (name : v.work i ≡ true) where
    abbrev arrived : List ℕ → List ℕ → View
    arrived fast slow = record v {
      history = add_key i v.history;
      saved = add_key i v.history;
      fast = fast;
      slow = slow;
    }

    -- One of the queues has the job at its end.
    arrived-IsListed :
        (fast slow : List ℕ)
        → Distinct fast
        → Distinct slow
        → ((j : ℕ)
            → (contains j fast || contains j slow)
              ≡ ((i == j) || contains j v.fast || contains j v.slow))
        → ((j : ℕ) → contains j fast ≡ true → contains j slow ≡ false)
        → IsListed (arrived fast slow)
    arrived-IsListed fast slow fast_once slow_once union apart = record {
      once = add_key-Distinct i v.history h.once;
      fast_once = fast_once;
      slow_once = slow_once;
      apart = apart;
      idle = λ j c.
          union j
          ∙ elim (Bool-cases (i == j)) [ inl e ↦ absurd (busy j e c) | inr e ↦ rw e (h.idle j c) ];
      listed = λ j q n. contains-add_key j i v.history ∙ listed j (union j) q (h.listed j) n;
      named = λ j l. named j (sym (contains-add_key j i v.history) ∙ l);
      pending = λ j l. pending j (union j) (sym (contains-add_key j i v.history) ∙ l) (h.pending j);
      saved = refl;
    }
      where
        busy : (j : ℕ) → (i == j) ≡ true → v.current j ≡ true → ⊥
        busy j e c = both (subst (λ k. v.current k ≡ true) (sym ((==_iff i j).0 e)) c) idle
          where
            idle : v.current i ≡ false
            idle = ground (arith, fresh)

        listed :
            (j : ℕ)
            → (contains j fast || contains j slow)
              ≡ ((i == j) || contains j v.fast || contains j v.slow)
            → (contains j fast || contains j slow || v.current j) ≡ true
            → ((contains j v.fast || contains j v.slow || v.current j) ≡ true
                → v.work j ≡ true
                → contains j v.history ≡ true)
            → v.work j ≡ true
            → ((i == j) || contains j v.history) ≡ true
        listed j u q old n = ground arith

        named : (j : ℕ) → ((i == j) || contains j v.history) ≡ true → v.work j ≡ true
        named j l = elim (Bool-cases (i == j)) [
          | inl e ↦ subst (λ k. v.work k ≡ true) ((==_iff i j).0 e) name
          | inr e ↦ h.named j (rest e)
        ]
          where
            rest : (i == j) ≡ false → contains j v.history ≡ true
            rest e = ground arith

        pending :
            (j : ℕ)
            → (contains j fast || contains j slow)
              ≡ ((i == j) || contains j v.fast || contains j v.slow)
            → ((i == j) || contains j v.history) ≡ true
            → (contains j v.history ≡ true
                → (contains j v.fast || contains j v.slow || v.current j) ≡ true)
            → (contains j fast || contains j slow || v.current j) ≡ true
        pending j u l old = ground arith

    pub fast-IsListed : IsListed (arrived (v.fast ++ i ∷ []) v.slow)
    fast-IsListed =
        arrived-IsListed (v.fast ++ i ∷ []) v.slow (snoc-Distinct i v.fast h.fast_once out)
          h.slow_once (λ j. ground (arith, contains-append j v.fast (i ∷ [])))
          (λ j q. apart j (sym (contains-append j v.fast (i ∷ [])) ∙ q))
      where
        out : contains i v.fast ≡ false
        out = ground (arith, fresh)

        apart :
            (j : ℕ) → (contains j v.fast || ((i == j) || false)) ≡ true → contains j v.slow ≡ false
        apart j q = elim (Bool-cases (i == j)) [
          | inl e ↦ subst (λ k. contains k v.slow ≡ false) ((==_iff i j).0 e) off
          | inr e ↦ h.apart j (rest e)
        ]
          where
            off : contains i v.slow ≡ false
            off = ground (arith, fresh)

            rest : (i == j) ≡ false → contains j v.fast ≡ true
            rest e = ground arith

    pub slow-IsListed : IsListed (arrived v.fast (v.slow ++ i ∷ []))
    slow-IsListed =
        arrived-IsListed v.fast (v.slow ++ i ∷ []) h.fast_once
          (snoc-Distinct i v.slow h.slow_once out)
          (λ j. ground (arith, contains-append j v.slow (i ∷ [])))
          (λ j q. contains-append j v.slow (i ∷ []) ∙ apart j q)
      where
        out : contains i v.slow ≡ false
        out = ground (arith, fresh)

        apart :
            (j : ℕ) → contains j v.fast ≡ true → (contains j v.slow || ((i == j) || false)) ≡ false
        apart j q = elim (Bool-cases (i == j)) [
          | inl e ↦
              absurd (both (subst (λ k. contains k v.fast ≡ true) (sym ((==_iff i j).0 e)) q) off)
          | inr e ↦ rest e (h.apart j q)
        ]
          where
            off : contains i v.fast ≡ false
            off = ground (arith, fresh)

            rest :
                (i == j) ≡ false
                → contains j v.slow ≡ false
                → (contains j v.slow || ((i == j) || false)) ≡ false
            rest e o = ground arith
