-- ===== src/PostProc/Listed/Views.antt =====
-- sabnzbd/postproc.py: the lists of the post-processor, without the rest of its state.
use sabnzbd.Prelude.{
  ℕ, ◌≡◌, refl, sym, subst, ◌∙◌, Bool, true, false, ◌||◌, ◌==◌, List, contains, remove_one, arith,
  Bool-cases, inl, inr, Distinct, remove_one-Distinct, contains-remove_one_ne,
  contains-remove_one_self, ==_iff, both,
}

-- `work` is which jobs still have a name, and `current` which job is processed.
pub record View : Type 0 where
  pub history : List ℕ
  pub fast : List ℕ
  pub slow : List ℕ
  pub saved : List ℕ
  pub work : ℕ → Bool
  pub current : ℕ → Bool

-- A job stands once in one of the queues, and is not the one that is processed. The jobs in the list
-- are those that are queued or processed and have their name, and the saved list is the list.
pub record IsListed (v : View) : Type 0 where
  pub once : Distinct v.history
  pub fast_once : Distinct v.fast
  pub slow_once : Distinct v.slow
  pub apart : (j : ℕ) → contains j v.fast ≡ true → contains j v.slow ≡ false
  pub idle : (j : ℕ) → v.current j ≡ true → (contains j v.fast || contains j v.slow) ≡ false
  pub listed :
      (j : ℕ)
      → (contains j v.fast || contains j v.slow || v.current j) ≡ true
      → v.work j ≡ true
      → contains j v.history ≡ true
  pub named : (j : ℕ) → contains j v.history ≡ true → v.work j ≡ true
  pub pending :
      (j : ℕ)
      → contains j v.history ≡ true
      → (contains j v.fast || contains j v.slow || v.current j) ≡ true
  pub saved : v.saved ≡ v.history

module _ (v : View) (h : IsListed v) where
  pub work-IsListed :
      (work : ℕ → Bool) → ((j : ℕ) → work j ≡ v.work j) → IsListed (record v { work = work })
  work-IsListed work same = record {
    once = h.once;
    fast_once = h.fast_once;
    slow_once = h.slow_once;
    apart = h.apart;
    idle = h.idle;
    listed = λ j q n. h.listed j q (sym (same j) ∙ n);
    named = λ j l. same j ∙ h.named j l;
    pending = h.pending;
    saved = h.saved;
  }

  -- The job leaves the list, and is deleted or done.
  pub removed-IsListed :
      (i : ℕ) (work : ℕ → Bool)
      → ((j : ℕ) → (i == j) ≡ false → work j ≡ v.work j)
      → (current : ℕ → Bool)
      → ((contains i v.fast || contains i v.slow || current i) ≡ true → work i ≡ false)
      → ((j : ℕ) → (i == j) ≡ false → current j ≡ v.current j)
      → ((j : ℕ) → current j ≡ true → v.current j ≡ true)
      → IsListed (record v {
        history = remove_one i v.history;
        saved = remove_one i v.history;
        work = work;
        current = current;
      })
  removed-IsListed i work same current off others less = record {
    once = remove_one-Distinct i v.history h.once;
    fast_once = h.fast_once;
    slow_once = h.slow_once;
    apart = h.apart;
    idle = λ j c. h.idle j (less j c);
    listed = λ j q n. elim (Bool-cases (i == j)) [
      | inl e ↦ absurd (gone j e q n)
      | inr e ↦ kept j e ∙ h.listed j (before j (others j e) q) (sym (same j e) ∙ n)
    ];
    named = λ j l. elim (Bool-cases (i == j)) [
      | inl e ↦ absurd (out j e l)
      | inr e ↦ same j e ∙ h.named j (sym (kept j e) ∙ l)
    ];
    pending = λ j l. elim (Bool-cases (i == j)) [
      | inl e ↦ absurd (out j e l)
      | inr e ↦ still j (others j e) (h.pending j (sym (kept j e) ∙ l))
    ];
    saved = refl;
  }
    where
      kept : (j : ℕ) → (i == j) ≡ false → contains j (remove_one i v.history) ≡ contains j v.history
      kept j e = contains-remove_one_ne j i v.history e

      out : (j : ℕ) → (i == j) ≡ true → contains j (remove_one i v.history) ≡ true → ⊥
      out j e l = both l (
          subst (λ k. contains k (remove_one i v.history) ≡ false) ((==_iff i j).0 e)
            (contains-remove_one_self i v.history h.once))

      gone :
          (j : ℕ)
          → (i == j) ≡ true
          → (contains j v.fast || contains j v.slow || current j) ≡ true
          → work j ≡ true
          → ⊥
      gone j e q n = both (subst (λ k. work k ≡ true) (sym ((==_iff i j).0 e)) n) (
          off (
            subst (λ k. (contains k v.fast || contains k v.slow || current k) ≡ true)
              (sym ((==_iff i j).0 e)) q))

      before :
          (j : ℕ)
          → current j ≡ v.current j
          → (contains j v.fast || contains j v.slow || current j) ≡ true
          → (contains j v.fast || contains j v.slow || v.current j) ≡ true
      before j e p = ground arith

      still :
          (j : ℕ)
          → current j ≡ v.current j
          → (contains j v.fast || contains j v.slow || v.current j) ≡ true
          → (contains j v.fast || contains j v.slow || current j) ≡ true
      still j e p = ground arith

  -- The job that was processed had been deleted: nothing of it was in the list.
  pub deleted-IsListed :
      (i : ℕ)
      → v.work i ≡ false
      → ((j : ℕ) → v.current j ≡ (i == j))
      → IsListed (record v { current = λ _. false })
  deleted-IsListed i off own = record {
    once = h.once;
    fast_once = h.fast_once;
    slow_once = h.slow_once;
    apart = h.apart;
    idle = λ j c. absurd (no c);
    listed = λ j q n. h.listed j (queued j q) n;
    named = h.named;
    pending = λ j l. still j (h.pending j l) (own j) (h.named j l);
    saved = h.saved;
  }
    where
      queued :
          (j : ℕ)
          → (contains j v.fast || contains j v.slow || false) ≡ true
          → (contains j v.fast || contains j v.slow || v.current j) ≡ true
      queued j q = ground arith

      no : false ≡ true → ⊥
      no e = cc

      still :
          (j : ℕ)
          → (contains j v.fast || contains j v.slow || v.current j) ≡ true
          → v.current j ≡ (i == j)
          → v.work j ≡ true
          → (contains j v.fast || contains j v.slow || false) ≡ true
      still j p e n = elim (Bool-cases (i == j)) [
        | inl t ↦ absurd (both (subst (λ k. v.work k ≡ true) (sym ((==_iff i j).0 t)) n) off)
        | inr f ↦ ground arith
      ]
