-- ===== src/Prelude/Dict.antt =====
-- Python's dict with numbers for keys: entries in order of insertion; a new value of a key stays at
-- the key's place.
use Prim.Native.Nat.{ℕ, suc, ◌+◌}
use mathlib.Core.Path.{◌≡◌, refl, sym, ap, ◌∙◌, subst}
use mathlib.Core.Bool.{Bool, true, false, ◌||◌}
use mathlib.Core.Option.{Option, none, some}
use mathlib.Core.Logic.{inl, inr}
use mathlib.Core.List.{List, [], ◌∷◌, ◌++◌}
use native.Mathlib.Omega.{arith}
use sabnzbd.Prelude.Tests.{◌==◌, if◌then◌else◌, Bool-cases, or_false, ==_iff, both}
use sabnzbd.Prelude.Lists.{length}

abbrev pub Dict {ℓ} : Type ℓ → Type ℓ
Dict V = List (ℕ × V)

module _ {ℓ} {V : Type ℓ} where
  -- d.get(k)
  abbrev pub get : ℕ → Dict V → Option V
  get k [] = none
  get k ((j, v) ∷ d) = if j == k then some v else get k d

  -- k in d
  abbrev pub has : ℕ → Dict V → Bool
  has k [] = false
  has k ((j, v) ∷ d) = (j == k) || has k d

  -- d[k] = v
  abbrev pub put : ℕ → V → Dict V → Dict V
  put k v [] = (k, v) ∷ []
  put k v ((j, w) ∷ d) = let rest = put k v d in if j == k then (j, v) ∷ d else (j, w) ∷ rest

  -- d.pop(k, None), of a dict without repeated keys.
  abbrev pub remove : ℕ → Dict V → Dict V
  remove k [] = []
  remove k ((j, v) ∷ d) = let rest = remove k d in if j == k then d else (j, v) ∷ rest

  -- d.popitem(): the entry that was added last, and the rest.
  abbrev pub pop_item : Dict V → Option ((ℕ × V) × Dict V)
  pop_item [] = none
  pop_item (e ∷ d) = elim (pop_item d) [ none ↦ some (e, []) | some (l, r) ↦ some (l, e ∷ r) ]

  -- Every key stands once.
  abbrev pub IsDict : Dict V → Type 0
  IsDict [] = Unit
  IsDict ((j, v) ∷ d) = (has j d ≡ false) × IsDict d

  pub get-absent : (k : ℕ) (d : Dict V) → has k d ≡ false → get k d ≡ none
  get-absent k [] h = refl
  get-absent k ((j, v) ∷ d) h =
      let (ne, out) = or_false (j == k) (has k d) h in rw ne (get-absent k d out)

  pub get-put_self : (k : ℕ) (v : V) (d : Dict V) → get k (put k v d) ≡ some v
  get-put_self k v [] = ground arith
  get-put_self k v ((j, w) ∷ d) = elim (Bool-cases (j == k)) [
    | inl e ↦ rw e (rw e refl)
    | inr e ↦ rw e (rw e (get-put_self k v d))
  ]

  pub has-put : (k j : ℕ) (v : V) (d : Dict V) → has j (put k v d) ≡ ((k == j) || has j d)
  has-put k j v [] = refl
  has-put k j v ((i, w) ∷ d) = elim (Bool-cases (i == k)) [
    | inl e ↦ rw e (same e)
    | inr e ↦ rw e (rw (has-put k j v d) (swap (i == j) (k == j) (has j d)))
  ]
    where
      same : (i == k) ≡ true → ((i == j) || has j d) ≡ ((k == j) || ((i == j) || has j d))
      same e = ground arith

      swap : (a b c : Bool) → (a || (b || c)) ≡ (b || (a || c))
      swap a b c = ground arith

  pub put-IsDict : (k : ℕ) (v : V) (d : Dict V) → IsDict d → IsDict (put k v d)
  put-IsDict k v [] h = (refl, tt)
  put-IsDict k v ((j, w) ∷ d) h = elim (Bool-cases (j == k)) [
    | inl e ↦ rw e h
    | inr e ↦ rw e (rw (has-put k j v d) (both e h.0), put-IsDict k v d h.1)
  ]
    where
      both : (j == k) ≡ false → has j d ≡ false → ((k == j) || has j d) ≡ false
      both e o = ground arith

  pub has-remove_ne : (k j : ℕ) (d : Dict V) → (k == j) ≡ false → has j (remove k d) ≡ has j d
  has-remove_ne k j [] ne = refl
  has-remove_ne k j ((i, w) ∷ d) ne = elim (Bool-cases (i == k)) [
    | inl e ↦ rw e (skip e)
    | inr e ↦ rw e (ap (λ b. (i == j) || b) (has-remove_ne k j d ne))
  ]
    where
      skip : (i == k) ≡ true → has j d ≡ ((i == j) || has j d)
      skip e = ground arith

  pub has-remove_self : (k : ℕ) (d : Dict V) → IsDict d → has k (remove k d) ≡ false
  has-remove_self k [] h = refl
  has-remove_self k ((j, w) ∷ d) h = elim (Bool-cases (j == k)) [
    | inl e ↦ rw e (out e h.0)
    | inr e ↦ rw e (rw e (has-remove_self k d h.1))
  ]
    where
      out : (j == k) ≡ true → has j d ≡ false → has k d ≡ false
      out e o = subst (λ i. has i d ≡ false) ((==_iff j k).0 e) o

  pub remove-IsDict : (k : ℕ) (d : Dict V) → IsDict d → IsDict (remove k d)
  remove-IsDict k [] h = tt
  remove-IsDict k ((j, w) ∷ d) h = elim (Bool-cases (j == k)) [
    | inl e ↦ rw e h.1
    | inr e ↦ rw e (has-remove_ne k j d (flip e) ∙ h.0, remove-IsDict k d h.1)
  ]
    where
      flip : (j == k) ≡ false → (k == j) ≡ false
      flip e = ground arith

  pub get-remove_ne : (k j : ℕ) (d : Dict V) → (k == j) ≡ false → get j (remove k d) ≡ get j d
  get-remove_ne k j [] ne = refl
  get-remove_ne k j ((i, w) ∷ d) ne = elim (Bool-cases (i == k)) [
    | inl e ↦ rw e (rw (other e) refl)
    | inr e ↦ rw e (ap (λ o. if i == j then some w else o) (get-remove_ne k j d ne))
  ]
    where
      other : (i == k) ≡ true → (i == j) ≡ false
      other e = ground arith

  pub get-put_ne : (k j : ℕ) (v : V) (d : Dict V) → (k == j) ≡ false → get j (put k v d) ≡ get j d
  get-put_ne k j v [] ne = rw ne refl
  get-put_ne k j v ((i, w) ∷ d) ne = elim (Bool-cases (i == k)) [
    | inl e ↦ rw e (rw (other e) refl)
    | inr e ↦ rw e (ap (λ o. if i == j then some w else o) (get-put_ne k j v d ne))
  ]
    where
      other : (i == k) ≡ true → (i == j) ≡ false
      other e = ground arith

module _ {ℓ} {V : Type ℓ} where
  pub has-get : (a : ℕ) (d : Dict V) → get a d ≡ none → has a d ≡ false
  has-get a [] h = refl
  has-get a ((j, v) ∷ d) h = elim (Bool-cases (j == a)) [
    | inl e ↦ absurd (no (subst (λ b. (if b then some v else get a d) ≡ none) e h))
    | inr e ↦ rw e (has-get a d (subst (λ b. (if b then some v else get a d) ≡ none) e h))
  ]
    where
      no : some v ≡ none → ⊥
      no h = cc

  pub get-put :
      (a b : ℕ) (v : V) (d : Dict V) → get b (put a v d) ≡ (if a == b then some v else get b d)
  get-put a b v d = elim (Bool-cases (a == b)) [
    | inl e ↦ rw e (subst (λ i. get i (put a v d) ≡ some v) ((==_iff a b).0 e) (get-put_self a v d))
    | inr e ↦ rw e (get-put_ne a b v d e)
  ]

  pub get-remove :
      (a b : ℕ) (d : Dict V) → IsDict d → get b (remove a d) ≡ (if a == b then none else get b d)
  get-remove a b d h = elim (Bool-cases (a == b)) [
    | inl e ↦ rw e (
        subst (λ i. get i (remove a d) ≡ none) ((==_iff a b).0 e)
          (get-absent a (remove a d) (has-remove_self a d h)))
    | inr e ↦ rw e (get-remove_ne a b d e)
  ]

  pub has-remove : (a b : ℕ) (d : Dict V) → IsDict d → has b (remove a d) ≡ true → has b d ≡ true
  has-remove a b d h there = elim (Bool-cases (a == b)) [
    | inl e ↦ absurd (
        both there
          (subst (λ i. has i (remove a d) ≡ false) ((==_iff a b).0 e) (has-remove_self a d h)))
    | inr e ↦ sym (has-remove_ne a b d e) ∙ there
  ]

  pub absent-remove :
      (a b : ℕ) (d : Dict V) → IsDict d → has b d ≡ false → has b (remove a d) ≡ false
  absent-remove a b d h out = elim (Bool-cases (has b (remove a d))) [
    | inl e ↦ absurd (both (has-remove a b d h e) out)
    | inr e ↦ e
  ]

module _ {ℓ} {V : Type ℓ} (f : V → ℕ) where
  -- sum(f(v) for v in d.values())
  abbrev pub total : Dict V → ℕ
  total [] = 0
  total ((j, v) ∷ d) = f v + total d

  pub total-put : (k : ℕ) (v : V) (d : Dict V) → has k d ≡ false → total (put k v d) ≡ total d + f v
  total-put k v [] h = omega arith
  total-put k v ((j, w) ∷ d) h =
      let (ne, out) = or_false (j == k) (has k d) h in rw ne (omega (arith, total-put k v d out))

  -- A new value of a key takes the place of the old one in the sum.
  pub total-replace :
      (k : ℕ) (v w : V) (d : Dict V) → get k d ≡ some v → total (put k w d) + f v ≡ total d + f w
  total-replace k v w [] h = absurd (cc)
  total-replace k v w ((j, u) ∷ d) h = elim (Bool-cases (j == k)) [
    | inl e ↦ rw e (same (subst (λ b. (if b then some u else get k d) ≡ some v) e h))
    | inr e ↦ rw e (
        omega (
          arith,
          total-replace k v w d (subst (λ b. (if b then some u else get k d) ≡ some v) e h),
        ))
  ]
    where
      same : some u ≡ some v → (f w + total d) + f v ≡ (f u + total d) + f w
      same e = ground (arith, e)

  -- A key that is there has a value, which its removal takes from the sum.
  pub total-remove :
      (k : ℕ) (d : Dict V)
      → has k d ≡ true
      → (v : V) × (get k d ≡ some v) × (total (remove k d) + f v ≡ total d)
  total-remove k [] h = absurd (impossible h)
    where
      impossible : false ≡ true → ⊥
      impossible e = cc
  total-remove k ((j, w) ∷ d) h = elim (Bool-cases (j == k)) [
    | inl e ↦ (w, rw e refl, rw e (omega arith))
    | inr e ↦
        let (v, found, sum) = total-remove k d (rest e h) in
        (v, rw e found, rw e (omega (arith, sum)))
  ]
    where
      rest : (j == k) ≡ false → ((j == k) || has k d) ≡ true → has k d ≡ true
      rest e t = ground arith

module _ {ℓ} {V : Type ℓ} where
  -- What `popitem` returns.
  pub pop_item-split :
      (e : ℕ × V) (d : Dict V)
      → ((l : ℕ × V) × (r : Dict V) × (pop_item (e ∷ d) ≡ some (l, r))
          × (e ∷ d ≡ r ++ l ∷ [])
          × (length (e ∷ d) ≡ suc (length r)))
  pop_item-split e [] = (e, [], refl, refl, refl)
  pop_item-split e (f ∷ d) =
      let (l, r, popped, split, size) = pop_item-split f d in
      (l, e ∷ r, rw popped refl, ap (λ t. e ∷ t) split, ap suc size)

  pub has-snoc : (a b : ℕ) (v : V) (d : Dict V) → has a (d ++ (b, v) ∷ []) ≡ (has a d || (b == a))
  has-snoc a b v [] = ground arith
  has-snoc a b v ((j, w) ∷ d) =
      ap (λ t. (j == a) || t) (has-snoc a b v d) ∙ assoc (j == a) (has a d) (b == a)
    where
      assoc : (x y z : Bool) → (x || (y || z)) ≡ ((x || y) || z)
      assoc x y z = ground arith

  pub get-snoc :
      (a b : ℕ) (v : V) (d : Dict V)
      → get a (d ++ (b, v) ∷ []) ≡ (if has a d then get a d else if b == a then some v else none)
  get-snoc a b v [] = refl
  get-snoc a b v ((j, w) ∷ d) = elim (Bool-cases (j == a)) [
    | inl e ↦ rw e refl
    | inr e ↦ rw e (get-snoc a b v d)
  ]

  pub snoc-IsDict :
      (b : ℕ) (v : V) (d : Dict V) → IsDict (d ++ (b, v) ∷ []) → IsDict d × (has b d ≡ false)
  snoc-IsDict b v [] h = (tt, refl)
  snoc-IsDict b v ((j, w) ∷ d) h =
      let (rest, out) = snoc-IsDict b v d h.1 in
      let (head, other) = or_false (has j d) (b == j) (sym (has-snoc j b v d) ∙ h.0) in
      ((head, rest), either other out)
    where
      either : (b == j) ≡ false → has b d ≡ false → ((j == b) || has b d) ≡ false
      either e o = ground arith
