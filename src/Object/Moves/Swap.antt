-- ===== src/Object/Moves/Swap.antt =====
-- sabnzbd/nzb/object.py: two files that change places.
use sabnzbd.Prelude.{
  ℕ, zero, suc, ◌+◌, ◌≡◌, refl, sym, subst, ◌∙◌, false, inl, inr, ◌==◌, if◌then◌else◌, if_ind,
  Option, none, some, List, [], ◌∷◌, get_elem?, contains, arith, Bool-cases, ==_iff,
}
use sabnzbd.Prelude.Dict
use sabnzbd.Prelude.Dict.{Dict}
use sabnzbd.Object.Moves.{set_elem, swap}

-- How often an id is listed.
abbrev pub one : ℕ → ℕ → ℕ
one a x = if a == x then 1 else 0

abbrev pub count : ℕ → List ℕ → ℕ
count x [] = 0
count x (y ∷ ys) = one y x + count x ys

count-set_elem :
    (x a b n : ℕ) (ys : List ℕ)
    → get_elem? ys n ≡ some a
    → count x (set_elem ys n b) + one a x ≡ count x ys + one b x
count-set_elem x a b n [] h = absurd (cc)
count-set_elem x a b zero (y ∷ ys) h = step (some_eq h)
  where
    some_eq : some y ≡ some a → y ≡ a
    some_eq e = cc

    step : y ≡ a → one b x + count x ys + one a x ≡ one y x + count x ys + one b x
    step e = rw e (omega arith)
count-set_elem x a b (suc n) (y ∷ ys) h = omega (arith, count-set_elem x a b n ys h)

get_elem?-set_elem :
    (m n b : ℕ) (ys : List ℕ) → (m == n) ≡ false → get_elem? (set_elem ys n b) m ≡ get_elem? ys m
get_elem?-set_elem m n b [] h = refl
get_elem?-set_elem zero zero b (y ∷ ys) h = absurd (cc)
get_elem?-set_elem zero (suc n) b (y ∷ ys) h = refl
get_elem?-set_elem (suc m) zero b (y ∷ ys) h = refl
get_elem?-set_elem (suc m) (suc n) b (y ∷ ys) h = get_elem?-set_elem m n b ys (pred h)
  where
    pred : (suc m == suc n) ≡ false → (m == n) ≡ false
    pred e = ground arith

-- The table says what stands where.
abbrev pub Agrees : List ℕ → Dict ℕ → Type 0
Agrees files table = (k v : ℕ) → Dict.get k table ≡ some v → get_elem? files k ≡ some v

-- A round: it keeps the files, and the rest of the table still agrees.
abbrev pub IsRound : ℕ → Dict ℕ → List ℕ → List ℕ → Type 0
IsRound pos table files files' =
    ((x : ℕ) → count x files' ≡ count x files) × Agrees files' (Dict.remove pos table)

pub Agrees-remove :
    (pos : ℕ) (table : Dict ℕ) (files : List ℕ)
    → Dict.IsDict table
    → Agrees files table
    → (k v : ℕ) → Dict.get k (Dict.remove pos table) ≡ some v
    → (get_elem? files k ≡ some v) × (Dict.get k table ≡ some v) × ((pos == k) ≡ false)
Agrees-remove pos table files d h k v e = elim (Bool-cases (pos == k)) [
  | inl same ↦ absurd (gone ((==_iff pos k).0 same))
  | inr ne ↦ let there = sym (Dict.get-remove_ne pos k table ne) ∙ e in (h k v there, there, ne)
]
  where
    absent : Dict.get pos (Dict.remove pos table) ≡ none
    absent = Dict.get-absent pos (Dict.remove pos table) (Dict.has-remove_self pos table d)

    gone : pos ≡ k → ⊥
    gone same = both (subst (λ i. Dict.get i (Dict.remove pos table) ≡ none) same absent) e
      where
        both : {o : Option ℕ} → o ≡ none → o ≡ some v → ⊥
        both p q = cc

pub swap-IsRound :
    (ids : List ℕ) (nzf pos other : ℕ) (table : Dict ℕ) (files : List ℕ)
    → Dict.IsDict table
    → Agrees files table
    → Dict.get pos table ≡ some nzf
    → Dict.get other table ≡ none
    → (pos == other) ≡ false
    → IsRound pos table files (swap ids nzf pos other files)
unfolding swap
swap-IsRound ids nzf pos other table files d h at free ne = go (get_elem? files other) refl
  where
    still : IsRound pos table files files
    still = (λ x. refl, λ k v e. (Agrees-remove pos table files d h k v e).0)

    go :
        (o : Option ℕ)
        → get_elem? files other ≡ o
        → IsRound pos table files (elim o [
          | none ↦ files
          | some tmp ↦
              if contains tmp ids then files else set_elem (set_elem files other nzf) pos tmp
        ])
    go none e = still
    go (some tmp) e =
        if_ind (IsRound pos table files) (contains tmp ids) (λ _. still)
          (λ _. (
            λ x. counts x (count-set_elem x tmp nzf other files e) (
                count-set_elem x nzf tmp pos (set_elem files other nzf)
                  (get_elem?-set_elem pos other nzf files ne ∙ h pos nzf at)),
            kept,
          ))
      where
        counts :
            (x : ℕ)
            → count x (set_elem files other nzf) + one tmp x ≡ count x files + one nzf x
            → count x (set_elem (set_elem files other nzf) pos tmp) + one nzf x
              ≡ count x (set_elem files other nzf) + one tmp x
            → count x (set_elem (set_elem files other nzf) pos tmp) ≡ count x files
        counts x p q = omega (arith, p, q)

        kept : Agrees (set_elem (set_elem files other nzf) pos tmp) (Dict.remove pos table)
        kept k v k_at =
            let (there, in_table, apart) = Agrees-remove pos table files d h k v k_at in
            get_elem?-set_elem k pos tmp (set_elem files other nzf) (flip apart)
            ∙ get_elem?-set_elem k other nzf files (elim (Bool-cases (k == other)) [
              | inl same ↦ absurd (
                  clash (subst (λ i. Dict.get i table ≡ some v) ((==_iff k other).0 same) in_table)
                    free)
              | inr differ ↦ differ
            ])
            ∙ there
          where
            flip : (pos == k) ≡ false → (k == pos) ≡ false
            flip a = ground arith

            clash : {o : Option ℕ} → o ≡ some v → o ≡ none → ⊥
            clash p q = cc
