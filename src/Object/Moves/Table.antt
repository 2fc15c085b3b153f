-- ===== src/Object/Moves/Table.antt =====
-- sabnzbd/nzb/object.py: the table of positions of the files that are moved.
use sabnzbd.Prelude.{
  ℕ, suc, ◌≡◌, refl, sym, ap, subst, ◌∙◌, Bool, true, false, ◌||◌, inl, inr, ◌==◌, if◌then◌else◌,
  Option, none, some, List, [], ◌∷◌, get_elem?, arith, Bool-cases, ==_iff,
}
use sabnzbd.Prelude.Dict
use sabnzbd.Prelude.Dict.{Dict}
use sabnzbd.Queue.Add.{index_of?}
use sabnzbd.Queue.Sort.Order.{IsOrder}
use sabnzbd.Object.Moves.{first_key, build_pos_nzf_table}
use sabnzbd.Object.Moves.Swap.{Agrees}

-- No position of the table goes before the chosen one.
pub first_key-first :
    (lt : ℕ → ℕ → Bool)
    → IsOrder lt
    → (k : ℕ) (table : Dict ℕ)
    → (lt k (first_key lt k table) ≡ false)
      × ((j : ℕ) → Dict.has j table ≡ true → lt j (first_key lt k table) ≡ false)
unfolding first_key
first_key-first lt order k [] = (irreflexive, λ j h. absurd (cc))
  where
    irreflexive : lt k k ≡ false
    irreflexive = elim (Bool-cases (lt k k)) [ inl e ↦ order.asym k k e | inr e ↦ e ]
first_key-first lt order k ((i, v) ∷ table) = elim (Bool-cases (lt i k)) [
  | inl lower ↦
      let (self, rest) = first_key-first lt order i table in
      rw lower (
        order.trans (first_key lt i table) i k self (order.asym i k lower),
        λ j h. split i j self (rest j) h,
      )
  | inr higher ↦
      let (self, rest) = first_key-first lt order k table in
      rw higher
        (self, λ j h. split k j (order.trans (first_key lt k table) k i self higher) (rest j) h)
]
  where
    split :
        (m j : ℕ)
        → lt i (first_key lt m table) ≡ false
        → (Dict.has j table ≡ true → lt j (first_key lt m table) ≡ false)
        → ((i == j) || Dict.has j table) ≡ true
        → lt j (first_key lt m table) ≡ false
    split m j self rest h = elim (Bool-cases (i == j)) [
      | inl e ↦ subst (λ n. lt n (first_key lt m table) ≡ false) ((==_iff i j).0 e) self
      | inr e ↦ rest (later e h)
    ]
      where
        later : (i == j) ≡ false → ((i == j) || Dict.has j table) ≡ true → Dict.has j table ≡ true
        later e h = ground arith

get_elem?-index_of? :
    (a pos : ℕ) (xs : List ℕ) → index_of? a xs ≡ some pos → get_elem? xs pos ≡ some a
get_elem?-index_of? a pos [] h = absurd (cc)
get_elem?-index_of? a pos (x ∷ xs) h = elim (Bool-cases (x == a)) [
  | inl e ↦
      at_head
        (subst
          (λ b.
            (if b then some 0 else elim (index_of? a xs) [ none ↦ none | some n ↦ some (suc n) ])
            ≡ some pos)
          e h)
        ((==_iff x a).0 e)
  | inr e ↦
      later (λ m. get_elem?-index_of? a m xs) (index_of? a xs) refl
        (subst
          (λ b.
            (if b then some 0 else elim (index_of? a xs) [ none ↦ none | some n ↦ some (suc n) ])
            ≡ some pos)
          e h)
]
  where
    at_head : some 0 ≡ some pos → x ≡ a → get_elem? (x ∷ xs) pos ≡ some a
    at_head p e = subst (λ n. get_elem? (x ∷ xs) n ≡ some a) (zero_eq p) (ap (λ y. some y) e)
      where
        zero_eq : some 0 ≡ some pos → 0 ≡ pos
        zero_eq q = cc

    later :
        ((m : ℕ) → index_of? a xs ≡ some m → get_elem? xs m ≡ some a)
        → (o : Option ℕ) → index_of? a xs ≡ o
        → elim o as (λ _. Option ℕ) [ none ↦ none | some n ↦ some (suc n) ] ≡ some pos
        → get_elem? (x ∷ xs) pos ≡ some a
    later ih none e p = absurd (cc)
    later ih (some n) e p = subst (λ m. get_elem? (x ∷ xs) m ≡ some a) (suc_eq p) (ih n e)
      where
        suc_eq : some (suc n) ≡ some pos → suc n ≡ pos
        suc_eq q = cc

Agrees-put :
    (pos id : ℕ) (table : Dict ℕ) (files : List ℕ)
    → get_elem? files pos ≡ some id
    → Agrees files table
    → Agrees files (Dict.put pos id table)
Agrees-put pos id table files at h k v e = elim (Bool-cases (pos == k)) [
  | inl same ↦
      let eq = (==_iff pos k).0 same in
      subst (λ i. get_elem? files i ≡ some v) eq
        (at
          ∙ sym (Dict.get-put_self pos id table)
          ∙ subst (λ i. Dict.get i (Dict.put pos id table) ≡ some v) (sym eq) e)
  | inr ne ↦ h k v (sym (Dict.get-put_ne pos k id table ne) ∙ e)
]

pub build-Agrees :
    (files ids : List ℕ) (table : Dict ℕ)
    → Dict.IsDict table
    → Agrees files table
    → Dict.IsDict (build_pos_nzf_table files ids table)
      × Agrees files (build_pos_nzf_table files ids table)
unfolding build_pos_nzf_table
build-Agrees files [] table d h = (d, h)
build-Agrees files (id ∷ ids) table d h =
    go (λ t d' h'. build-Agrees files ids t d' h') (index_of? id files) refl
  where
    go :
        ((t : Dict ℕ)
          → Dict.IsDict t
          → Agrees files t
          → Dict.IsDict (build_pos_nzf_table files ids t)
            × Agrees files (build_pos_nzf_table files ids t))
        → (o : Option ℕ) → index_of? id files ≡ o
        → Dict.IsDict (
            build_pos_nzf_table files ids
              (elim o [ none ↦ table | some pos ↦ Dict.put pos id table ]))
          × Agrees files (
              build_pos_nzf_table files ids
                (elim o [ none ↦ table | some pos ↦ Dict.put pos id table ]))
    go ih none e = ih table d h
    go ih (some pos) e =
        ih (Dict.put pos id table) (Dict.put-IsDict pos id table d)
          (Agrees-put pos id table files (get_elem?-index_of? id pos files e) h)

pub no_key :
    (lt : ℕ → ℕ → Bool) (pos other : ℕ) (table : Dict ℕ)
    → lt other pos ≡ true
    → ((j : ℕ) → Dict.has j table ≡ true → lt j pos ≡ false)
    → Dict.get other table ≡ none
no_key lt pos other table low before = elim (Bool-cases (Dict.has other table)) [
  | inl there ↦ absurd (both low (before other there))
  | inr absent ↦ Dict.get-absent other table absent
]
  where
    both : {b : Bool} → b ≡ true → b ≡ false → ⊥
    both p n = cc
