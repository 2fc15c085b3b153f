-- ===== src/Assembler/Ready.antt =====
-- sabnzbd/assembler.py: `ready_bytes`, the bytes of each file that are ready to be written.
use sabnzbd.Prelude.{
  ℕ, ◌≤◌, ◌≡◌, refl, ap, sym, subst, ◌∙◌, Bool, true, false, ◌==◌, ltb, if◌then◌else◌, if_ind,
  Option, none, some, ℤ, pos, negsuc, ◌+ℤ◌, arith, Bool-cases, inl, inr, ==_iff,
}
use sabnzbd.Prelude.Dict
use sabnzbd.Prelude.Dict.{Dict}
use sabnzbd.Assembler.{Assembler, get_or_zero, keep_ready, update_ready_bytes}

-- Each file stands once, with a number of bytes that is not zero.
pub record IsReady (d : Dict ℕ) : Type 0 where
  pub dict : Dict.IsDict d
  pub some_bytes : (j n : ℕ) → Dict.get j d ≡ some n → 1 ≤ n

-- The bytes of a file.
abbrev pub counted : Dict ℕ → ℕ → ℕ
counted d j = get_or_zero (Dict.get j d)

abbrev pub to_nat : ℤ → ℕ
to_nat (pos n) = n
to_nat (negsuc _) = 0

remove-IsReady :
    (id : ℕ) (d : Dict ℕ)
    → IsReady d
    → IsReady (Dict.remove id d)
      × ((j : ℕ) → counted (Dict.remove id d) j ≡ (if id == j then 0 else counted d j))
remove-IsReady id d h = (
  record {
    dict = Dict.remove-IsDict id d h.dict;
    some_bytes = λ j n e. elim (Bool-cases (id == j)) [
      | inl own ↦ absurd (gone j n own (sym (Dict.get-remove id j d h.dict) ∙ e))
      | inr other ↦ h.some_bytes j n (sym (Dict.get-remove_ne id j d other) ∙ e)
    ];
  },
  λ j. ap get_or_zero (Dict.get-remove id j d h.dict) ∙ cases (id == j) (Dict.get j d),
)
  where
    gone : (j n : ℕ) → (id == j) ≡ true → (if id == j then none else Dict.get j d) ≡ some n → ⊥
    gone j n own e = ground (arith, own, e)

    cases :
        (b : Bool) (o : Option ℕ)
        → get_or_zero (if b then none else o) ≡ (if b then 0 else get_or_zero o)
    cases true o = refl
    cases false o = refl

put-IsReady :
    (id n : ℕ) (d : Dict ℕ)
    → IsReady d
    → 1 ≤ n
    → IsReady (Dict.put id n d)
      × ((j : ℕ) → counted (Dict.put id n d) j ≡ (if id == j then n else counted d j))
put-IsReady id n d h some_n = (
  record {
    dict = Dict.put-IsDict id n d h.dict;
    some_bytes = λ j m e. elim (Bool-cases (id == j)) [
      | inl own ↦ equal j m own (sym (Dict.get-put id j n d) ∙ e)
      | inr other ↦ h.some_bytes j m (sym (Dict.get-put_ne id j n d other) ∙ e)
    ];
  },
  λ j. ap get_or_zero (Dict.get-put id j n d) ∙ cases (id == j) (Dict.get j d),
)
  where
    equal :
        (j m : ℕ) → (id == j) ≡ true → (if id == j then some n else Dict.get j d) ≡ some m → 1 ≤ m
    equal j m own e = ground (arith, own, e, some_n)

    cases :
        (b : Bool) (o : Option ℕ)
        → get_or_zero (if b then some n else o) ≡ (if b then n else get_or_zero o)
    cases true o = refl
    cases false o = refl

-- A change of the bytes of one file adds to its count, which is zero when more is taken than there is,
-- and leaves the others; every file that is kept still has bytes.
pub update_ready_bytes-IsReady :
    (id : ℕ) (delta : ℤ) (a : Assembler)
    → IsReady a.ready_bytes
    → IsReady (update_ready_bytes id delta a).1.ready_bytes
      × ((j : ℕ)
          → counted (update_ready_bytes id delta a).1.ready_bytes j ≡ (
              if id == j
              then to_nat (pos (counted a.ready_bytes j) +ℤ delta)
              else counted a.ready_bytes j))
unfolding update_ready_bytes
update_ready_bytes-IsReady id delta a h =
    let (valid, counts) = kept (pos (counted a.ready_bytes id) +ℤ delta) in
    (valid, λ j. counts j ∙ own j)
  where
    kept :
        (cur : ℤ)
        → IsReady (keep_ready id cur a.ready_bytes)
          × ((j : ℕ)
              → counted (keep_ready id cur a.ready_bytes) j
                ≡ (if id == j then to_nat cur else counted a.ready_bytes j))
    kept (pos n) =
        if_ind
          (λ (d : Dict ℕ).
            IsReady d × ((j : ℕ) → counted d j ≡ (if id == j then n else counted a.ready_bytes j)))
          (ltb 0 n) (λ e. put-IsReady id n a.ready_bytes h (ground (arith, e)))
          (λ e.
            subst
              (λ i.
                IsReady (Dict.remove id a.ready_bytes)
                × ((j : ℕ)
                    → counted (Dict.remove id a.ready_bytes) j
                      ≡ (if id == j then i else counted a.ready_bytes j)))
              (zero_n e) (remove-IsReady id a.ready_bytes h))
      where
        zero_n : ltb 0 n ≡ false → 0 ≡ n
        zero_n e = ground (arith, e)
    kept (negsuc _) = remove-IsReady id a.ready_bytes h

    own :
        (j : ℕ)
        → (if id == j
            then to_nat (pos (counted a.ready_bytes id) +ℤ delta)
            else counted a.ready_bytes j)
          ≡ (if id == j
              then to_nat (pos (counted a.ready_bytes j) +ℤ delta)
              else counted a.ready_bytes j)
    own j = elim (Bool-cases (id == j)) [
      | inl e ↦ rw e (
          subst
            (λ i.
              to_nat (pos (counted a.ready_bytes id) +ℤ delta)
              ≡ to_nat (pos (counted a.ready_bytes i) +ℤ delta))
            ((==_iff id j).0 e) refl)
      | inr e ↦ rw e refl
    ]
