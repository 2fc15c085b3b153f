-- ===== src/PostProc/Parring/Sound.antt =====
-- sabnzbd/postproc.py: what parring promises when it reports no error.
use sabnzbd.Prelude.{
  both, ℕ, ◌≡◌, refl, ap, sym, subst, ==_iff, ◌∙◌, Bool, true, false, not, ◌&&◌, ◌||◌, inl, inr,
  ◌==◌, if_ind, Bool-cases, Option, List, [], ◌∷◌, contains, arith,
}
use sabnzbd.Prelude.Dict
use sabnzbd.Prelude.Dict.{Dict}
use sabnzbd.Job.{Nzo, is_nil}
use sabnzbd.PostProc.Parring.{
  Tools, Repair, is_true, all_values, any_value, start_repair, repair_set, repair_sets, sfv_verdict,
  other_error, check_others, parring,
}

-- From one state of the repair to a later one: if there is no error later there was none before, and
-- what is verified stays so.
record IsLater (r r' : Repair) : Type 0 where
  no_error : r'.par_error ≡ false → r.par_error ≡ false
  stays :
      r'.par_error ≡ false
      → (i : ℕ) → is_true (Dict.get i r.verified) ≡ true
      → is_true (Dict.get i r'.verified) ≡ true

put-stays :
    (set i : ℕ) (res : Bool) (d : Dict Bool)
    → res ≡ true
    → is_true (Dict.get i d) ≡ true
    → is_true (Dict.get i (Dict.put set res d)) ≡ true
put-stays set i res d t h = elim (Bool-cases (set == i)) [
  | inl e ↦
      subst (λ j. is_true (Dict.get j (Dict.put set res d)) ≡ true) ((==_iff set i).0 e)
        (ap is_true (Dict.get-put_self set res d) ∙ t)
  | inr e ↦ ap is_true (Dict.get-put_ne set i res d e) ∙ h
]

repair_set-IsLater : (t : Tools) (set : ℕ) (r : Repair) → IsLater r (repair_set t set r)
unfolding repair_set
repair_set-IsLater t set r =
    if_ind (IsLater r) (t.is_sample set) (λ _. record { no_error = λ h. h; stays = λ _ i h. h })
      (λ _.
        if_ind (IsLater r) (is_true (Dict.get set r.verified))
          (λ _. record { no_error = λ h. h; stays = λ _ i h. h })
          (λ _. record {
            no_error = λ h. (fine r.par_error (t.par2_repair set).1 h).0;
            stays = λ h i v.
                put-stays set i (t.par2_repair set).1 r.verified
                  (fine r.par_error (t.par2_repair set).1 h).1 v;
          }))
  where
    fine : (a b : Bool) → (a || not b) ≡ false → (a ≡ false) × (b ≡ true)
    fine a b h = ground arith

-- A set that was looked at without an error is a sample or verified.
repair_set-verified :
    (t : Tools) (set : ℕ) (r : Repair)
    → (repair_set t set r).par_error ≡ false
    → t.is_sample set ≡ false
    → is_true (Dict.get set (repair_set t set r).verified) ≡ true
unfolding repair_set
repair_set-verified t set r h s =
    if_ind (λ (x : Repair). x.par_error ≡ false → is_true (Dict.get set x.verified) ≡ true)
      (t.is_sample set) (λ e _. absurd (both e s))
      (λ _.
        if_ind (λ (x : Repair). x.par_error ≡ false → is_true (Dict.get set x.verified) ≡ true)
          (is_true (Dict.get set r.verified)) (λ e _. e)
          (λ _ f.
            ap is_true (Dict.get-put_self set (t.par2_repair set).1 r.verified)
            ∙ right r.par_error (t.par2_repair set).1 f))
      h
  where
    right : (a b : Bool) → (a || not b) ≡ false → b ≡ true
    right a b h = ground arith

repair_sets-IsLater : (t : Tools) (sets : List ℕ) (r : Repair) → IsLater r (repair_sets t sets r)
unfolding repair_sets
repair_sets-IsLater t [] r = record { no_error = λ h. h; stays = λ _ i h. h }
repair_sets-IsLater t (set ∷ sets) r =
    let one : IsLater r (repair_set t set r) = repair_set-IsLater t set r in
    let rest : IsLater (repair_set t set r) (repair_sets t sets (repair_set t set r)) =
      repair_sets-IsLater t sets (repair_set t set r) in
    record {
      no_error = λ h. one.no_error (rest.no_error h);
      stays = λ h i v. rest.stays h i (one.stays (rest.no_error h) i v);
    }

repair_sets-verified :
    (t : Tools) (sets : List ℕ) (r : Repair) (set : ℕ)
    → (repair_sets t sets r).par_error ≡ false
    → contains set sets ≡ true
    → t.is_sample set ≡ false
    → is_true (Dict.get set (repair_sets t sets r).verified) ≡ true
unfolding repair_sets
repair_sets-verified t [] r set h c s = absurd (both c refl)
repair_sets-verified t (x ∷ sets) r set h c s =
    let rest : IsLater (repair_set t x r) (repair_sets t sets (repair_set t x r)) =
      repair_sets-IsLater t sets (repair_set t x r) in
    elim (Bool-cases (x == set)) [
      | inl e ↦
          (let eq : x ≡ set = (==_iff x set).0 e in
            rest.stays h set (
              subst (λ j. is_true (Dict.get j (repair_set t x r).verified) ≡ true) eq
                (repair_set-verified t x r (rest.no_error h)
                  (subst (λ j. t.is_sample j ≡ false) (sym eq) s))))
      | inr e ↦ repair_sets-verified t sets (repair_set t x r) set h (rw e at c) s
    ]

check_others-IsLater : (t : Tools) (r : Repair) → IsLater r (check_others t r)
unfolding check_others
check_others-IsLater t r =
    if_ind (IsLater r) r.par_error (λ _. record { no_error = λ h. h; stays = λ _ i h. h })
      (λ f.
        if_ind (IsLater r) (any_value r.verified)
          (λ _. record { no_error = λ h. h; stays = λ _ i h. h })
          (λ _. record {
            no_error = λ _. f;
            stays = λ h i v.
                put-stays 0 i (not (other_error t (sfv_verdict t r.verified))) r.verified (ap not h)
                  v;
          }))

-- If parring reports no error, then every par2 set of the job that is not a sample was verified before or
-- is right after its repair. The condition: not all of the stored verdicts are good, or there are none, since
-- else the function returns at once.
pub parring-verified :
    (t : Tools) (verified : Dict Bool) (extrapars : List ℕ) (nzo : Nzo) (set : ℕ)
    → (not (is_nil verified) && all_values verified) ≡ false
    → (parring t verified extrapars nzo).0.par_error ≡ false
    → contains set extrapars ≡ true
    → t.is_sample set ≡ false
    → is_true (Dict.get set (parring t verified extrapars nzo).0.verified) ≡ true
unfolding parring
parring-verified t verified extrapars nzo set due h c s =
    if_ind
      (λ (x : Repair × Option Nzo).
        x.0.par_error ≡ false → is_true (Dict.get set x.0.verified) ≡ true)
      (not (is_nil verified) && all_values verified) (λ e _. absurd (both e due))
      (λ _ f.
        let last : IsLater done (check_others t done) = check_others-IsLater t done in
        last.stays f set
          (repair_sets-verified t extrapars (start_repair verified) set (last.no_error f) c s))
      h
  where
    done : Repair
    done = repair_sets t extrapars (start_repair verified)
