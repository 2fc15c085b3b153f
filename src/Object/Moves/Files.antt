-- ===== src/Object/Moves/Files.antt =====
-- sabnzbd/nzb/object.py: the list of files after several of them are moved.
use sabnzbd.Prelude.{
  ℕ, zero, suc, ◌≡◌, refl, subst, ◌∙◌, Bool, true, false, ◌||◌, inl, inr, ◌==◌, ltb, Option, none,
  some, List, [], ◌∷◌, length, arith, Bool-cases, ==_iff,
}
use sabnzbd.Prelude.Dict
use sabnzbd.Prelude.Dict.{Dict}
use sabnzbd.Queue.Sort.Order.{IsOrder}
use sabnzbd.Object.Moves.{
  cleanup_nzf_ids, first_key, build_pos_nzf_table, move_up, move_down, move_from, move_bulk,
  move_up_bulk, move_down_bulk,
}
use sabnzbd.Object.Moves.Swap.{count, Agrees, IsRound, Agrees-remove, swap-IsRound}
use sabnzbd.Object.Moves.Table.{first_key-first, build-Agrees, no_key}

-- A step that is a round wherever no position of the table goes before.
abbrev IsStep : (ℕ → ℕ → Bool) → (ℕ → ℕ → List ℕ → List ℕ) → Type 0
IsStep lt step =
    (nzf pos : ℕ) (table : Dict ℕ) (files : List ℕ)
    → Dict.IsDict table
    → Agrees files table
    → Dict.get pos table ≡ some nzf
    → ((j : ℕ) → Dict.has j table ≡ true → lt j pos ≡ false)
    → IsRound pos table files (step nzf pos files)

count-move_from :
    (lt : ℕ → ℕ → Bool) (step : ℕ → ℕ → List ℕ → List ℕ)
    → IsOrder lt
    → IsStep lt step
    → (x n : ℕ) (table : Dict ℕ) (files : List ℕ) → Dict.IsDict table
    → Agrees files table
    → count x (move_from lt step n table files) ≡ count x files
unfolding move_from
count-move_from lt step order ok x zero table files d h = refl
count-move_from lt step order ok x (suc n) [] files d h = refl
count-move_from lt step order ok x (suc n) ((k, v) ∷ rest) files d h =
    go
      (λ files' h'.
        count-move_from lt step order ok x n (Dict.remove pos table) files'
          (Dict.remove-IsDict pos table d) h')
      (Dict.get pos table) refl
  where
    table : Dict ℕ
    table = (k, v) ∷ rest

    pos : ℕ
    pos = first_key lt k rest

    before : (j : ℕ) → Dict.has j table ≡ true → lt j pos ≡ false
    before j there =
        let (self, others) = first_key-first lt order k rest in
        elim (Bool-cases (k == j)) [
          | inl e ↦ subst (λ i. lt i pos ≡ false) ((==_iff k j).0 e) self
          | inr e ↦ others j (later e there)
        ]
      where
        later : (k == j) ≡ false → ((k == j) || Dict.has j rest) ≡ true → Dict.has j rest ≡ true
        later e t = ground arith

    go :
        ((files' : List ℕ)
          → Agrees files' (Dict.remove pos table)
          → count x (move_from lt step n (Dict.remove pos table) files') ≡ count x files')
        → (o : Option ℕ) → Dict.get pos table ≡ o
        → count x (elim o [
          | none ↦ files
          | some nzf ↦ move_from lt step n (Dict.remove pos table) (step nzf pos files)
        ])
          ≡ count x files
    go ih none e = refl
    go ih (some nzf) e =
        let (same, agrees) = ok nzf pos table files d h e before in
        ih (step nzf pos files) agrees ∙ same x

move_up-IsStep : (ids : List ℕ) → IsStep ltb (move_up ids)
move_up-IsStep ids nzf zero table files d h at before =
    (λ x. refl, λ k v e. (Agrees-remove zero table files d h k v e).0)
move_up-IsStep ids nzf (suc n) table files d h at before =
    swap-IsRound ids nzf (suc n) n table files d h at
      (no_key ltb (suc n) n table (ground arith) before) (ground arith)

abbrev gtb : ℕ → ℕ → Bool
gtb a b = ltb b a

move_down-IsStep : (ids : List ℕ) → IsStep gtb (move_down ids)
move_down-IsStep ids nzf pos table files d h at before =
    swap-IsRound ids nzf pos (suc pos) table files d h at
      (no_key gtb pos (suc pos) table (ground arith) before) (ground arith)

count-move_bulk :
    (lt : ℕ → ℕ → Bool) (step : List ℕ → ℕ → ℕ → List ℕ → List ℕ)
    → IsOrder lt
    → ((ids : List ℕ) → IsStep lt (step ids))
    → (x : ℕ) (ids files : List ℕ) → count x (move_bulk lt step ids files) ≡ count x files
unfolding move_bulk
count-move_bulk lt step order ok x ids files =
    let table = build_pos_nzf_table files ids [] in
    let (d, h) = build-Agrees files ids [] tt (λ k v e. absurd (cc)) in
    count-move_from lt (step ids) order (ok ids) x (length table) table files d h

-- Moving files up together keeps the list of files: every file is listed as often as before.
pub count-move_up_bulk :
    (files_table nzf_ids files : List ℕ) (x : ℕ)
    → count x (move_up_bulk files_table nzf_ids files) ≡ count x files
unfolding move_up_bulk
count-move_up_bulk files_table nzf_ids files x =
    count-move_bulk ltb move_up
      (record { asym = λ a b h. ground arith; trans = λ a b c h k. ground arith }) move_up-IsStep x
      (cleanup_nzf_ids files_table files nzf_ids) files

-- Moving files down together keeps the list of files: every file is listed as often as before.
pub count-move_down_bulk :
    (files_table nzf_ids files : List ℕ) (x : ℕ)
    → count x (move_down_bulk files_table nzf_ids files) ≡ count x files
unfolding move_down_bulk
count-move_down_bulk files_table nzf_ids files x =
    count-move_bulk gtb move_down
      (record { asym = λ a b h. ground arith; trans = λ a b c h k. ground arith }) move_down-IsStep
      x (cleanup_nzf_ids files_table files nzf_ids) files
