-- ===== src/Object/Par2.antt =====
-- sabnzbd/nzb/object.py: `get_extra_blocks`, which puts par2 files of similar sets in the queue.
use sabnzbd.Prelude.{
  ℕ, ◌+◌, ◌≤◌, ◌≡◌, refl, Bool, true, false, not, ◌&&◌, ◌||◌, ◌⊎◌, inl, inr, ◌==◌, ltb, leb,
  if◌then◌else◌, if_ind, List, [], ◌∷◌, ◌++◌, contains, keep, arith, Bool-cases, ap, sym, subst,
  ◌∙◌, ==_iff, append_assoc,
}
use sabnzbd.Prelude.Dict.{Dict}
use sabnzbd.File
use sabnzbd.File.{size_or_zero}
use sabnzbd.Queue.Sort.{sort}
use sabnzbd.Object.{NzbObject, blocks_of, add_parfile}

-- A file that is neither completed nor finished.
abbrev pub is_available : NzbObject → ℕ → Bool
unfolding File.completed
is_available o id = not (File.completed (o.nzf id) || contains id o.nzo.finished_files)

-- `similar` is the test of `difflib.SequenceMatcher` on the names of two sets.
unfoldable pub block_list : (ℕ → ℕ → Bool) → NzbObject → ℕ → Dict (List ℕ) → List ℕ
block_list similar o setname [] = []
block_list similar o setname ((setname_search, ids) ∷ sets) =
    let rest = block_list similar o setname sets in
    if (setname_search == setname) || similar setname setname_search
    then keep (is_available o) ids ++ rest
    else rest

unfoldable pub count_blocks : NzbObject → List ℕ → ℕ
count_blocks o [] = 0
count_blocks o (id ∷ ids) = blocks_of o id + count_blocks o ids

-- The loop that adds files; without a `break` the number of added blocks is too small, and the
-- result is 0.
unfoldable pub add_needed : ℕ → ℕ → List ℕ → NzbObject → ℕ × NzbObject
unfolding add_parfile
add_needed needed_blocks added_blocks [] o = (0, o)
add_needed needed_blocks added_blocks (id ∷ ids) o =
    let (added, o') = add_parfile id o in
    let added' = added_blocks + blocks_of o id in
    let go_on = λ (n : ℕ). add_needed needed_blocks n ids o' in
    if added
    then (if leb needed_blocks added' then (added', o') else go_on added')
    else go_on added_blocks

unfoldable pub get_extra_blocks : (ℕ → ℕ → Bool) → ℕ → ℕ → NzbObject → ℕ × NzbObject
unfolding block_list count_blocks add_needed
get_extra_blocks similar setname needed_blocks o =
    let found = block_list similar o setname o.extrapars in
    if leb needed_blocks (count_blocks o found)
    then add_needed needed_blocks 0 (sort (λ a b. ltb (blocks_of o a) (blocks_of o b)) found) o
    else (0, o)

-- Either no file was added, or the file joined the job, which was neither there nor finished.
abbrev pub IsAdded : ℕ → NzbObject → Bool × NzbObject → Type 0
IsAdded id o r =
    ((r.0 ≡ false) × (r.1 ≡ o))
    ⊎ ((r.0 ≡ true)
        × (r.1.nzo.files ≡ id ∷ o.nzo.files)
        × (contains id o.nzo.files ≡ false)
        × (is_available o id ≡ true))

-- A par2 file is put in front of the files of the job, unless it is there already, is finished or
-- is completed; then nothing changes.
pub add_parfile-IsAdded : (id : ℕ) (o : NzbObject) → IsAdded id o (add_parfile id o)
unfolding add_parfile File.completed
add_parfile-IsAdded id o =
    if_ind (IsAdded id o)
      (not (File.completed (o.nzf id))
        && not (contains id o.nzo.files)
        && not (contains id o.nzo.finished_files))
      (λ free. inr (refl, refl, absent free, available free)) (λ _. inl (refl, refl))
  where
    absent :
        (not (File.completed (o.nzf id))
            && not (contains id o.nzo.files)
            && not (contains id o.nzo.finished_files))
          ≡ true
        → contains id o.nzo.files ≡ false
    absent free = ground arith

    available :
        (not (File.completed (o.nzf id))
            && not (contains id o.nzo.files)
            && not (contains id o.nzo.finished_files))
          ≡ true
        → is_available o id ≡ true
    available free = ground arith

-- Files are listed in front of the others; the count is 0, or with `before` that of their blocks.
pub record IsExtended (needed before : ℕ) (a : NzbObject) (r : ℕ × NzbObject) : Type 0 where
  pub finished : r.1.nzo.finished_files ≡ a.nzo.finished_files
  pub added : List ℕ
  pub files : r.1.nzo.files ≡ added ++ a.nzo.files
  pub outcome : (r.0 ≡ 0) ⊎ ((needed ≤ r.0) × (r.0 ≡ before + count_blocks a added))

add_parfile-finished :
    (id : ℕ) (o : NzbObject) → (add_parfile id o).1.nzo.finished_files ≡ o.nzo.finished_files
unfolding add_parfile
add_parfile-finished id o = ground arith

add_parfile-blocks : (id j : ℕ) (o : NzbObject) → blocks_of (add_parfile id o).1 j ≡ blocks_of o j
unfolding add_parfile
add_parfile-blocks id j o =
    if_ind (λ (r : Bool × NzbObject). blocks_of r.1 j ≡ blocks_of o j)
      (not (File.completed (o.nzf id))
        && not (contains id o.nzo.files)
        && not (contains id o.nzo.finished_files))
      (λ _. same (Bool-cases (j == id))) (λ _. refl)
  where
    same :
        ((j == id) ≡ true) ⊎ ((j == id) ≡ false)
        → size_or_zero (if j == id then record (o.nzf id) { try_list = [] } else o.nzf j).blocks
          ≡ blocks_of o j
    same (inl e) = rw e (ap (λ i. size_or_zero (o.nzf i).blocks) (sym ((==_iff j id).0 e)))
    same (inr e) = rw e refl

count_blocks-same :
    (a b : NzbObject) (ids : List ℕ)
    → ((id : ℕ) → blocks_of a id ≡ blocks_of b id)
    → count_blocks a ids ≡ count_blocks b ids
unfolding count_blocks
count_blocks-same a b [] h = refl
count_blocks-same a b (x ∷ xs) h = cc (h x, count_blocks-same a b xs h)

count_blocks-snoc :
    (o : NzbObject) (ids : List ℕ) (id : ℕ)
    → count_blocks o (ids ++ id ∷ []) ≡ count_blocks o ids + blocks_of o id
unfolding count_blocks
count_blocks-snoc o [] id = omega arith
count_blocks-snoc o (x ∷ xs) id = omega (arith, count_blocks-snoc o xs id)

add_needed-IsExtended :
    (needed before : ℕ) (ids : List ℕ) (o : NzbObject)
    → IsExtended needed before o (add_needed needed before ids o)
unfolding add_needed
add_needed-IsExtended needed before [] o = record {
  finished = refl;
  added = [];
  files = refl;
  outcome = inl refl;
}
add_needed-IsExtended needed before (id ∷ ids) o =
    let o' = (add_parfile id o).1 in
    let P = IsExtended needed before o in
    elim (add_parfile-IsAdded id o) [
      | inl (refused, same) ↦ rw refused (
          subst (λ b. P (add_needed needed before ids b)) (sym same)
            (add_needed-IsExtended needed before ids o))
      | inr (given, front, _, _) ↦ rw given (
          if_ind P (leb needed (before + blocks_of o id))
            (λ enough. record {
              finished = add_parfile-finished id o;
              added = id ∷ [];
              files = front;
              outcome = inr (le needed (before + blocks_of o id) enough, one);
            })
            (λ _. later front (add_needed-IsExtended needed (before + blocks_of o id) ids o')))
    ]
  where
    le : (m n : ℕ) → leb m n ≡ true → m ≤ n
    le m n e = ground arith

    one : before + blocks_of o id ≡ before + count_blocks o (id ∷ [])
    one = unfold count_blocks in omega arith

    later :
        (add_parfile id o).1.nzo.files ≡ id ∷ o.nzo.files
        → {r : ℕ × NzbObject} → IsExtended needed (before + blocks_of o id) (add_parfile id o).1 r
        → IsExtended needed before o r
    later front x = record {
      finished = x.finished ∙ add_parfile-finished id o;
      added = x.added ++ id ∷ [];
      files =
          x.files ∙ ap (λ l. x.added ++ l) front ∙ sym (append_assoc x.added (id ∷ []) o.nzo.files);
      outcome = elim x.outcome [
        | inl e ↦ inl e
        | inr (enough, sum) ↦ inr (
          enough,
          omega (
            arith,
            sum,
            count_blocks-snoc o x.added id,
            count_blocks-same (add_parfile id o).1 o x.added (λ j. add_parfile-blocks id j o),
          ),
        )
      ];
    }

-- When more par2 blocks are asked for, files may be put in front of the files of the job; either the
-- result is 0, or it is at least what was needed, and is the number of blocks of the files that were
-- added.
pub get_extra_blocks-IsExtended :
    (similar : ℕ → ℕ → Bool) (setname needed : ℕ) (o : NzbObject)
    → IsExtended needed 0 o (get_extra_blocks similar setname needed o)
unfolding get_extra_blocks
get_extra_blocks-IsExtended similar setname needed o =
    let found = block_list similar o setname o.extrapars in
    if_ind (IsExtended needed 0 o) (leb needed (count_blocks o found))
      (λ _.
        add_needed-IsExtended needed 0 (sort (λ a b. ltb (blocks_of o a) (blocks_of o b)) found) o)
      (λ _. record { finished = refl; added = []; files = refl; outcome = inl refl })
