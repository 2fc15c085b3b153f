-- ===== src/Object/Moves.antt =====
-- sabnzbd/nzb/object.py: the moves of several files at once, up, down, to the top and to the bottom
-- of the list of files. The id of a file stands for the file.
pub mod Swap
pub mod Table
pub mod Files
use sabnzbd.Prelude.{
  ℕ, zero, suc, ◌+◌, ◌-◌, Bool, true, false, not, ◌&&◌, ◌==◌, ltb, if◌then◌else◌, Option, none,
  some, List, [], ◌∷◌, length, get_elem?, contains, keep,
}
use sabnzbd.Prelude.Dict
use sabnzbd.Prelude.Dict.{Dict}
use sabnzbd.Queue.Add.{index_of?}

-- `cleanup_nzf_ids`: only files that are known and listed are moved.
abbrev pub cleanup_nzf_ids : List ℕ → List ℕ → List ℕ → List ℕ
cleanup_nzf_ids files_table files nzf_ids =
    keep (λ id. contains id files_table && contains id files) nzf_ids

-- The file at each position.
unfoldable pub build_pos_nzf_table : List ℕ → List ℕ → Dict ℕ → Dict ℕ
build_pos_nzf_table files [] table = table
build_pos_nzf_table files (id ∷ ids) table =
    build_pos_nzf_table files ids
      (elim (index_of? id files) [ none ↦ table | some pos ↦ Dict.put pos id table ])

-- min(table) and max(table), for the order `lt` of the positions.
unfoldable pub first_key : (ℕ → ℕ → Bool) → ℕ → Dict ℕ → ℕ
first_key lt k [] = k
first_key lt k ((j, _) ∷ table) = first_key lt (if lt j k then j else k) table

-- l[n] = x
abbrev pub set_elem : List ℕ → ℕ → ℕ → List ℕ
set_elem [] n x = []
set_elem (y ∷ ys) zero x = x ∷ ys
set_elem (y ∷ ys) (suc n) x = y ∷ set_elem ys n x

-- The file at `pos` changes places with the one at `other`, unless that one is moved too.
unfoldable pub swap : List ℕ → ℕ → ℕ → ℕ → List ℕ → List ℕ
swap nzf_ids nzf pos other files = elim (get_elem? files other) [
  | none ↦ files
  | some tmp_nzf ↦
      if contains tmp_nzf nzf_ids then files else set_elem (set_elem files other nzf) pos tmp_nzf
]

abbrev pub move_up : List ℕ → ℕ → ℕ → List ℕ → List ℕ
move_up nzf_ids nzf zero files = files
move_up nzf_ids nzf (suc n) files = swap nzf_ids nzf (suc n) n files

-- Below the last file there is none to change with.
abbrev pub move_down : List ℕ → ℕ → ℕ → List ℕ → List ℕ
move_down nzf_ids nzf pos files = swap nzf_ids nzf pos (suc pos) files

-- The loop while the table is not empty, with a bound on its rounds.
unfoldable pub move_from : (ℕ → ℕ → Bool) → (ℕ → ℕ → List ℕ → List ℕ) → ℕ → Dict ℕ → List ℕ → List ℕ
unfolding first_key
move_from lt step zero table files = files
move_from lt step (suc n) [] files = files
move_from lt step (suc n) ((k, v) ∷ rest) files =
    let table = (k, v) ∷ rest in
    let pos = first_key lt k rest in
    let go_on = move_from lt step n (Dict.remove pos table) in
    elim (Dict.get pos table) [ none ↦ files | some nzf ↦ go_on (step nzf pos files) ]

unfoldable pub move_bulk :
    (ℕ → ℕ → Bool) → (List ℕ → ℕ → ℕ → List ℕ → List ℕ) → List ℕ → List ℕ → List ℕ
unfolding move_from build_pos_nzf_table
move_bulk lt step nzf_ids files =
    let table = build_pos_nzf_table files nzf_ids [] in
    move_from lt (step nzf_ids) (length table) table files

unfoldable pub move_up_bulk : List ℕ → List ℕ → List ℕ → List ℕ
unfolding move_bulk swap
move_up_bulk files_table nzf_ids files =
    move_bulk ltb move_up (cleanup_nzf_ids files_table files nzf_ids) files

unfoldable pub move_down_bulk : List ℕ → List ℕ → List ℕ → List ℕ
unfolding move_bulk swap
move_down_bulk files_table nzf_ids files =
    move_bulk (λ a b. ltb b a) move_down (cleanup_nzf_ids files_table files nzf_ids) files
