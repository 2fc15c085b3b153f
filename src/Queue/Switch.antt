-- ===== src/Queue/Switch.antt =====
-- sabnzbd/nzbqueue.py: `switch`.
pub mod Split
pub mod Find
pub mod Rank
pub mod Order
pub mod Result
use sabnzbd.Prelude.{
  ℕ, suc, ◌+◌, ◌-◌, Bool, true, false, not, ◌&&◌, ◌||◌, ◌==◌, ltb, if◌then◌else◌, Option, none,
  some, List, [], ◌∷◌, length, get_elem?, insert_at, delete_at, contains, ℤ, pos, negsuc, ltb_ℤ,
  eqb_ℤ, zero,
}
use sabnzbd.Job.{Nzo}
use sabnzbd.Queue.State.{Queue, set_job, priority_of}

-- The second argument: the id of a job, or a text that reads as an integer and stands for a
-- position. No id of a job reads as an integer.
pub data Target : Type 0 where
  key : ℕ → Target
  index : ℤ → Target

-- l[i], where a negative i counts from the end.
abbrev pub get_signed : List ℕ → ℤ → Option ℕ
get_signed xs (pos n) = get_elem? xs n
get_signed xs (negsuc n) = if ltb n (length xs) then get_elem? xs (length xs - suc n) else none

abbrev pub next_index : ℤ → ℤ
next_index (pos n) = pos (suc n)
next_index (negsuc zero) = pos 0
next_index (negsuc (suc n)) = negsuc n

abbrev pub target_id : List ℕ → Target → Option ℕ
target_id xs (key id) = some id
target_id xs (index i) = get_signed xs i

-- The job below the target; without an index the variable `i` is unbound, an exception.
abbrev pub below_target : List ℕ → Target → Option ℕ
below_target xs (key id) = none
below_target xs (index i) = get_signed xs (next_index i)

-- The priority that the moved job takes, from its own, the target's and that of the job below.
unfoldable pub adjusted : ℤ → ℤ → Option ℤ → ℤ
adjusted p1 p2 none = p2
adjusted p1 p2 (some p3) = if not (eqb_ℤ p2 p1) && not (eqb_ℤ p3 p1) || ltb_ℤ p1 p2 then p2 else p1

abbrev pub priority_below : Queue → Option ℕ → Option ℤ
priority_below q none = none
priority_below q (some id) = if contains id q.nzo_table then some (priority_of q.jobs id) else none

abbrev pub both_found : Option ℕ → Option ℕ → Option (ℕ × ℕ)
both_found none _ = none
both_found (some i) none = none
both_found (some i) (some j) = some (i, j)

-- The loop over the positions, which ends as soon as both jobs are found.
unfoldable pub find_both : ℕ → ℕ → ℕ → Option ℕ → Option ℕ → List ℕ → Option (ℕ × ℕ)
find_both a b n p1 p2 [] = none
find_both a b n p1 p2 (x ∷ xs) =
    let p1' = if x == a then some n else p1 in
    let p2' = if x == a then p2 else if x == b then some n else p2 in
    let rest = find_both a b (suc n) p1' p2' xs in
    elim (both_found p1' p2') [ none ↦ rest | some r ↦ some r ]

-- The position and the priority that the job has now.
unfoldable pub moved : ℕ → ℤ → Option (ℕ × ℕ) → Queue → (ℤ × ℤ) × Queue
moved id p none q = ((negsuc 0, p), q)
moved id p (some (n1, n2)) q =
    ((pos n2, p), record q { nzo_list = insert_at n2 id (delete_at n1 q.nzo_list) })

unfoldable pub switch_jobs : ℕ → ℕ → Option ℕ → Queue → (ℤ × ℤ) × Queue
unfolding adjusted find_both moved
switch_jobs id1 id2 below q =
    let p = adjusted (priority_of q.jobs id1) (priority_of q.jobs id2) (priority_below q below) in
    let q' = set_job id1 (record (q.jobs id1) { priority = p }) q in
    moved id1 p (find_both id1 id2 0 none none q.nzo_list) q'

unfoldable pub switch_found : ℕ → Option ℕ → Option ℕ → Queue → (ℤ × ℤ) × Queue
unfolding switch_jobs
switch_found id1 none below q = ((negsuc 0, pos 0), q)
switch_found id1 (some id2) below q =
    if contains id1 q.nzo_table && contains id2 q.nzo_table && not (id1 == id2)
    then switch_jobs id1 id2 below q
    else ((negsuc 0, pos 0), q)

unfoldable pub switch : ℕ → Target → Queue → (ℤ × ℤ) × Queue
unfolding switch_found
switch id1 target q =
    switch_found id1 (target_id q.nzo_list target) (below_target q.nzo_list target) q
