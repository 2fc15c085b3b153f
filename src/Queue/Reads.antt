-- ===== src/Queue/Reads.antt =====
-- sabnzbd/nzbqueue.py: the functions that only read the queue.
use sabnzbd.Prelude.{
  ℕ, ◌+◌, ◌≡◌, refl, Bool, true, false, not, ◌&&◌, ◌||◌, if◌then◌else◌, List, [], ◌∷◌, All, ℤ, pos,
  ◌+ℤ◌, ◌≤ℤ◌, ltb_ℤ, eqb_ℤ, arith,
}
use sabnzbd.Prelude.Sorted.{Descending}
use sabnzbd.Job.{Nzo, Status, force_priority, is_held, is_paused, is_grabbing, remaining}
use sabnzbd.Queue.State.{Queue, IsValid, priority_of, rank, rank_of}

-- A job that downloads although the queue is paused.
abbrev pub is_forced : Nzo → Bool
is_forced nzo = eqb_ℤ nzo.priority force_priority && not (is_held nzo.status)

has_forced : (ℕ → Nzo) → List ℕ → Bool
has_forced jobs [] = false
has_forced jobs (x ∷ xs) =
    let rest = has_forced jobs xs in
    if is_forced (jobs x)
    then true
    else if ltb_ℤ (priority_of jobs x) force_priority
    then false
    else rest

pub has_forced_jobs : Queue → Bool
unfolding has_forced
has_forced_jobs q = has_forced q.jobs q.nzo_list

-- `any(…)` over all jobs of the list.
abbrev pub any_job : (Nzo → Bool) → (ℕ → Nzo) → List ℕ → Bool
any_job test jobs [] = false
any_job test jobs (x ∷ xs) = test (jobs x) || any_job test jobs xs

-- Jobs below Force are not forced.
none_forced :
    (jobs : ℕ → Nzo) (r : ℤ) (xs : List ℕ)
    → ltb_ℤ r force_priority ≡ true
    → All (λ y. rank_of jobs y ≤ℤ rank r) xs
    → any_job is_forced jobs xs ≡ false
none_forced jobs r [] low all = refl
none_forced jobs r (x ∷ xs) low all =
    rw (not_forced (jobs x) all.0) (none_forced jobs r xs low all.1)
  where
    not_forced : (nzo : Nzo) → rank nzo.priority ≤ℤ rank r → is_forced nzo ≡ false
    not_forced nzo h = ground arith

has_forced-eq-any :
    (jobs : ℕ → Nzo) (xs : List ℕ)
    → Descending (rank_of jobs) xs
    → has_forced jobs xs ≡ any_job is_forced jobs xs
unfolding has_forced
has_forced-eq-any jobs [] d = refl
has_forced-eq-any jobs (x ∷ xs) d = ground (
  arith,
  has_forced-eq-any jobs xs d.1,
  λ (low : ltb_ℤ (priority_of jobs x) force_priority ≡ true).
      none_forced jobs (priority_of jobs x) xs low d.0,
)

-- In a valid queue the search for forced jobs may stop at the first job below Force: it finds one
-- exactly if any job of the queue is forced.
pub has_forced_jobs-eq-any :
    (q : Queue) → IsValid q → has_forced_jobs q ≡ any_job is_forced q.jobs q.nzo_list
unfolding has_forced_jobs
has_forced_jobs-eq-any q v = has_forced-eq-any q.jobs q.nzo_list v.ordered

-- `actives`, with or without the jobs that are being fetched.
abbrev counts_active : Bool → Status → Bool
counts_active grabs status = (grabs && is_grabbing status) || not (is_held status)

count_active : Bool → (ℕ → Nzo) → ℕ → List ℕ → ℕ
count_active grabs jobs n [] = n
count_active grabs jobs n (x ∷ xs) =
    count_active grabs jobs (if counts_active grabs (jobs x).status then n + 1 else n) xs

pub actives : Bool → Queue → ℕ
unfolding count_active
actives grabs q = count_active grabs q.jobs 0 q.nzo_list

-- `remaining` of the queue: the bytes left of the jobs that are not paused.
sum_remaining : (ℕ → Nzo) → ℤ → List ℕ → ℤ
unfolding remaining
sum_remaining jobs acc [] = acc
sum_remaining jobs acc (x ∷ xs) =
    sum_remaining jobs (if is_paused (jobs x).status then acc else acc +ℤ remaining (jobs x)) xs

pub queue_remaining : Queue → ℤ
unfolding sum_remaining
queue_remaining q = sum_remaining q.jobs (pos 0) q.nzo_list

is_empty_from : (ℕ → Nzo) → List ℕ → Bool
is_empty_from jobs [] = true
is_empty_from jobs (x ∷ xs) =
    let rest = is_empty_from jobs xs in
    if not (jobs x).futuretype && not (is_paused (jobs x).status) then false else rest

pub is_empty : Queue → Bool
unfolding is_empty_from
is_empty q = is_empty_from q.jobs q.nzo_list
