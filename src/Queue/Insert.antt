-- ===== src/Queue/Insert.antt =====
-- sabnzbd/nzbqueue.py: the queue with a job put at its place.
use sabnzbd.Prelude.{
  ℕ, ◌≡◌, refl, ap, subst, false, ◌||◌, ◌==◌, List, contains, Distinct, add_key, ℤ, arith,
  contains-insert, contains-add_key, insert-Distinct, add_key-Distinct,
}
use sabnzbd.Prelude.Sorted.{Descending, insert-Descending, Descending-change}
use sabnzbd.Job.{Nzo}
use sabnzbd.Queue.State.{Queue, IsValid, update, priority_of, rank, rank_of}
use sabnzbd.Queue.Place.Position.{Placed}

module _ (f : ℕ → ℤ) (p : ℤ) (id : ℕ) (xs result : List ℕ) (placed : Placed f p id xs result) where
  abbrev ranked : ℕ → ℤ
  ranked x = rank (f x)

  pub Placed-contains : (a : ℕ) → contains a result ≡ ((id == a) || contains a xs)
  Placed-contains a =
      rw placed.joined (rw placed.split (contains-insert a id placed.before placed.after))

  pub Placed-Distinct : Distinct xs → contains id xs ≡ false → Distinct result
  Placed-Distinct d out = rw placed.joined (
      insert-Distinct id placed.before placed.after (subst Distinct placed.split d)
        (subst (λ l. contains id l ≡ false) placed.split out))

  pub Placed-Descending : f id ≡ p → Descending ranked xs → Descending ranked result
  Placed-Descending own d = rw placed.joined (
      insert-Descending ranked id placed.before placed.after
        (subst (Descending ranked) placed.split d) (rw own placed.above) (rw own placed.below))

-- The object of a job that is not listed may change.
pub update-Descending :
    (jobs : ℕ → Nzo) (id : ℕ) (nzo : Nzo) (xs : List ℕ)
    → contains id xs ≡ false
    → Descending (rank_of jobs) xs
    → Descending (rank_of (update id nzo jobs)) xs
update-Descending jobs id nzo xs out d =
    Descending-change (rank_of jobs) (rank_of (update id nzo jobs)) id (λ x h. ground arith) xs out
      d

pub update_self : (jobs : ℕ → Nzo) (id : ℕ) (nzo : Nzo) → update id nzo jobs id ≡ nzo
update_self jobs id nzo = ground arith

-- A job that the queue does not hold yet: its object is stored and its id is placed by `place`.
pub insert-IsValid :
    (q : Queue) (id : ℕ) (nzo : Nzo) (list : List ℕ)
    → IsValid q
    → contains id q.nzo_list ≡ false
    → (Descending (rank_of (update id nzo q.jobs)) q.nzo_list
        → Placed (priority_of (update id nzo q.jobs)) nzo.priority id q.nzo_list list)
    → IsValid (record q {
      nzo_list = list;
      nzo_table = add_key id q.nzo_table;
      jobs = update id nzo q.jobs;
    })
insert-IsValid q id nzo list v out place =
    let jobs' = update id nzo q.jobs in
    let d = update-Descending q.jobs id nzo q.nzo_list out v.ordered in
    let placed = place d in
    record {
      list_distinct =
          Placed-Distinct (priority_of jobs') nzo.priority id q.nzo_list list placed v.list_distinct
            out;
      table_distinct = add_key-Distinct id q.nzo_table v.table_distinct;
      same_jobs = λ a.
          rw (Placed-contains (priority_of jobs') nzo.priority id q.nzo_list list placed a)
            (rw (contains-add_key a id q.nzo_table) (rw (v.same_jobs a) refl));
      ordered =
          Placed-Descending (priority_of jobs') nzo.priority id q.nzo_list list placed
            (ap (λ (n : Nzo). n.priority) (update_self q.jobs id nzo)) d;
    }
