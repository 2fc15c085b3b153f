-- ===== src/Queue/SetPriority/Many.antt =====
-- sabnzbd/nzbqueue.py: the queue after `set_priority` of several jobs.
use sabnzbd.Prelude.{
  ℕ, ◌≡◌, true, false, inl, inr, Option, List, [], ◌∷◌, contains, ℤ, eqb_ℤ, Bool-cases,
}
use sabnzbd.Job.{valid_priority, stop_priority}
use sabnzbd.Queue.State.{Queue, IsValid}
use sabnzbd.Queue.Add.{Surroundings}
use sabnzbd.Queue.SetPriority.{set_priority_one, set_from, set_priority}
use sabnzbd.Queue.SetPriority.Order.{set_priority_one-IsMoved}

set_priority_one-IsValid :
    (w : Surroundings) (id : ℕ) (p : ℤ) (q : Queue)
    → IsValid q
    → valid_priority p ≡ true
    → eqb_ℤ p stop_priority ≡ false
    → IsValid (set_priority_one w id p q).1
set_priority_one-IsValid w id p q v ok go_on = elim (Bool-cases (contains id q.nzo_table)) [
  | inl there ↦ (set_priority_one-IsMoved w id p q v there ok go_on).valid
  | inr absent ↦ unfold set_priority_one in rw absent v
]

set_from-IsValid :
    (w : Surroundings) (p : ℤ) (n : Option ℤ) (ids : List ℕ) (q : Queue)
    → IsValid q
    → valid_priority p ≡ true
    → eqb_ℤ p stop_priority ≡ false
    → IsValid (set_from w p n ids q).1
unfolding set_from
set_from-IsValid w p n [] q v ok go_on = v
set_from-IsValid w p n (id ∷ ids) q v ok go_on =
    set_from-IsValid w p (set_priority_one w id p q).0 ids (set_priority_one w id p q).1
      (set_priority_one-IsValid w id p q v ok go_on) ok go_on

-- A valid priority other than Stop, set for any ids, of jobs of the queue or not: a valid queue stays
-- valid.
pub set_priority-IsValid :
    (w : Surroundings) (ids : List ℕ) (p : ℤ) (q : Queue)
    → IsValid q
    → valid_priority p ≡ true
    → eqb_ℤ p stop_priority ≡ false
    → IsValid (set_priority w ids p q).1
unfolding set_priority
set_priority-IsValid w ids p q v ok go_on = set_from-IsValid w p _ ids q v ok go_on
