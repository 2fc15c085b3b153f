-- ===== src/Queue/Control/Status.antt =====
-- sabnzbd/nzbqueue.py: the jobs after pausing and resuming by priority or category.
use sabnzbd.Prelude.{
  ℕ, ◌≡◌, refl, ap, sym, subst, ◌∙◌, Bool, true, false, ◌&&◌, ◌||◌, ◌==◌, if◌then◌else◌, if_ind,
  List, [], ◌∷◌, contains, ℤ, eqb_ℤ, arith, Distinct, Bool-cases, inl, inr, ==_iff,
}
use sabnzbd.Job.{Nzo, Text, paused, queued}
use sabnzbd.Queue.State.{Queue, IsValid, update}
use sabnzbd.Queue.Save.{pause_job}
use sabnzbd.Queue.Info.{eq_text}
use sabnzbd.Queue.Control.{for_jobs, requeue, pause_on_prio, resume_on_cat}
use sabnzbd.Queue.Insert.{update_self}

-- The action changes its job by `g`, and no other.
abbrev Acts : (ℕ → Queue → Queue) → (Nzo → Nzo) → Type 0
Acts act g = (x : ℕ) (q : Queue) → (act x q).jobs ≡ update x (g (q.jobs x)) q.jobs

abbrev chosen : (Nzo → Bool) → (Nzo → Nzo) → Bool → Nzo → Nzo
chosen test g listed nzo = if listed && test nzo then g nzo else nzo

module _ (test : Nzo → Bool) (act : ℕ → Queue → Queue) (g : Nzo → Nzo) (acts : Acts act g) where
  act_other :
      (x y : ℕ) (q : Queue)
      → (x == y) ≡ false
      → (if test (q.jobs x) then act x q else q).jobs y ≡ q.jobs y
  act_other x y q ne =
      if_ind (λ (r : Queue). r.jobs y ≡ q.jobs y) (test (q.jobs x))
        (λ _. ap (λ (j : ℕ → Nzo). j y) (acts x q) ∙ other) (λ _. refl)
    where
      other : update x (g (q.jobs x)) q.jobs y ≡ q.jobs y
      other = ground arith

  act_self :
      (x : ℕ) (q : Queue)
      → (if test (q.jobs x) then act x q else q).jobs x ≡ chosen test g true (q.jobs x)
  act_self x q = go (test (q.jobs x))
    where
      go : (b : Bool) → (if b then act x q else q).jobs x ≡ (if b then g (q.jobs x) else q.jobs x)
      go true = ap (λ (j : ℕ → Nzo). j x) (acts x q) ∙ update_self q.jobs x (g (q.jobs x))
      go false = refl

  jobs-for_jobs :
      (xs : List ℕ) (q : Queue) (y : ℕ)
      → Distinct xs
      → (for_jobs test act xs q).jobs y ≡ chosen test g (contains y xs) (q.jobs y)
  unfolding for_jobs
  jobs-for_jobs [] q y d = refl
  jobs-for_jobs (x ∷ xs) q y d =
      let q' = if test (q.jobs x) then act x q else q in
      let rest = jobs-for_jobs xs q' y d.1 in
      elim (Bool-cases (x == y)) [
        | inl e ↦
            let same = (==_iff x y).0 e in
            let out = subst (λ z. contains z xs ≡ false) same d.0 in
            rest
            ∙ ap (λ b. chosen test g b (q'.jobs y)) out
            ∙ subst (λ z. q'.jobs z ≡ chosen test g true (q.jobs z)) same (act_self x q)
            ∙ ap (λ b. chosen test g (b || contains y xs) (q.jobs y)) (sym e)
        | inr e ↦
            rest
            ∙ ap (chosen test g (contains y xs)) (act_other x y q e)
            ∙ ap (λ b. chosen test g (b || contains y xs) (q.jobs y)) (sym e)
      ]

abbrev pub paused_job : Nzo → Nzo
paused_job nzo = record nzo { status = paused }

abbrev pub queued_job : Nzo → Nzo
queued_job nzo = record nzo { status = queued }

pause-Acts : Acts pause_job paused_job
unfolding pause_job
pause-Acts x q =
    if_ind (λ (r : Queue). r.jobs ≡ update x (paused_job (q.jobs x)) q.jobs)
      (q.jobs x).removed_from_queue (λ _. refl) (λ _. refl)

-- Pausing a priority pauses every job of the queue that has it, and changes nothing else of any job.
pub pause_on_prio-jobs :
    (p : ℤ) (q : Queue) (id : ℕ)
    → IsValid q
    → (pause_on_prio p q).jobs id ≡ (
        if contains id q.nzo_list && eqb_ℤ (q.jobs id).priority p
        then paused_job (q.jobs id)
        else q.jobs id)
unfolding pause_on_prio
pause_on_prio-jobs p q id v =
    jobs-for_jobs (λ nzo. eqb_ℤ nzo.priority p) pause_job paused_job pause-Acts q.nzo_list q id
      v.list_distinct

-- Resuming a category queues every job of the queue that has it, and changes nothing else of any
-- job, its marks included.
pub resume_on_cat-jobs :
    (cat : Text) (q : Queue) (id : ℕ)
    → IsValid q
    → (resume_on_cat cat q).jobs id ≡ (
        if contains id q.nzo_list && eq_text (q.jobs id).cat cat
        then queued_job (q.jobs id)
        else q.jobs id)
unfolding resume_on_cat
resume_on_cat-jobs cat q id v =
    jobs-for_jobs (λ nzo. eq_text nzo.cat cat) requeue queued_job (λ x r. refl) q.nzo_list q id
      v.list_distinct
