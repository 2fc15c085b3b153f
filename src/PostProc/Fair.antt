-- ===== src/PostProc/Fair.antt =====
-- sabnzbd/postproc.py: the turns of slow and fast jobs.
use sabnzbd.Prelude.{
  ℕ, ◌+◌, ◌≤◌, ◌≡◌, refl, ap, Bool, true, false, not, ◌&&◌, ◌||◌, ◌⊎◌, inl, inr, ◌==◌, leb, if_ind,
  Option, none, some, List, [], ◌∷◌, ◌++◌, arith, ==_refl,
}
use sabnzbd.Job.{is_nil, queued}
use sabnzbd.PostProc.{
  PostProcessor, max_fast_job_count, process, enlist, set_job, is_fast, take_slow, take_fast,
  take_next,
}

-- A job arrives, or the loop takes one.
pub data Turn : Type 0 where
  arrive : ℕ → Turn
  take : Turn

abbrev pub takes : List Turn → ℕ
takes [] = 0
takes (arrive _ ∷ ts) = takes ts
takes (take ∷ ts) = takes ts + 1

-- The jobs taken, in their order.
pub taken : List Turn → PostProcessor → List (Option ℕ)
taken [] p = []
taken (arrive j ∷ ts) p = taken ts (process j p)
taken (take ∷ ts) p = (take_next p).0 ∷ taken ts (take_next p).1

abbrev pub is_taken : ℕ → List (Option ℕ) → Bool
is_taken j [] = false
is_taken j (none ∷ os) = is_taken j os
is_taken j (some i ∷ os) = (i == j) || is_taken j os

-- What arrivals leave alone.
process-waiting :
    (i j : ℕ) (rest : List ℕ) (p : PostProcessor)
    → p.slow_queue ≡ j ∷ rest
    → ((rest' : List ℕ) × ((process i p).slow_queue ≡ j ∷ rest'))
      × ((process i p).fast_job_count ≡ p.fast_job_count)
unfolding process
process-waiting i j rest p h =
    let q = enlist i (set_job i (λ nzo. record nzo { status = queued }) p) in
    if_ind
      (λ (r : PostProcessor).
        ((rest' : List ℕ) × (r.slow_queue ≡ j ∷ rest')) × (r.fast_job_count ≡ p.fast_job_count))
      (is_fast (q.jobs i).direct_unpacker) (λ _. ((rest, h), refl))
      (λ _. ((rest ++ i ∷ [], ap (λ l. l ++ i ∷ []) h), refl))

module _ (j : ℕ) (rest : List ℕ) (p : PostProcessor) (h : p.slow_queue ≡ j ∷ rest) where
  -- The loop takes the slow job, or a fast one that counts.
  abbrev Waits : Option ℕ × PostProcessor → Type 0
  Waits r =
      (r.0 ≡ some j)
      ⊎ ((r.1.slow_queue ≡ j ∷ rest)
          × (r.1.fast_job_count ≡ p.fast_job_count + 1)
          × (p.fast_job_count + 1 ≤ max_fast_job_count))

  slow-Waits : Waits (take_slow p.slow_queue p)
  slow-Waits = inl (ap (λ l. (take_slow l p).0) h)

  fast-Waits : (fs : List ℕ) → p.fast_job_count + 1 ≤ max_fast_job_count → Waits (take_fast fs p)
  fast-Waits [] few = slow-Waits
  fast-Waits (f ∷ fs) few = inr (h, refl, few)

  take_next-Waits : Waits (take_next p)
  unfolding take_next
  take_next-Waits =
      if_ind Waits (leb max_fast_job_count p.fast_job_count && not (is_nil p.slow_queue))
        (λ _. slow-Waits)
        (λ early. fast-Waits p.fast_queue (few early (ap (λ l. not (is_nil l)) h)))
    where
      few :
          (leb max_fast_job_count p.fast_job_count && not (is_nil p.slow_queue)) ≡ false
          → not (is_nil p.slow_queue) ≡ true
          → p.fast_job_count + 1 ≤ max_fast_job_count
      few early some_slow = ground arith

-- The job at the head of the slow queue is taken, whatever jobs arrive between the turns of the loop,
-- once there was a turn and the turns are more than three together with the fast jobs counted before.
pub taken-waiting :
    (ts : List Turn) (j : ℕ) (rest : List ℕ) (p : PostProcessor)
    → p.slow_queue ≡ j ∷ rest
    → 1 ≤ takes ts
    → max_fast_job_count + 1 ≤ p.fast_job_count + takes ts
    → is_taken j (taken ts p) ≡ true
unfolding taken
taken-waiting [] j rest p h some_turn enough = absurd (omega arith)
taken-waiting (arrive i ∷ ts) j rest p h some_turn enough =
    let ((rest', head), count) = process-waiting i j rest p h in
    taken-waiting ts j rest' (process i p) head some_turn (omega (arith, count))
taken-waiting (take ∷ ts) j rest p h some_turn enough = elim (take_next-Waits j rest p h) [
  | inl own ↦ rw own (first (is_taken j (taken ts (take_next p).1)))
  | inr (head, count, few) ↦
      later (take_next p).0 (taken ts (take_next p).1)
        (taken-waiting ts j rest (take_next p).1 head (omega (arith, few)) (omega (arith, count)))
]
  where
    first : (b : Bool) → ((j == j) || b) ≡ true
    first b = ground (arith, ==_refl j)

    later :
        (o : Option ℕ) (os : List (Option ℕ)) → is_taken j os ≡ true → is_taken j (o ∷ os) ≡ true
    later none os t = t
    later (some i) os t = ground arith
