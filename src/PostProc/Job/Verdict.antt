-- ===== src/PostProc/Job/Verdict.antt =====
-- sabnzbd/postproc.py: which jobs `process_job` completes.
use sabnzbd.Prelude.{
  ℕ, ◌≡◌, refl, ap, Bool, true, false, not, ◌&&◌, ◌||◌, ◌==◌, ltb, leb, if_ind, if◌then◌else◌,
  Option, none, some, arith, ◌∙◌, subst,
}
use sabnzbd.Job.{completed, failed}
use sabnzbd.PostProc.Job.{
  Tools, Settings, Nzo, Locals, Result, ok, re_added, raised, start, check_files, repair_stage,
  all_true, is_done, stages, exception, finish, process_job, ended, call, Outcome, ◌>>=◌, ◌>>◌,
}
use sabnzbd.PostProc.Job.Fine.{
  answers, repairs, is_repaired, is_finished, is_fine, verdict, rest, tail, rest-verdict,
}

-- The stages after the repair tool.
sanitized : Settings → Tools → Option (Unit {0}) → Locals → Result Locals
sanitized s t o l = do
  call o
  rest s t (record l {
    all_ok = if l.flag_repair && s.safe_postproc then l.all_ok && not l.par_error else l.all_ok;
  })

sanitized-verdict :
    (s : Settings) (t : Tools) (o : Option (Unit {0})) (l : Locals)
    → (l.all_ok && l.empty) ≡ false
    → verdict (sanitized s t o l) ≡ (
        is_done o
        && tail s t
            (if l.flag_repair && s.safe_postproc then l.all_ok && not l.par_error else l.all_ok)
            l.flag_repair
            l.flag_unpack)
unfolding sanitized
sanitized-verdict s t none l h = refl
sanitized-verdict s t (some _) l h =
    rest-verdict s t
      (record l {
        all_ok = if l.flag_repair && s.safe_postproc then l.all_ok && not l.par_error else l.all_ok;
      })
      less
  where
    less :
        ((if l.flag_repair && s.safe_postproc then l.all_ok && not l.par_error else l.all_ok)
          && l.empty)
        ≡ false
    less = ground (arith, h)

-- The repair, by whether it is made and what the tool answers.
abbrev repaired : Bool → Option (Bool × Bool) → Locals → Result Locals
repaired false o l = ok l
repaired true o l = do
  (par_error, re_add) ← call o
  (if re_add then re_added else ok (record l { par_error = par_error }))

repaired-verdict :
    (s : Settings) (t : Tools) (f : Bool) (o : Option (Bool × Bool)) (l : Locals)
    → (l.all_ok && l.empty) ≡ false
    → f ≡ (l.all_ok && l.flag_repair)
    → verdict (repaired f o l >>= λ l. sanitized s t t.sanitize_files l) ≡ (
        tail s t l.all_ok l.flag_repair l.flag_unpack
        && (not l.flag_repair || answers (is_repaired s) o)
        && is_done t.sanitize_files)
unfolding tail
repaired-verdict s t false o l h e = ground (arith, sanitized-verdict s t t.sanitize_files l h)
repaired-verdict s t true none l h e = ground (arith, e)
repaired-verdict s t true (some (par_error, true)) l h e = ground (arith, e)
repaired-verdict s t true (some (par_error, false)) l h e =
    ground (arith, sanitized-verdict s t t.sanitize_files (record l { par_error = par_error }) h)

middle : Settings → Tools → Locals → Result Locals
middle s t l = repair_stage t l >>= λ l. sanitized s t t.sanitize_files l

repair_stage-repaired :
    (t : Tools) (l : Locals) → repair_stage t l ≡ repaired (l.all_ok && l.flag_repair) t.parring l
unfolding repair_stage
repair_stage-repaired t l = cases (l.all_ok && l.flag_repair)
  where
    cases : (b : Bool) → (if b then repaired true t.parring l else ok l) ≡ repaired b t.parring l
    cases true = refl
    cases false = refl

middle-verdict :
    (s : Settings) (t : Tools) (l : Locals)
    → (l.all_ok && l.empty) ≡ false
    → verdict (middle s t l) ≡ (
        tail s t l.all_ok l.flag_repair l.flag_unpack
        && (not l.flag_repair || answers (is_repaired s) t.parring)
        && is_done t.sanitize_files)
unfolding middle
middle-verdict s t l h =
    ap (λ (r : Result Locals). verdict (r >>= λ l. sanitized s t t.sanitize_files l))
      (repair_stage-repaired t l)
    ∙ repaired-verdict s t (l.all_ok && l.flag_repair) t.parring l h refl

stopped-verdict :
    (s : Settings) (t : Tools) (l : Locals) → l.all_ok ≡ false → verdict (middle s t l) ≡ false
unfolding tail
stopped-verdict s t l h = ground (arith, middle-verdict s t l (rw h refl), h)

-- The check of the files, by whether it is made and how many there are.
abbrev checked : Bool → Option ℕ → Nzo → Locals → Result Locals
checked false o nzo l = ok l
checked true o nzo l = do
  files ← call o
  ok (
      if ltb files 2
      then record l {
        empty = not nzo.precheck;
        flag_repair = false;
        flag_unpack = false;
        all_ok = false;
        par_error = true;
        unpack_error = 1;
      }
      else l)

checked-verdict :
    (s : Settings) (t : Tools) (nzo : Nzo) (f : Bool) (o : Option ℕ)
    → nzo.fail_msg ≡ not f
    → verdict (checked f o nzo (start nzo) >>= λ l. middle s t l) ≡ (
        f
        && answers (leb 2) o
        && tail s t true (repairs nzo) (nzo.unpack || nzo.delete)
        && (not (repairs nzo) || answers (is_repaired s) t.parring)
        && is_done t.sanitize_files)
unfolding start tail
checked-verdict s t nzo false o e = stopped-verdict s t (start nzo) (ap not e)
checked-verdict s t nzo true none e = refl
checked-verdict s t nzo true (some n) e =
    if_ind
      (λ (l : Locals). verdict (middle s t l) ≡ (
        leb 2 n
        && tail s t true (repairs nzo) (nzo.unpack || nzo.delete)
        && (not (repairs nzo) || answers (is_repaired s) t.parring)
        && is_done t.sanitize_files))
      (ltb n 2)
      (λ few.
        stopped-verdict s t
          (record (start nzo) {
            empty = not nzo.precheck;
            flag_repair = false;
            flag_unpack = false;
            all_ok = false;
            par_error = true;
            unpack_error = 1;
          })
          refl
        ∙ ground (arith, few))
      (λ many.
        middle-verdict s t (start nzo) (none_empty (not nzo.fail_msg)) ∙ ground (arith, many, e))
  where
    none_empty : (b : Bool) → (b && false) ≡ false
    none_empty b = ground arith

check_files-checked :
    (t : Tools) (nzo : Nzo) (l : Locals)
    → check_files t nzo l ≡ checked l.all_ok t.count_files nzo l
unfolding check_files
check_files-checked t nzo l = cases l.all_ok
  where
    cases :
        (b : Bool)
        → (if b then checked true t.count_files nzo l else ok l) ≡ checked b t.count_files nzo l
    cases true = refl
    cases false = refl

some-inj {ℓ} : {A : Type ℓ} (a b : A) → some a ≡ some b → a ≡ b
some-inj {A = A} a b h = ap (λ (o : Option A). elim o [ none ↦ a | some c ↦ c ]) h

stages-verdict : (s : Settings) (t : Tools) (nzo : Nzo) → verdict (stages s t nzo) ≡ is_fine s t nzo
unfolding stages middle sanitized rest start tail
stages-verdict s t nzo =
    ap (λ (r : Result Locals). verdict (r >>= λ l. middle s t l))
      (check_files-checked t nzo (start nzo))
    ∙ checked-verdict s t nzo (not nzo.fail_msg) t.count_files (twice nzo.fail_msg)
    ∙ reorder (not nzo.fail_msg) (answers (leb 2) t.count_files) (is_done t.prepare_extraction_path)
        (not (nzo.unpack || nzo.delete) || answers (λ e. e == 0 || not s.safe_postproc) t.unpacker)
        (answers all_true t.moves) (not (repairs nzo) || is_done t.process_nzb_only_download)
        (repairs nzo && answers (λ b. b) t.process_nzb_only_download || is_finished s t)
        (is_done t.handle_duplicate_alternatives)
        (not (repairs nzo) || answers (is_repaired s) t.parring) (is_done t.sanitize_files)
  where
    reorder :
        (f a p u m z n d r c : Bool)
        → (f && a && (true && p && u && m && z && n && d) && r && c)
          ≡ (f && a && r && c && p && u && m && z && n && d)
    reorder f a p u m z n d r c = ground arith

    twice : (b : Bool) → b ≡ not (not b)
    twice b = ground arith

-- A job whose processing ends is completed just when it was not aborted and all its stages went well:
-- it came without a failure, it has at least two files, the repair tool needed no more files and found
-- no error (when it is asked for, and errors count), it was unpacked, moved and renamed, its script
-- did not fail it, and no stage raised. Otherwise it has failed. All its data is removed just when the
-- stages went well.
pub process_job-is_fine :
    (s : Settings) (t : Tools) (pp_active : Bool) (nzo : Nzo) (o : Outcome)
    → process_job s t pp_active nzo ≡ some o
    → (o.status ≡ (if is_fine s t nzo && pp_active then completed else failed))
      × (o.delete_all_data ≡ is_fine s t nzo)
unfolding process_job finish
process_job-is_fine s t pp_active nzo o h =
    subst
      (λ b. (o.status ≡ (if b && pp_active then completed else failed)) × (o.delete_all_data ≡ b))
      (stages-verdict s t nzo) (cases (stages s t nzo) h)
  where
    cases :
        (r : Result Locals)
        → ended pp_active r ≡ some o
        → (o.status ≡ (if verdict r && pp_active then completed else failed))
          × (o.delete_all_data ≡ verdict r)
    cases re_added h = absurd (cc)
    cases raised h = subst IsEnd (some-inj (finish pp_active exception) o h) (refl, refl)
      where
        IsEnd : Outcome → Type 0
        IsEnd o = (o.status ≡ failed) × (o.delete_all_data ≡ false)
    cases (ok l) h = subst IsEnd (some-inj (finish pp_active l) o h) (refl, refl)
      where
        IsEnd : Outcome → Type 0
        IsEnd o =
            (o.status ≡ (if l.all_ok && pp_active then completed else failed))
            × (o.delete_all_data ≡ l.all_ok)
