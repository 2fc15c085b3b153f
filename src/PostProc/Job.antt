-- ===== src/PostProc/Job.antt =====
-- sabnzbd/postproc.py: `process_job`, the stages of one job. The tools that a stage runs are
-- parameters: what each answers, or that it raises an exception.
pub mod Fine
pub mod Verdict
use sabnzbd.Prelude.{
  ℕ, zero, suc, ◌≡◌, Bool, true, false, not, ◌+◌, ◌*◌, ◌&&◌, ◌||◌, ◌==◌, ltb, if◌then◌else◌, Option,
  none, some, List, [], ◌∷◌, ℤ, pos, negsuc,
}
use sabnzbd.Job.{Status, failed, completed}

-- `none` is an exception.
pub record Tools : Type 0 where
  pub count_files : Option ℕ
  pub parring : Option (Bool × Bool)
  pub sanitize_files : Option (Unit {0})
  pub prepare_extraction_path : Option (Unit {0})
  pub unpacker : Option ℕ
  pub moves : Option (List Bool)
  pub process_nzb_only_download : Option Bool
  pub rename_and_collapse_folder : Option (Unit {0})
  pub one_folder : Bool
  pub sorter_active : Bool
  pub newfiles : Bool
  pub sorter_rename : Option Bool
  pub deobfuscate : Option (Unit {0})
  pub script : Option (Option ℕ)
  pub handle_duplicate_alternatives : Option (Unit {0})

pub record Settings : Type 0 where
  pub safe_postproc : Bool
  pub script_can_fail : Bool
  pub folder_rename : Bool

-- The job at the start; `fail_msg` is whether the text is not empty.
pub record Nzo : Type 0 where
  pub repair : Bool
  pub unpack : Bool
  pub delete : Bool
  pub precheck : Bool
  pub fail_msg : Bool

-- The local variables. `job_result` is what the script is told.
pub record Locals : Type 0 where
  pub all_ok : Bool
  pub par_error : Bool
  pub unpack_error : ℕ
  pub empty : Bool
  pub flag_repair : Bool
  pub flag_unpack : Bool
  pub job_result : ℤ

-- A stage goes on, returns as the job went back to the queue, or raises.
pub data Result {ℓ} (A : Type ℓ) : Type ℓ where
  ok : A → Result A
  re_added : Result A
  raised : Result A

infixl 5 ◌>>=◌ ◌>>◌
abbrev pub ◌>>=◌ {ℓ κ} : {A : Type ℓ} {B : Type κ} → Result A → (A → Result B) → Result B
ok a >>= f = f a
re_added >>= f = re_added
raised >>= f = raised

abbrev pub ◌>>◌ {ℓ} : {B : Type ℓ} → Result (Unit {0}) → Result B → Result B
m >> k = m >>= λ _. k

abbrev pub call {ℓ} : {A : Type ℓ} → Option A → Result A
call none = raised
call (some a) = ok a

-- A call that is made only under a condition.
abbrev pub call_if : Bool → Option (Unit {0}) → Result (Unit {0})
call_if false o = ok tt
call_if true o = call o

unfoldable pub start : Nzo → Locals
start nzo =
    let flag_unpack = nzo.unpack || nzo.delete in
    record {
      all_ok = not nzo.fail_msg;
      par_error = nzo.fail_msg;
      unpack_error = if nzo.fail_msg then 1 else 0;
      empty = false;
      flag_repair = nzo.repair || flag_unpack;
      flag_unpack = flag_unpack;
      job_result = pos 0;
    }

-- A job without files fails.
unfoldable pub check_files : Tools → Nzo → Locals → Result Locals
check_files t nzo l =
    if l.all_ok
    then (do
      files ← call t.count_files
      ok (
          if ltb files 2
          then record l {
            empty = not nzo.precheck;
            flag_repair = false;
            flag_unpack = false;
            all_ok = false;
            par_error = true;
            unpack_error = 1;
          }
          else l))
    else ok l

unfoldable pub repair_stage : Tools → Locals → Result Locals
repair_stage t l =
    if l.all_ok && l.flag_repair
    then (do
      (par_error, re_add) ← call t.parring
      (if re_add then re_added else ok (record l { par_error = par_error })))
    else ok l

abbrev pub all_true : List Bool → Bool
all_true [] = true
all_true (b ∷ bs) = b && all_true bs

unfoldable pub unpack_stage : Settings → Tools → Locals → Result Locals
unpack_stage s t l =
    if l.flag_unpack
    then (do
      error ← call t.unpacker
      ok (record l {
        unpack_error = error;
        all_ok = if s.safe_postproc then l.all_ok && error == 0 else l.all_ok;
      }))
    else ok l

unfoldable pub move_stage : Tools → Locals → Result Locals
move_stage t l =
    if l.all_ok then (do moved ← call t.moves; ok (record l { all_ok = all_true moved })) else ok l

-- The result of the download of a job that holds only nzb files, when it is looked for.
unfoldable pub nzb_stage : Tools → Locals → Result Bool
nzb_stage t l = if l.all_ok && l.flag_repair then call t.process_nzb_only_download else ok false

-- The stages of a job that is fine after its repair.
unfoldable pub extract : Settings → Tools → Locals → Result (Bool × Locals)
unfolding unpack_stage move_stage nzb_stage
extract s t l =
    if l.all_ok
    then (do
      call t.prepare_extraction_path
      l ← unpack_stage s t l
      l ← move_stage t l
      nzb_list ← nzb_stage t l
      ok (nzb_list, l))
    else ok (false, l)

abbrev pub is_done {ℓ} : {A : Type ℓ} → Option A → Bool
is_done none = false
is_done (some _) = true

-- The sorter is off after a rename of the folder that failed.
abbrev pub sorts : Settings → Tools → Bool
sorts s t =
    t.sorter_active && (not s.folder_rename || t.one_folder || is_done t.rename_and_collapse_folder)

unfoldable pub sort_stage : Settings → Tools → Locals → Result Locals
sort_stage s t l =
    if l.all_ok && sorts s t && t.newfiles
    then (do
      renamed ← call t.sorter_rename
      ok (if renamed then l else record l { all_ok = false }))
    else ok l

unfoldable pub script_stage : Settings → Tools → Locals → Result Locals
script_stage s t l = do
  script ← call t.script
  ok (elim script [
    | none ↦ l
    | some ret ↦ if not (ret == 0) && s.script_can_fail then record l { all_ok = false } else l
  ])

abbrev pub int : Bool → ℕ
int true = 1
int false = 0

unfoldable pub finish_stages : Settings → Tools → Locals → Result Locals
unfolding sort_stage script_stage
finish_stages s t l = do
  let l : Locals = record l {
    job_result =
        if l.empty then negsuc 0 else pos (int l.par_error + int (not (l.unpack_error == 0)) * 2);
  }
  l ← sort_stage s t l
  call_if l.all_ok t.deobfuscate
  script_stage s t l

unfoldable pub stages : Settings → Tools → Nzo → Result Locals
unfolding start check_files repair_stage extract finish_stages
stages s t nzo = do
  l ← check_files t nzo (start nzo)
  l ← repair_stage t l
  call t.sanitize_files
  let l : Locals = record l {
    all_ok = if l.flag_repair && s.safe_postproc then l.all_ok && not l.par_error else l.all_ok;
  }
  (nzb_list, l) ← extract s t l
  l ← (if nzb_list then ok l else finish_stages s t l)
  call t.handle_duplicate_alternatives
  ok (record l { all_ok = l.all_ok && not l.empty })

-- What becomes of the job: its status in the history, whether all its data is removed, and
-- whether another nzb is tried.
pub record Outcome : Type 0 where
  pub status : Status
  pub delete_all_data : Bool
  pub tries_alternative : Bool

-- The end of `process_job`; `pp_active` is false for a job that was aborted.
unfoldable pub finish : Bool → Locals → Outcome
finish pp_active l = record {
  status = if l.all_ok && pp_active then completed else failed;
  delete_all_data = l.all_ok;
  tries_alternative = l.par_error || l.unpack_error == 2 || l.unpack_error == 3;
}

-- The handler of an exception, after which only `par_error` matters.
abbrev pub exception : Locals
exception = record {
  all_ok = false;
  par_error = true;
  unpack_error = 0;
  empty = false;
  flag_repair = false;
  flag_unpack = false;
  job_result = pos 0;
}

-- No outcome: the job went back to the queue.
abbrev pub ended : Bool → Result Locals → Option Outcome
ended pp_active re_added = none
ended pp_active raised = some (finish pp_active exception)
ended pp_active (ok l) = some (finish pp_active l)

unfoldable pub process_job : Settings → Tools → Bool → Nzo → Option Outcome
unfolding stages
process_job s t pp_active nzo = ended pp_active (stages s t nzo)
