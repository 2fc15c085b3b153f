-- ===== src/PostProc/Job/Fine.antt =====
-- sabnzbd/postproc.py: what has to go well for a job, and the stages of `process_job` after its repair.
use sabnzbd.Prelude.{
  ℕ, ◌≡◌, refl, Bool, true, false, not, ◌&&◌, ◌||◌, ◌==◌, leb, if◌then◌else◌, Option, none, some,
  arith,
}
use sabnzbd.PostProc.Job.{
  Tools, Settings, Nzo, Locals, Result, ok, re_added, raised, all_true, unpack_stage, move_stage,
  nzb_stage, extract, is_done, sorts, sort_stage, script_stage, finish_stages, call, ◌>>=◌, ◌>>◌,
}

-- The tool answered, with an answer that passes the test.
abbrev pub answers {ℓ} : {A : Type ℓ} → (A → Bool) → Option A → Bool
answers f none = false
answers f (some a) = f a

abbrev pub repairs : Nzo → Bool
repairs nzo = nzo.repair || nzo.unpack || nzo.delete

abbrev pub is_repaired : Settings → Bool × Bool → Bool
is_repaired s (par_error, re_add) = not re_add && not (s.safe_postproc && par_error)

abbrev pub is_script_fine : Settings → Option ℕ → Bool
is_script_fine s none = true
is_script_fine s (some ret) = ret == 0 || not s.script_can_fail

-- What has to go well after the unpacking, unless the job held nzb files only.
abbrev pub is_finished : Settings → Tools → Bool
is_finished s t =
    (not (sorts s t && t.newfiles) || answers (λ b. b) t.sorter_rename)
    && is_done t.deobfuscate
    && answers (is_script_fine s) t.script

-- All that has to go well.
abbrev pub is_fine : Settings → Tools → Nzo → Bool
is_fine s t nzo =
    not nzo.fail_msg
    && answers (leb 2) t.count_files
    && (not (repairs nzo) || answers (is_repaired s) t.parring)
    && is_done t.sanitize_files
    && is_done t.prepare_extraction_path
    && (not (nzo.unpack || nzo.delete) || answers (λ e. e == 0 || not s.safe_postproc) t.unpacker)
    && answers all_true t.moves
    && (not (repairs nzo) || is_done t.process_nzb_only_download)
    && (repairs nzo && answers (λ b. b) t.process_nzb_only_download || is_finished s t)
    && is_done t.handle_duplicate_alternatives

abbrev pub verdict : Result Locals → Bool
verdict (ok l) = l.all_ok
verdict re_added = false
verdict raised = false

finish_stages-verdict :
    (s : Settings) (t : Tools) (l : Locals)
    → verdict (finish_stages s t l) ≡ (l.all_ok && is_finished s t)
unfolding finish_stages sort_stage script_stage
finish_stages-verdict s t l = ground arith

-- The stages after the repair.
unfoldable pub rest : Settings → Tools → Locals → Result Locals
rest s t l = do
  (nzb_list, l) ← extract s t l
  l ← (if nzb_list then ok l else finish_stages s t l)
  call t.handle_duplicate_alternatives
  ok (record l { all_ok = l.all_ok && not l.empty })

-- What has to go well there, for a job that is fine so far.
unfoldable pub tail : Settings → Tools → Bool → Bool → Bool → Bool
tail s t all_ok flag_repair flag_unpack =
    all_ok
    && is_done t.prepare_extraction_path
    && (not flag_unpack || answers (λ e. e == 0 || not s.safe_postproc) t.unpacker)
    && answers all_true t.moves
    && (not flag_repair || is_done t.process_nzb_only_download)
    && (flag_repair && answers (λ b. b) t.process_nzb_only_download || is_finished s t)
    && is_done t.handle_duplicate_alternatives

pub rest-verdict :
    (s : Settings) (t : Tools) (l : Locals)
    → (l.all_ok && l.empty) ≡ false
    → verdict (rest s t l) ≡ tail s t l.all_ok l.flag_repair l.flag_unpack
unfolding rest tail extract unpack_stage move_stage nzb_stage finish_stages sort_stage script_stage
rest-verdict s t l h = ground arith

pub tail-false : (s : Settings) (t : Tools) (r u : Bool) → tail s t false r u ≡ false
unfolding tail
tail-false s t r u = refl
