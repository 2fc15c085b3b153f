-- ===== src/PostProc/Parring.antt =====
-- sabnzbd/postproc.py: parring, the verification and the repair of a job. A par2 set is a number, and 0
-- is the empty name, under which the check without par2 is stored. The tools are parameters.
pub mod Sound
pub mod Tests
use sabnzbd.Prelude.{
  ℕ, Bool, true, false, not, ◌&&◌, ◌||◌, if◌then◌else◌, Option, none, some, List, [], ◌∷◌, ◌++◌,
  eqb_ℤ,
}
use sabnzbd.Prelude.Dict
use sabnzbd.Prelude.Dict.{Dict}
use sabnzbd.Job.{Nzo, Status, fetching, force_priority, repair_priority, is_nil}

-- `is_sample` holds for a sample that is to be ignored; `par2_repair` gives whether the job needs more
-- blocks, and whether the set is right. The rar files are listed before and after the renaming.
pub record Tools : Type 0 where
  pub is_sample : ℕ → Bool
  pub par2_repair : ℕ → Bool × Bool
  pub has_rars : Bool
  pub has_rars_renamed : Bool
  pub sfv_check : Bool
  pub try_sfv_check : Option Bool
  pub enable_unrar : Bool
  pub try_rar_check : Bool

-- The variables of the function, and the calls: the sets that were repaired, the renaming of the rar
-- files, and the note that there is no par2 set.
pub record Repair : Type 0 where
  pub verified : Dict Bool
  pub par_error : Bool
  pub re_add : Bool
  pub repaired : List ℕ
  pub renamed : Bool
  pub no_sets : Bool

abbrev pub is_true : Option Bool → Bool
is_true (some b) = b
is_true none = false

abbrev pub all_values : Dict Bool → Bool
all_values [] = true
all_values ((_, b) ∷ d) = b && all_values d

abbrev pub any_value : Dict Bool → Bool
any_value [] = false
any_value ((_, b) ∷ d) = b || any_value d

abbrev pub start_repair : Dict Bool → Repair
start_repair verified = record {
  verified = verified;
  par_error = false;
  re_add = false;
  repaired = [];
  renamed = false;
  no_sets = false;
}

unfoldable pub repair_set : Tools → ℕ → Repair → Repair
repair_set t set r =
    if t.is_sample set
    then r
    else if is_true (Dict.get set r.verified)
    then r
    else (let (need_re_add, res) = t.par2_repair set in
        record r {
          verified = Dict.put set res r.verified;
          par_error = r.par_error || not res;
          re_add = r.re_add || need_re_add;
          repaired = r.repaired ++ set ∷ [];
        })

unfoldable pub repair_sets : Tools → List ℕ → Repair → Repair
unfolding repair_set
repair_sets t [] r = r
repair_sets t (set ∷ sets) r = repair_sets t sets (repair_set t set r)

-- The checks without par2: SFV, and else the rar files.
abbrev pub sfv_verdict : Tools → Dict Bool → Option Bool
sfv_verdict t verified =
    if t.sfv_check && not (is_true (Dict.get 0 verified)) then t.try_sfv_check else none

abbrev pub other_error : Tools → Option Bool → Bool
other_error t (some ok) = not ok
other_error t none = t.enable_unrar && t.has_rars_renamed && not t.try_rar_check

unfoldable pub check_others : Tools → Repair → Repair
check_others t r =
    if r.par_error
    then r
    else (let renamed : Repair = record r { renamed = not t.has_rars } in
        if any_value r.verified
        then renamed
        else (let par_error = other_error t (sfv_verdict t r.verified) in
            record renamed {
              verified = Dict.put 0 (not par_error) r.verified;
              par_error = par_error;
              no_sets = true;
            }))

-- A job that needs more blocks goes back to the queue.
unfoldable pub re_added : Nzo → Nzo
re_added nzo = record nzo {
  priority = if eqb_ℤ nzo.priority force_priority then nzo.priority else repair_priority;
  status = fetching;
  fail_msg = [];
}

-- The variables at the end, and the job if it was added to the queue.
unfoldable pub parring : Tools → Dict Bool → List ℕ → Nzo → Repair × Option Nzo
unfolding repair_sets check_others re_added
parring t verified extrapars nzo =
    if not (is_nil verified) && all_values verified
    then (start_repair verified, none)
    else (let r = check_others t (repair_sets t extrapars (start_repair verified)) in
        (r, if r.re_add then some (re_added nzo) else none))
