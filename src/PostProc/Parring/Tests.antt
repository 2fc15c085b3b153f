-- ===== src/PostProc/Parring/Tests.antt =====
-- sabnzbd/postproc.py: a job with three par2 sets, of which one is a sample and one was verified before,
-- and the theorem of parring at work on it.
use sabnzbd.Prelude.{◌≡◌, refl, ◌==◌, true, false, none, [], ◌∷◌}
use sabnzbd.Prelude.Dict
use sabnzbd.Queue.Tests.{linux}
use sabnzbd.PostProc.Parring.{Tools, is_true, parring}
use sabnzbd.PostProc.Parring.Sound.{parring-verified}

abbrev par2_works : Tools
par2_works = record {
  is_sample = λ set. set == 3;
  par2_repair = λ _. (false, true);
  has_rars = true;
  has_rars_renamed = true;
  sfv_check = true;
  try_sfv_check = none;
  enable_unrar = true;
  try_rar_check = false;
}

abbrev par2_lacks_blocks : Tools
par2_lacks_blocks = record par2_works { par2_repair = λ _. (true, false) }

repaired_once :
    (parring par2_works ((1, true) ∷ (2, false) ∷ []) (1 ∷ 2 ∷ 3 ∷ []) linux).0.repaired ≡ 2 ∷ []
unfolding parring
repaired_once = refl

lacks_blocks : (parring par2_lacks_blocks [] (1 ∷ []) linux).0.re_add ≡ true
unfolding parring
lacks_blocks = refl

parring-verified_example :
    is_true (
      Dict.get 2
        (parring par2_works ((1, true) ∷ (2, false) ∷ []) (1 ∷ 2 ∷ 3 ∷ []) linux).0.verified)
    ≡ true
unfolding parring
parring-verified_example =
    parring-verified par2_works ((1, true) ∷ (2, false) ∷ []) (1 ∷ 2 ∷ 3 ∷ []) linux 2 refl refl
      refl refl
