-- ===== src/Object/Progress/Report.antt =====
-- sabnzbd/nzb/object.py: what `remove_article` reports.
use sabnzbd.Prelude.{
  ℕ, ◌≡◌, refl, sym, ◌∙◌, Bool, true, false, not, ◌&&◌, ◌⊎◌, inl, inr, ◌==◌, if◌then◌else◌, if_ind,
  List, [], ◌∷◌, length, contains, contains-add_key, contains-remove_one_self, Distinct, arith,
  ==_refl, ap,
}
use sabnzbd.Job.{is_nil}
use sabnzbd.File
use sabnzbd.File.{NzbFile}
use sabnzbd.Object.{NzbObject, Settings, check_availability_ratio}
use sabnzbd.Object.Progress.{count_article, first_done, untrack, conclude, remove_article}
use sabnzbd.Object.Progress.Fit.{HasDistinct, IsFit, count_article-IsFit, first_done-IsFit}

-- A file that is done had been imported, has no articles, and is in none of the lists of files but the
-- finished ones.
pub record IsDone (before : NzbObject) (id : ℕ) (o : NzbObject) : Type 0 where
  pub imported : (before.nzf id).import_finished ≡ true
  pub deleted : (o.nzf id).deleted ≡ true
  pub complete : File.completed (o.nzf id) ≡ true
  pub unlisted : contains id o.nzo.files ≡ false
  pub finished : contains id o.nzo.finished_files ≡ true

empty_list : {A : Type 0} (xs : List A) → (length xs == 0) ≡ true → xs ≡ []
empty_list [] h = refl
empty_list (x ∷ xs) h = absurd (ground arith)

remove_article-left :
    (article : ℕ) (success : Bool) (f : NzbFile)
    → (File.remove_article article success f).0
      ≡ length (File.remove_article article success f).1.articles
unfolding File.remove_article
remove_article-left article success f = ground arith

remove_article-imported :
    (article : ℕ) (success : Bool) (f : NzbFile)
    → (File.remove_article article success f).1.import_finished ≡ f.import_finished
unfolding File.remove_article
remove_article-imported article success f =
    if_ind (λ (r : ℕ × NzbFile). r.1.import_finished ≡ f.import_finished)
      (contains article f.articles) (λ _. refl) (λ _. refl)

untrack-IsDone :
    (article id : ℕ) (success : Bool) (o : NzbObject)
    → Distinct o.nzo.files
    → (untrack article id success o).1 ≡ true
    → IsDone o id (untrack article id success o).2
unfolding untrack File.completed
untrack-IsDone article id success o d h =
    let f = (File.remove_article article success (o.nzf id)).1 in
    rw h (record {
      imported = sym (remove_article-imported article success (o.nzf id)) ∙ had_import;
      deleted = rw (==_refl id) refl;
      complete = rw (==_refl id) (rw (empty_list f.articles all_gone) refl);
      unlisted = contains-remove_one_self id o.nzo.files d;
      finished = contains-add_key id id o.nzo.finished_files ∙ rw (==_refl id) refl;
    })
  where
    had_import : (File.remove_article article success (o.nzf id)).1.import_finished ≡ true
    had_import = ground (arith, h)

    all_gone : (length (File.remove_article article success (o.nzf id)).1.articles == 0) ≡ true
    all_gone = ground (arith, remove_article-left article success (o.nzf id))

-- A file that is not done has articles left, or was not imported.
abbrev pub IsLeft : NzbObject → ℕ → NzbObject → Type 0
IsLeft before id o = (is_nil (o.nzf id).articles && (before.nzf id).import_finished) ≡ false

untrack-IsLeft :
    (article id : ℕ) (success : Bool) (o : NzbObject)
    → (untrack article id success o).1 ≡ false
    → IsLeft o id (untrack article id success o).2
unfolding untrack
untrack-IsLeft article id success o h =
    let r = File.remove_article article success (o.nzf id) in
    rw h (
      rw (==_refl id) (
        rest (length r.1.articles) r.0 r.1.articles r.1.import_finished (o.nzf id).import_finished
          (remove_article-left article success (o.nzf id))
          (remove_article-imported article success (o.nzf id)) refl h))
  where
    rest :
        (n left : ℕ) (xs : List ℕ) (b c : Bool)
        → left ≡ n
        → b ≡ c
        → length xs ≡ n
        → ((left == 0) && b) ≡ false
        → (is_nil xs && c) ≡ false
    rest n left [] b c e f l k = ground arith
    rest n left (x ∷ xs) b c e f l k = refl

-- What is reported: whether the file is done, and whether no file is left, unless the job was aborted.
pub record IsReported (w : Settings) (before : NzbObject) (id : ℕ) (r : ℕ × Bool × Bool × NzbObject)
    : Type 0 where
  pub file_done : r.1 ≡ true → (r.3.nzo.fail_msg ≡ w.not_complete) ⊎ IsDone before id r.3
  pub post_done : r.2 ≡ true → (r.3.nzo.fail_msg ≡ w.not_complete) ⊎ (r.3.nzo.files ≡ [])
  pub not_file_done : r.1 ≡ false → IsLeft before id r.3
  pub not_post_done : r.2 ≡ false → is_nil r.3.nzo.files ≡ false

conclude-IsReported :
    (w : Settings) (before : NzbObject) (id : ℕ) (success can : Bool) (u : ℕ × Bool × NzbObject)
    → (u.1 ≡ true → IsDone before id u.2)
    → (u.1 ≡ false → IsLeft before id u.2)
    → IsReported w before id (conclude w success can u)
unfolding conclude
conclude-IsReported w before id success can (left, done, o) h k =
    if_ind (IsReported w before id)
      (if not success && can && not o.nzo.reuse && w.fail_hopeless_jobs
        then check_availability_ratio w o
        else can)
      (λ _. record {
        file_done = λ e. inr (h e);
        post_done = λ e. inr (none_left o.nzo.files e);
        not_file_done = k;
        not_post_done = λ e. e;
      })
      (λ _. record {
        file_done = λ _. inl refl;
        post_done = λ _. inl refl;
        not_file_done = λ e. absurd (cc);
        not_post_done = λ e. absurd (cc);
      })
  where
    none_left : (xs : List ℕ) → is_nil xs ≡ true → xs ≡ []
    none_left [] e = refl
    none_left (x ∷ xs) e = absurd (cc)

-- The removal of an article from a job whose files are listed once each, also after they are sorted,
-- which does not import them: if the file is reported as done, it had been imported, is complete, and is
-- a finished file and no longer one of the job's, and if not, it has articles left or was not imported;
-- if the job is reported as done, no file is left, and if not, there is one. Or else the job was
-- aborted, and both are reported as done.
pub remove_article-IsReported :
    (w : Settings) (resort : NzbObject → NzbObject) (article : ℕ) (success : Bool) (o : NzbObject)
    → HasDistinct o
    → ((p : NzbObject) → HasDistinct p → HasDistinct (resort p))
    → ((p : NzbObject) (i : ℕ) → ((resort p).nzf i).import_finished ≡ (p.nzf i).import_finished)
    → IsReported w o (o.owner article) (remove_article w resort article success o)
unfolding remove_article
remove_article-IsReported w resort article success o d keeps imports =
    let id = o.owner article in
    let b = (o.nzf id).import_finished in
    let a = (o.nzf id).store article in
    let o1 = count_article id a.bytes success o in
    let o2 = (first_done w resort article a.lowest_partnum o1).1 in
    let (d2, same) : IsFit id b o2 =
      first_done-IsFit id b w resort article a.lowest_partnum o1
        (λ p fit. (keeps p fit.0, imports p id ∙ fit.1))
        (count_article-IsFit id b id a.bytes success o (d, refl)) in
    conclude-IsReported w o id success (first_done w resort article a.lowest_partnum o1).0
      (untrack article id success o2)
      (λ e.
        let done = untrack-IsDone article id success o2 d2 e in
        record {
          imported = sym same ∙ done.imported;
          deleted = done.deleted;
          complete = done.complete;
          unlisted = done.unlisted;
          finished = done.finished;
        })
      (λ e.
        sym (ap (λ c. is_nil ((untrack article id success o2).2.nzf id).articles && c) same)
        ∙ untrack-IsLeft article id success o2 e)
