-- ===== src/Object/Progress/Fit.antt =====
-- sabnzbd/nzb/object.py: what the counting of an article keeps: the files are listed once each, and a file
-- is imported or not as before.
use sabnzbd.Prelude.{
  ℕ, ◌+◌, ◌≡◌, refl, sym, subst, ◌∙◌, Bool, not, ◌&&◌, inl, inr, ◌==◌, ltb, leb, if◌then◌else◌,
  if_ind, List, [], ◌∷◌, contains, Distinct, remove_one, ap, Bool-cases, ==_iff,
}
use sabnzbd.Job.{is_nil}
use sabnzbd.File
use sabnzbd.File.{NzbFile}
use sabnzbd.Prelude.Dict.{Dict}
use sabnzbd.Object.Par2.{add_parfile-IsAdded}
use sabnzbd.Object.{
  NzbObject, Settings, blocks_of, add_parfile, add_blocks, add_sets, max_bad_articles,
  prospective_add,
}
use sabnzbd.Object.Progress.{count_tried, count_missing, compensate, count_article, first_done}

-- The files of the job are listed once each.
abbrev pub HasDistinct : NzbObject → Type 0
HasDistinct o = Distinct o.nzo.files

-- And a file of it was imported, or not.
abbrev pub IsFit : ℕ → Bool → NzbObject → Type 0
IsFit id b o = HasDistinct o × ((o.nzf id).import_finished ≡ b)

add_parfile-imported :
    (i id : ℕ) (o : NzbObject)
    → ((add_parfile id o).1.nzf i).import_finished ≡ (o.nzf i).import_finished
unfolding add_parfile
add_parfile-imported i id o =
    if_ind (λ (r : Bool × NzbObject). (r.1.nzf i).import_finished ≡ (o.nzf i).import_finished)
      (not (File.completed (o.nzf id))
        && not (contains id o.nzo.files)
        && not (contains id o.nzo.finished_files))
      (λ _. same) (λ _. refl)
  where
    same :
        (if i == id then record (o.nzf id) { try_list = [] } else o.nzf i).import_finished
        ≡ (o.nzf i).import_finished
    same = elim (Bool-cases (i == id)) [
      | inl e ↦ rw e (ap (λ j. (o.nzf j).import_finished) (sym ((==_iff i id).0 e)))
      | inr e ↦ rw e refl
    ]

add_parfile-IsFit :
    (id0 : ℕ) (b : Bool) (id : ℕ) (o : NzbObject) → IsFit id0 b o → IsFit id0 b (add_parfile id o).1
add_parfile-IsFit id0 b id o (d, e) = (
  elim (add_parfile-IsAdded id o) [
    | inl (_, same) ↦ subst HasDistinct (sym same) d
    | inr (_, front, out, _) ↦ subst Distinct (sym front) (out, d)
  ],
  add_parfile-imported id0 id o ∙ e,
)

add_blocks-IsFit :
    (id0 : ℕ) (b : Bool) (n : ℕ) (ids : List ℕ) (o : NzbObject)
    → IsFit id0 b o
    → IsFit id0 b (add_blocks n ids o)
unfolding add_blocks
add_blocks-IsFit id0 b n [] o d = d
add_blocks-IsFit id0 b n (id ∷ ids) o d =
    let d' = add_parfile-IsFit id0 b id o d in
    let o' = (add_parfile id o).1 in
    if_ind (IsFit id0 b) (add_parfile id o).0
      (λ _.
        if_ind (IsFit id0 b) (leb o.bad_articles (n + blocks_of o id)) (λ _. d')
          (λ _. add_blocks-IsFit id0 b (n + blocks_of o id) ids o' d'))
      (λ _. add_blocks-IsFit id0 b n ids o' d')

add_sets-IsFit :
    (id0 : ℕ) (b : Bool) (sets : Dict (List ℕ)) (o : NzbObject)
    → IsFit id0 b o
    → IsFit id0 b (add_sets sets o)
unfolding add_sets
add_sets-IsFit id0 b [] o d = d
add_sets-IsFit id0 b ((_, ids) ∷ sets) o d =
    add_sets-IsFit id0 b sets (add_blocks 0 ids o) (add_blocks-IsFit id0 b 0 ids o d)

prospective_add-IsFit :
    (id0 : ℕ) (b : Bool) (id : ℕ) (o : NzbObject)
    → IsFit id0 b o
    → IsFit id0 b (prospective_add id o)
unfolding prospective_add
prospective_add-IsFit id0 b id o d =
    if_ind (IsFit id0 b) (o.nzf id).is_par2 (λ _. d) (λ _. add_sets-IsFit id0 b o.extrapars o d)

pub count_article-IsFit :
    (id0 : ℕ) (b : Bool) (id bytes : ℕ) (success : Bool) (o : NzbObject)
    → IsFit id0 b o
    → IsFit id0 b (count_article id bytes success o)
unfolding count_article
count_article-IsFit id0 b id bytes success o d =
    if_ind (IsFit id0 b) success (λ _. tried)
      (λ _.
        let p = compensate id (count_missing id bytes (count_tried id bytes o)) in
        if_ind (IsFit id0 b) (ltb max_bad_articles p.bad_articles) (λ _. more) (λ _. more))
  where
    tried : IsFit id0 b (count_tried id bytes o)
    tried = unfold count_tried in if_ind (IsFit id0 b) (contains id o.nzo.files) (λ _. d) (λ _. d)

    missed : IsFit id0 b (count_missing id bytes (count_tried id bytes o))
    missed =
        unfold count_missing in
        if_ind (IsFit id0 b) ((count_tried id bytes o).nzf id).is_par2 (λ _. tried) (λ _. tried)

    more : IsFit id0 b (compensate id (count_missing id bytes (count_tried id bytes o)))
    more =
        let p = count_missing id bytes (count_tried id bytes o) in
        unfold compensate in
        if_ind (IsFit id0 b) (not (is_nil p.extrapars) && not p.nzo.precheck)
          (λ _. prospective_add-IsFit id0 b id p missed) (λ _. missed)

pub first_done-IsFit :
    (id0 : ℕ) (b : Bool) (w : Settings) (resort : NzbObject → NzbObject) (article : ℕ)
    (lowest : Bool) (o : NzbObject)
    → ((p : NzbObject) → IsFit id0 b p → IsFit id0 b (resort p))
    → IsFit id0 b o
    → IsFit id0 b (first_done w resort article lowest o).1
unfolding first_done
first_done-IsFit id0 b w resort article lowest o keeps d =
    let first_articles = remove_one article o.first_articles in
    let P = λ (r : Bool × NzbObject). IsFit id0 b r.1 in
    if_ind P (lowest && contains article o.first_articles)
      (λ _.
        if_ind P (is_nil first_articles)
          (λ _. keeps (record o { first_articles = first_articles }) d) (λ _. d))
      (λ _. d)
