-- ===== src/Object/Fetch/Limit.antt =====
-- sabnzbd/nzb/object.py: the server's queue after `get_articles`.
use sabnzbd.Prelude.{
  ℕ, ◌≤◌, ◌<◌, ◌≡◌, refl, ◌∙◌, Bool, true, false, not, ◌&&◌, ◌||◌, leb, if◌then◌else◌, if_ind, List,
  [], ◌∷◌, ◌++◌, length, length-append, contains, contains-add_key, arith, ==_refl,
}
use sabnzbd.Job.{paused, is_nil}
use sabnzbd.Article
use sabnzbd.Article.{Server, add_to_try_list}
use sabnzbd.File
use sabnzbd.File.{NzbFile, RawArticles, set_article, finish_import}
use sabnzbd.File.Fetch.{get_articles-le_limit}
use sabnzbd.Object.{NzbObject, set_nzf}
use sabnzbd.Object.Fetch.{
  first_from, fetch_file, files_from, drop_failed, end_if_empty, block_if_empty, get_articles,
}

first_from-le_limit :
    (server : Server) (servers : List Server) (limit : ℕ) (ids queue : List ℕ) (o : NzbObject)
    → length queue < limit
    → length (first_from server servers limit ids (queue, o)).0 ≤ limit
unfolding first_from
first_from-le_limit server servers limit [] queue o h = omega arith
first_from-le_limit server servers limit (x ∷ xs) queue o h =
    let f = o.nzf (o.owner x) in
    let a = Article.get_article server servers (f.store x) in
    let o' = set_nzf (o.owner x) (set_article x a.1 f) o in
    let P = λ (r : List ℕ × NzbObject). length r.0 ≤ limit in
    if_ind P a.0
      (λ _.
        if_ind P (leb limit (length (queue ++ x ∷ [])))
          (λ _. omega (arith, h, length-append queue (x ∷ [])))
          (λ room.
            first_from-le_limit server servers limit xs (queue ++ x ∷ []) o'
              (lt limit (length (queue ++ x ∷ [])) room)))
      (λ _. omega (arith, h))
  where
    lt : (m n : ℕ) → leb m n ≡ false → n < m
    lt m n e = ground arith

fits : (limit : ℕ) (queue : List ℕ) → 0 < limit → is_nil queue ≡ true → length queue < limit
fits limit [] h e = h
fits limit (x ∷ xs) h e = absurd (cc)

WithinLimit : ℕ → List ℕ × List ℕ × NzbObject → Type 0
WithinLimit limit r = length r.0 ≤ limit

module _ (load : ℕ → RawArticles) (highest : Server → Bool) (server : Server)
    (servers : List Server) (limit : ℕ) (room : 0 < limit) where
  fetch_file-WithinLimit :
      (go_on : List ℕ × List ℕ × NzbObject → List ℕ × List ℕ × NzbObject)
      → ((q fs : List ℕ) (p : NzbObject) → is_nil q ≡ true → WithinLimit limit (go_on (q, fs, p)))
      → (id : ℕ) (f : NzbFile) (queue failed : List ℕ) (o : NzbObject) → is_nil queue ≡ true
      → WithinLimit limit (fetch_file server servers limit go_on id f (queue, failed, o))
  unfolding fetch_file WithinLimit
  fetch_file-WithinLimit go_on ih id f queue failed o e =
      let r = File.get_articles server servers limit (queue, f) in
      if_ind (WithinLimit limit) (is_nil r.0) (λ empty. ih r.0 failed (set_nzf id r.1 o) empty)
        (λ _. get_articles-le_limit server servers limit queue f (fits limit queue room e))

  files_from-WithinLimit :
      (ids queue failed : List ℕ) (o : NzbObject)
      → is_nil queue ≡ true
      → WithinLimit limit (files_from load highest server servers limit ids (queue, failed, o))
  unfolding files_from WithinLimit
  files_from-WithinLimit [] queue failed o e = omega (arith, fits limit queue room e)
  files_from-WithinLimit (x ∷ xs) queue failed o e =
      let P = WithinLimit limit in
      let f = o.nzf x in
      let f' = finish_import (load x) f in
      let go_on = files_from load highest server servers limit xs in
      let ih = λ (q fs : List ℕ) (p : NzbObject) (n : is_nil q ≡ true).
        files_from-WithinLimit xs q fs p n in
      if_ind P (f.deleted || contains server.id f.try_list)
        (λ _. files_from-WithinLimit xs queue failed o e)
        (λ _.
          if_ind P f.import_finished (λ _. fetch_file-WithinLimit go_on ih x f queue failed o e)
            (λ _.
              if_ind P (not (highest server)) (λ _. omega (arith, fits limit queue room e))
                (λ _.
                  if_ind P (not f'.import_finished && not o.nzo.removed_from_queue)
                    (λ _.
                      files_from-WithinLimit xs queue (failed ++ x ∷ [])
                        (record (set_nzf x f' o) { nzo = record o.nzo { status = paused } }) e)
                    (λ _. fetch_file-WithinLimit go_on ih x f' queue failed o e))))

-- The server's queue is within the limit, and if it is empty the server is blocked for the job.
pub record IsFetched (server : Server) (limit : ℕ) (r : List ℕ × NzbObject) : Type 0 where
  pub within : length r.0 ≤ limit
  pub blocked : is_nil r.0 ≡ true → contains server.id r.1.nzo.try_list ≡ true

blocked-IsFetched :
    (server : Server) (limit : ℕ) (r : List ℕ × NzbObject)
    → length r.0 ≤ limit
    → IsFetched server limit (block_if_empty server r)
blocked-IsFetched server limit (queue, o) h =
    if_ind (IsFetched server limit) (is_nil queue)
      (λ _. record {
        within = h;
        blocked =
            λ _. contains-add_key server.id server.id o.nzo.try_list ∙ rw (==_refl server.id) refl;
      })
      (λ filled. record { within = h; blocked = λ e. absurd (both e filled) })
  where
    both : {b : Bool} → b ≡ true → b ≡ false → ⊥
    both p n = cc

-- A server with an empty queue that asks a job for at most `limit` articles, at least one, gets at
-- most that many; if it gets none, the job counts as tried by it.
pub get_articles-IsFetched :
    (load : ℕ → RawArticles) (highest : Server → Bool)
    → (server : Server) (servers : List Server) (limit : ℕ) (o : NzbObject) → 0 < limit
    → IsFetched server limit (get_articles load highest server servers limit ([], o))
unfolding get_articles WithinLimit
get_articles-IsFetched load highest server servers limit o room =
    let r = first_from server servers limit o.first_articles ([], o) in
    let t =
      if is_nil r.0
      then files_from load highest server servers limit r.1.nzo.files (r.0, [], r.1)
      else (r.0, [], r.1) in
    blocked-IsFetched server limit (t.0, end_if_empty t.1 (drop_failed t.1 t.2))
      (if_ind (WithinLimit limit) (is_nil r.0)
        (λ empty.
          files_from-WithinLimit load highest server servers limit room r.1.nzo.files r.0 [] r.1
            empty)
        (λ _. first_from-le_limit server servers limit o.first_articles [] o room))
