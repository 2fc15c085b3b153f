-- ===== src/Queue/Dispatch.antt =====
-- sabnzbd/nzbqueue.py: `get_articles`, which asks the jobs in the order of the queue for articles for
-- a server. `load` and `highest` are those of Object.Fetch; `delay_left` is the property
-- `propagation_delay_left`, which depends on the time.
pub mod Tests
use sabnzbd.Prelude.{
  ℕ, ◌≤◌, ◌<◌, ◌≡◌, refl, sym, subst, ◌∙◌, Bool, true, false, not, ◌&&◌, ◌||◌, ◌⊎◌, inl, inr, ◌==◌,
  if◌then◌else◌, if_ind, List, [], ◌∷◌, length, All, contains, Distinct, eqb_ℤ, arith, Bool-cases,
  ==_iff, ==_refl, or_false,
}
use sabnzbd.Job.{force_priority, is_held, is_nil}
use sabnzbd.Article.{Server}
use sabnzbd.File.{RawArticles}
use sabnzbd.Object.{NzbObject}
use sabnzbd.Object.Fetch
use sabnzbd.Object.Fetch.Limit.{IsFetched, get_articles-IsFetched}

pub record Download : Type 0 where
  pub paused : Bool
  pub top_only : Bool
  pub delay_left : ℕ → ℕ
  pub load : ℕ → RawArticles
  pub highest : Server → Bool
  pub servers : List Server
  pub fetch_limit : ℕ

-- Forced jobs are downloaded always.
abbrev pub may_download : Download → ℕ → NzbObject → Bool
may_download w id o =
    (not w.paused && not (is_held o.nzo.status) && (w.delay_left id == 0))
    || eqb_ℤ o.nzo.priority force_priority

abbrev pub put_object : ℕ → NzbObject → (ℕ → NzbObject) → ℕ → NzbObject
put_object id o objects i = if i == id then o else objects i

-- The server's queue and the jobs; the loop ends at a job that gave articles, and with `top_only`
-- at the first job that may be downloaded.
unfoldable pub get_articles :
    Download → Server → List ℕ → List ℕ × (ℕ → NzbObject) → List ℕ × (ℕ → NzbObject)
get_articles w server [] r = r
get_articles w server (x ∷ xs) (queue, objects) =
    let go_on = get_articles w server xs in
    let o = objects x in
    let (queue', o') =
      Fetch.get_articles w.load w.highest server w.servers w.fetch_limit (queue, o) in
    let after : List ℕ × (ℕ → NzbObject) = (queue', put_object x o' objects) in
    let before : List ℕ × (ℕ → NzbObject) = (queue, objects) in
    if not (may_download w x o)
    then go_on before
    else if contains server.id o.nzo.try_list
    then (if w.top_only then before else go_on before)
    else if not (is_nil queue')
    then after
    else if w.top_only
    then after
    else go_on after

get_articles-others :
    (w : Download) (server : Server) (j : ℕ) (ids queue : List ℕ) (objects : ℕ → NzbObject)
    → contains j ids ≡ false
    → (get_articles w server ids (queue, objects)).1 j ≡ objects j
unfolding get_articles
get_articles-others w server j [] queue objects out = refl
get_articles-others w server j (x ∷ xs) queue objects out =
    let (ne, rest) = or_false (x == j) (contains j xs) out in
    let o = objects x in
    let f = Fetch.get_articles w.load w.highest server w.servers w.fetch_limit (queue, o) in
    let after = put_object x f.1 objects in
    let P = λ (r : List ℕ × (ℕ → NzbObject)). r.1 j ≡ objects j in
    let skipped = get_articles-others w server j xs queue objects rest in
    let same : after j ≡ objects j = rw (flip ne) refl in
    if_ind P (not (may_download w x o)) (λ _. skipped)
      (λ _.
        if_ind P (contains server.id o.nzo.try_list)
          (λ _. if_ind P w.top_only (λ _. refl) (λ _. skipped))
          (λ _.
            if_ind P (not (is_nil f.0)) (λ _. same)
              (λ _.
                if_ind P w.top_only (λ _. same)
                  (λ _. get_articles-others w server j xs f.0 after rest ∙ same))))
  where
    flip : (x == j) ≡ false → (j == x) ≡ false
    flip e = ground arith

-- The queue of the server is within the limit. If it is empty, and not only the top job is asked,
-- every job that may be downloaded counts as tried by the server.
pub record IsDispatched (w : Download) (server : Server) (ids : List ℕ)
    (r : List ℕ × (ℕ → NzbObject)) : Type 0 where
  pub within : length r.0 ≤ w.fetch_limit
  pub tried :
      is_nil r.0 ≡ true
      → w.top_only ≡ false
      → All
          (λ id.
            may_download w id (r.1 id) ≡ true → contains server.id (r.1 id).nzo.try_list ≡ true)
          ids

module _ (w : Download) (server : Server) (x : ℕ) (xs : List ℕ) (objects : ℕ → NzbObject)
    (d : Distinct (x ∷ xs)) where
  -- The loop goes on with `o` as the job `x`.
  with_first :
      (o : NzbObject)
      → (may_download w x o ≡ true → contains server.id o.nzo.try_list ≡ true)
      → (next : ℕ → NzbObject) → next x ≡ o
      → IsDispatched w server xs (get_articles w server xs ([], next))
      → IsDispatched w server (x ∷ xs) (get_articles w server xs ([], next))
  with_first o first next same rest = record {
    within = rest.within;
    tried = λ e all. (
      subst (λ p. may_download w x p ≡ true → contains server.id p.nzo.try_list ≡ true)
          (sym (get_articles-others w server x xs [] next d.0 ∙ same)) first,
      rest.tried e all,
    );
  }

  -- The loop ends, as the queue is filled or only the top job is asked.
  ended :
      (r : List ℕ × (ℕ → NzbObject))
      → length r.0 ≤ w.fetch_limit
      → ((is_nil r.0 ≡ false) ⊎ (w.top_only ≡ true))
      → IsDispatched w server (x ∷ xs) r
  ended r h (inl filled) = record { within = h; tried = λ e all. absurd (both e filled) }
    where
      both : {b : Bool} → b ≡ true → b ≡ false → ⊥
      both p n = cc
  ended r h (inr top) = record { within = h; tried = λ e all. absurd (both top all) }
    where
      both : {b : Bool} → b ≡ true → b ≡ false → ⊥
      both p n = cc

-- A server with an empty queue asks the jobs of the queue, each listed once, for at least one
-- article: it gets at most the limit, and if it gets none, and not only the top job is asked, every
-- job that may be downloaded counts as tried by the server.
pub get_articles-IsDispatched :
    (w : Download) (server : Server) (ids : List ℕ) (objects : ℕ → NzbObject)
    → Distinct ids
    → 0 < w.fetch_limit
    → IsDispatched w server ids (get_articles w server ids ([], objects))
unfolding get_articles
get_articles-IsDispatched w server [] objects d room = record {
  within = omega (arith, room);
  tried = λ e all. tt;
}
get_articles-IsDispatched w server (x ∷ xs) objects d room =
    let o = objects x in
    let f = Fetch.get_articles w.load w.highest server w.servers w.fetch_limit ([], o) in
    let after = put_object x f.1 objects in
    let P = IsDispatched w server (x ∷ xs) in
    let fetched = get_articles-IsFetched w.load w.highest server w.servers w.fetch_limit o room in
    let ih = λ (next : ℕ → NzbObject). get_articles-IsDispatched w server xs next d.1 room in
    if_ind P (not (may_download w x o))
      (λ held.
        with_first w server x xs objects d o (λ may. absurd (clash may held)) objects refl
          (ih objects))
      (λ _.
        if_ind P (contains server.id o.nzo.try_list)
          (λ tried.
            if_ind P w.top_only
              (λ top. ended w server x xs objects d ([], objects) (omega (arith, room)) (inr top))
              (λ _. with_first w server x xs objects d o (λ _. tried) objects refl (ih objects)))
          (λ _.
            if_ind P (not (is_nil f.0))
              (λ filled.
                ended w server x xs objects d (f.0, after) fetched.within (inl (not_nil filled)))
              (λ empty.
                if_ind P w.top_only
                  (λ top. ended w server x xs objects d (f.0, after) fetched.within (inr top))
                  (λ _.
                    subst (λ q. P (get_articles w server xs (q, after)))
                      (sym (nil_eq f.0 (is_empty empty)))
                      (with_first w server x xs objects d f.1
                        (λ _. fetched.blocked (is_empty empty)) after (rw (==_refl x) refl)
                        (ih after))))))
  where
    clash : {b : Bool} → b ≡ true → not b ≡ true → ⊥
    clash p n = ground arith

    not_nil : {b : Bool} → not b ≡ true → b ≡ false
    not_nil e = ground arith

    is_empty : {b : Bool} → not b ≡ false → b ≡ true
    is_empty e = ground arith

    nil_eq : (q : List ℕ) → is_nil q ≡ true → q ≡ []
    nil_eq [] e = refl
    nil_eq (y ∷ ys) e = absurd (cc)
