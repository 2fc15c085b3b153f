-- ===== src/File/Fetch.antt =====
-- sabnzbd/nzb/file.py: the server's queue and the file after `get_articles`.
use sabnzbd.Prelude.{
  ℕ, ◌≤◌, ◌<◌, ◌≡◌, refl, sym, subst, ◌∙◌, Bool, true, false, not, ◌&&◌, ◌||◌, ◌⊎◌, inl, inr, ◌==◌,
  ltb, leb, if◌then◌else◌, if_ind, Option, none, some, List, [], ◌∷◌, ◌++◌, length, length-append,
  All, contains, contains-add_key, Distinct, arith, ==_refl, or_false,
}
use sabnzbd.Article.{
  Server, Article, get_article, higher_server, wait_or_take, take_fetcher, has_fetcher,
}
use sabnzbd.File.{NzbFile, set_article, fetch_from, get_articles}

higher_server-lt :
    (priority p : ℕ) (tried : List ℕ) (servers : List Server)
    → higher_server priority tried servers ≡ some p
    → ltb p priority ≡ true
unfolding higher_server
higher_server-lt priority p tried [] h = absurd (cc)
higher_server-lt priority p tried (s ∷ servers) h =
    step (higher_server-lt priority p tried servers) h
  where
    step :
        (higher_server priority tried servers ≡ some p → ltb p priority ≡ true)
        → (if ltb s.priority priority
            then (if s.active && not (contains s.id tried)
                then some s.priority
                else higher_server priority tried servers)
            else none)
          ≡ some p
        → ltb p priority ≡ true
    step ih e = ground arith

module _ (server : Server) (servers : List Server) where
  -- An article that the server was offered is not given to it again.
  settled : (a : Article) → (get_article server servers (get_article server servers a).1).0 ≡ false
  unfolding get_article
  settled a =
      if_ind (λ (r : Bool × Article). (get_article server servers r.1).0 ≡ false)
        (has_fetcher a || contains server.id a.try_list) (λ e. rw e refl)
        (λ e.
          if_ind (λ (r : Bool × Article). (get_article server servers r.1).0 ≡ false)
            (ltb a.fetcher_priority server.priority)
            (λ low. waited e (higher_server server.priority a.try_list servers) refl)
            (λ _. unfold take_fetcher in refl))
    where
      waited :
          (has_fetcher a || contains server.id a.try_list) ≡ false
          → (o : Option ℕ) → higher_server server.priority a.try_list servers ≡ o
          → (get_article server servers (wait_or_take server a o).1).0 ≡ false
      waited e none h = unfold wait_or_take take_fetcher in refl
      waited e (some p) h =
          unfold wait_or_take in
          rw e (rw (higher_server-lt server.priority p a.try_list servers h) (rw h refl))

  -- The other articles stay as they are.
  fetch_from-others :
      (limit id : ℕ) (ids queue : List ℕ) (f : NzbFile)
      → contains id ids ≡ false
      → (fetch_from server servers limit ids (queue, f)).1.store id ≡ f.store id
  unfolding fetch_from
  fetch_from-others limit id [] queue f out = refl
  fetch_from-others limit id (x ∷ xs) queue f out =
      let (ne, rest) = or_false (x == id) (contains id xs) out in
      let f' = set_article x (get_article server servers (f.store x)).1 f in
      let P = λ (r : List ℕ × NzbFile). r.1.store id ≡ f.store id in
      let here : f'.store id ≡ f.store id = rw (flip ne) refl in
      if_ind P (get_article server servers (f.store x)).0
        (λ _.
          if_ind P (leb limit (length (queue ++ x ∷ []))) (λ _. here)
            (λ _. fetch_from-others limit id xs (queue ++ x ∷ []) f' rest ∙ here))
        (λ _. fetch_from-others limit id xs queue f' rest ∙ here)
    where
      flip : (x == id) ≡ false → (id == x) ≡ false
      flip e = ground arith

  -- The queue is full, and the try list of the file is `tried` still; or the server was offered every
  -- article of `ids`, gets none of them now, and the file counts as tried.
  abbrev pub FullOrTried : ℕ → List ℕ → List ℕ → List ℕ × NzbFile → Type 0
  FullOrTried limit tried ids r =
      ((limit ≤ length r.0) × (r.1.try_list ≡ tried))
      ⊎ ((contains server.id r.1.try_list ≡ true)
          × All (λ (id : ℕ). (get_article server servers (r.1.store id)).0 ≡ false) ids)

  fetch_from-FullOrTried :
      (limit : ℕ) (ids queue : List ℕ) (f : NzbFile)
      → Distinct ids
      → FullOrTried limit f.try_list ids (fetch_from server servers limit ids (queue, f))
  unfolding fetch_from
  fetch_from-FullOrTried limit [] queue f d =
      inr (contains-add_key server.id server.id f.try_list ∙ rw (==_refl server.id) refl, tt)
  fetch_from-FullOrTried limit (x ∷ xs) queue f d =
      let a = (get_article server servers (f.store x)).1 in
      let f' = set_article x a f in
      let P = FullOrTried limit f.try_list (x ∷ xs) in
      if_ind P (get_article server servers (f.store x)).0
        (λ _.
          if_ind P (leb limit (length (queue ++ x ∷ [])))
            (λ full. inl (le limit (length (queue ++ x ∷ [])) full, refl))
            (λ _.
              with_head (queue ++ x ∷ []) f' (rw (==_refl x) refl)
                (fetch_from-FullOrTried limit xs (queue ++ x ∷ []) f' d.1)))
        (λ _.
          with_head queue f' (rw (==_refl x) refl) (fetch_from-FullOrTried limit xs queue f' d.1))
    where
      le : (m n : ℕ) → leb m n ≡ true → m ≤ n
      le m n e = ground arith

      with_head :
          (q : List ℕ) (g : NzbFile)
          → g.store x ≡ (get_article server servers (f.store x)).1
          → FullOrTried limit f.try_list xs (fetch_from server servers limit xs (q, g))
          → FullOrTried limit f.try_list (x ∷ xs) (fetch_from server servers limit xs (q, g))
      with_head q g same (inl full) = inl full
      with_head q g same (inr (tried, rest)) = inr (
        tried,
        (
          subst (λ b. (get_article server servers b).0 ≡ false)
              (sym (fetch_from-others limit x xs q g d.0 ∙ same)) (settled (f.store x)),
          rest,
        ),
      )

  fetch_from-le_limit :
      (limit : ℕ) (ids queue : List ℕ) (f : NzbFile)
      → length queue < limit
      → length (fetch_from server servers limit ids (queue, f)).0 ≤ limit
  unfolding fetch_from
  fetch_from-le_limit limit [] queue f h = omega arith
  fetch_from-le_limit limit (x ∷ xs) queue f h =
      let f' = set_article x (get_article server servers (f.store x)).1 f in
      let P = λ (r : List ℕ × NzbFile). length r.0 ≤ limit in
      if_ind P (get_article server servers (f.store x)).0
        (λ _.
          if_ind P (leb limit (length (queue ++ x ∷ []))) (λ _. one_more)
            (λ room.
              fetch_from-le_limit limit xs (queue ++ x ∷ []) f'
                (lt limit (length (queue ++ x ∷ [])) room)))
        (λ _. fetch_from-le_limit limit xs queue f' h)
    where
      lt : (m n : ℕ) → leb m n ≡ false → n < m
      lt m n e = ground arith

      one_more : length (queue ++ x ∷ []) ≤ limit
      one_more = omega (arith, h, length-append queue (x ∷ []))

pub get_articles-le_limit :
    (server : Server) (servers : List Server) (limit : ℕ) (queue : List ℕ) (f : NzbFile)
    → length queue < limit
    → length (get_articles server servers limit (queue, f)).0 ≤ limit
unfolding get_articles
get_articles-le_limit server servers limit queue f h =
    fetch_from-le_limit server servers limit f.articles queue f h

-- A file whose articles are listed once each, asked for articles while the server's queue is below
-- the limit: the queue does not pass the limit, and either it is full and the try list of the file is
-- as before, or the file counts as tried and has no article that the server would get now.
pub get_articles-FullOrTried :
    (server : Server) (servers : List Server) (limit : ℕ) (queue : List ℕ) (f : NzbFile)
    → Distinct f.articles
    → length queue < limit
    → (length (get_articles server servers limit (queue, f)).0 ≤ limit)
      × FullOrTried server servers limit f.try_list f.articles
          (get_articles server servers limit (queue, f))
unfolding get_articles
get_articles-FullOrTried server servers limit queue f d room = (
  fetch_from-le_limit server servers limit f.articles queue f room,
  fetch_from-FullOrTried server servers limit f.articles queue f d,
)
