-- ===== src/Article/Retry.antt =====
-- sabnzbd/nzb/article.py: the article after `search_new_server`.
use sabnzbd.Prelude.{
  ℕ, ◌+◌, ◌≤◌, ◌<◌, ◌≡◌, refl, sym, subst, ltb, ◌∙◌, Bool, true, false, not, ◌&&◌, ◌||◌, ◌⊎◌, inl,
  inr, ◌==◌, leb, if◌then◌else◌, if_ind, none, List, [], ◌∷◌, contains, contains-add_key, arith,
  Bool-cases, ==_iff, ==_refl,
}
use sabnzbd.Article.Priority.{is_open, NoneHigher, NoneHigher-add, IsWaiting}
use sabnzbd.Article.{
  Server, Article, add_to_try_list, other_server, allow_new_fetcher, search_new_server,
}

abbrev pub is_listed : ℕ → List Server → Bool
is_listed id [] = false
is_listed id (s ∷ servers) = (s.id == id) || is_listed id servers

-- How many of the servers the article has not been tried on.
abbrev pub untried : List ℕ → List Server → ℕ
untried tried [] = 0
untried tried (s ∷ servers) = (if contains s.id tried then 0 else 1) + untried tried servers

-- Whether one of the servers could still be asked.
abbrev pub any_open : List ℕ → List Server → Bool
any_open tried [] = false
any_open tried (s ∷ servers) = is_open tried s || any_open tried servers

other_server-eq-any_open :
    (priority : ℕ) (tried : List ℕ) (servers : List Server)
    → NoneHigher priority tried servers
    → other_server priority tried servers ≡ any_open tried servers
unfolding other_server
other_server-eq-any_open priority tried [] h = refl
other_server-eq-any_open priority tried (s ∷ servers) h =
    same h.0 (other_server-eq-any_open priority tried servers h.1)
  where
    same :
        (ltb s.priority priority && is_open tried s) ≡ false
        → other_server priority tried servers ≡ any_open tried servers
        → (s.active && not (contains s.id tried) && leb priority s.priority
            || other_server priority tried servers)
          ≡ (is_open tried s || any_open tried servers)
    same low e = rw e (ground arith)

untried-le :
    (id : ℕ) (tried : List ℕ) (servers : List Server)
    → untried (add_to_try_list id tried) servers ≤ untried tried servers
untried-le id tried [] = omega arith
untried-le id tried (s ∷ servers) =
    step (contains-add_key s.id id tried) (untried-le id tried servers)
  where
    step :
        contains s.id (add_to_try_list id tried) ≡ ((id == s.id) || contains s.id tried)
        → untried (add_to_try_list id tried) servers ≤ untried tried servers
        → untried (add_to_try_list id tried) (s ∷ servers) ≤ untried tried (s ∷ servers)
    step e h = rw e (ground arith)

untried-lt :
    (id : ℕ) (tried : List ℕ) (servers : List Server)
    → is_listed id servers ≡ true
    → contains id tried ≡ false
    → untried (add_to_try_list id tried) servers < untried tried servers
untried-lt id tried [] there new = absurd (cc)
untried-lt id tried (s ∷ servers) there new = elim (Bool-cases (s.id == id)) [
  | inl e ↦ at_head ((==_iff s.id id).0 e) (untried-le id tried servers)
  | inr e ↦ later (contains-add_key s.id id tried) (untried-lt id tried servers (rest e) new)
]
  where
    rest : (s.id == id) ≡ false → is_listed id servers ≡ true
    rest e = ground arith

    at_head :
        s.id ≡ id
        → untried (add_to_try_list id tried) servers ≤ untried tried servers
        → untried (add_to_try_list id tried) (s ∷ servers) < untried tried (s ∷ servers)
    at_head e h =
        rw e (rw (contains-add_key id id tried) (rw (==_refl id) (rw new (omega (arith, h)))))

    later :
        contains s.id (add_to_try_list id tried) ≡ ((id == s.id) || contains s.id tried)
        → untried (add_to_try_list id tried) servers < untried tried servers
        → untried (add_to_try_list id tried) (s ∷ servers) < untried tried (s ∷ servers)
    later e h = rw e (ground arith)

-- One server less is left, and the result is whether one of them could still be asked; if so, the
-- article is free for it.
pub record IsRetried (servers : List Server) (a : Article) (r : Bool × Article) : Type 0 where
  pub fewer : untried r.1.try_list servers < untried a.try_list servers
  pub result : r.0 ≡ any_open r.1.try_list servers
  pub freed : (r.0 ≡ false) ⊎ ((r.1.fetcher ≡ none) × (r.1.tries ≡ 0))

-- When the server that fetched an article, which is one of the servers and was not tried before,
-- could not deliver it, one server less is untried, and the result is whether any of the servers is
-- active and untried: if so, the article waits for it without a fetcher. The article waits for the
-- priority of that server, as get_article left it, and no server of a higher one is active and untried,
-- which get_article and this call keep.
pub search_new_server-IsRetried :
    (fetcher : Server) (servers : List Server) (a : Article)
    → is_listed fetcher.id servers ≡ true
    → contains fetcher.id a.try_list ≡ false
    → a.fetcher_priority ≡ fetcher.priority
    → IsWaiting servers a
    → IsRetried servers a (search_new_server fetcher servers a)
unfolding search_new_server allow_new_fetcher
search_new_server-IsRetried fetcher servers a there new same waiting =
    let tried = add_to_try_list fetcher.id a.try_list in
    let fewer = untried-lt fetcher.id a.try_list servers there new in
    let waits : NoneHigher fetcher.priority tried servers =
      subst (λ p. NoneHigher p tried servers) same
        (NoneHigher-add fetcher.id a.fetcher_priority a.try_list servers waiting) in
    let open_left = other_server-eq-any_open fetcher.priority tried servers waits in
    if_ind (IsRetried servers a) (other_server fetcher.priority tried servers)
      (λ more. record { fewer = fewer; result = sym more ∙ open_left; freed = inr (refl, refl) })
      (λ last. record { fewer = fewer; result = sym last ∙ open_left; freed = inl refl })
