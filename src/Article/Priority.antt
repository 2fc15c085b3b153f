-- ===== src/Article/Priority.antt =====
-- sabnzbd/nzb/article.py: the article after `get_article` hands it out.
use sabnzbd.Prelude.{
  ℕ, ◌+◌, ◌≤◌, ◌≡◌, refl, Bool, true, false, not, ◌&&◌, ◌||◌, inl, inr, ltb, if◌then◌else◌, if_ind,
  Option, none, some, List, [], ◌∷◌, All, contains, contains-add_key, ◌==◌, arith, Bool-cases,
}
use sabnzbd.Article.{
  Server, Article, higher_server, take_fetcher, has_fetcher, wait_or_take, get_article,
  add_to_try_list, other_server, allow_new_fetcher, search_new_server,
}

-- The servers stand in order of priority.
abbrev pub IsSorted : List Server → Type 0
IsSorted [] = Unit
IsSorted (s ∷ servers) = All (λ (t : Server). s.priority ≤ t.priority) servers × IsSorted servers

-- A server that could still be asked for the article.
abbrev pub is_open : List ℕ → Server → Bool
is_open tried s = s.active && not (contains s.id tried)

-- No server of a higher priority could still be asked.
abbrev pub NoneHigher : ℕ → List ℕ → List Server → Type 0
NoneHigher priority tried servers =
    All (λ (s : Server). (ltb s.priority priority && is_open tried s) ≡ false) servers

NoneHigher-above :
    (priority : ℕ) (tried : List ℕ) (s : Server) (servers : List Server)
    → ltb s.priority priority ≡ false
    → All (λ (t : Server). s.priority ≤ t.priority) servers
    → NoneHigher priority tried servers
NoneHigher-above priority tried s [] h all = tt
NoneHigher-above priority tried s (t ∷ servers) h all =
    (beyond all.0, NoneHigher-above priority tried s servers h all.1)
  where
    beyond : s.priority ≤ t.priority → (ltb t.priority priority && is_open tried t) ≡ false
    beyond le = ground arith

higher_server-none :
    (priority : ℕ) (tried : List ℕ) (servers : List Server)
    → IsSorted servers
    → higher_server priority tried servers ≡ none
    → NoneHigher priority tried servers
unfolding higher_server
higher_server-none priority tried [] sorted h = tt
higher_server-none priority tried (s ∷ servers) sorted h =
    elim (Bool-cases (ltb s.priority priority)) [
      | inl low ↦ (closed low h, higher_server-none priority tried servers sorted.1 (rest low h))
      | inr high ↦ NoneHigher-above priority tried s (s ∷ servers) high (omega arith, sorted.0)
    ]
  where
    closed :
        ltb s.priority priority ≡ true
        → (if ltb s.priority priority
            then (if is_open tried s then some s.priority else higher_server priority tried servers)
            else none)
          ≡ none
        → (ltb s.priority priority && is_open tried s) ≡ false
    closed low e = ground arith

    rest :
        ltb s.priority priority ≡ true
        → (if ltb s.priority priority
            then (if is_open tried s then some s.priority else higher_server priority tried servers)
            else none)
          ≡ none
        → higher_server priority tried servers ≡ none
    rest low e = ground arith

-- What a successful call shows.
pub record IsAssigned (server : Server) (servers : List Server) (a a' : Article) : Type 0 where
  pub idle : has_fetcher a ≡ false
  pub untried : contains server.id a.try_list ≡ false
  pub fetched_by : a'.fetcher ≡ some server.id
  pub counted : a'.tries ≡ a.tries + 1
  pub same_tried : a'.try_list ≡ a.try_list
  pub in_turn : NoneHigher server.priority a.try_list servers

-- No open server has a higher priority than the one that the article waits for.
abbrev pub IsWaiting : List Server → Article → Type 0
IsWaiting servers a = NoneHigher a.fetcher_priority a.try_list servers

NoneHigher-le :
    (p q : ℕ) (tried : List ℕ) (servers : List Server)
    → p ≤ q
    → NoneHigher q tried servers
    → NoneHigher p tried servers
NoneHigher-le p q tried [] le h = tt
NoneHigher-le p q tried (s ∷ servers) le h = (ground arith, NoneHigher-le p q tried servers le h.1)

-- The priority that the loop finds is that of the first open server.
higher_server-some :
    (priority p : ℕ) (tried : List ℕ) (servers : List Server)
    → IsSorted servers
    → higher_server priority tried servers ≡ some p
    → NoneHigher p tried servers
unfolding higher_server
higher_server-some priority p tried [] sorted h = absurd (cc)
higher_server-some priority p tried (s ∷ servers) sorted h =
    elim (Bool-cases (ltb s.priority priority && is_open tried s)) [
      | inl e ↦ NoneHigher-above p tried s (s ∷ servers) (first e h) (omega arith, sorted.0)
      | inr e ↦
          let (low, rest) = later e h in
          (closed low, higher_server-some priority p tried servers sorted.1 rest)
    ]
  where
    found : Option ℕ
    found =
        if ltb s.priority priority
        then (if is_open tried s then some s.priority else higher_server priority tried servers)
        else none

    first :
        (ltb s.priority priority && is_open tried s) ≡ true
        → found ≡ some p
        → ltb s.priority p ≡ false
    first e h = ground arith

    later :
        (ltb s.priority priority && is_open tried s) ≡ false
        → found ≡ some p
        → (is_open tried s ≡ false) × (higher_server priority tried servers ≡ some p)
    later e h = ground arith

    closed : is_open tried s ≡ false → (ltb s.priority p && is_open tried s) ≡ false
    closed e = ground arith

-- A call of get_article keeps the servers of higher priority than the awaited one closed.
pub get_article-IsWaiting :
    (server : Server) (servers : List Server) (a : Article)
    → IsSorted servers
    → IsWaiting servers a
    → IsWaiting servers (get_article server servers a).1
unfolding get_article wait_or_take take_fetcher
get_article-IsWaiting server servers a sorted waiting =
    if_ind (λ (r : Bool × Article). IsWaiting servers r.1)
      (has_fetcher a || contains server.id a.try_list) (λ _. waiting)
      (λ _.
        if_ind (λ (r : Bool × Article). IsWaiting servers r.1)
          (ltb a.fetcher_priority server.priority)
          (λ _. scanned (higher_server server.priority a.try_list servers) refl)
          (λ low.
            NoneHigher-le server.priority a.fetcher_priority a.try_list servers (at_most low)
              waiting))
  where
    at_most : ltb a.fetcher_priority server.priority ≡ false → server.priority ≤ a.fetcher_priority
    at_most h = ground arith

    scanned :
        (o : Option ℕ)
        → higher_server server.priority a.try_list servers ≡ o
        → IsWaiting servers (wait_or_take server a o).1
    scanned none found = higher_server-none server.priority a.try_list servers sorted found
    scanned (some p) found = higher_server-some server.priority p a.try_list servers sorted found

pub NoneHigher-add :
    (id p : ℕ) (tried : List ℕ) (servers : List Server)
    → NoneHigher p tried servers
    → NoneHigher p (add_to_try_list id tried) servers
NoneHigher-add id p tried [] h = tt
NoneHigher-add id p tried (s ∷ servers) h =
    (closed (contains-add_key s.id id tried) h.0, NoneHigher-add id p tried servers h.1)
  where
    closed :
        contains s.id (add_to_try_list id tried) ≡ ((id == s.id) || contains s.id tried)
        → (ltb s.priority p && is_open tried s) ≡ false
        → (ltb s.priority p && is_open (add_to_try_list id tried) s) ≡ false
    closed e h = rw e (ground arith)

-- And so does the search for another server.
pub search_new_server-IsWaiting :
    (fetcher : Server) (servers : List Server) (a : Article)
    → IsWaiting servers a
    → IsWaiting servers (search_new_server fetcher servers a).1
unfolding search_new_server allow_new_fetcher
search_new_server-IsWaiting fetcher servers a waiting =
    if_ind (λ (r : Bool × Article). IsWaiting servers r.1)
      (other_server fetcher.priority (add_to_try_list fetcher.id a.try_list) servers)
      (λ _. NoneHigher-add fetcher.id a.fetcher_priority a.try_list servers waiting)
      (λ _. NoneHigher-add fetcher.id a.fetcher_priority a.try_list servers waiting)

-- An article is handed to a server only if no other one fetches it, the server was not tried yet, and
-- no active untried server has a higher priority. The servers are in order of priority, and none of
-- them that is active and untried has a higher priority than the one that the article waits for, which
-- holds at first, when it is 0, and is kept by this call and by search_new_server.
pub get_article-IsAssigned :
    (server : Server) (servers : List Server) (a : Article)
    → IsSorted servers
    → IsWaiting servers a
    → (get_article server servers a).0 ≡ true
    → IsAssigned server servers a (get_article server servers a).1
unfolding get_article wait_or_take take_fetcher
get_article-IsAssigned server servers a sorted waiting given =
    if_ind (λ (r : Bool × Article). r.0 ≡ true → IsAssigned server servers a r.1)
      (has_fetcher a || contains server.id a.try_list) (λ _ e. absurd (cc))
      (λ free.
        if_ind (λ (r : Bool × Article). r.0 ≡ true → IsAssigned server servers a r.1)
          (ltb a.fetcher_priority server.priority)
          (λ _ e. scanned free (higher_server server.priority a.try_list servers) refl e)
          (λ low e. record {
            idle = (parts free).0;
            untried = (parts free).1;
            fetched_by = refl;
            counted = refl;
            same_tried = refl;
            in_turn =
                NoneHigher-le server.priority a.fetcher_priority a.try_list servers (at_most low)
                  waiting;
          }))
      given
  where
    parts :
        (has_fetcher a || contains server.id a.try_list) ≡ false
        → (has_fetcher a ≡ false) × (contains server.id a.try_list ≡ false)
    parts h = ground arith

    at_most : ltb a.fetcher_priority server.priority ≡ false → server.priority ≤ a.fetcher_priority
    at_most h = ground arith

    scanned :
        (has_fetcher a || contains server.id a.try_list) ≡ false
        → (o : Option ℕ) → higher_server server.priority a.try_list servers ≡ o
        → (wait_or_take server a o).0 ≡ true
        → IsAssigned server servers a (wait_or_take server a o).1
    scanned free none found e = record {
      idle = (parts free).0;
      untried = (parts free).1;
      fetched_by = refl;
      counted = refl;
      same_tried = refl;
      in_turn = higher_server-none server.priority a.try_list servers sorted found;
    }
    scanned free (some p) found e = absurd (cc)
