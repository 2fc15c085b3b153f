-- ===== src/Downloader/Woken.antt =====
-- sabnzbd/downloader.py: init_server wakes the server of the id, whether it is set up again or made new.
use sabnzbd.Prelude.{
  ℕ, ◌+◌, ◌≡◌, refl, ap, sym, subst, ==_iff, ◌∙◌, Bool, true, false, not, ◌&&◌, ◌||◌, inl, inr,
  ◌==◌, leb, if_ind, Bool-cases, Option, none, some, List, [], ◌∷◌, ◌++◌, arith,
}
use sabnzbd.Downloader.{
  Server, World, Downloader, insert_server, sort_servers, mark_restart, new_server, create_server,
  init_server,
}
use sabnzbd.Downloader.Marks.{
  asleep, one_if, count_of, IsOnce, absent-asleep, Marked, mark_restart-Marked,
}

swap_sum : (a b c : ℕ) → a + (b + c) ≡ b + (a + c)
swap_sum a b c = omega arith

asleep-insert_server :
    (id : ℕ) (s : Server) (servers : List Server)
    → asleep id (insert_server s servers) ≡ asleep id (s ∷ servers)
asleep-insert_server id s [] = refl
asleep-insert_server id s (t ∷ servers) =
    if_ind (λ (l : List Server). asleep id l ≡ asleep id (s ∷ t ∷ servers)) (leb s.key t.key)
      (λ _. refl)
      (λ _.
        ap (λ b. (t.id == id && (not t.active && not t.restart)) || b)
          (asleep-insert_server id s servers)
        ∙ swap_or (t.id == id && (not t.active && not t.restart))
            (s.id == id && (not s.active && not s.restart)) (asleep id servers))
  where
    swap_or : (a b c : Bool) → (a || (b || c)) ≡ (b || (a || c))
    swap_or a b c = ground arith

count_of-insert_server :
    (id : ℕ) (s : Server) (servers : List Server)
    → count_of id (insert_server s servers) ≡ count_of id (s ∷ servers)
count_of-insert_server id s [] = refl
count_of-insert_server id s (t ∷ servers) =
    if_ind (λ (l : List Server). count_of id l ≡ count_of id (s ∷ t ∷ servers)) (leb s.key t.key)
      (λ _. refl)
      (λ _.
        ap (λ n. one_if (t.id == id) + n) (count_of-insert_server id s servers)
        ∙ swap_sum (one_if (t.id == id)) (one_if (s.id == id)) (count_of id servers))

asleep-sort_servers :
    (id : ℕ) (servers : List Server) → asleep id (sort_servers servers) ≡ asleep id servers
unfolding sort_servers
asleep-sort_servers id [] = refl
asleep-sort_servers id (s ∷ servers) =
    asleep-insert_server id s (sort_servers servers)
    ∙ ap (λ b. (s.id == id && (not s.active && not s.restart)) || b)
        (asleep-sort_servers id servers)

count_of-sort_servers :
    (id : ℕ) (servers : List Server) → count_of id (sort_servers servers) ≡ count_of id servers
unfolding sort_servers
count_of-sort_servers id [] = refl
count_of-sort_servers id (s ∷ servers) =
    count_of-insert_server id s (sort_servers servers)
    ∙ ap (λ n. one_if (s.id == id) + n) (count_of-sort_servers id servers)

asleep-append :
    (id : ℕ) (servers : List Server) (s : Server)
    → s.active ≡ true
    → asleep id (servers ++ s ∷ []) ≡ asleep id servers
asleep-append id [] s a = ground arith
asleep-append id (t ∷ servers) s a =
    ap (λ b. (t.id == id && (not t.active && not t.restart)) || b) (asleep-append id servers s a)

count_of-append :
    (id : ℕ) (servers : List Server) (s : Server)
    → count_of id (servers ++ s ∷ []) ≡ one_if (s.id == id) + count_of id servers
count_of-append id [] s = refl
count_of-append id (t ∷ servers) s =
    ap (λ n. one_if (t.id == id) + n) (count_of-append id servers s)
    ∙ swap_sum (one_if (t.id == id)) (one_if (s.id == id)) (count_of id servers)

-- The server of the id is active or will be set up again, the others are as before.
pub record IsWoken (id : ℕ) (d d' : Downloader) : Type 0 where
  pub timers : d'.timers ≡ d.timers
  pub asleep : (i : ℕ) → asleep i d'.servers ≡ (not (id == i) && asleep i d.servers)
  pub once : IsOnce d'.servers

untouched :
    (id i : ℕ) (servers : List Server)
    → count_of id servers ≡ 0
    → asleep i servers ≡ (not (id == i) && asleep i servers)
untouched id i servers h = elim (Bool-cases (id == i)) [
  | inl e ↦
      rw e (subst (λ j. asleep j servers ≡ false) ((==_iff id i).0 e) (absent-asleep id servers h))
  | inr e ↦ rw e refl
]

create_server-IsWoken :
    (id : ℕ) (o : Option Server) (d : Downloader)
    → IsOnce d.servers
    → count_of id d.servers ≡ 0
    → IsWoken id d (create_server id o d)
unfolding create_server
create_server-IsWoken id none d once h = record {
  timers = refl;
  asleep = λ i. untouched id i d.servers h;
  once = once;
}
create_server-IsWoken id (some s) d once h = record {
  timers = refl;
  asleep = λ i.
      asleep-sort_servers i (d.servers ++ new_server id s ∷ [])
      ∙ asleep-append i d.servers (new_server id s) refl
      ∙ untouched id i d.servers h;
  once = λ i.
      subst (λ n. leb n 1 ≡ true)
        (sym (
          count_of-sort_servers i (d.servers ++ new_server id s ∷ [])
          ∙ count_of-append i d.servers (new_server id s)))
        (one i);
}
  where
    none_before : (n : ℕ) → leb n 1 ≡ true → leb (0 + n) 1 ≡ true
    none_before n h = ground arith

    one : (i : ℕ) → leb (one_if (id == i) + count_of i d.servers) 1 ≡ true
    one i = elim (Bool-cases (id == i)) [
      | inl e ↦ rw e (rw (subst (λ j. count_of j d.servers ≡ 0) ((==_iff id i).0 e) h) refl)
      | inr e ↦ rw e (none_before (count_of i d.servers) (once i))
    ]

pub init_server-IsWoken :
    (w : World) (id : ℕ) (d : Downloader) → IsOnce d.servers → IsWoken id d (init_server w id id d)
unfolding init_server
init_server-IsWoken w id d once =
    go (mark_restart id id d.servers) (λ i. mark_restart-Marked id id i d.servers (once id))
  where
    go :
        (o : Option (List Server))
        → ((i : ℕ) → Marked id i d.servers o)
        → IsWoken id d (elim o [
          | some servers ↦ record d { servers = servers; server_restarts = d.server_restarts + 1 }
          | none ↦ create_server id (w.config id) d
        ])
    go none m = create_server-IsWoken id (w.config id) d once (m id)
    go (some servers) m = record {
      timers = refl;
      asleep = λ i. (m i).0;
      once = λ i. subst (λ n. leb n 1 ≡ true) (sym (m i).1) (once i);
    }
