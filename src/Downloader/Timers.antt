-- ===== src/Downloader/Timers.antt =====
-- sabnzbd/downloader.py: check_timers leaves no server asleep without a timer that will wake it.
use sabnzbd.Prelude.{
  both, ℕ, ◌≡◌, refl, ap, sym, subst, ==_iff, ◌∙◌, Bool, true, false, not, ◌&&◌, ◌||◌, ◌⊎◌, inl,
  inr, ◌==◌, if_ind, Bool-cases, List, [], ◌∷◌, contains, arith,
}
use sabnzbd.Prelude.Dict
use sabnzbd.Prelude.Dict.{Dict}
use sabnzbd.Downloader.{
  Server, World, Downloader, init_server, get_or_empty, has_live, has_inactive, clean_timers,
  activate, check_timers,
}
use sabnzbd.Downloader.Marks.{asleep, IsOnce}
use sabnzbd.Downloader.Woken.{IsWoken, init_server-IsWoken}
use sabnzbd.Downloader.Cleaning.{is_live, IsCleaned, clean_timers-IsCleaned}

-- What the second loop does to the servers of an id.
record IsActivated (servers : List Server) (kicked : List ℕ) (d d' : Downloader) : Type 0 where
  timers : d'.timers ≡ d.timers
  asleep_before : (i : ℕ) → asleep i d'.servers ≡ true → asleep i d.servers ≡ true
  has_reason :
      (i : ℕ)
      → asleep i d'.servers ≡ true
      → has_inactive i servers ≡ true
      → (Dict.has i d.timers || contains i kicked) ≡ true

woken-IsActivated :
    (s : Server) (servers : List Server) (kicked : List ℕ) (d d0 d' : Downloader)
    → IsWoken s.id d d0
    → IsActivated servers kicked d0 d'
    → IsActivated (s ∷ servers) kicked d d'
woken-IsActivated s servers kicked d d0 d' woken a = record {
  timers = a.timers ∙ woken.timers;
  asleep_before = λ i h. (other i h).1;
  has_reason = λ i h r.
      ap (λ t. Dict.has i t || contains i kicked) (sym woken.timers)
      ∙ a.has_reason i h
          (behind_it (s.id == i) (not s.active) (has_inactive i servers) (other i h).0 r);
}
  where
    split : (b c : Bool) → (not b && c) ≡ true → (b ≡ false) × (c ≡ true)
    split b c h = ground arith

    other :
        (i : ℕ) → asleep i d'.servers ≡ true → ((s.id == i) ≡ false) × (asleep i d.servers ≡ true)
    other i h = split (s.id == i) (asleep i d.servers) (sym (woken.asleep i) ∙ a.asleep_before i h)

    behind_it : (a b c : Bool) → a ≡ false → (a && b || c) ≡ true → c ≡ true
    behind_it a b c f h = ground arith

skipped-IsActivated :
    (s : Server) (servers : List Server) (kicked : List ℕ) (d d' : Downloader)
    → (not (Dict.has s.id d.timers) && not (contains s.id kicked) && not s.active) ≡ false
    → IsActivated servers kicked d d'
    → IsActivated (s ∷ servers) kicked d d'
skipped-IsActivated s servers kicked d d' f a = record {
  timers = a.timers;
  asleep_before = a.asleep_before;
  has_reason = λ i h r. elim (one (s.id == i) (not s.active) (has_inactive i servers) r) [
    | inl (e, out) ↦
        subst (λ j. (Dict.has j d.timers || contains j kicked) ≡ true) ((==_iff s.id i).0 e)
          (reason (Dict.has s.id d.timers) (contains s.id kicked) (not s.active) out f)
    | inr later ↦ a.has_reason i h later
  ];
}
  where
    one : (a b c : Bool) → (a && b || c) ≡ true → ((a ≡ true) × (b ≡ true)) ⊎ (c ≡ true)
    one true true c h = inl (refl, refl)
    one true false c h = inr h
    one false b c h = inr h

    reason : (a b c : Bool) → c ≡ true → (not a && not b && c) ≡ false → (a || b) ≡ true
    reason a b c t f = ground arith

activate-IsActivated :
    (w : World) (servers : List Server) (kicked : List ℕ) (d : Downloader)
    → IsOnce d.servers
    → IsActivated servers kicked d (activate w servers kicked d)
unfolding activate
activate-IsActivated w [] kicked d once = record {
  timers = refl;
  asleep_before = λ i h. h;
  has_reason = λ i h r. absurd (both r refl);
}
activate-IsActivated w (s ∷ servers) kicked d once =
    if_ind (λ (d0 : Downloader). IsActivated (s ∷ servers) kicked d (activate w servers kicked d0))
      (not (Dict.has s.id d.timers) && not (contains s.id kicked) && not s.active)
      (λ _.
        woken-IsActivated s servers kicked d (init_server w s.id s.id d)
          (activate w servers kicked (init_server w s.id s.id d))
          (init_server-IsWoken w s.id d once)
          (activate-IsActivated w servers kicked (init_server w s.id s.id d)
            (init_server-IsWoken w s.id d once).once))
      (λ f.
        skipped-IsActivated s servers kicked d (activate w servers kicked d) f
          (activate-IsActivated w servers kicked d once))

asleep-has_inactive :
    (id : ℕ) (servers : List Server) → asleep id servers ≡ true → has_inactive id servers ≡ true
asleep-has_inactive id [] h = h
asleep-has_inactive id (s ∷ servers) h = elim (Bool-cases (s.id == id && not s.active)) [
  | inl e ↦ rw e refl
  | inr e ↦ rw e (
      asleep-has_inactive id servers
        (later (s.id == id) (not s.active) (not s.restart) (asleep id servers) e h))
]
  where
    later : (a b c d : Bool) → (a && b) ≡ false → (a && (b && c) || d) ≡ true → d ≡ true
    later a b c d f h = ground arith

-- After check_timers, a server that is neither active nor about to be set up again has a timer that has
-- not expired. The ids of the servers are distinct before, and so are the keys of the timers.
pub check_timers-is_live :
    (w : World) (d : Downloader)
    → Dict.IsDict d.timers
    → IsOnce d.servers
    → (id : ℕ) → asleep id (check_timers w d).servers ≡ true
    → has_live w.now (get_or_empty (Dict.get id (check_timers w d).timers)) ≡ true
unfolding check_timers
check_timers-is_live w d keys once id h =
    go (clean_timers w d.timers [] d).0 (clean_timers w d.timers [] d).1
      (clean_timers-IsCleaned w d.timers [] d keys (record {
        once = once;
        dict = keys;
        live = λ i h. inr h;
        agrees = λ i h. refl;
        awake = λ i h. absurd (both h refl);
      }))
      h
  where
    go :
        (kicked : List ℕ) (d1 : Downloader)
        → IsCleaned w kicked d1
        → asleep id (activate w d1.servers kicked d1).servers ≡ true
        → is_live w (activate w d1.servers kicked d1) id ≡ true
    go kicked d1 c h =
        let a : IsActivated d1.servers kicked d1 (activate w d1.servers kicked d1) =
          activate-IsActivated w d1.servers kicked d1 c.once in
        let before : asleep id d1.servers ≡ true = a.asleep_before id h in
        let live : is_live w d1 id ≡ true = elim (Bool-cases (Dict.has id d1.timers)) [
          | inl e ↦ c.live id e
          | inr e ↦ absurd (
              both before (
                c.awake id
                  (rw e at (a.has_reason id h (asleep-has_inactive id d1.servers before)))))
        ] in
        ap (λ t. has_live w.now (get_or_empty (Dict.get id t))) a.timers ∙ live
