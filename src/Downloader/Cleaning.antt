-- ===== src/Downloader/Cleaning.antt =====
-- sabnzbd/downloader.py: the first loop of check_timers.
use sabnzbd.Prelude.{
  both, ℕ, ◌≡◌, refl, ap, sym, subst, ==_iff, ◌∙◌, Bool, true, false, ◌||◌, ◌⊎◌, inl, inr, ◌==◌,
  if_ind, Bool-cases, some, List, [], ◌∷◌, contains,
}
use sabnzbd.Prelude.Dict
use sabnzbd.Prelude.Dict.{Dict}
use sabnzbd.Downloader.{World, Downloader, init_server, get_or_empty, has_live, clean_timers}
use sabnzbd.Downloader.Marks.{asleep, IsOnce}
use sabnzbd.Downloader.Woken.{IsWoken, init_server-IsWoken}

abbrev pub is_live : World → Downloader → ℕ → Bool
is_live w d id = has_live w.now (get_or_empty (Dict.get id d.timers))

-- In the first loop: `rest` are the timers that it has still to look at.
pub record IsCleaning (w : World) (rest : Dict (List ℕ)) (kicked : List ℕ) (d : Downloader)
    : Type 0 where
  pub once : IsOnce d.servers
  pub dict : Dict.IsDict d.timers
  pub live :
      (i : ℕ) → Dict.has i d.timers ≡ true → (is_live w d i ≡ true) ⊎ (Dict.has i rest ≡ true)
  pub agrees : (i : ℕ) → Dict.has i rest ≡ true → Dict.get i rest ≡ Dict.get i d.timers
  pub awake : (i : ℕ) → contains i kicked ≡ true → asleep i d.servers ≡ false

-- A key behind the first one is another.
other_key :
    (id i : ℕ) (rest : Dict (List ℕ))
    → Dict.has id rest ≡ false
    → Dict.has i rest ≡ true
    → (id == i) ≡ false
other_key id i rest out h = elim (Bool-cases (id == i)) [
  | inl e ↦ absurd (both h (subst (λ j. Dict.has j rest ≡ false) ((==_iff id i).0 e) out))
  | inr e ↦ e
]

behind :
    (id i : ℕ) (stamps : List ℕ) (rest : Dict (List ℕ)) (d : Downloader)
    → (id == i) ≡ false
    → ((j : ℕ)
        → Dict.has j ((id, stamps) ∷ rest) ≡ true
        → Dict.get j ((id, stamps) ∷ rest) ≡ Dict.get j d.timers)
    → Dict.has i rest ≡ true
    → Dict.get i rest ≡ Dict.get i d.timers
behind id i stamps rest d ne agrees h =
    let eq : Dict.get i rest ≡ Dict.get i ((id, stamps) ∷ rest) = rw ne refl in
    eq ∙ agrees i (rw ne h)

kept-IsCleaning :
    (w : World) (id : ℕ) (stamps : List ℕ) (rest : Dict (List ℕ)) (kicked : List ℕ) (d : Downloader)
    → has_live w.now stamps ≡ true
    → Dict.IsDict ((id, stamps) ∷ rest)
    → IsCleaning w ((id, stamps) ∷ rest) kicked d
    → IsCleaning w rest kicked d
kept-IsCleaning w id stamps rest kicked d l keys c = record {
  once = c.once;
  dict = c.dict;
  live = λ i h. elim (c.live i h) [ inl a ↦ inl a | inr r ↦ here i r ];
  agrees = λ i h. behind id i stamps rest d (other_key id i rest keys.0 h) c.agrees h;
  awake = c.awake;
}
  where
    same : (id == id) ≡ true
    same = (==_iff id id).1 refl

    self : Dict.get id d.timers ≡ some stamps
    self = sym (c.agrees id (rw same refl)) ∙ rw same refl

    here :
        (i : ℕ)
        → ((id == i) || Dict.has i rest) ≡ true
        → (is_live w d i ≡ true) ⊎ (Dict.has i rest ≡ true)
    here i r = elim (Bool-cases (id == i)) [
      | inl e ↦ inl (subst (λ j. is_live w d j ≡ true) ((==_iff id i).0 e) (rw self l))
      | inr e ↦ inr (rw e at r)
    ]

dropped-IsCleaning :
    (w : World) (id : ℕ) (stamps : List ℕ) (rest : Dict (List ℕ)) (kicked : List ℕ)
    (d d' : Downloader)
    → IsWoken id (record d { timers = Dict.remove id d.timers }) d'
    → Dict.IsDict ((id, stamps) ∷ rest)
    → IsCleaning w ((id, stamps) ∷ rest) kicked d
    → IsCleaning w rest (id ∷ kicked) d'
dropped-IsCleaning w id stamps rest kicked d d' woken keys c = record {
  once = woken.once;
  dict = subst Dict.IsDict (sym woken.timers) (Dict.remove-IsDict id d.timers c.dict);
  live = live;
  agrees = λ i h.
      let ne : (id == i) ≡ false = other_key id i rest keys.0 h in
      behind id i stamps rest d ne c.agrees h
      ∙ sym (ap (Dict.get i) woken.timers ∙ Dict.get-remove_ne id i d.timers ne);
  awake = awake;
}
  where
    remains : (i : ℕ) → Dict.has i d'.timers ≡ true → (id == i) ≡ false
    remains i h = elim (Bool-cases (id == i)) [
      | inl e ↦ absurd (
          both (subst (λ t. Dict.has i t ≡ true) woken.timers h) (
            subst (λ j. Dict.has j (Dict.remove id d.timers) ≡ false) ((==_iff id i).0 e)
              (Dict.has-remove_self id d.timers c.dict)))
      | inr e ↦ e
    ]

    live :
        (i : ℕ) → Dict.has i d'.timers ≡ true → (is_live w d' i ≡ true) ⊎ (Dict.has i rest ≡ true)
    live i h =
        let ne : (id == i) ≡ false = remains i h in
        let before : Dict.has i d.timers ≡ true =
          sym (ap (Dict.has i) woken.timers ∙ Dict.has-remove_ne id i d.timers ne) ∙ h in
        let eq : Dict.get i d'.timers ≡ Dict.get i d.timers =
          ap (Dict.get i) woken.timers ∙ Dict.get-remove_ne id i d.timers ne in
        elim (c.live i before) [
          | inl l ↦ inl (ap (λ o. has_live w.now (get_or_empty o)) eq ∙ l)
          | inr r ↦ inr (rw ne at r)
        ]

    awake : (i : ℕ) → contains i (id ∷ kicked) ≡ true → asleep i d'.servers ≡ false
    awake i h = elim (Bool-cases (id == i)) [
      | inl e ↦ woken.asleep i ∙ rw e refl
      | inr e ↦ woken.asleep i ∙ rw e (c.awake i (rw e at h))
    ]

-- After the first loop every timer is live, and the servers of the others were set up again.
pub record IsCleaned (w : World) (kicked : List ℕ) (d : Downloader) : Type 0 where
  pub once : IsOnce d.servers
  pub live : (i : ℕ) → Dict.has i d.timers ≡ true → is_live w d i ≡ true
  pub awake : (i : ℕ) → contains i kicked ≡ true → asleep i d.servers ≡ false

pub clean_timers-IsCleaned :
    (w : World) (rest : Dict (List ℕ)) (kicked : List ℕ) (d : Downloader)
    → Dict.IsDict rest
    → IsCleaning w rest kicked d
    → IsCleaned w (clean_timers w rest kicked d).0 (clean_timers w rest kicked d).1
unfolding clean_timers
clean_timers-IsCleaned w [] kicked d keys c = record {
  once = c.once;
  live = λ i h. elim (c.live i h) [ inl l ↦ l | inr r ↦ absurd (both r refl) ];
  awake = c.awake;
}
clean_timers-IsCleaned w ((id, stamps) ∷ rest) kicked d keys c =
    if_ind (λ (r : List ℕ × Downloader). IsCleaned w r.0 r.1) (has_live w.now stamps)
      (λ l.
        clean_timers-IsCleaned w rest kicked d keys.1
          (kept-IsCleaning w id stamps rest kicked d l keys c))
      (λ _. clean_timers-IsCleaned w rest (id ∷ kicked) (init_server w id id dropped) keys.1 (
        dropped-IsCleaning w id stamps rest kicked d (init_server w id id dropped)
          (init_server-IsWoken w id dropped c.once) keys c))
  where
    dropped : Downloader
    dropped = record d { timers = Dict.remove id d.timers }
