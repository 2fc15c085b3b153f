-- ===== src/Downloader/Marks.antt =====
-- sabnzbd/downloader.py: which servers are left asleep when one of them is set up again.
use sabnzbd.Prelude.{
  ℕ, ◌+◌, ◌≡◌, refl, ap, subst, ==_iff, ◌∙◌, Bool, true, false, not, ◌&&◌, ◌||◌, inl, inr, ◌==◌,
  leb, if_ind, Bool-cases, Option, none, some, List, [], ◌∷◌, arith,
}
use sabnzbd.Downloader.{Server, mark_restart}

-- Whether a server of the id is inactive and will not be set up again.
abbrev pub asleep : ℕ → List Server → Bool
asleep id [] = false
asleep id (s ∷ servers) = s.id == id && (not s.active && not s.restart) || asleep id servers

abbrev pub one_if : Bool → ℕ
one_if true = 1
one_if false = 0

abbrev pub count_of : ℕ → List Server → ℕ
count_of id [] = 0
count_of id (s ∷ servers) = one_if (s.id == id) + count_of id servers

-- Every id stands once.
abbrev pub IsOnce : List Server → Type 0
IsOnce servers = (id : ℕ) → leb (count_of id servers) 1 ≡ true

-- What a search for the server to set up again leaves, for the servers of one id.
abbrev pub Marked : ℕ → ℕ → List Server → Option (List Server) → Type 0
Marked old id servers none = count_of old servers ≡ 0
Marked old id servers (some servers') =
    (asleep id servers' ≡ (not (old == id) && asleep id servers))
    × (count_of id servers' ≡ count_of id servers)

pub absent-asleep :
    (id : ℕ) (servers : List Server) → count_of id servers ≡ 0 → asleep id servers ≡ false
absent-asleep id [] h = refl
absent-asleep id (s ∷ servers) h = elim (Bool-cases (s.id == id)) [
  | inl e ↦ absurd (positive (subst (λ b. one_if b + count_of id servers ≡ 0) e h))
  | inr e ↦
      rw e (absent-asleep id servers (later (subst (λ b. one_if b + count_of id servers ≡ 0) e h)))
]
  where
    positive : 1 + count_of id servers ≡ 0 → ⊥
    positive e = omega arith

    later : 0 + count_of id servers ≡ 0 → count_of id servers ≡ 0
    later e = omega arith

-- The servers of an id behind the first one.
alone :
    (s : Server) (old : ℕ) (servers : List Server)
    → (s.id == old) ≡ true
    → leb (count_of old (s ∷ servers)) 1 ≡ true
    → count_of old servers ≡ 0
alone s old servers t h =
    let le : leb (1 + count_of old servers) 1 ≡ true =
      subst (λ b. leb (one_if b + count_of old servers) 1 ≡ true) t h in
    ground arith

marked_first :
    (s : Server) (old new id : ℕ) (servers : List Server)
    → (s.id == old) ≡ true
    → count_of old servers ≡ 0
    → asleep id (record s { newid = some new; restart = true } ∷ servers)
      ≡ (not (old == id) && asleep id (s ∷ servers))
marked_first s old new id servers t h = elim (Bool-cases (old == id)) [
  | inl e ↦
      let here : (s.id == id) ≡ true = ground arith in
      let none : asleep id servers ≡ false =
        subst (λ i. asleep i servers ≡ false) ((==_iff old id).0 e) (absent-asleep old servers h) in
      rw e (rw here (rw none (neither (not s.active))))
  | inr e ↦ let there : (s.id == id) ≡ false = ground arith in rw e (rw there refl)
]
  where
    neither : (b : Bool) → (true && (b && false) || false) ≡ false
    neither true = refl
    neither false = refl

pub mark_restart-Marked :
    (old new id : ℕ) (servers : List Server)
    → leb (count_of old servers) 1 ≡ true
    → Marked old id servers (mark_restart old new servers)
mark_restart-Marked old new id [] h = refl
mark_restart-Marked old new id (s ∷ servers) h =
    if_ind (Marked old id (s ∷ servers)) (s.id == old)
      (λ t. (marked_first s old new id servers t (alone s old servers t h), refl))
      (λ f.
        behind f (mark_restart old new servers) (mark_restart-Marked old new id servers (fewer f)))
  where
    fewer : (s.id == old) ≡ false → leb (count_of old servers) 1 ≡ true
    fewer f =
        let le : leb (0 + count_of old servers) 1 ≡ true =
          subst (λ b. leb (one_if b + count_of old servers) 1 ≡ true) f h in
        ground arith

    kept :
        (l : List Server)
        → (s.id == old) ≡ false
        → asleep id l ≡ (not (old == id) && asleep id servers)
        → asleep id (s ∷ l) ≡ (not (old == id) && asleep id (s ∷ servers))
    kept l f same = elim (Bool-cases (old == id)) [
      | inl e ↦ (let there : (s.id == id) ≡ false = ground arith in rw there same)
      | inr e ↦
          (let eq : asleep id l ≡ asleep id servers = same ∙ rw e refl in
            rw e (ap (λ b. s.id == id && (not s.active && not s.restart) || b) eq))
    ]

    behind :
        (s.id == old) ≡ false
        → (o : Option (List Server)) → Marked old id servers o
        → Marked old id (s ∷ servers) (elim o [ none ↦ none | some l ↦ some (s ∷ l) ])
    behind f none m = rw f (ground arith)
    behind f (some l) (same, count) = (kept l f same, ap (λ n. one_if (s.id == id) + n) count)
