-- ===== src/BpsMeter/Amounts.antt =====
-- sabnzbd/bpsmeter.py: what a counter has for a server, and what an addition to it changes.
use sabnzbd.Prelude.{
  ℕ, ◌+◌, ◌≡◌, refl, ap, subst, ◌∙◌, ◌==◌, if◌then◌else◌, Option, none, some, [], arith, Bool-cases,
  inl, inr, ==_iff, ==_refl,
}
use sabnzbd.Prelude.Dict
use sabnzbd.Prelude.Dict.{Dict}
use sabnzbd.BpsMeter.{◌>>=◌, get_or, add_to, add_to_day}

-- A chain that returns has a first step that does.
pub bind-some {ℓ κ} :
    {A : Type ℓ} {B : Type κ} (o : Option A) (f : A → Option B) (b : B)
    → (o >>= f) ≡ some b
    → (a : A) × (o ≡ some a) × (f a ≡ some b)
bind-some none f b h = absurd (cc)
bind-some (some a) f b h = (a, refl, h)

-- What a dict has for a server, or for a day: 0 if there is nothing.
abbrev pub value : ℕ → Dict ℕ → ℕ
value k d = get_or 0 (Dict.get k d)

abbrev pub on_day : ℕ → ℕ → Dict (Dict ℕ) → ℕ
on_day k day d = value day (get_or [] (Dict.get k d))

-- What the server `k` gets of an amount for another one, or itself.
abbrev pub amount_of : ℕ → ℕ → ℕ → ℕ
amount_of k server n = if server == k then n else 0

pub some-inj {ℓ} : {A : Type ℓ} {a : A} (b : A) → some a ≡ some b → a ≡ b
some-inj {A = A} {a = a} b h = ap (λ (o : Option A). elim o [ none ↦ a | some c ↦ c ]) h

value-put :
    (k server v n : ℕ) (d : Dict ℕ)
    → Dict.get server d ≡ some v
    → value k (Dict.put server (v + n) d) ≡ value k d + amount_of k server n
value-put k server v n d e = elim (Bool-cases (server == k)) [
  | inl t ↦
      let same : Dict.get k d ≡ some v =
        subst (λ i. Dict.get i d ≡ some v) ((==_iff server k).0 t) e in
      ap (get_or 0) (Dict.get-put server k (v + n) d) ∙ rw t (rw same refl)
  | inr f ↦ ap (get_or 0) (Dict.get-put server k (v + n) d) ∙ rw f (omega arith)
]

pub add_to-value :
    (k server n : ℕ) (d d' : Dict ℕ)
    → add_to server n d ≡ some d'
    → value k d' ≡ value k d + amount_of k server n
unfolding add_to
add_to-value k server n d d' h = cases (Dict.get server d) refl h
  where
    cases :
        (o : Option ℕ)
        → Dict.get server d ≡ o
        → (elim o as (λ _. Option (Dict ℕ)) [
          | none ↦ none
          | some v ↦ some (Dict.put server (v + n) d)
        ])
          ≡ some d'
        → value k d' ≡ value k d + amount_of k server n
    cases none e h = absurd (cc)
    cases (some v) e h =
        subst (λ l. value k l ≡ value k d + amount_of k server n) (some-inj d' h)
          (value-put k server v n d e)

pub add_to_day-value :
    (k server day n : ℕ) (d d' : Dict (Dict ℕ))
    → add_to_day server day n d ≡ some d'
    → on_day k day d' ≡ on_day k day d + amount_of k server n
unfolding add_to_day
add_to_day-value k server day n d d' h =
    let (days, found, h) = bind-some (Dict.get server d) _ d' h in
    let (days', added, h) = bind-some (add_to day n days) _ d' h in
    subst (λ l. on_day k day l ≡ on_day k day d + amount_of k server n) (some-inj d' h)
      (elim (Bool-cases (server == k)) [
        | inl t ↦
            let same : Dict.get k d ≡ some days =
              subst (λ i. Dict.get i d ≡ some days) ((==_iff server k).0 t) found in
            ap (λ o. value day (get_or [] o)) (Dict.get-put server k days' d)
            ∙ rw t (rw same (add_to-value day day n days days' added ∙ rw (==_refl day) refl))
        | inr f ↦
            ap (λ o. value day (get_or [] o)) (Dict.get-put server k days' d) ∙ rw f (omega arith)
      ])
