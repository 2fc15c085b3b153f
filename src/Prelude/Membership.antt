-- ===== src/Prelude/Membership.antt =====
-- Lists of references: membership as a Boolean test, removal of an element, lists without repetition.
use Prim.Native.Nat.{ℕ}
use mathlib.Core.Path.{◌≡◌, refl, sym, subst}
use mathlib.Core.Logic.{inl, inr}
use mathlib.Core.Bool.{Bool, false, ◌||◌, ◌&&◌}
use mathlib.Core.List.{List, [], ◌∷◌, ◌++◌}
use native.Mathlib.Omega.{arith}
use sabnzbd.Prelude.Tests.{Bool-cases, ==_iff, ◌==◌, if◌then◌else◌}

-- `x in l`
abbrev pub contains : ℕ → List ℕ → Bool
contains a [] = false
contains a (x ∷ xs) = (x == a) || contains a xs

-- l.remove(x): the first occurrence.
abbrev pub remove_one : ℕ → List ℕ → List ℕ
remove_one a [] = []
remove_one a (x ∷ xs) = let rest = remove_one a xs in if x == a then xs else x ∷ rest

-- No reference occurs twice.
abbrev pub Distinct : List ℕ → Type 0
Distinct [] = Unit
Distinct (x ∷ xs) = (contains x xs ≡ false) × Distinct xs

-- A key is added to a dict in order of first insertion.
abbrev pub add_key : ℕ → List ℕ → List ℕ
add_key a xs = if contains a xs then xs else xs ++ a ∷ []

pub contains-append :
    (a : ℕ) (xs ys : List ℕ) → contains a (xs ++ ys) ≡ (contains a xs || contains a ys)
contains-append a [] ys = refl
contains-append a (x ∷ xs) ys = ground (arith, contains-append a xs ys)

pub contains-add_key :
    (a b : ℕ) (xs : List ℕ) → contains a (add_key b xs) ≡ ((b == a) || contains a xs)
contains-add_key a b xs = ground (arith, contains-append a xs (b ∷ []))

pub contains-remove_one_ne :
    (a b : ℕ) (xs : List ℕ) → (b == a) ≡ false → contains a (remove_one b xs) ≡ contains a xs
contains-remove_one_ne a b [] h = refl
contains-remove_one_ne a b (x ∷ xs) h = ground (arith, contains-remove_one_ne a b xs h)

pub contains-remove_one_self :
    (a : ℕ) (xs : List ℕ) → Distinct xs → contains a (remove_one a xs) ≡ false
contains-remove_one_self a [] h = refl
contains-remove_one_self a (x ∷ xs) h = ground (arith, contains-remove_one_self a xs h.1)

pub remove_one-Distinct : (a : ℕ) (xs : List ℕ) → Distinct xs → Distinct (remove_one a xs)
remove_one-Distinct a [] h = tt
remove_one-Distinct a (x ∷ xs) h =
    ground (arith, contains-remove_one_ne x a xs, remove_one-Distinct a xs h.1)

pub snoc-Distinct :
    (a : ℕ) (xs : List ℕ) → Distinct xs → contains a xs ≡ false → Distinct (xs ++ a ∷ [])
snoc-Distinct a [] h k = (refl, tt)
snoc-Distinct a (x ∷ xs) h k = ground (arith, contains-append x xs (a ∷ []), snoc-Distinct a xs h.1)

pub add_key-Distinct : (a : ℕ) (xs : List ℕ) → Distinct xs → Distinct (add_key a xs)
add_key-Distinct a xs h = ground (arith, snoc-Distinct a xs h)

-- Removing what is not there changes nothing.
pub remove_one-absent : (a : ℕ) (xs : List ℕ) → contains a xs ≡ false → remove_one a xs ≡ xs
remove_one-absent a [] h = refl
remove_one-absent a (x ∷ xs) h = ground (arith, remove_one-absent a xs)

pub contains-insert :
    (b a : ℕ) (xs ys : List ℕ) → contains b (xs ++ a ∷ ys) ≡ ((a == b) || contains b (xs ++ ys))
contains-insert b a [] ys = refl
contains-insert b a (x ∷ xs) ys = ground (arith, contains-insert b a xs ys)

pub insert-Distinct :
    (a : ℕ) (xs ys : List ℕ)
    → Distinct (xs ++ ys)
    → contains a (xs ++ ys) ≡ false
    → Distinct (xs ++ a ∷ ys)
insert-Distinct a [] ys d out = (out, d)
insert-Distinct a (x ∷ xs) ys d out =
    ground (arith, contains-insert x a xs ys, insert-Distinct a xs ys d.1)

-- [x for x in l if p(x)]
abbrev pub keep : (ℕ → Bool) → List ℕ → List ℕ
keep p [] = []
keep p (x ∷ xs) = let rest = keep p xs in if p x then x ∷ rest else rest

pub contains-keep :
    (a : ℕ) (p : ℕ → Bool) (xs : List ℕ) → contains a (keep p xs) ≡ (contains a xs && p a)
contains-keep a p [] = refl
contains-keep a p (x ∷ xs) = elim (Bool-cases (x == a)) [
  | inl e ↦
      let same = (==_iff x a).0 e in
      subst (λ y. contains a (keep p (y ∷ xs)) ≡ (contains a (y ∷ xs) && p a)) (sym same)
        (ground (arith, contains-keep a p xs))
  | inr e ↦ ground (arith, contains-keep a p xs)
]

pub keep-Distinct : (p : ℕ → Bool) (xs : List ℕ) → Distinct xs → Distinct (keep p xs)
keep-Distinct p [] d = tt
keep-Distinct p (x ∷ xs) d = ground (arith, contains-keep x p xs, keep-Distinct p xs d.1)
