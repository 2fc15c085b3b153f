-- ===== src/Queue/Sort.antt =====
-- sabnzbd/nzbqueue.py: `sort_queue`. `list.sort` is a stable sort, also with `reverse`.
pub mod Order
use sabnzbd.Prelude.{
  ℕ, ◌+◌, ◌-◌, ◌≡◌, refl, Bool, true, false, not, ◌&&◌, ◌||◌, ◌==◌, ltb, leb, if◌then◌else◌, Option,
  none, some, List, [], ◌∷◌, map, All, contains, Distinct, ℤ, pos, ltb_ℤ, eqb_ℤ, ◌*ℤ◌, ◌≤ℤ◌, arith,
}
use sabnzbd.Prelude.Sorted.{Descending}
use sabnzbd.Job.{Nzo, Text, remaining}
use sabnzbd.Queue.State.{Queue, priority_of}

insert_sorted : (ℕ → ℕ → Bool) → ℕ → List ℕ → List ℕ
insert_sorted lt x [] = x ∷ []
insert_sorted lt x (y ∷ ys) =
    let rest = insert_sorted lt x ys in if lt y x then y ∷ rest else x ∷ y ∷ ys

-- `l.sort(key=…)`, with `lt` the order of the keys: equals keep their order.
pub sort : (ℕ → ℕ → Bool) → List ℕ → List ℕ
unfolding insert_sorted
sort lt [] = []
sort lt (x ∷ xs) = insert_sorted lt x (sort lt xs)

-- `str.lower`, of the letters of ASCII.
abbrev pub lower_char : ℕ → ℕ
lower_char c = if leb 65 c && leb c 90 then c + 32 else c

abbrev pub lower : Text → Text
lower t = map lower_char t

-- The order of texts, by code points.
pub lt_text : Text → Text → Bool
lt_text [] [] = false
lt_text [] (d ∷ t) = true
lt_text (c ∷ s) [] = false
lt_text (c ∷ s) (d ∷ t) = let rest = lt_text s t in ltb c d || (c == d) && rest

pub data SortField : Type 0 where
  name size avg_age remaining_part : SortField

-- `nzo.remaining / nzo.bytes if nzo.bytes else 1`, as a fraction.
abbrev numerator : Nzo → ℤ
unfolding remaining
numerator nzo = if eqb_ℤ nzo.bytes (pos 0) then pos 1 else remaining nzo

abbrev denominator : Nzo → ℤ
denominator nzo = if eqb_ℤ nzo.bytes (pos 0) then pos 1 else nzo.bytes

-- The order of the keys of `sort_function`.
key_lt : SortField → Nzo → Nzo → Bool
unfolding lt_text remaining ◌*ℤ◌
key_lt name a b = lt_text (lower a.final_name) (lower b.final_name)
key_lt size a b = ltb_ℤ a.bytes b.bytes
key_lt avg_age a b = ltb_ℤ a.avg_date b.avg_date
key_lt remaining_part a b = ltb_ℤ (numerator a *ℤ denominator b) (numerator b *ℤ denominator a)

-- By age, the newest date comes first unless the order is reversed.
abbrev reversed : SortField → Bool → Bool
reversed avg_age desc = not desc
reversed _ desc = desc

abbrev pub flip_if : Bool → (ℕ → ℕ → Bool) → ℕ → ℕ → Bool
flip_if true lt a b = lt b a
flip_if false lt a b = lt a b

pub field_lt : SortField → Bool → (ℕ → Nzo) → ℕ → ℕ → Bool
unfolding key_lt
field_lt field desc jobs = flip_if (reversed field desc) (λ a b. key_lt field (jobs a) (jobs b))

abbrev pub priority_gt : (ℕ → Nzo) → ℕ → ℕ → Bool
priority_gt jobs a b = ltb_ℤ (priority_of jobs b) (priority_of jobs a)

-- `none` is a field that is not recognised.
unfoldable pub sort_queue : Option SortField → Bool → Queue → Queue
unfolding sort field_lt
sort_queue none desc q = q
sort_queue (some field) desc q = record q {
  nzo_list = sort (priority_gt q.jobs) (sort (field_lt field desc q.jobs) q.nzo_list);
}

contains-insert_sorted :
    (lt : ℕ → ℕ → Bool) (a x : ℕ) (xs : List ℕ)
    → contains a (insert_sorted lt x xs) ≡ ((x == a) || contains a xs)
unfolding insert_sorted
contains-insert_sorted lt a x [] = refl
contains-insert_sorted lt a x (y ∷ ys) = ground (arith, contains-insert_sorted lt a x ys)

pub contains-sort :
    (lt : ℕ → ℕ → Bool) (a : ℕ) (xs : List ℕ) → contains a (sort lt xs) ≡ contains a xs
unfolding sort
contains-sort lt a [] = refl
contains-sort lt a (x ∷ xs) =
    rw (contains-insert_sorted lt a x (sort lt xs)) (rw (contains-sort lt a xs) refl)

insert_sorted-Distinct :
    (lt : ℕ → ℕ → Bool) (x : ℕ) (xs : List ℕ)
    → contains x xs ≡ false
    → Distinct xs
    → Distinct (insert_sorted lt x xs)
unfolding insert_sorted
insert_sorted-Distinct lt x [] out d = (refl, tt)
insert_sorted-Distinct lt x (y ∷ ys) out d =
    ground (arith, contains-insert_sorted lt y x ys, insert_sorted-Distinct lt x ys)

pub sort-Distinct : (lt : ℕ → ℕ → Bool) (xs : List ℕ) → Distinct xs → Distinct (sort lt xs)
unfolding sort
sort-Distinct lt [] d = tt
sort-Distinct lt (x ∷ xs) d =
    insert_sorted-Distinct lt x (sort lt xs) (rw (contains-sort lt x xs) d.0)
      (sort-Distinct lt xs d.1)
