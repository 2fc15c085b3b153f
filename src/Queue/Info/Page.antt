-- ===== src/Queue/Info/Page.antt =====
-- sabnzbd/nzbqueue.py: the page of `queue_info`.
use sabnzbd.Prelude.{
  ℕ, zero, suc, ◌+◌, ◌≤◌, ◌<◌, ◌≡◌, refl, ap, sym, ◌∙◌, Bool, true, false, ◌&&◌, ◌||◌, ◌==◌, ltb,
  leb, if◌then◌else◌, if_ind, List, [], ◌∷◌, ◌++◌, append_assoc, append-nil, take, drop, keep,
  arith,
}
use sabnzbd.Job.{Nzo, is_nil}
use sabnzbd.Queue.State.{Queue}
use sabnzbd.Queue.Info.{Filters, Info, matches, visit, visit_all, no_info, queue_info}

abbrev in_window : ℕ → ℕ → ℕ → Bool
in_window start limit n = (limit == 0) || (leb start n && ltb n (start + limit))

window : ℕ → ℕ → ℕ → List ℕ → List ℕ
window start limit n [] = []
window start limit n (x ∷ xs) =
    let rest = window start limit (n + 1) xs in if in_window start limit n then x ∷ rest else rest

window-nil : (s l n : ℕ) (xs : List ℕ) → 0 < l → s + l ≤ n → window s l n xs ≡ []
unfolding window
window-nil s l n [] h k = refl
window-nil s l n (x ∷ xs) h k = ground (arith, window-nil s l (n + 1) xs)

window-take :
    (s l n m : ℕ) (xs : List ℕ) → 0 < l → s ≤ n → n + m ≡ s + l → window s l n xs ≡ take m xs
unfolding window
window-take s l n zero xs h k e = window-nil s l n xs h (omega arith)
window-take s l n (suc m) [] h k e = refl
window-take s l n (suc m) (x ∷ xs) h k e = ground (arith, window-take s l (n + 1) m xs)

window-drop : (s l n m : ℕ) (xs : List ℕ) → 0 < l → n + m ≡ s → window s l n xs ≡ take l (drop m xs)
unfolding window
window-drop s l n zero xs h e = window-take s l n l xs h (omega arith) (omega arith)
window-drop s (suc l) n (suc m) [] h e = refl
window-drop s zero n (suc m) [] h e = refl
window-drop s l n (suc m) (x ∷ xs) h e = ground (arith, window-drop s l (n + 1) m xs)

window-all : (s n : ℕ) (xs : List ℕ) → window s 0 n xs ≡ xs
unfolding window
window-all s n [] = refl
window-all s n (x ∷ xs) = ap (λ r. x ∷ r) (window-all s (n + 1) xs)

-- l[start:start + limit], or all of it if the limit is 0.
abbrev pub slice : ℕ → ℕ → List ℕ → List ℕ
slice start zero xs = xs
slice start (suc l) xs = take (suc l) (drop start xs)

window-slice : (s l : ℕ) (xs : List ℕ) → window s l 0 xs ≡ slice s l xs
window-slice s zero xs = window-all s 0 xs
window-slice s (suc l) xs = window-drop s (suc l) 0 s xs (omega arith) (omega arith)

window-step :
    (s l : ℕ) (m : Bool) (n x : ℕ) (shown ys shown' : List ℕ) (n' : ℕ)
    → shown' ≡ (if m && in_window s l n then shown ++ x ∷ [] else shown)
    → n' ≡ (if m then n + 1 else n)
    → shown' ++ window s l n' ys ≡ shown ++ window s l n (if m then x ∷ ys else ys)
unfolding window
window-step s l true n x shown ys shown' n' page matched =
    ground (arith, append_assoc shown (x ∷ []) (window s l (n + 1) ys))
window-step s l false n x shown ys shown' n' page matched = ground arith

module _ (delay_left : ℕ → ℕ) (w : Filters) (start limit : ℕ) (jobs : ℕ → Nzo) where
  page-visit :
      (x : ℕ) (i : Info)
      → ((visit delay_left w start limit jobs x i).page ≡ (
          if matches delay_left w jobs x && in_window start limit i.nzos_matched
          then i.page ++ x ∷ []
          else i.page))
        × ((visit delay_left w start limit jobs x i).nzos_matched
            ≡ (if matches delay_left w jobs x then i.nzos_matched + 1 else i.nzos_matched))
  unfolding visit
  page-visit x i = (ground arith, ground arith)

  page-visit_all :
      (xs : List ℕ) (i : Info)
      → (visit_all delay_left w start limit jobs xs i).page
        ≡ i.page ++ window start limit i.nzos_matched (keep (matches delay_left w jobs) xs)
  unfolding visit_all window
  page-visit_all [] i = sym (append-nil i.page)
  page-visit_all (x ∷ xs) i =
      let (page, matched) = page-visit x i in
      let rest = page-visit_all xs (visit delay_left w start limit jobs x i) in
      rest
      ∙ window-step start limit (matches delay_left w jobs x) i.nzos_matched x i.page
          (keep (matches delay_left w jobs) xs) (visit delay_left w start limit jobs x i).page
          (visit delay_left w start limit jobs x i).nzos_matched page matched

-- The page shows the jobs that pass the filters, in the order of
-- the queue: all of them if the limit is 0, and else at most `limit` from position `start` on.
pub queue_info-page :
    (delay_left : ℕ → ℕ) (w : Filters) (start limit : ℕ) (q : Queue)
    → (queue_info delay_left w start limit q).page
      ≡ slice start limit (keep (matches delay_left w q.jobs) q.nzo_list)
unfolding queue_info
queue_info-page delay_left w start limit q =
    if_ind
      (λ (i : Info). i.page ≡ slice start limit (keep (matches delay_left w q.jobs) q.nzo_list))
      (is_nil w.search && is_nil w.nzo_ids) (λ _. page) (λ _. page)
  where
    page :
        (visit_all delay_left w start limit q.jobs q.nzo_list no_info).page
        ≡ slice start limit (keep (matches delay_left w q.jobs) q.nzo_list)
    page =
        page-visit_all delay_left w start limit q.jobs q.nzo_list no_info
        ∙ window-slice start limit (keep (matches delay_left w q.jobs) q.nzo_list)
