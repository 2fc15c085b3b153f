-- ===== src/Assembler/Writing.antt =====
-- sabnzbd/assembler.py: `Assembler.write`, over a file that is a list of bytes. The operating system
-- may accept less than it is given: `accepts` says how much it takes at each position.
use sabnzbd.Prelude.{
  ℕ, zero, suc, ◌+◌, ◌≤◌, ◌≡◌, refl, ap, sym, ◌∙◌, min, true, ltb, if◌then◌else◌, List, [], ◌∷◌,
  ◌++◌, length, take, drop, arith, if_ind,
}

abbrev pub Bytes : Type 0
Bytes = List ℕ

-- os.pwrite: what the file has before the offset and after the data stays, and a gap is zeros.
unfoldable pub pwrite : ℕ → Bytes → Bytes → Bytes
pwrite offset [] file = file
pwrite zero (b ∷ data') [] = b ∷ pwrite 0 data' []
pwrite zero (b ∷ data') (_ ∷ file) = b ∷ pwrite 0 data' file
pwrite (suc n) (b ∷ data') [] = 0 ∷ pwrite n (b ∷ data') []
pwrite (suc n) (b ∷ data') (x ∷ file) = x ∷ pwrite n (b ∷ data') file

-- `_write`: the number of bytes that were written, and the file.
abbrev pub write_some : (ℕ → ℕ) → Bytes → ℕ → Bytes → ℕ × Bytes
write_some accepts bytes offset file =
    let n = min (accepts offset) (length bytes) in (n, pwrite offset (take n bytes) file)

-- The loop of `write`, with a bound on its rounds.
unfoldable pub write_rest : ℕ → (ℕ → ℕ) → Bytes → ℕ → ℕ → Bytes → ℕ × Bytes
write_rest zero accepts bytes pos written file = (written, file)
write_rest (suc fuel) accepts bytes pos written file =
    let (n, file') = write_some accepts (drop written bytes) (pos + written) file in
    let rest = write_rest fuel accepts bytes pos (written + n) file' in
    if ltb written (length bytes) then rest else (written, file)

unfoldable pub write_all : (ℕ → ℕ) → Bytes → ℕ → Bytes → ℕ × Bytes
unfolding write_rest
write_all accepts bytes pos file =
    let (n, file') = write_some accepts bytes pos file in
    write_rest (length bytes) accepts bytes pos n file'

pwrite-cons :
    (n x : ℕ) (bytes file : Bytes) → pwrite (suc n) bytes (x ∷ file) ≡ x ∷ pwrite n bytes file
unfolding pwrite
pwrite-cons n x [] file = refl
pwrite-cons n x (b ∷ bytes) file = refl

-- Two writes, one after the other, are one.
pub pwrite-append :
    (n m : ℕ) (xs ys file : Bytes)
    → m ≡ n + length xs
    → pwrite m ys (pwrite n xs file) ≡ pwrite n (xs ++ ys) file
unfolding pwrite
pwrite-append n m [] ys file e = ap (λ i. pwrite i ys file) (to_n e)
  where
    to_n : m ≡ n + 0 → m ≡ n
    to_n e = omega (arith, e)
pwrite-append zero zero (x ∷ xs) ys file e = absurd (omega (arith, e))
pwrite-append zero (suc m) (x ∷ xs) ys [] e =
    pwrite-cons m x ys (pwrite 0 xs [])
    ∙ ap (λ l. x ∷ l) (pwrite-append 0 m xs ys [] (omega (arith, e)))
pwrite-append zero (suc m) (x ∷ xs) ys (f ∷ file) e =
    pwrite-cons m x ys (pwrite 0 xs file)
    ∙ ap (λ l. x ∷ l) (pwrite-append 0 m xs ys file (omega (arith, e)))
pwrite-append (suc n) zero (x ∷ xs) ys file e = absurd (omega (arith, e))
pwrite-append (suc n) (suc m) (x ∷ xs) ys [] e =
    pwrite-cons m 0 ys (pwrite n (x ∷ xs) [])
    ∙ ap (λ l. 0 ∷ l) (pwrite-append n m (x ∷ xs) ys [] (omega (arith, e)))
pwrite-append (suc n) (suc m) (x ∷ xs) ys (f ∷ file) e =
    pwrite-cons m f ys (pwrite n (x ∷ xs) file)
    ∙ ap (λ l. f ∷ l) (pwrite-append n m (x ∷ xs) ys file (omega (arith, e)))

pwrite-start : (bytes : Bytes) → pwrite 0 bytes [] ≡ bytes
unfolding pwrite
pwrite-start [] = refl
pwrite-start (b ∷ bytes) = ap (λ l. b ∷ l) (pwrite-start bytes)

-- A write at the end of a file is an append.
pub pwrite-end :
    (n : ℕ) (file bytes : Bytes) → n ≡ length file → pwrite n bytes file ≡ file ++ bytes
unfolding pwrite
pwrite-end n [] bytes e = ap (λ i. pwrite i bytes []) e ∙ pwrite-start bytes
pwrite-end zero (f ∷ file) bytes e = absurd (omega (arith, e))
pwrite-end (suc n) (f ∷ file) bytes e =
    pwrite-cons n f bytes file ∙ ap (λ l. f ∷ l) (pwrite-end n file bytes (omega (arith, e)))

take_all : (bytes : Bytes) (n : ℕ) → length bytes ≤ n → take n bytes ≡ bytes
take_all [] zero h = refl
take_all [] (suc n) h = refl
take_all (b ∷ bytes) zero h = absurd (omega (arith, h))
take_all (b ∷ bytes) (suc n) h = ap (λ l. b ∷ l) (take_all bytes n (omega (arith, h)))

take-drop :
    (n m k : ℕ) (bytes : Bytes) → k ≡ n + m → take n bytes ++ take m (drop n bytes) ≡ take k bytes
take-drop zero m k bytes e = ap (λ i. take i bytes) (sym (to_m e))
  where
    to_m : k ≡ 0 + m → k ≡ m
    to_m e = omega (arith, e)
take-drop (suc n) m zero bytes e = absurd (omega (arith, e))
take-drop (suc n) zero (suc k) [] e = refl
take-drop (suc n) (suc m) (suc k) [] e = refl
take-drop (suc n) m (suc k) (b ∷ bytes) e =
    ap (λ l. b ∷ l) (take-drop n m k bytes (omega (arith, e)))

length-take : (n : ℕ) (bytes : Bytes) → n ≤ length bytes → length (take n bytes) ≡ n
length-take zero bytes h = refl
length-take (suc n) [] h = absurd (omega (arith, h))
length-take (suc n) (b ∷ bytes) h = ap suc (length-take n bytes (omega (arith, h)))

length-drop : (n : ℕ) (bytes : Bytes) → n ≤ length bytes → length (drop n bytes) + n ≡ length bytes
length-drop zero bytes h = omega arith
length-drop (suc n) [] h = absurd (omega (arith, h))
length-drop (suc n) (b ∷ bytes) h = omega (arith, length-drop n bytes (omega (arith, h)))

module _ (accepts : ℕ → ℕ) (some_bytes : (i : ℕ) → 1 ≤ accepts i) (bytes : Bytes) (pos : ℕ)
    (file : Bytes) where
  done :
      (written : ℕ)
      → written ≤ length bytes
      → length bytes ≤ written
      → ◌≡◌ {A = ℕ × Bytes}
          (written, pwrite pos (take written bytes) file)
          (length bytes, pwrite pos bytes file)
  done written h full =
      let e : written ≡ length bytes = omega (arith, h, full) in
      rw (take_all bytes written full) (ap (λ i. (i, pwrite pos bytes file)) e)

  -- The file after one more call.
  step :
      (written n : ℕ)
      → written ≤ length bytes
      → pwrite (pos + written) (take n (drop written bytes)) (pwrite pos (take written bytes) file)
        ≡ pwrite pos (take (written + n) bytes) file
  step written n h =
      pwrite-append pos (pos + written) (take written bytes) (take n (drop written bytes)) file
        (ap (λ i. pos + i) (sym (length-take written bytes h)))
      ∙ ap (λ l. pwrite pos l file) (take-drop written n (written + n) bytes refl)

  write_rest-lem :
      (fuel written : ℕ)
      → written ≤ length bytes
      → length bytes ≤ fuel + written
      → write_rest fuel accepts bytes pos written (pwrite pos (take written bytes) file)
        ≡ (length bytes, pwrite pos bytes file)
  unfolding write_rest
  write_rest-lem zero written h enough = done written h (omega (arith, enough))
  write_rest-lem (suc fuel) written h enough =
      let n = min (accepts (pos + written)) (length (drop written bytes)) in
      let left : length (drop written bytes) + written ≡ length bytes =
        length-drop written bytes h in
      if_ind (λ (r : ℕ × Bytes). r ≡ (length bytes, pwrite pos bytes file))
        (ltb written (length bytes))
        (λ more.
          ap (λ f. write_rest fuel accepts bytes pos (written + n) f) (step written n h)
          ∙ write_rest-lem fuel (written + n) (below left)
              (nearer left more (some_bytes (pos + written))))
        (λ full. done written h (ground (arith, full)))
    where
      below :
          length (drop written bytes) + written ≡ length bytes
          → written + min (accepts (pos + written)) (length (drop written bytes)) ≤ length bytes
      below left = ground (arith, left)

      nearer :
          length (drop written bytes) + written ≡ length bytes
          → ltb written (length bytes) ≡ true
          → 1 ≤ accepts (pos + written)
          → length bytes
            ≤ fuel + (written + min (accepts (pos + written)) (length (drop written bytes)))
      nearer left more one = ground (arith, left, more, one, enough)

-- When every call of the system writes at least one byte, the loop ends with all the data written, and
-- the file is as after one whole write at the position.
pub write_all-pwrite :
    (accepts : ℕ → ℕ) (bytes : Bytes) (pos : ℕ) (file : Bytes)
    → ((i : ℕ) → 1 ≤ accepts i)
    → write_all accepts bytes pos file ≡ (length bytes, pwrite pos bytes file)
unfolding write_all
write_all-pwrite accepts bytes pos file some_bytes =
    let n = min (accepts pos) (length bytes) in
    write_rest-lem accepts some_bytes bytes pos file (length bytes) n (ground arith) (omega arith)
