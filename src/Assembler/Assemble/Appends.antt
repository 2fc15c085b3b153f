-- ===== src/Assembler/Assemble/Appends.antt =====
-- sabnzbd/assembler.py: `assemble` of a file that is written in order, without direct writes.
use sabnzbd.Prelude.{
  ℕ, ◌+◌, ◌≤◌, ◌≡◌, refl, ap, sym, subst, ◌∙◌, Bool, true, false, not, ◌&&◌, ◌==◌, if◌then◌else◌,
  if_ind, Option, none, some, List, [], ◌∷◌, ◌++◌, length, drop, length-append, append_assoc,
  append-nil, arith, both, Bool-cases, inl, inr,
}
use sabnzbd.Assembler.Writing.{Bytes, pwrite, write_all, pwrite-end, write_all-pwrite}
use sabnzbd.Assembler.Assemble.{
  Piece, Task, World, Assembly, NzbFile, contiguous_offset, open_file, write, Step, stop, go_on,
  write_piece, load_piece, visit_piece, after, assemble_from, assemble,
}

-- Not on disk, and in the cache when it is decoded.
abbrev pub IsReady : Piece → Type 0
IsReady p =
    (p.on_disk ≡ false)
    × (p.decoded ≡ true → (b : ℕ) × (bytes : Bytes) × (p.cached ≡ some (b ∷ bytes)))

abbrev pub AllReady : List Piece → Type 0
AllReady [] = Unit
AllReady (p ∷ ps) = IsReady p × AllReady ps

abbrev pub data_of : Option Bytes → Bytes
data_of none = []
data_of (some bytes) = bytes

-- What is written: the data of the decoded pieces, of a file that is not done up to the first one that
-- is missing.
abbrev pub ready_data : Bool → List Piece → Bytes
ready_data file_done [] = []
ready_data file_done (p ∷ ps) =
    let rest = ready_data file_done ps in
    if p.decoded then data_of p.cached ++ rest else if file_done then rest else []

-- The pieces before the first missing one.
abbrev pub count_ready : List Piece → ℕ
count_ready [] = 0
count_ready (p ∷ ps) = let n = count_ready ps in if p.decoded then n + 1 else 0

-- The task to write a file in order.
abbrev pub in_order : Bool → Task
in_order file_done = record {
  file_done = file_done;
  allow_non_contiguous = false;
  direct_write = false;
}

module _ (w : World) (some_bytes : (i : ℕ) → 1 ≤ w.accepts i) (file_done : Bool)
    (ps : List Piece) where
  -- The next write is at the end of the file.
  abbrev AtEnd : Assembly → Type 0
  AtEnd s =
      (s.direct_write ≡ false)
      × (s.skipped ≡ false)
      × ((s.opened ≡ true → s.offset ≡ length s.file)
          × (s.opened ≡ false → contiguous_offset ps s.next_index ≡ length s.file))

  -- What a piece with data does.
  record Appended (idx : ℕ) (p : Piece) (bytes : Bytes) (s : Assembly) (t : Step) : Type 0 where
    state : Assembly
    goes_on : t ≡ go_on (record p { on_disk = true; cached = none }) state
    file : state.file ≡ s.file ++ bytes
    index : state.next_index ≡ (if s.next_index == idx then s.next_index + 1 else s.next_index)
    at_end : AtEnd state

  write_piece-Appended :
      (idx : ℕ) (fresh : Bool) (p : Piece) (bytes : Bytes) (s : Assembly)
      → s.direct_write ≡ false
      → s.skipped ≡ false
      → s.opened ≡ true
      → s.offset ≡ length s.file
      → Appended idx p bytes s
          (write_piece w (in_order file_done) idx fresh (record p { cached = none }) bytes s)
  unfolding write_piece write
  write_piece-Appended idx fresh p bytes s d k o e =
      if_ind (Appended idx p bytes s) (fresh && not s.direct_write && false)
        (λ t. absurd (no_gaps t))
        (λ _.
          if_ind (Appended idx p bytes s) (s.direct_write && p.can_direct_write)
            (λ t. absurd (both (first t) d))
            (λ _.
              if_ind (Appended idx p bytes s) (s.direct_write && s.skipped && not file_done)
                (λ t. absurd (both (first' t) d))
                (λ _. record {
                  state = write w idx bytes s.offset s;
                  goes_on = refl;
                  file = ap (λ (r : ℕ × Bytes). r.1) whole ∙ pwrite-end s.offset s.file bytes e;
                  index = refl;
                  at_end = (d, k, (λ _. end, λ shut. absurd (both o shut)));
                })))
    where
      whole :
          write_all w.accepts bytes s.offset s.file ≡ (length bytes, pwrite s.offset bytes s.file)
      whole = write_all-pwrite w.accepts bytes s.offset s.file some_bytes

      end :
          s.offset + (write_all w.accepts bytes s.offset s.file).0
          ≡ length (write_all w.accepts bytes s.offset s.file).1
      end =
          ap (λ (r : ℕ × Bytes). s.offset + r.0) whole
          ∙ ap (λ i. i + length bytes) e
          ∙ sym (length-append s.file bytes)
          ∙ ap length (sym (pwrite-end s.offset s.file bytes e))
          ∙ ap (λ (r : ℕ × Bytes). length r.1) (sym whole)

      no_gaps : (fresh && not s.direct_write && false) ≡ true → ⊥
      no_gaps t = ground arith

      first : (s.direct_write && p.can_direct_write) ≡ true → s.direct_write ≡ true
      first t = ground arith

      first' : (s.direct_write && s.skipped && not file_done) ≡ true → s.direct_write ≡ true
      first' t = ground arith

  -- The piece is loaded, and the file is opened when it was not.
  load_piece-Appended :
      (idx : ℕ) (p : Piece) (b : ℕ) (bytes : Bytes) (s : Assembly)
      → AtEnd s
      → Appended idx p (b ∷ bytes) s (
          load_piece w
            (in_order file_done)
            ps
            idx
            (record p { cached = none })
            (some (b ∷ bytes))
            s)
  unfolding load_piece open_file
  load_piece-Appended idx p b bytes s (d, k, (at_offset, shut)) =
      if_ind (Appended idx p (b ∷ bytes) s) s.opened
        (λ o. write_piece-Appended idx false p (b ∷ bytes) s d k o (at_offset o))
        (λ o.
          let s' : Assembly = record s {
            opened = true;
            offset = contiguous_offset ps s.next_index;
            direct_write = false;
          } in
          let a = write_piece-Appended idx true p (b ∷ bytes) s' refl k refl (shut o) in
          record {
            state = a.state;
            goes_on = a.goes_on;
            file = a.file;
            index = a.index;
            at_end = a.at_end;
          })

  module _ (alive : (i : ℕ) → w.deleted i ≡ false) (idx : ℕ) (p : Piece) (s : Assembly)
      (fresh : p.on_disk ≡ false) where
    visit_piece-decoded :
        p.decoded ≡ true
        → visit_piece w (in_order file_done) ps idx p s
          ≡ load_piece w (in_order file_done) ps idx (record p { cached = none }) p.cached s
    unfolding visit_piece
    visit_piece-decoded h = rw (alive idx) (rw fresh (rw h refl))

    visit_piece-missing :
        p.decoded ≡ false
        → visit_piece w (in_order file_done) ps idx p s ≡ (if file_done then go_on p s else stop)
    unfolding visit_piece
    visit_piece-missing h = rw (alive idx) (rw fresh (rw h refl))

  -- What the loop does with the pieces that are left.
  record Result (idx : ℕ) (rest : List Piece) (s : Assembly) (r : List Piece × Assembly)
      : Type 0 where
    file : r.1.file ≡ s.file ++ ready_data file_done rest
    index : s.next_index ≡ idx → r.1.next_index ≡ idx + count_ready rest
    stuck : s.next_index + 1 ≤ idx → r.1.next_index ≡ s.next_index

  module _ (idx : ℕ) (p : Piece) (rest : List Piece) (s : Assembly)
      (next : Assembly → List Piece × Assembly) where
    -- The loop goes on after a piece that was written.
    appended-Result :
        (b : ℕ) (bytes : Bytes) (t : Step)
        → p.decoded ≡ true
        → p.cached ≡ some (b ∷ bytes)
        → (a : Appended idx p (b ∷ bytes) s t) → Result (idx + 1) rest a.state (next a.state)
        → Result idx (p ∷ rest) s (after t p rest next s)
    appended-Result b bytes t d c a r =
        subst (λ t. Result idx (p ∷ rest) s (after t p rest next s)) (sym a.goes_on)
          (record {
            file =
                r.file
                ∙ ap (λ f. f ++ ready_data file_done rest) a.file
                ∙ append_assoc s.file (b ∷ bytes) (ready_data file_done rest)
                ∙ ap (λ l. s.file ++ l) (sym data');
            index = λ h. r.index (a.index ∙ here h) ∙ counted;
            stuck = λ h. r.stuck (behind a.index h) ∙ a.index ∙ same h;
          })
      where
        data' : ready_data file_done (p ∷ rest) ≡ (b ∷ bytes) ++ ready_data file_done rest
        data' = rw d (rw c refl)

        here :
            s.next_index ≡ idx
            → (if s.next_index == idx then s.next_index + 1 else s.next_index) ≡ idx + 1
        here h = ground (arith, h)

        counted : idx + 1 + count_ready rest ≡ idx + count_ready (p ∷ rest)
        counted = ground (arith, d)

        same :
            s.next_index + 1 ≤ idx
            → (if s.next_index == idx then s.next_index + 1 else s.next_index) ≡ s.next_index
        same h = ground (arith, h)

        behind :
            a.state.next_index ≡ (if s.next_index == idx then s.next_index + 1 else s.next_index)
            → s.next_index + 1 ≤ idx
            → a.state.next_index + 1 ≤ idx + 1
        behind e h = ground (arith, e, h)

    -- It goes on after a missing piece when the file is done, and stops there otherwise.
    missing-Result :
        (done : Bool)
        → file_done ≡ done
        → p.decoded ≡ false
        → Result (idx + 1) rest s (next s)
        → Result idx (p ∷ rest) s (after (if done then go_on p s else stop) p rest next s)
    missing-Result true e d r = record {
      file = r.file ∙ ap (λ l. s.file ++ l) (sym data');
      index = λ h. r.stuck (omega (arith, h)) ∙ h ∙ none_ready;
      stuck = λ h. r.stuck (omega (arith, h));
    }
      where
        data' : ready_data file_done (p ∷ rest) ≡ ready_data file_done rest
        data' = rw d (ap (λ b. if b then ready_data file_done rest else []) e)

        none_ready : idx ≡ idx + count_ready (p ∷ rest)
        none_ready = ground (arith, d)
    missing-Result false e d r = record {
      file = sym (append-nil s.file) ∙ ap (λ l. s.file ++ l) (sym data');
      index = λ h. h ∙ none_ready;
      stuck = λ h. refl;
    }
      where
        data' : ready_data file_done (p ∷ rest) ≡ []
        data' = rw d (ap (λ b. if b then ready_data file_done rest else []) e)

        none_ready : idx ≡ idx + count_ready (p ∷ rest)
        none_ready = ground (arith, d)

  assemble_from-Result :
      ((i : ℕ) → w.deleted i ≡ false)
      → (rest : List Piece) (idx : ℕ) (s : Assembly) → AllReady rest
      → AtEnd s
      → Result idx rest s (assemble_from w (in_order file_done) ps rest idx s)
  unfolding assemble_from
  assemble_from-Result alive [] idx s ready e = record {
    file = sym (append-nil s.file);
    index = λ h. h ∙ omega arith;
    stuck = λ _. refl;
  }
  assemble_from-Result alive (p ∷ rest) idx s ((fresh, held), ready) e =
      let next : Assembly → List Piece × Assembly =
        λ s'. assemble_from w (in_order file_done) ps rest (idx + 1) s' in
      elim (Bool-cases p.decoded) [
        | inl d ↦
            let (b, bytes, c) = held d in
            let a = load_piece-Appended idx p b bytes s e in
            subst (λ t. Result idx (p ∷ rest) s (after t p rest next s))
              (sym (
                visit_piece-decoded alive idx p s fresh d
                ∙ ap
                    (λ o. load_piece w (in_order file_done) ps idx (record p { cached = none }) o s)
                    c))
              (appended-Result idx p rest s next b bytes
                (load_piece w (in_order file_done) ps idx (record p { cached = none })
                  (some (b ∷ bytes)) s)
                d c a (assemble_from-Result alive rest (idx + 1) a.state ready a.at_end))
        | inr d ↦
            subst (λ t. Result idx (p ∷ rest) s (after t p rest next s))
              (sym (visit_piece-missing alive idx p s fresh d))
              (missing-Result idx p rest s next file_done refl d
                (assemble_from-Result alive rest (idx + 1) s ready e))
      ]

-- A file that is written in order, whose bytes end where the next piece goes, all of whose pieces from
-- the next one on are not on disk yet and in the cache when they are decoded: while the job is not
-- deleted and every call of the system writes at least one byte, `assemble` appends the data of the
-- decoded pieces in their order, up to the first missing piece or, when the file is done, of all of
-- them; and the next index moves to the first missing piece.
pub assemble-appends :
    (w : World) (file_done : Bool) (f : NzbFile)
    → ((i : ℕ) → 1 ≤ w.accepts i)
    → ((i : ℕ) → w.deleted i ≡ false)
    → contiguous_offset f.decodetable f.assembler_next_index ≡ length f.file
    → AllReady (drop f.assembler_next_index f.decodetable)
    → ((assemble w (in_order file_done) f).file
        ≡ f.file ++ ready_data file_done (drop f.assembler_next_index f.decodetable))
      × ((assemble w (in_order file_done) f).assembler_next_index
          ≡ f.assembler_next_index + count_ready (drop f.assembler_next_index f.decodetable))
unfolding assemble
assemble-appends w file_done f some_bytes alive at_end ready =
    let r =
      assemble_from-Result w some_bytes file_done f.decodetable alive
        (drop f.assembler_next_index f.decodetable) f.assembler_next_index
        (record {
          opened = false;
          offset = 0;
          direct_write = false;
          skipped = false;
          next_index = f.assembler_next_index;
          file = f.file;
          ready_bytes = f.ready_bytes;
          checksums = f.checksums;
        })
        ready (refl, refl, (λ shut. absurd (both shut refl), λ _. at_end)) in
    (r.file, r.index refl)
