-- ===== src/Assembler/Assemble.antt =====
-- sabnzbd/assembler.py: `Assembler.assemble`, which writes the decoded articles of a file to disk, with
-- `open` and `write`, and nzb/file.py: `contiguous_offset`. A piece is an article of the file's table;
-- one without a decoded size (queues of version 4.5.5 and before) is left out.
pub mod Appends
use sabnzbd.Prelude.{
  ℕ, zero, suc, ◌+◌, ◌-◌, ◌≡◌, Bool, true, false, not, ◌&&◌, ◌||◌, ◌==◌, if◌then◌else◌, Option,
  none, some, List, [], ◌∷◌, ◌++◌, length, take, drop, get_elem?,
}
use sabnzbd.Job.{is_nil}
use sabnzbd.Assembler.Writing.{Bytes, write_all}

-- `cached` is what the article cache holds.
pub record Piece : Type 0 where
  pub decoded : Bool
  pub on_disk : Bool
  pub tries : Bool
  pub can_direct_write : Bool
  pub decoded_size : ℕ
  pub data_begin : ℕ
  pub data_size : ℕ
  pub file_size : ℕ
  pub cached : Option Bytes

-- `AssemblerTask`
pub record Task : Type 0 where
  pub file_done : Bool
  pub allow_non_contiguous : Bool
  pub direct_write : Bool

-- Whether the job is deleted before the piece at an index, whether the downloader is paused, how much
-- the system accepts of a write, and the sparse file that sabctools makes of an empty one, or its
-- error.
pub record World : Type 0 where
  pub deleted : ℕ → Bool
  pub paused : Bool
  pub accepts : ℕ → ℕ
  pub sparse : ℕ → Option Bytes

-- The local variables of `assemble`, and of the file: its next index, its bytes on disk, the bytes
-- that are ready to be written, and the pieces that its checksum was updated with.
pub record Assembly : Type 0 where
  pub opened : Bool
  pub offset : ℕ
  pub direct_write : Bool
  pub skipped : Bool
  pub next_index : ℕ
  pub file : Bytes
  pub ready_bytes : ℕ
  pub checksums : List ℕ

abbrev pub sum_sizes : ℕ → List Piece → ℕ
sum_sizes offset [] = offset
sum_sizes offset (p ∷ ps) =
    let next : ℕ =
      if p.data_size == 0 then offset + p.decoded_size else p.data_begin + p.decoded_size in
    let rest = sum_sizes next ps in if p.on_disk then rest else offset

-- The end of the last piece before the index, when it is on disk and has its offsets.
abbrev pub end_of : Option Piece → ℕ → ℕ
end_of none offset = offset
end_of (some p) offset =
    if p.on_disk && not (p.data_size == 0) then p.data_begin + p.data_size else offset

unfoldable pub contiguous_offset : List Piece → ℕ → ℕ
contiguous_offset ps zero = 0
contiguous_offset ps (suc n) = end_of (get_elem? ps n) (sum_sizes 0 (take (suc n) ps))

-- `open`: direct writes need the size of the file, and a sparse file when it is still empty.
abbrev pub open_sparse : Option Bytes → Assembly → Assembly
open_sparse none s = record s { direct_write = false }
open_sparse (some file) s = record s { file = file }

unfoldable pub open_file : World → List Piece → ℕ → Bool → Assembly → Assembly
open_file w ps file_size direct_write s =
    let s : Assembly = record s {
      opened = true;
      offset = contiguous_offset ps s.next_index;
      direct_write = direct_write && not (file_size == 0);
    } in
    if direct_write && is_nil s.file then open_sparse (w.sparse file_size) s else s

-- `write`, for the piece at an index: the sequential index goes on when it was this one.
unfoldable pub write : World → ℕ → Bytes → ℕ → Assembly → Assembly
write w idx bytes pos s =
    let (written, file) = write_all w.accepts bytes pos s.file in
    record s {
      file = file;
      checksums = s.checksums ++ idx ∷ [];
      ready_bytes = s.ready_bytes - length bytes;
      next_index = if s.next_index == idx then s.next_index + 1 else s.next_index;
      offset = s.offset + written;
    }

-- What the loop does at a piece: it stops before it, it stops at it, or it goes on.
pub data Step : Type 0 where
  stop : Step
  stop_at : Piece → Assembly → Step
  go_on : Piece → Assembly → Step

-- A piece that is on disk already.
abbrev pub pass_written : ℕ → Piece → Assembly → Assembly
pass_written idx p s = record s {
  offset = if s.opened then s.offset + p.decoded_size else s.offset;
  next_index = if not s.skipped && s.next_index == idx then idx + 1 else s.next_index;
}

-- The file is open, and `fresh` when it was opened for this piece, whose data left the cache.
unfoldable pub write_piece : World → Task → ℕ → Bool → Piece → Bytes → Assembly → Step
unfolding write
write_piece w r idx fresh p bytes s =
    if fresh && not s.direct_write && r.allow_non_contiguous
    then stop_at p s
    else if s.direct_write && p.can_direct_write
    then go_on (record p { on_disk = true }) (write w idx bytes p.data_begin s)
    else if s.direct_write && s.skipped && not r.file_done
    then stop_at p s
    else go_on (record p { on_disk = true }) (write w idx bytes s.offset s)

unfoldable pub load_piece : World → Task → List Piece → ℕ → Piece → Option Bytes → Assembly → Step
unfolding open_file write_piece
load_piece w r ps idx p none s = go_on p s
load_piece w r ps idx p (some []) s = go_on p s
load_piece w r ps idx p (some (b ∷ bytes)) s =
    if s.opened
    then write_piece w r idx false p (b ∷ bytes) s
    else write_piece w r idx true p (b ∷ bytes)
        (open_file w ps p.file_size (r.direct_write && p.can_direct_write) s)

unfoldable pub visit_piece : World → Task → List Piece → ℕ → Piece → Assembly → Step
unfolding load_piece
visit_piece w r ps idx p s =
    if w.deleted idx
    then stop
    else if r.allow_non_contiguous && not p.tries && not w.paused
    then stop
    else if p.on_disk
    then go_on p (pass_written idx p s)
    else if not p.decoded
    then (if r.file_done
        then go_on p s
        else if r.allow_non_contiguous
        then go_on p (record s { skipped = true })
        else stop)
    else load_piece w r ps idx (record p { cached = none }) p.cached s

abbrev pub after :
    Step
    → Piece
    → List Piece
    → (Assembly → List Piece × Assembly)
    → Assembly
    → List Piece × Assembly
after stop p rest next s = (p ∷ rest, s)
after (stop_at p' s') p rest next s = (p' ∷ rest, s')
after (go_on p' s') p rest next s = (p' ∷ (next s').0, (next s').1)

-- The loop from an index on, over the pieces that are left of the whole table.
unfoldable pub assemble_from :
    World → Task → List Piece → List Piece → ℕ → Assembly → List Piece × Assembly
unfolding visit_piece
assemble_from w r ps [] idx s = ([], s)
assemble_from w r ps (p ∷ rest) idx s =
    after (visit_piece w r ps idx p s) p rest (λ s'. assemble_from w r ps rest (idx + 1) s') s

-- The file as `assemble` leaves it.
pub record NzbFile : Type 0 where
  pub decodetable : List Piece
  pub assembler_next_index : ℕ
  pub assembled : Bool
  pub file : Bytes
  pub ready_bytes : ℕ
  pub checksums : List ℕ

unfoldable pub assemble : World → Task → NzbFile → NzbFile
unfolding assemble_from
assemble w r f =
    let (rest, s) =
      assemble_from w r f.decodetable (drop f.assembler_next_index f.decodetable)
        f.assembler_next_index
        (record {
          opened = false;
          offset = 0;
          direct_write = r.direct_write;
          skipped = false;
          next_index = f.assembler_next_index;
          file = f.file;
          ready_bytes = f.ready_bytes;
          checksums = f.checksums;
        }) in
    record {
      decodetable = take f.assembler_next_index f.decodetable ++ rest;
      assembler_next_index = s.next_index;
      assembled = f.assembled || r.file_done;
      file = s.file;
      ready_bytes = s.ready_bytes;
      checksums = s.checksums;
    }
