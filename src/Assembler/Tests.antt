-- ===== src/Assembler/Tests.antt =====
-- sabnzbd/assembler.py: small files, and the theorems of the assembler at work on them.
use sabnzbd.Prelude.{
  ℕ, ◌+◌, ◌≡◌, refl, Bool, true, false, ◌==◌, if◌then◌else◌, some, none, [], ◌∷◌, ◌++◌, length,
  drop, pos, negsuc, ◌+ℤ◌, arith,
}
use sabnzbd.Assembler
use sabnzbd.Assembler.{update_ready_bytes}
use sabnzbd.Assembler.Ready.{IsReady, counted, to_nat, update_ready_bytes-IsReady}
use sabnzbd.Assembler.Writing.{Bytes, pwrite, write_all, write_all-pwrite}
use sabnzbd.Assembler.Assemble.{Piece, World, NzbFile, contiguous_offset, assemble}
use sabnzbd.Assembler.Assemble.Appends.{ready_data, count_ready, in_order, assemble-appends}

write_all-pwrite_example :
    write_all (λ _. 2) (1 ∷ 2 ∷ 3 ∷ []) 1 (9 ∷ []) ≡ (3, pwrite 1 (1 ∷ 2 ∷ 3 ∷ []) (9 ∷ []))
write_all-pwrite_example = write_all-pwrite (λ _. 2) (1 ∷ 2 ∷ 3 ∷ []) 1 (9 ∷ []) (λ _. omega arith)

abbrev piece : Bool → Bool → ℕ → Bytes → Piece
piece decoded on_disk begin bytes = record {
  decoded = decoded;
  on_disk = on_disk;
  tries = true;
  can_direct_write = false;
  decoded_size = length bytes;
  data_begin = begin;
  data_size = length bytes;
  file_size = 6;
  cached = if on_disk then none else some bytes;
}

abbrev world : World
world = record { deleted = λ _. false; paused = false; accepts = λ _. 1; sparse = λ _. none }

-- The third piece is missing.
abbrev some_file : NzbFile
some_file = record {
  decodetable =
      piece true true 0 (1 ∷ 2 ∷ [])
      ∷ piece true false 2 (3 ∷ [])
      ∷ piece false false 3 (4 ∷ [])
      ∷ piece true false 4 (5 ∷ 6 ∷ [])
      ∷ [];
  assembler_next_index = 1;
  assembled = false;
  file = 1 ∷ 2 ∷ [];
  ready_bytes = 3;
  checksums = 0 ∷ [];
}

assemble-appends_example :
    ((assemble world (in_order true) some_file).file
      ≡ some_file.file ++ ready_data true (drop 1 some_file.decodetable))
    × ((assemble world (in_order true) some_file).assembler_next_index
        ≡ 1 + count_ready (drop 1 some_file.decodetable))
unfolding contiguous_offset
assemble-appends_example =
    assemble-appends world true some_file (λ _. omega arith) (λ _. refl) refl
      ((refl, λ _. (3, [], refl)), ((refl, λ h. absurd (cc)), ((refl, λ _. (5, 6 ∷ [], refl)), tt)))

abbrev some_assembler : Assembler.Assembler
some_assembler = record {
  max_queue_size = 12;
  direct_write = true;
  cache_limit = 1000;
  assembler_trigger = 50;
  delay_trigger = 900;
  queue = [];
  queued_nzf = 1 ∷ [];
  queued_nzf_non_contiguous = [];
  queued_next_time = [];
  ready_bytes = (1, 30) ∷ (2, 40) ∷ [];
}

some_bytes-IsReady : IsReady some_assembler.ready_bytes
some_bytes-IsReady = record { dict = (refl, (refl, tt)); some_bytes = λ j n e. ground (arith, e) }

update_ready_bytes-IsReady_example :
    IsReady (update_ready_bytes 1 (negsuc 29) some_assembler).1.ready_bytes
    × ((j : ℕ)
        → counted (update_ready_bytes 1 (negsuc 29) some_assembler).1.ready_bytes j ≡ (
            if 1 == j
            then to_nat (pos (counted some_assembler.ready_bytes j) +ℤ negsuc 29)
            else counted some_assembler.ready_bytes j))
update_ready_bytes-IsReady_example =
    update_ready_bytes-IsReady 1 (negsuc 29) some_assembler some_bytes-IsReady
