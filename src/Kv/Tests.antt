-- ===== src/Kv/Tests.antt =====
-- Examples: the operations of a store, in a region whose writes succeed or fail.
use tower.Prelude.{◌+◌, ◌≡◌, refl, none, some, List, [], ◌∷◌, length, arith}
use tower.Protocol.Crc.{crc32_update, crc_rounds}
use tower.Kv.Eeprom.{Mem, read, put}
use tower.Kv.Layout.{active, superblock, read_gen, gen_at, super_crc, entry_crc}
use tower.Kv.Scan.{entry, scan_from, scan_half, get_bytes}
use tower.Kv.Write.{clear_word, append, append_end}
use tower.Kv.Flip.{flip, compact}
use tower.Kv.Store.{set_in, set_bytes_with, set_bytes, delete, wipe}
use tower.Kv.Compaction.{Flipped, FlipCut, flip-Leaves}
use tower.Kv.Setting.{Sound, Set, SetCut, set_bytes-Leaves}
use tower.Kv.Removing.{Compacted, delete-Leaves, compact-Leaves}
use tower.Kv.Wiping.{Wiped, WipeCut, wipe-Leaves}
use tower.Kv.Commands.{Command, set_to, remove, pack, effect, run, Outcome, run-Outcome}
use tower.Kv.FirstSet.{FirstCut, first_set-Leaves}
use tower.Kv.Steps.{Leaves}
use tower.Kv.Samples.{ram, formatted, garbling, formatted_ok, sound, below_max}

set_bytes-reads : get_bytes (set_bytes ram 64 5 (7 ∷ 8 ∷ []) formatted).0 64 5 ≡ some (7 ∷ 8 ∷ [])
unfolding get_bytes set_bytes set_bytes_with set_in active read_gen gen_at super_crc crc32_update
    read crc_rounds superblock scan_half scan_from entry entry_crc append_end append clear_word put
set_bytes-reads = refl

set_bytes-Leaves_example :
    Leaves
      (Set ram 64 5 (7 ∷ 8 ∷ []) formatted 2)
      (SetCut ram 64 5 (7 ∷ 8 ∷ []) formatted 2)
      (set_bytes ram 64 5 (7 ∷ 8 ∷ []) formatted)
set_bytes-Leaves_example =
    set_bytes-Leaves ram 64 5 (7 ∷ 8 ∷ []) (omega arith) (omega arith) (omega arith) formatted 1
      (omega arith) sound (omega arith)

delete-Leaves_example :
    Leaves
      (Set garbling 64 5 [] formatted 2)
      (SetCut garbling 64 5 [] formatted 2)
      (delete garbling 64 5 formatted)
delete-Leaves_example =
    delete-Leaves garbling 64 5 formatted 1 (omega arith) (omega arith) (omega arith) sound
      (omega arith)

compact-Leaves_example :
    Leaves
      (λ u s'. Compacted ram 64 formatted 2 s')
      (Compacted ram 64 formatted 2)
      (compact ram 64 formatted)
compact-Leaves_example = compact-Leaves ram 64 formatted 1 (omega arith) sound (omega arith)

wipe-Leaves_example :
    Leaves (Wiped garbling 64 2) (WipeCut garbling 64 formatted 2) (wipe garbling 64 formatted)
wipe-Leaves_example = wipe-Leaves garbling 64 formatted 1 (omega arith) sound (omega arith)

flip-Leaves_example :
    Leaves
      (Flipped ram 64 0 1 below_max formatted)
      (FlipCut ram 64 0 1 below_max formatted)
      (flip ram 64 0 1 formatted)
flip-Leaves_example = flip-Leaves ram 64 0 1 below_max formatted (omega arith) formatted_ok

abbrev three : List Command
three = set_to 5 (7 ∷ 8 ∷ []) ∷ remove 5 ∷ pack ∷ []

run-Outcome_example :
    Sound (run ram 64 three formatted).0 64 (1 + length three)
    × Outcome effect three
        (run ram 64 three formatted).1
        (get_bytes formatted 64)
        (get_bytes (run ram 64 three formatted).0 64)
run-Outcome_example =
    run-Outcome ram 64 (omega arith) three formatted 1
      ((omega arith, omega arith, omega arith), ((omega arith, omega arith), (tt, tt))) sound
      (omega arith)

abbrev erased : Mem
erased i = 0

erased-unformatted : active erased 64 ≡ none
unfolding active read_gen gen_at
erased-unformatted = refl

first_set-Leaves_example :
    Leaves
      (Set ram 64 5 (7 ∷ 8 ∷ []) erased 2)
      (FirstCut ram 64 5 (7 ∷ 8 ∷ []) erased)
      (set_bytes ram 64 5 (7 ∷ 8 ∷ []) erased)
first_set-Leaves_example =
    first_set-Leaves ram 64 5 (7 ∷ 8 ∷ []) (omega arith) (omega arith) (omega arith) (omega arith)
      erased erased-unformatted refl
