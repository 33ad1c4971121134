-- ===== src/Kv/SliceTests.antt =====
-- Examples: the slices of a flip, and the operations while it is pending.
use tower.Prelude.{◌≡◌, refl, ◌⊎◌, inl, false, some, List, [], ◌∷◌, arith}
use tower.Protocol.Crc.{crc32_update, crc_rounds}
use tower.Kv.Eeprom.{stale, err, read, ok}
use tower.Kv.Layout.{active, superblock, read_gen, gen_at, super_crc}
use tower.Kv.Scan.{entry, get_bytes, walk_from, walk_latest}
use tower.Kv.Flip.{commit_loop, flip_commit, FlipState, flip_step}
use tower.Kv.Commit.{Formatted}
use tower.Kv.Dead.{SameMap}
use tower.Kv.Compaction.{Flipped, FlipCut}
use tower.Kv.Commands.{Outcome}
use tower.Kv.Ending.{is_more, commit_loop-flip_commit}
use tower.Kv.Unseen.{flip_step-SameMap}
use tower.Kv.Steps.{Leaves}
use tower.Kv.Samples.{ram, formatted, formatted-active, garbling, formatted_ok, below_max}
use tower.Kv.Flip.{flip_start}
use tower.Kv.Log.{Rec}
use tower.Kv.Maintenance.{MaintState, maintain}
use tower.Kv.Progress.{AtWork, Worked, flip_start-AtWork, flip_step-Worked}
use tower.Kv.Finish.{flip_commit-Leaves}
use tower.Kv.Pending.{KeptBy, maintain-KeptBy}
use tower.Kv.Commands.{Outcome}
use tower.Kv.Session.{
  Request, write_key, drop_key, tend, pack, request_effect, session, Ready, session-Outcome,
}

abbrev plan : FlipState
plan = record {
  src_h = 0;
  src_gen = 1;
  src_end = 0;
  latest = [];
  blank_off = 4;
  read_off = 0;
  write_off = 0;
  rec_copied = 0;
}

flip_step-SameMap_example :
    Formatted (flip_step ram 64 plan 2 formatted).0 64 0 1
    × SameMap formatted (flip_step ram 64 plan 2 formatted).0 64
    × (((plan.src_h ≡ 0) × (plan.src_gen ≡ 1))
        ⊎ (flip_step ram 64 plan 2 formatted ≡ (formatted, plan, err stale)))
flip_step-SameMap_example = flip_step-SameMap ram 64 formatted 0 1 plan 2 formatted_ok refl

commit_loop-flip_commit_example :
    (is_more (flip_step ram 64 plan 4294967295 formatted).2 ≡ false)
    × (commit_loop ram 1 64 plan formatted ≡ flip_commit ram 64 plan formatted)
commit_loop-flip_commit_example =
    commit_loop-flip_commit ram 64 (omega arith) 0 plan formatted refl refl

abbrev started : FlipState
started = record {
  src_h = 0;
  src_gen = 1;
  src_end = 0;
  latest = [];
  blank_off = 0;
  read_off = 0;
  write_off = 0;
  rec_copied = 0;
}

starts : flip_start formatted 64 ≡ ok (some started)
unfolding flip_start active superblock read_gen gen_at super_crc crc32_update read crc_rounds
    walk_latest walk_from entry
starts = refl

started_work : (left : List Rec) × AtWork formatted 64 0 1 started left
started_work = flip_start-AtWork formatted 64 0 1 started formatted-active starts

flip_step-Worked_example :
    Worked garbling 64 0 1 (omega arith) (omega arith) (flip_step garbling 64 started 3 formatted)
flip_step-Worked_example =
    flip_step-Worked garbling 64 0 1 (omega arith) (omega arith) formatted started 3 started_work.0
      started_work.1

flip_commit-Leaves_example :
    Leaves
      (Flipped ram 64 0 1 below_max formatted)
      (FlipCut ram 64 0 1 below_max formatted)
      (flip_commit ram 64 started formatted)
flip_commit-Leaves_example =
    flip_commit-Leaves ram 64 0 1 below_max formatted started started_work.0 (omega arith)
      formatted_ok started_work.1

abbrev busy : MaintState
busy = record { blank_cursor = record { generation = 1; off = 8 }; pending = some started }

maintain-KeptBy_example : KeptBy ram 64 formatted 2 (maintain ram 64 busy 3 16 formatted)
maintain-KeptBy_example =
    maintain-KeptBy ram 64 0 1 below_max (omega arith) formatted busy 3 16 formatted_ok
      (inl started_work) refl

abbrev requests : List Request
requests = tend 3 16 ∷ write_key 5 (7 ∷ 8 ∷ []) ∷ tend 2 16 ∷ drop_key 5 ∷ pack ∷ []

session-Outcome_example :
    Ready garbling 64
      (session garbling 64 requests busy formatted).0
      11
      (session garbling 64 requests busy formatted).1
    × Outcome request_effect requests
        (session garbling 64 requests busy formatted).2
        (get_bytes formatted 64)
        (get_bytes (session garbling 64 requests busy formatted).0 64)
session-Outcome_example =
    session-Outcome garbling 64 (omega arith) requests formatted 1 busy
      (tt, ((omega arith, omega arith, omega arith), (tt, ((omega arith, omega arith), (tt, tt)))))
      (omega arith) ((0, 1, formatted_ok, omega arith, inl started_work), refl)
