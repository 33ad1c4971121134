-- ===== src/Kv/Flip.antt =====
-- crates/kv/src/lib.rs: the flip, at once and in slices.
use tower.Prelude.{
  ℕ, zero, suc, ◌+◌, ◌-◌, ◌*◌, ◌/◌, Bool, true, false, ◌&&◌, ◌||◌, not, min, Option, none, some,
  ◌==◌, leb, ltb, if◌then◌else◌, u32_max,
}
use tower.Kv.Eeprom.{
  Mem, Eeprom, M, Result, ok, err, backend, full, stale, read, return, fail, reading, put, ◌>>◌,
}
use tower.Kv.Layout.{record_size, half_len, half_base, u16_at, active, next_gen}
use tower.Kv.Scan.{entry, Latest, walk_latest, is_latest}
use tower.Kv.Write.{write_gen, blank, blank_step_span}

-- The state of an incremental flip.
pub record FlipState : Type 0 where
  pub src_h : ℕ
  pub src_gen : ℕ
  pub src_end : ℕ
  pub latest : Latest
  pub blank_off : ℕ
  pub read_off : ℕ
  pub write_off : ℕ
  pub rec_copied : ℕ

-- The same source half and generation as the active ones.
abbrev pub is_active : Mem → ℕ → ℕ → ℕ → Bool
is_active m capacity h g = elim (active m capacity) [
  | none ↦ false
  | some (a, b) ↦ a == h && b == g
]

module _ {S : Type 0} (ee : Eeprom S) where
  -- Pass 2 of `flip`, from source offset `o` with `wr` bytes written. A record takes eight bytes at
  -- least: `src_free` rounds are enough.
  unfoldable pub copy_live : ℕ → ℕ → ℕ → ℕ → ℕ → Latest → ℕ → ℕ → M S (Unit {0})
  copy_live zero src dst half src_free latest wr o = return tt
  copy_live (suc fuel) src dst half src_free latest wr o = reading ee λ m.
      let len = u16_at m (src + o + 2) in
      let size = record_size len in
      let next = copy_live fuel src dst half src_free latest wr (o + size) in
      let copied =
        put ee (dst + wr) (read m (src + o) size)
        >> copy_live fuel src dst half src_free latest (wr + size) (o + size) in
      if leb src_free o
      then return tt
      else if u16_at m (src + o) == 0
      then return tt
      else if not (len == 0) && is_latest (u16_at m (src + o)) o latest
      then if ltb half (wr + size) then fail full else copied
      else next

  -- The flip by the outcome of its first pass.
  abbrev pub flip_by : ℕ → ℕ → ℕ → Result (ℕ × Latest) → M S (Unit {0})
  flip_by capacity src_h src_gen (err e) = fail e
  flip_by capacity src_h src_gen (ok (src_free, latest)) =
      blank ee (half_base capacity (1 - src_h)) (half_len capacity)
      >> (copy_live src_free (half_base capacity src_h) (half_base capacity (1 - src_h))
            (half_len capacity) src_free latest 0 0
          >> write_gen ee capacity (1 - src_h) (next_gen src_gen))

  unfoldable pub flip : ℕ → ℕ → ℕ → M S (Unit {0})
  flip capacity src_h src_gen = reading ee λ m.
      flip_by capacity src_h src_gen (walk_latest m (half_base capacity src_h) (half_len capacity))

  abbrev pub compact_in : ℕ → Option (ℕ × ℕ) → M S (Unit {0})
  compact_in capacity none = return tt
  compact_in capacity (some (h, g)) = flip capacity h g

  unfoldable pub compact : ℕ → M S (Unit {0})
  compact capacity = reading ee λ m. compact_in capacity (active m capacity)

unfoldable pub flip_start : Mem → ℕ → Result (Option FlipState)
flip_start m capacity = elim (active m capacity) [
  | none ↦ ok none
  | some (h, g) ↦ elim (walk_latest m (half_base capacity h) (half_len capacity)) [
    | err e ↦ err e
    | ok (src_end, latest) ↦ ok (
        some (record {
          src_h = h;
          src_gen = g;
          src_end = src_end;
          latest = latest;
          blank_off = 0;
          read_off = 0;
          write_off = 0;
          rec_copied = 0;
        }))
  ]
]

-- A slice gives back the store, the flip's state and its result.
abbrev pub Slice : Type 0 → Type 0
Slice S = S × FlipState × Result Bool

module _ {S : Type 0} (ee : Eeprom S) where
  abbrev pub chunk_done : FlipState → ℕ → (FlipState → S → Slice S) → S × Bool → Slice S
  chunk_done st chunk k (s, false) = (s, st, err backend)
  chunk_done st chunk k (s, true) = k (record st { rec_copied = st.rec_copied + chunk }) s

  -- The inner loop of phase B; `size` rounds are enough. A chunk is the rest of the record or as many
  -- words as the budget has.
  unfoldable pub copy_record :
      ℕ → ℕ → ℕ → ℕ → ℕ → FlipState → (ℕ → FlipState → S → Slice S) → S → Slice S
  copy_record zero src dst size budget st k s = k budget st s
  copy_record (suc fuel) src dst size budget st k s =
      let chunk = min (size - st.rec_copied) (min (budget * 4) u32_max) in
      let rest = λ (st' : FlipState) (s' : S).
        copy_record fuel src dst size (budget - (chunk + 3) / 4) st' k s' in
      if leb size st.rec_copied
      then k budget st s
      else if budget == 0
      then (s, st, ok true)
      else chunk_done st chunk rest (
          ee.write s (dst + st.write_off + st.rec_copied)
            (read (ee.bytes s) (src + st.read_off + st.rec_copied) chunk))

  -- Phase B; a record takes eight bytes at least: `src_end` rounds are enough.
  unfoldable pub copy_planned : ℕ → ℕ → ℕ → ℕ → ℕ → FlipState → S → Slice S
  copy_planned zero src dst half budget st s = (s, st, ok false)
  copy_planned (suc fuel) src dst half budget st s =
      let m = ee.bytes s in
      let tag = u16_at m (src + st.read_off) in
      let len = u16_at m (src + st.read_off + 2) in
      let size = record_size len in
      let skipped =
        copy_planned fuel src dst half budget (record st { read_off = st.read_off + size }) s in
      let copied =
        copy_record size src dst size budget st
          (λ budget' st'. copy_planned fuel src dst half budget' (record st' {
            rec_copied = 0;
            read_off = st'.read_off + size;
            write_off = st'.write_off + size;
          }))
          s in
      if leb st.src_end st.read_off
      then (s, st, ok false)
      else if tag == 0
      then (s, st, ok false)
      else if not (is_latest tag st.read_off st.latest) || len == 0
      then skipped
      else if ltb half (st.write_off + size)
      then (s, st, err full)
      else copied

  -- Phase A has come to `blank_off`, with this much budget left.
  abbrev pub blanked : ℕ → FlipState → S × Result (ℕ × ℕ) → Slice S
  blanked capacity st (s, err e) = (s, st, err e)
  blanked capacity st (s, ok (off, budget)) =
      let st' : FlipState = record st { blank_off = off } in
      let phase_b =
        copy_planned (suc st.src_end) (half_base capacity st.src_h)
          (half_base capacity (1 - st.src_h)) (half_len capacity) budget st' s in
      if ltb off (half_len capacity) then (s, st', ok true) else phase_b

  unfoldable pub flip_step : ℕ → FlipState → ℕ → S → Slice S
  flip_step capacity st budget_words s =
      let half = half_len capacity in
      let phase_a = blanked capacity st (
        blank_step_span ee (suc half) (half_base capacity (1 - st.src_h)) half st.blank_off
          budget_words s) in
      let phase_b =
        copy_planned (suc st.src_end) (half_base capacity st.src_h)
          (half_base capacity (1 - st.src_h)) half budget_words st s in
      if is_active (ee.bytes s) capacity st.src_h st.src_gen
      then if ltb st.blank_off half then phase_a else phase_b
      else (s, st, err stale)

  -- One record of the tail, if there is one, and then the rest of the tail.
  abbrev pub tail_by : ℕ → ℕ → ℕ → ℕ → ℕ → (ℕ → M S (Unit {0})) → Option (ℕ × ℕ) → M S (Unit {0})
  tail_by src dst half wr o rest none = return tt
  tail_by src dst half wr o rest (some (tag, len)) =
      let size = record_size len in
      if ltb half (wr + size)
      then fail full
      else reading ee λ m. put ee (dst + wr) (read m (src + o) size) >> rest size

  -- The tail of the source, copied record by record. `half` rounds are enough.
  unfoldable pub copy_tail : ℕ → ℕ → ℕ → ℕ → ℕ → ℕ → M S (Unit {0})
  copy_tail zero src dst half wr o = return tt
  copy_tail (suc fuel) src dst half wr o = reading ee λ m.
      tail_by src dst half wr o (λ size. copy_tail fuel src dst half (wr + size) (o + size))
        (entry m src half o)

  -- After the slices: a slice of unbounded budget that has work left is run again.
  abbrev pub committed :
      ℕ → (FlipState → S → S × Result (Unit {0})) → Slice S → S × Result (Unit {0})
  committed capacity again (s, st, err e) = (s, err e)
  committed capacity again (s, st, ok true) = again st s
  committed capacity again (s, st, ok false) =
      (copy_tail (half_len capacity) (half_base capacity st.src_h)
            (half_base capacity (1 - st.src_h)) (half_len capacity) st.write_off st.src_end
          >> write_gen ee capacity (1 - st.src_h) (next_gen st.src_gen))
        s

  -- The loop over the slices, on fuel.
  unfoldable pub commit_loop : ℕ → ℕ → FlipState → S → S × Result (Unit {0})
  commit_loop zero capacity st s = (s, err stale)
  commit_loop (suc fuel) capacity st s =
      committed capacity (commit_loop fuel capacity) (flip_step capacity st u32_max s)

  unfoldable pub flip_commit : ℕ → FlipState → M S (Unit {0})
  flip_commit capacity st = commit_loop (half_len capacity + 2) capacity st

  -- A stale plan falls back to the flip at once.
  abbrev pub or_compact : ℕ → S × Result (Unit {0}) → S × Result (Unit {0})
  or_compact capacity (s, ok u) = (s, ok u)
  or_compact capacity (s, err stale) = compact ee capacity s
  or_compact capacity (s, err e) = (s, err e)

  unfoldable pub compact_with : ℕ → Option FlipState → M S (Unit {0})
  compact_with capacity none = compact ee capacity
  compact_with capacity (some st) = λ s. or_compact capacity (flip_commit capacity st s)
