-- ===== src/Kv/Slices.antt =====
-- The copying of `flip_step`: it writes in one half only, whatever the plan says.
use tower.Prelude.{
  ℕ, zero, suc, ◌+◌, ◌-◌, ◌*◌, ◌/◌, ◌≤◌, ◌<◌, inl, inr, Bool, true, false, Bool-cases, List, length,
  leb, ltb, ◌==◌, ◌||◌, not, min, u32_max, arith,
}
use tower.Kv.Eeprom.{Eeprom, read}
use tower.Kv.Layout.{record_size, u16_at}
use tower.Kv.Scan.{is_latest}
use tower.Kv.Flip.{FlipState, Slice, chunk_done, copy_record, copy_planned}
use tower.Kv.Steps.{Kept, Kept-Kept}
use tower.Kv.Copy.{length-read}

module _ {S : Type 0} (ee : Eeprom S) (dst half : ℕ) where
  -- Only the half at `dst` has been written.
  abbrev pub Within : S → S → Type 0
  Within s s' = Kept (ee.bytes s) (ee.bytes s') dst (dst + half)

  write-Within :
      (s : S) (off : ℕ) (d : List ℕ)
      → dst ≤ off
      → off + length d ≤ dst + half
      → Within s (ee.write s off d).0
  write-Within s off d lo hi i h = elim h [
    | inl b ↦ ee.below s off d i (omega arith)
    | inr a ↦ ee.above s off d i (omega arith)
  ]

  chunk_done-Within :
      (s : S) (st : FlipState) (chunk : ℕ) (k : FlipState → S → Slice S) (p : S × Bool)
      → Within s p.0
      → ((s' : S)
          → Within s s'
          → Within s (k (record st { rec_copied = st.rec_copied + chunk }) s').0)
      → Within s (chunk_done ee st chunk k p).0
  chunk_done-Within s st chunk k (s', false) w f = w
  chunk_done-Within s st chunk k (s', true) w f = f s' w

  copy_record-Within :
      (fuel src size budget : ℕ) (st : FlipState) (k : ℕ → FlipState → S → Slice S) (s s1 : S)
      → Within s s1
      → st.write_off + size ≤ half
      → ((budget' : ℕ) (st' : FlipState) (s' : S) → Within s s' → Within s (k budget' st' s').0)
      → Within s (copy_record ee fuel src dst size budget st k s1).0
  unfolding copy_record
  copy_record-Within zero src size budget st k s s1 w fits f = f budget st s1 w
  copy_record-Within (suc fuel) src size budget st k s s1 w fits f =
      let chunk = min (size - st.rec_copied) (min (budget * 4) u32_max) in
      let d = read (ee.bytes s1) (src + st.read_off + st.rec_copied) chunk in
      let ld = length-read (ee.bytes s1) (src + st.read_off + st.rec_copied) chunk in
      elim (Bool-cases (leb size st.rec_copied)) [
        | inl done ↦ rw (done) (f budget st s1 w)
        | inr going ↦ rw (going) (elim (Bool-cases (budget == 0)) [
          | inl spent ↦ rw (spent) w
          | inr left ↦
              let less : st.rec_copied < size = ground arith in
              rw (left) (
                chunk_done-Within s st chunk
                  (λ st' s'. copy_record ee fuel src dst size (budget - (chunk + 3) / 4) st' k s')
                  (ee.write s1 (dst + st.write_off + st.rec_copied) d)
                  (Kept-Kept w (
                    write-Within s1 (dst + st.write_off + st.rec_copied) d (omega arith)
                      (omega (arith, ld))))
                  (λ s' w'.
                    copy_record-Within fuel src size (budget - (chunk + 3) / 4)
                      (record st { rec_copied = st.rec_copied + chunk }) k s s' w' fits f))
        ])
      ]

  pub copy_planned-Within :
      (fuel src budget : ℕ) (st : FlipState) (s s1 : S)
      → Within s s1
      → Within s (copy_planned ee fuel src dst half budget st s1).0
  unfolding copy_planned
  copy_planned-Within zero src budget st s s1 w = w
  copy_planned-Within (suc fuel) src budget st s s1 w =
      let m = ee.bytes s1 in
      let size = record_size (u16_at m (src + st.read_off + 2)) in
      elim (Bool-cases (leb st.src_end st.read_off)) [
        | inl done ↦ rw (done) w
        | inr going ↦ rw (going) (elim (Bool-cases (u16_at m (src + st.read_off) == 0)) [
          | inl z ↦ rw (z) w
          | inr nz ↦
              rw (nz)
                (elim (Bool-cases (
                  not (is_latest (u16_at m (src + st.read_off)) st.read_off st.latest)
                  || u16_at m (src + st.read_off + 2) == 0)) [
                    | inl skip ↦ rw (skip) (
                        copy_planned-Within fuel src budget
                          (record st { read_off = st.read_off + size }) s s1 w)
                    | inr take ↦ rw (take) (elim (Bool-cases (ltb half (st.write_off + size))) [
                      | inl over ↦ rw (over) w
                      | inr room ↦
                          let fits : st.write_off + size ≤ half = ground arith in
                          rw (room) (
                            copy_record-Within size src size budget st
                              (λ budget' st'.
                                copy_planned ee fuel src dst half budget' (record st' {
                                  rec_copied = 0;
                                  read_off = st'.read_off + size;
                                  write_off = st'.write_off + size;
                                }))
                              s s1 w fits
                              (λ budget' st' s' w'. copy_planned-Within fuel src budget' _ s s' w'))
                    ])
                  ])
        ])
      ]
