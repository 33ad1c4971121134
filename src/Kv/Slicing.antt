-- ===== src/Kv/Slicing.antt =====
-- The slices of a flip: what they leave of the plan.
use tower.Prelude.{
  ℕ, zero, suc, ◌+◌, ◌-◌, ◌*◌, ◌/◌, ◌%◌, ◌≤◌, ◌<◌, ◌≡◌, refl, ap, ◌∙◌, ◌⊎◌, inl, inr, Bool, true,
  false, Bool-cases, List, [], ◌∷◌, leb, ltb, ◌==◌, ◌&&◌, ◌||◌, not, min, u32_max, arith,
}
use tower.Kv.Eeprom.{Eeprom, ok, err, read}
use tower.Kv.Layout.{record_size}
use tower.Kv.Scan.{is_latest}
use tower.Kv.Flip.{FlipState, Slice, chunk_done, copy_record, copy_planned}
use tower.Kv.Log.{Rec, entry-fits, entry-tag}
use tower.Kv.Steps.{Kept, At}
use tower.Kv.Copy.{length-read, At-Copied}
use tower.Kv.Live.{is_live}
use tower.Kv.Chain.{Chain-nil, Chain-uncons, Chain-bounds}
use tower.Kv.Plan.{Work}
use tower.Kv.Advance.{Work-skip, Work-chunk, Work-torn, Work-record}

module _ {S : Type 0} (ee : Eeprom S) (h g src dst half : ℕ) where
  -- A slice that says that nothing remains has copied every planned record.
  abbrev pub Ended : Bool → FlipState → List Rec → Type 0
  Ended true st left = Unit
  Ended false st left = (left ≡ []) × (st.blank_off ≡ half)

  -- What a slice leaves; one that failed too.
  abbrev pub Sliced : Slice S → Type 0
  Sliced (s, st, ok more) =
      (left : List Rec) × Work h g src dst half (ee.bytes s) st left × Ended more st left
  Sliced (s, st, err e) = (left : List Rec) × Work h g src dst half (ee.bytes s) st left

  chunk_done-Sliced :
      (st : FlipState) (n : ℕ) (k : FlipState → S → Slice S) (p : S × Bool)
      → (p.1 ≡ true → Sliced (k (record st { rec_copied = st.rec_copied + n }) p.0))
      → ((left : List Rec) × Work h g src dst half (ee.bytes p.0) st left)
      → Sliced (chunk_done ee st n k p)
  chunk_done-Sliced st n k (s', false) f torn = torn
  chunk_done-Sliced st n k (s', true) f torn = f refl

  -- The parts of a plan that the copying of a record leaves.
  abbrev Fixed : FlipState → FlipState → Type 0
  Fixed st0 st =
      (st.latest ≡ st0.latest)
      × (st.src_end ≡ st0.src_end)
      × (st.read_off ≡ st0.read_off)
      × (st.blank_off ≡ st0.blank_off)

  module _ (apart : (src + half ≤ dst) ⊎ (dst + half ≤ src)) (small : half ≤ u32_max) where
    copy_record-Sliced :
        (fuel budget : ℕ) (st0 st : FlipState) (k : ℕ → FlipState → S → Slice S) (s : S) (r : Rec)
        (rest : List Rec)
        → Fixed st0 st
        → Work h g src dst half (ee.bytes s) st (r ∷ rest)
        → is_live (ee.bytes s) src half st.latest r ≡ true
        → st.rec_copied ≤ record_size r.len
        → st.write_off + record_size r.len ≤ st.blank_off
        → record_size r.len ≤ st.rec_copied + fuel
        → ((budget' : ℕ) (st' : FlipState) (s' : S)
            → Fixed st0 st'
            → Work h g src dst half (ee.bytes s') st' (r ∷ rest)
            → is_live (ee.bytes s') src half st'.latest r ≡ true
            → st'.rec_copied ≡ record_size r.len
            → Sliced (k budget' st' s'))
        → Sliced (copy_record ee fuel src dst (record_size r.len) budget st k s)
    unfolding copy_record
    copy_record-Sliced zero budget st0 st k s r rest fx w live le room f after =
        after budget st s fx w live (omega arith)
    copy_record-Sliced (suc fuel) budget st0 st k s r rest fx w live le room f after =
        let size = record_size r.len in
        let chunk = min (size - st.rec_copied) (min (budget * 4) u32_max) in
        let from = src + st.read_off + st.rec_copied in
        let to = dst + st.write_off + st.rec_copied in
        let d = read (ee.bytes s) from chunk in
        let ld = length-read (ee.bytes s) from chunk in
        elim (Bool-cases (leb size st.rec_copied)) [
          | inl whole ↦ rw (whole) (after budget st s fx w live (ground arith))
          | inr going ↦
              let less : st.rec_copied < size = ground arith in
              rw (going) (elim (Bool-cases (budget == 0)) [
                | inl spent ↦ rw (spent) (r ∷ rest, w, tt)
                | inr funds ↦
                    let has : 1 ≤ budget = ground arith in
                    let aligned : chunk % 4 ≡ 0 =
                      omega (arith, w.part_words, room, w.within, small) in
                    let kept : Kept (ee.bytes s) (ee.bytes (ee.write s to d).0) to (to + chunk) =
                      λ i out. elim out [
                        | inl below ↦ ee.below s to d i below
                        | inr above ↦ ee.above s to d i (omega (arith, ld))
                      ] in
                    rw (funds) (
                      chunk_done-Sliced st chunk
                        (λ st' s'.
                          copy_record ee fuel src dst size (budget - (chunk + 3) / 4) st' k s')
                        (ee.write s to d)
                        (λ good.
                          let new : At (ee.bytes (ee.write s to d).0) to d =
                            λ i lt. ee.written s to d i good lt in
                          let w' =
                            Work-chunk h g src dst half (ee.bytes s) (ee.bytes (ee.write s to d).0)
                              st chunk r rest apart w live (omega arith) room aligned kept
                              (At-Copied (ee.bytes s) (ee.bytes (ee.write s to d).0) from to chunk
                                new) in
                          copy_record-Sliced fuel (budget - (chunk + 3) / 4) st0
                            (record st { rec_copied = st.rec_copied + chunk }) k (ee.write s to d).0
                            r rest fx w' live (omega arith) room (omega arith) after)
                        (
                          r ∷ rest,
                          Work-torn h g src dst half (ee.bytes s) (ee.bytes (ee.write s to d).0) st
                              chunk r rest apart w live (omega arith) room kept,
                        ))
              ])
        ]

    pub copy_planned-Sliced :
        (fuel budget : ℕ) (st : FlipState) (s : S) (left : List Rec)
        → Work h g src dst half (ee.bytes s) st left
        → st.blank_off ≡ half
        → st.src_end < st.read_off + fuel
        → Sliced (copy_planned ee fuel src dst half budget st s)
    unfolding copy_planned
    copy_planned-Sliced zero budget st s [] w b f =
        absurd (omega (arith, Chain-nil (ee.bytes s) src half w.to_do))
    copy_planned-Sliced zero budget st s (r ∷ rest) w b f =
        absurd (omega (arith, (Chain-bounds (ee.bytes s) src half w.to_do).0))
    copy_planned-Sliced (suc fuel) budget st s [] w b f =
        let here = Chain-nil (ee.bytes s) src half w.to_do in
        let end : leb st.src_end st.read_off ≡ true = ground (arith, here) in
        rw (end) ([], w, (refl, b))
    copy_planned-Sliced (suc fuel) budget st s (r ∷ rest) w b f =
        let m = ee.bytes s in
        let (here, e, ch) = Chain-uncons m src half w.to_do in
        let (inside, short) = Chain-bounds m src half ch in
        let (fit, t1, v, le) = entry-fits m src half st.read_off r.tag r.len e in
        let te = entry-tag m src half st.read_off r.tag r.len e in
        let on : leb st.src_end st.read_off ≡ false = ground (arith, inside) in
        let used : (r.tag == 0) ≡ false = ground arith in
        rw (on, te, used, le)
          (elim (Bool-cases (not (is_latest r.tag st.read_off st.latest) || r.len == 0)) [
            | inl skip ↦
                let dead : is_live m src half st.latest r ≡ false =
                  ap (λ o. not (r.len == 0) && is_latest r.tag o st.latest) here
                  ∙ ground (arith, skip) in
                rw (skip) (
                  copy_planned-Sliced fuel budget
                    (record st { read_off = st.read_off + record_size r.len }) s rest
                    (Work-skip h g src dst half m st r rest w dead) b (omega arith))
            | inr take ↦
                let live : is_live m src half st.latest r ≡ true =
                  ap (λ o. not (r.len == 0) && is_latest r.tag o st.latest) here
                  ∙ ground (arith, take) in
                rw (take) (elim (Bool-cases (ltb half (st.write_off + record_size r.len))) [
                  | inl over ↦ rw (over) (r ∷ rest, w)
                  | inr room ↦
                      let fits : st.write_off + record_size r.len ≤ half = ground arith in
                      rw (room) (
                        copy_record-Sliced (record_size r.len) budget st st
                          (λ budget' st'. copy_planned ee fuel src dst half budget' (record st' {
                            rec_copied = 0;
                            read_off = st'.read_off + record_size r.len;
                            write_off = st'.write_off + record_size r.len;
                          }))
                          s r rest (refl, refl, refl, refl) w live
                          (elim w.part_of [ inl z ↦ omega arith | inr (l, q) ↦ q ])
                          (omega (arith, b, fits)) (omega arith)
                          (λ budget' st' s' (same_latest, same_end, same_read, same_blank) w' live'
                              full.
                            copy_planned-Sliced fuel budget' _ s' rest
                              (Work-record h g src dst half (ee.bytes s') st' r rest w' live' full)
                              (same_blank ∙ b) (omega (arith, same_end, same_read))))
                ])
          ])
