-- ===== src/Kv/Plan.antt =====
-- An incremental flip at work: what the half that it fills holds, and what it has left to do.
use tower.Prelude.{
  ℕ, ◌+◌, ◌%◌, ◌≤◌, ◌≡◌, refl, sym, ◌∙◌, ◌⊎◌, inl, inr, true, none, List, [], ◌∷◌, if◌then◌else◌,
  arith,
}
use tower.Kv.Eeprom.{Mem}
use tower.Kv.Layout.{record_size}
use tower.Kv.Scan.{Latest, value_of}
use tower.Kv.Flip.{FlipState}
use tower.Kv.Log.{Rec, last_of, Same}
use tower.Kv.Blank.{Zeros}
use tower.Kv.Copy.{Copied}
use tower.Kv.Live.{is_live, copied_of}
use tower.Kv.Chain.{Chain, done, next, Chain-bounds, Chain-Same, last_of-Same, copied_of-Same}

module _ (h g src dst half : ℕ) where
  -- A record is copied in part only if it is to be copied.
  abbrev pub PartOf : Mem → Latest → ℕ → List Rec → Type 0
  PartOf m latest c [] = c ≡ 0
  PartOf m latest c (r ∷ rs) =
      (c ≡ 0) ⊎ ((is_live m src half latest r ≡ true) × (c ≤ record_size r.len))

  -- The room of the next copy, where a write that failed may have left anything.
  abbrev pub room_of : Mem → Latest → List Rec → ℕ
  room_of m latest [] = 0
  room_of m latest (r ∷ rs) = if is_live m src half latest r then record_size r.len else 0

  pub PartOf-none :
      (m : Mem) (latest : Latest) (c : ℕ) (rs : List Rec) → c ≡ 0 → PartOf m latest c rs
  PartOf-none m latest c [] z = z
  PartOf-none m latest c (r ∷ rs) z = inl z

  part_inside :
      (m : Mem) (latest : Latest) (r end c : ℕ) {rs : List Rec}
      → Chain m src half r rs end
      → PartOf m latest c rs
      → r + c ≤ end
  part_inside m latest r end c done p = omega arith
  part_inside m latest r end c (next tag len e ch) p =
      let (le, short) = Chain-bounds m src half ch in
      elim p [ inl z ↦ omega arith | inr (live, q) ↦ omega arith ]

  -- The records up to `src_end` are the planned ones; those from `read_off` on are left; the copies
  -- and a part of the next one stand at the front of the other half, with zeros behind them as far as
  -- the blanking has come; and once the records left are copied, every key reads as by the planned
  -- ones.
  pub record Work (m : Mem) (st : FlipState) (left : List Rec) : Type 0 where
    pub same_half : st.src_h ≡ h
    pub same_gen : st.src_gen ≡ g
    pub all : List Rec
    pub copies : List Rec
    pub listed : Chain m src half 0 all st.src_end
    pub to_do : Chain m src half st.read_off left st.src_end
    pub made : Chain m dst half 0 copies st.write_off
    pub part : Copied m m (src + st.read_off) (dst + st.write_off) st.rec_copied
    pub part_of : PartOf m st.latest st.rec_copied left
    pub zeroed : Zeros m (dst + (st.write_off + room_of m st.latest left)) (dst + st.blank_off)
    pub ahead : st.write_off + st.rec_copied ≤ st.blank_off
    pub within : st.blank_off ≤ half
    pub blank_words : st.blank_off % 4 ≡ 0
    pub part_words : st.rec_copied % 4 ≡ 0
    pub in_half : st.src_end ≤ half
    pub reads :
        (k : ℕ)
        → copied_of m src half st.latest k (value_of m dst (last_of k none copies)) left
          ≡ value_of m src (last_of k none all)

  -- Writes outside the planned records and the copies, which may blank more and copy more of a record.
  pub Work-change :
      (m m' : Mem) (st : FlipState) (b c : ℕ) {left : List Rec}
      → Work m st left
      → Same m m' src (src + st.src_end)
      → Same m m' dst (dst + (st.write_off + st.rec_copied))
      → Copied m' m' (src + st.read_off) (dst + st.write_off) c
      → PartOf m' st.latest c left
      → Zeros m' (dst + (st.write_off + room_of m' st.latest left)) (dst + b)
      → st.write_off + c ≤ b
      → b ≤ half
      → b % 4 ≡ 0
      → c % 4 ≡ 0
      → Work m' (record st { blank_off = b; rec_copied = c }) left
  Work-change m m' st b c {left} w s d part part_of z a le b4 c4 =
      let made_same : Same m m' (dst + 0) (dst + st.write_off) =
        λ i lo hi. d i (omega arith) (omega arith) in
      record {
        same_half = w.same_half;
        same_gen = w.same_gen;
        all = w.all;
        copies = w.copies;
        listed = Chain-Same m m' src half w.listed (λ i lo hi. s i (omega arith) hi);
        to_do = Chain-Same m m' src half w.to_do (λ i lo hi. s i (omega arith) hi);
        made = Chain-Same m m' dst half w.made made_same;
        part = part;
        part_of = part_of;
        zeroed = z;
        ahead = a;
        within = le;
        blank_words = b4;
        part_words = c4;
        in_half = w.in_half;
        reads = λ k.
            copied_of-Same m m' src half st.latest k (value_of m dst (last_of k none w.copies))
              (value_of m' dst (last_of k none w.copies)) w.to_do (λ i lo hi. s i (omega arith) hi)
              (last_of-Same m m' dst half k none w.made made_same refl)
            ∙ w.reads k
            ∙ sym
                (last_of-Same m m' src half k none w.listed (λ i lo hi. s i (omega arith) hi) refl);
      }

  -- Writes behind the planned records, or behind the copies, where they may blank more.
  pub Work-move :
      (m m' : Mem) (st : FlipState) (b : ℕ) {left : List Rec}
      → Work m st left
      → Same m m' src (src + st.src_end)
      → Same m m' dst (dst + (st.write_off + st.rec_copied))
      → Zeros m' (dst + (st.write_off + room_of m' st.latest left)) (dst + b)
      → st.write_off + st.rec_copied ≤ b
      → b ≤ half
      → b % 4 ≡ 0
      → Work m' (record st { blank_off = b }) left
  Work-move m m' st b {left} w s d z a le b4 =
      let inside = part_inside m st.latest st.read_off st.src_end st.rec_copied w.to_do w.part_of in
      Work-change m m' st b st.rec_copied w s d
        (λ i lt.
          d _ (omega arith) (omega arith) ∙ w.part i lt ∙ sym (s _ (omega arith) (omega arith)))
        w.part_of z a le b4 w.part_words
