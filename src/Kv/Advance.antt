-- ===== src/Kv/Advance.antt =====
-- How a flip at work advances: chunks, records, and the records it passes over.
use tower.Prelude.{
  ℕ, ◌+◌, ◌-◌, ◌%◌, ◌≤◌, ◌<◌, ◌≡◌, refl, sym, ap, subst, ◌∙◌, ◌⊎◌, inl, inr, true, false,
  Bool-cases, ltb, ltb→lt, none, some, List, [], ◌∷◌, ◌++◌, ◌==◌, if◌then◌else◌, arith,
}
use tower.Kv.Eeprom.{Mem}
use tower.Kv.Layout.{record_size}
use tower.Kv.Scan.{value_of}
use tower.Kv.Flip.{FlipState}
use tower.Kv.Log.{Rec, last_of, Same}
use tower.Kv.Steps.{Kept}
use tower.Kv.View.{last_of-snoc}
use tower.Kv.Copy.{Copied, byte-Copied, entry-Copied, value_of-Copied}
use tower.Kv.Live.{is_live, copied_of}
use tower.Kv.Chain.{Chain-bounds, Chain-uncons, Chain-snoc}
use tower.Kv.Plan.{Work, Work-change, Work-move, PartOf-none, room_of}

module _ (h g src dst half : ℕ) where
  -- A chunk of the next record has been copied.
  pub Work-chunk :
      (m m' : Mem) (st : FlipState) (n : ℕ) (r : Rec) (rest : List Rec)
      → (src + half ≤ dst) ⊎ (dst + half ≤ src)
      → Work h g src dst half m st (r ∷ rest)
      → is_live m src half st.latest r ≡ true
      → st.rec_copied + n ≤ record_size r.len
      → st.write_off + record_size r.len ≤ st.blank_off
      → n % 4 ≡ 0
      → Kept m m' (dst + st.write_off + st.rec_copied) (dst + st.write_off + st.rec_copied + n)
      → Copied m m' (src + st.read_off + st.rec_copied) (dst + st.write_off + st.rec_copied) n
      → Work h g src dst half m' (record st { rec_copied = st.rec_copied + n }) (r ∷ rest)
  Work-chunk m m' st n r rest apart w live le room n4 k new =
      let (here, e, ch) = Chain-uncons m src half w.to_do in
      let (inside, short) = Chain-bounds m src half ch in
      let in_half = w.in_half in
      let within = w.within in
      let taken : room_of h g src dst half m st.latest (r ∷ rest) ≡ record_size r.len =
        rw (live) refl in
      let s : Same m m' src (src + st.src_end) = λ i lo hi. k i (ground (arith, apart)) in
      Work-change h g src dst half m m' st st.blank_off (st.rec_copied + n) w s
        (λ i lo hi. k i (inl (omega arith)))
        (λ i lt. elim (Bool-cases (ltb i st.rec_copied)) [
          | inl old ↦
              let before : i < st.rec_copied = ltb→lt _ _ old in
              k _ (inl (omega arith)) ∙ w.part i before ∙ sym (s _ (omega arith) (omega arith))
          | inr fresh ↦
              let after : st.rec_copied ≤ i = ground (arith, fresh) in
              byte-Copied m m' (src + st.read_off + st.rec_copied)
                (dst + st.write_off + st.rec_copied) n new (i - st.rec_copied) _ _ (omega arith)
                (omega arith) (omega arith)
              ∙ sym (s _ (omega arith) (omega arith))
        ])
        (inr (live, le)) (λ i lo hi. k i (inr (omega (arith, taken, lo))) ∙ w.zeroed i lo hi)
        (omega arith) w.within w.blank_words (omega (arith, w.part_words, n4))

  -- A chunk of the next record could not be written.
  pub Work-torn :
      (m m' : Mem) (st : FlipState) (n : ℕ) (r : Rec) (rest : List Rec)
      → (src + half ≤ dst) ⊎ (dst + half ≤ src)
      → Work h g src dst half m st (r ∷ rest)
      → is_live m src half st.latest r ≡ true
      → st.rec_copied + n ≤ record_size r.len
      → st.write_off + record_size r.len ≤ st.blank_off
      → Kept m m' (dst + st.write_off + st.rec_copied) (dst + st.write_off + st.rec_copied + n)
      → Work h g src dst half m' st (r ∷ rest)
  Work-torn m m' st n r rest apart w live le room k =
      let in_half = w.in_half in
      let within = w.within in
      let taken : room_of h g src dst half m st.latest (r ∷ rest) ≡ record_size r.len =
        rw (live) refl in
      Work-move h g src dst half m m' st st.blank_off w (λ i lo hi. k i (ground (arith, apart)))
        (λ i lo hi. k i (inl (omega arith)))
        (λ i lo hi. k i (inr (omega (arith, taken, lo))) ∙ w.zeroed i lo hi) w.ahead w.within
        w.blank_words

  -- The slice passes over a record that is not to be copied.
  pub Work-skip :
      (m : Mem) (st : FlipState) (r : Rec) (rest : List Rec)
      → Work h g src dst half m st (r ∷ rest)
      → is_live m src half st.latest r ≡ false
      → Work h g src dst half m (record st { read_off = st.read_off + record_size r.len }) rest
  unfolding copied_of
  Work-skip m st r rest w dead =
      let (here, e, ch) = Chain-uncons m src half w.to_do in
      let unused : room_of h g src dst half m st.latest (r ∷ rest) ≡ 0 = rw (dead) refl in
      let none_yet : st.rec_copied ≡ 0 = elim w.part_of [
        | inl z ↦ z
        | inr (live, q) ↦ absurd (ground (arith, live, dead))
      ] in
      record {
        same_half = w.same_half;
        same_gen = w.same_gen;
        all = w.all;
        copies = w.copies;
        listed = w.listed;
        to_do = ch;
        made = w.made;
        part = λ i lt. absurd (omega (arith, none_yet));
        part_of = PartOf-none h g src dst half m st.latest st.rec_copied rest none_yet;
        zeroed = λ i lo hi. w.zeroed i (omega (arith, unused, lo)) hi;
        ahead = w.ahead;
        within = w.within;
        blank_words = w.blank_words;
        part_words = w.part_words;
        in_half = w.in_half;
        reads = λ k. rw (dead) at (w.reads k);
      }

  snoc_value :
      (m : Mem) (k : ℕ) (ds : List Rec) (wr tag len o : ℕ)
      → Copied m m (src + o) (dst + wr) (record_size len)
      → value_of m dst (last_of k none (ds ++ (record { off = wr; tag = tag; len = len } ∷ [])))
        ≡ (if tag == k then value_of m src (some (o, len)) else value_of m dst (last_of k none ds))
  snoc_value m k ds wr tag len o c =
      ap (value_of m dst) (last_of-snoc k none ds (record { off = wr; tag = tag; len = len }))
      ∙ (elim (Bool-cases (tag == k)) [
        | inl t ↦ rw (t) (value_of-Copied m m src dst o wr len c)
        | inr f ↦ rw (f) refl
      ])

  -- The slice has copied a record to its end.
  pub Work-record :
      (m : Mem) (st : FlipState) (r : Rec) (rest : List Rec)
      → Work h g src dst half m st (r ∷ rest)
      → is_live m src half st.latest r ≡ true
      → st.rec_copied ≡ record_size r.len
      → Work h g src dst half m
          (record st {
            rec_copied = 0;
            read_off = st.read_off + record_size r.len;
            write_off = st.write_off + record_size r.len;
          })
          rest
  unfolding copied_of
  Work-record m st r rest w live full =
      let (here, e, ch) = Chain-uncons m src half w.to_do in
      let copied : Copied m m (src + st.read_off) (dst + st.write_off) (record_size r.len) =
        λ i lt. w.part i (omega (arith, full)) in
      let taken : room_of h g src dst half m st.latest (r ∷ rest) ≡ record_size r.len =
        rw (live) refl in
      let fits : st.write_off + record_size r.len ≤ half = omega (arith, full, w.ahead, w.within) in
      let new = entry-Copied m m src dst half st.read_off st.write_off r.tag r.len e copied fits in
      let from =
        subst (λ o. Copied m m (src + o) (dst + st.write_off) (record_size r.len)) (sym here)
          copied in
      record {
        same_half = w.same_half;
        same_gen = w.same_gen;
        all = w.all;
        copies = w.copies ++ (record { off = st.write_off; tag = r.tag; len = r.len } ∷ []);
        listed = w.listed;
        to_do = ch;
        made = Chain-snoc m dst half r.tag r.len w.made new;
        part = λ i lt. absurd (omega arith);
        part_of = PartOf-none h g src dst half m st.latest 0 rest refl;
        zeroed = λ i lo hi. w.zeroed i (omega (arith, taken, lo)) hi;
        ahead = omega (arith, full, w.ahead);
        within = w.within;
        blank_words = w.blank_words;
        part_words = refl;
        in_half = w.in_half;
        reads = λ k.
            ap (λ v. copied_of m src half st.latest k v rest)
              (snoc_value m k w.copies st.write_off r.tag r.len r.off from)
            ∙ (rw (live) at (w.reads k));
      }
