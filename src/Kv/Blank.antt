-- ===== src/Kv/Blank.antt =====
-- `blank_step` and `blank`: the words that are zeroed, and those that are not touched.
use tower.Prelude.{
  ℕ, zero, suc, ◌+◌, ◌-◌, ◌*◌, ◌%◌, ◌≤◌, ◌<◌, ◌≡◌, refl, subst, ◌∙◌, inl, inr, Bool-cases, leb, ltb,
  ◌==◌, u32_max, arith,
}
use tower.Kv.Eeprom.{Mem, Eeprom, Result, nth, put, return}
use tower.Kv.Write.{is_zero_word, zero_word, blank_step_span, blank}
use tower.Kv.Steps.{
  At, Kept, Leaves, Leaves-then_do, Leaves-weaken, Kept-Kept, Kept-widen, put-Leaves, Wrote, Tore,
}
use tower.Kv.Words.{is_zero_word-At}

-- Zero bytes from `lo` up to `hi`.
abbrev pub Zeros : Mem → ℕ → ℕ → Type 0
Zeros m lo hi = (i : ℕ) → lo ≤ i → i < hi → m i ≡ 0

nth-zero_word : (i : ℕ) → nth zero_word i ≡ 0
nth-zero_word zero = refl
nth-zero_word (suc zero) = refl
nth-zero_word (suc (suc zero)) = refl
nth-zero_word (suc (suc (suc zero))) = refl
nth-zero_word (suc (suc (suc (suc i)))) = refl

-- A zero word, and zeros after it that writes behind the word leave.
Zeros-cons :
    (m m' : Mem) (at hi hi' : ℕ)
    → At m at zero_word
    → Kept m m' (at + 4) hi'
    → Zeros m' (at + 4) hi
    → Zeros m' at hi
Zeros-cons m m' at hi hi' z k zs i lo b = elim (Bool-cases (ltb i (at + 4))) [
  | inl here ↦
      let near : i - at < 4 = ground arith in
      k i (inl (ground arith))
      ∙ (subst (λ x. m x ≡ nth zero_word (i - at)) (omega arith) (z (i - at) near)
          ∙ nth-zero_word (i - at))
  | inr there ↦ zs i (ground arith) b
]

module _ {S : Type 0} (ee : Eeprom S) (base len : ℕ) where
  -- The words from `o` up to the progress are zero; the progress is the end if the budget is enough; no word costs
  -- more than one of it.
  abbrev pub Blanked : S → ℕ → ℕ → ℕ × ℕ → S → Type 0
  Blanked s o budget (o', left) s' =
      Kept (ee.bytes s) (ee.bytes s') (base + o) (base + len)
      × Zeros (ee.bytes s') (base + o) (base + o')
      × (len ≤ o + 4 * budget → o' ≡ len)
      × (4 * budget ≤ 4 * left + (len - o))

  abbrev pub Untouched : S → ℕ → S → Type 0
  Untouched s o s' = Kept (ee.bytes s) (ee.bytes s') (base + o) (base + len)

  -- After `blank`.
  abbrev pub Blank : S → Unit {0} → S → Type 0
  Blank s u s' =
      Kept (ee.bytes s) (ee.bytes s') base (base + len) × Zeros (ee.bytes s') base (base + len)

  abbrev pub Smudged : S → S → Type 0
  Smudged s s' = Kept (ee.bytes s) (ee.bytes s') base (base + len)

  module _ (aligned : len % 4 ≡ 0) where
    -- One word further.
    word_further :
        (s : S) (o budget budget' : ℕ) (p : S × Result (ℕ × ℕ))
        → o < len
        → o % 4 ≡ 0
        → At (ee.bytes s) (base + o) zero_word
        → budget ≤ budget' + 1
        → Leaves (Blanked s (o + 4) budget') (Untouched s (o + 4)) p
        → Leaves (Blanked s o budget) (Untouched s o) p
    word_further s o budget budget' p b o4 z n q =
        Leaves-weaken (Blanked s (o + 4) budget') (Untouched s (o + 4)) (Blanked s o budget)
          (Untouched s o) p q
          (λ (o', left) s' (k, zs, all, spends). (
            Kept-widen (base + (o + 4)) (base + len) k (omega arith) (omega arith),
            Zeros-cons (ee.bytes s) (ee.bytes s') (base + o) (base + o') (base + len) z
                (λ i h. k i (ground arith)) (λ i lo h. zs i (omega arith) h),
            (λ enough. all (omega arith)),
            omega arith,
          ))
          (λ s' k. Kept-widen (base + (o + 4)) (base + len) k (omega arith) (omega arith))

    after_write :
        (s s1 : S) (o budget : ℕ) (p : S × Result (ℕ × ℕ))
        → o < len
        → o % 4 ≡ 0
        → Kept (ee.bytes s) (ee.bytes s1) (base + o) (base + o + 4)
        → Leaves (Blanked s1 o budget) (Untouched s1 o) p
        → Leaves (Blanked s o budget) (Untouched s o) p
    after_write s s1 o budget p b o4 k q =
        let k' : Kept (ee.bytes s) (ee.bytes s1) (base + o) (base + len) =
          Kept-widen (base + o) (base + o + 4) k (omega arith) (omega arith) in
        Leaves-weaken (Blanked s1 o budget) (Untouched s1 o) (Blanked s o budget) (Untouched s o) p
          q (λ (o', left) s' (k2, zs, all, spends). (Kept-Kept k' k2, zs, all, spends))
          (λ s' k2. Kept-Kept k' k2)

    -- Blanking a span whose length is a multiple of four, from an offset that is one too, with a
    -- round for each word and one more: it writes in the rest of the span only; what it reports as
    -- done is zero; a budget of one write for each word left is enough to reach the
    -- end; and no more than that is spent.
    pub blank_step_span-Leaves :
        (fuel o budget : ℕ) (s : S)
        → len < o + 4 * fuel
        → o ≤ len
        → o % 4 ≡ 0
        → Leaves (Blanked s o budget) (Untouched s o) (blank_step_span ee fuel base len o budget s)
    unfolding blank_step_span
    blank_step_span-Leaves zero o budget s f b o4 = absurd (omega arith)
    blank_step_span-Leaves (suc fuel) o budget s f b o4 = elim (Bool-cases (leb len o)) [
      | inl done ↦
          let end : o ≡ len = ground arith in
          rw (done) ((λ i h. refl), (λ i lo h. absurd (omega arith)), (λ enough. refl), omega arith)
      | inr going ↦
          let more : o < len = ground arith in
          rw (going) (elim (Bool-cases (is_zero_word (ee.bytes s) (base + o))) [
            | inl z ↦ rw (z) (
                word_further s o budget budget _ more o4 (is_zero_word-At (ee.bytes s) (base + o) z)
                  (omega arith)
                  (blank_step_span-Leaves fuel (o + 4) budget s (omega arith) (omega arith)
                    (omega arith)))
            | inr n ↦ rw (n) (elim (Bool-cases (budget == 0)) [
              | inl e ↦
                  let spent : budget ≡ 0 = ground arith in
                  rw (e) (
                    (λ i h. refl),
                    (λ i lo h. absurd (omega arith)),
                    (λ enough. absurd (omega arith)),
                    omega arith,
                  )
              | inr e ↦ rw (e) (
                  Leaves-then_do (Wrote ee s (base + o) zero_word) (Tore ee s (base + o) zero_word)
                    (Blanked s o budget) (Untouched s o)
                    (λ u. blank_step_span ee fuel base len (o + 4) (budget - 1))
                    (put ee (base + o) zero_word s) (put-Leaves ee (base + o) zero_word s)
                    (λ u s1 (k, z). after_write s s1 o budget _ more o4 k (
                      word_further s1 o budget (budget - 1) _ more o4 z (omega arith) (
                        blank_step_span-Leaves fuel (o + 4) (budget - 1) s1 (omega arith)
                          (omega arith) (omega arith))))
                    (λ s' (k, t).
                      Kept-widen (base + o) (base + o + 4) k (omega arith) (omega arith)))
            ])
          ])
    ]

    -- The whole span.
    pub blank-Leaves :
        (s : S) → len ≤ 4 * u32_max → Leaves (Blank s) (Smudged s) (blank ee base len s)
    unfolding blank
    blank-Leaves s small =
        Leaves-then_do (Blanked s 0 u32_max) (Untouched s 0) (Blank s) (Smudged s) (λ x. return tt)
          (blank_step_span ee (suc len) base len 0 u32_max s)
          (blank_step_span-Leaves (suc len) 0 u32_max s (omega arith) (omega arith) refl)
          (λ (o', left) s' (k, zs, all, spends).
            let end = all (omega arith) in
            ((λ i h. k i (ground arith)), λ i lo h. zs i (omega arith) (omega (arith, end))))
          (λ s' k i h. k i (ground arith))
