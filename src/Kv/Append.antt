-- ===== src/Kv/Append.antt =====
-- `append_end`: what it leaves where it succeeds, and where a write of it fails.
use tower.Prelude.{
  ℕ, ◌+◌, ◌≤◌, ◌<◌, ◌≡◌, refl, ◌∙◌, ◌⊎◌, inl, inr, Bool-cases, none, some, List, length, leb,
  if◌then◌else◌, arith,
}
use tower.Kv.Eeprom.{Mem, Eeprom, read, put, return}
use tower.Kv.Layout.{kv_header, record_size, max_value}
use tower.Kv.Scan.{entry}
use tower.Kv.Write.{head_word, record_body, zero_word, append, clear_word, append_end}
use tower.Kv.Log.{entry-none, entry-Same}
use tower.Kv.Steps.{
  At, Kept, Leaves, Leaves-then_do, Leaves-weaken, Kept-Kept, Kept-widen, put-Leaves, Wrote, Tore,
}
use tower.Kv.Words.{At-Kept, entry-At_zero, Torn-word, length-record_body, entry-append}
use tower.Kv.Clear.{Cleared, Unclear, clear_word-Leaves}

module _ (m : Mem) (base area free key : ℕ) (value : List ℕ) where
  -- The end of the new record.
  abbrev pub next : ℕ
  next = free + record_size (length value)

  -- The log ends where it did.
  abbrev pub Old : Mem → Type 0
  Old m' = Kept m m' (base + free) (base + area) × (entry m' base area free ≡ none)

  -- The log has one record more, and ends behind it.
  abbrev pub New : Mem → Type 0
  New m' =
      Kept m m' (base + free) (base + area)
      × (entry m' base area free ≡ some (key, length value))
      × (read m' (base + free + kv_header) (length value) ≡ value)
      × (entry m' base area next ≡ none)

  -- After each step but the last.
  abbrev Ready : Mem → Type 0
  Ready m' =
      Kept m m' (base + free) (base + area)
      × At m' (base + free) zero_word
      × (entry m' base area next ≡ none)

  module _ {S : Type 0} (ee : Eeprom S) (k1 : 1 ≤ key) (k2 : key < 65536)
      (v : length value ≤ max_value) (fits : next ≤ area) where
    -- The word at the end of the log is cleared.
    cleared-Leaves :
        (s : S)
        → Kept m (ee.bytes s) (base + free) (base + area)
        → At (ee.bytes s) (base + free) zero_word
        → Leaves
            (λ u s'. Ready (ee.bytes s'))
            (λ s'. Old (ee.bytes s'))
            ((if leb (next + kv_header) area then clear_word ee (base + next) else return tt) s)
    cleared-Leaves s kept z = elim (Bool-cases (leb (next + kv_header) area)) [
      | inl room ↦
          let below : next + kv_header ≤ area = ground arith in
          rw (room) (
            Leaves-weaken (Cleared ee s (base + next)) (Unclear ee s (base + next))
              (λ u s'. Ready (ee.bytes s')) (λ s'. Old (ee.bytes s'))
              (clear_word ee (base + next) s) (clear_word-Leaves ee (base + next) s)
              (λ u s' (k, zn). (
                Kept-Kept kept
                    (Kept-widen (base + next) (base + next + 4) k (omega arith) (omega arith)),
                At-Kept (ee.bytes s) (ee.bytes s') (base + free) zero_word (base + next)
                    (base + next + 4) z k (inl (omega arith)),
                entry-At_zero (ee.bytes s') base area next zn,
              ))
              (λ s' (k, zn). (
                Kept-Kept kept
                    (Kept-widen (base + next) (base + next + 4) k (omega arith) (omega arith)),
                entry-At_zero (ee.bytes s') base area free (
                    At-Kept (ee.bytes s) (ee.bytes s') (base + free) zero_word (base + next)
                      (base + next + 4) z k (inl (omega arith))),
              )))
      | inr no_room ↦ rw (no_room) (kept, z, entry-none (ee.bytes s) base area next (ground arith))
    ]

    -- The bytes behind the header word change nothing that a walk meets.
    body-Leaves :
        (s : S)
        → Ready (ee.bytes s)
        → Leaves
            (λ u s'.
              Ready (ee.bytes s') × At (ee.bytes s') (base + free + 4) (record_body key value))
            (λ s'. Old (ee.bytes s'))
            (put ee (base + free + 4) (record_body key value) s)
    body-Leaves s (kept, z, nx) =
        let len = length-record_body key value in
        let hi = base + free + 4 + length (record_body key value) in
        let wide = λ (s' : S) (k : Kept (ee.bytes s) (ee.bytes s') (base + free + 4) hi).
          Kept-Kept kept (Kept-widen (base + free + 4) hi k (omega arith) (omega (arith, len))) in
        let zero' = λ (s' : S) (k : Kept (ee.bytes s) (ee.bytes s') (base + free + 4) hi).
          At-Kept (ee.bytes s) (ee.bytes s') (base + free) zero_word (base + free + 4) hi z k
            (inl (omega arith)) in
        Leaves-weaken (Wrote ee s (base + free + 4) (record_body key value))
          (Tore ee s (base + free + 4) (record_body key value))
          (λ u s'. Ready (ee.bytes s') × At (ee.bytes s') (base + free + 4) (record_body key value))
          (λ s'. Old (ee.bytes s')) (put ee (base + free + 4) (record_body key value) s)
          (put-Leaves ee (base + free + 4) (record_body key value) s)
          (λ u s' (k, a). (
            (
              wide s' k,
              zero' s' k,
              entry-Same (ee.bytes s) (ee.bytes s') base area next
                    (λ i lo h. k i (inr (omega (arith, len))))
                    (λ i lo h. k i (inr (omega (arith, len))))
                  ∙ nx,
            ),
            a,
          ))
          (λ s' (k, t). (wide s' k, entry-At_zero (ee.bytes s') base area free (zero' s' k)))

    -- The header word makes the record one of the log, or leaves the log as it was.
    head-Leaves :
        (s : S)
        → Ready (ee.bytes s)
        → At (ee.bytes s) (base + free + 4) (record_body key value)
        → Leaves
            (λ u s'. New (ee.bytes s'))
            (λ s'. Old (ee.bytes s') ⊎ New (ee.bytes s'))
            (put ee (base + free) (head_word key value) s)
    head-Leaves s (kept, z, nx) body =
        let wide = λ (s' : S) (k : Kept (ee.bytes s) (ee.bytes s') (base + free) (base + free + 4)).
          Kept-Kept kept
            (Kept-widen (base + free) (base + free + 4) k (omega arith) (omega arith)) in
        let new : (s' : S)
            → Kept (ee.bytes s) (ee.bytes s') (base + free) (base + free + 4)
            → At (ee.bytes s') (base + free) (head_word key value)
            → New (ee.bytes s') =
          λ s' k a.
            let (e, r) = entry-append (ee.bytes s') base area free key value k1 k2 v fits a (
              At-Kept (ee.bytes s) (ee.bytes s') (base + free + 4) (record_body key value)
                (base + free) (base + free + 4) body k (inr (omega arith))) in
            let nx' =
              entry-Same (ee.bytes s) (ee.bytes s') base area next
                (λ i lo h. k i (inr (omega arith))) (λ i lo h. k i (inr (omega arith)))
              ∙ nx in
            (wide s' k, e, r, nx') in
        Leaves-weaken (Wrote ee s (base + free) (head_word key value))
          (Tore ee s (base + free) (head_word key value)) (λ u s'. New (ee.bytes s'))
          (λ s'. Old (ee.bytes s') ⊎ New (ee.bytes s'))
          (put ee (base + free) (head_word key value) s)
          (put-Leaves ee (base + free) (head_word key value) s) (λ u s' (k, a). new s' k a)
          (λ s' (k, t).
            elim (Torn-word (ee.bytes s) (ee.bytes s') (base + free) (head_word key value) refl t) [
              | inl a ↦ inr (new s' k a)
              | inr (inl zw) ↦ inl (wide s' k, entry-At_zero (ee.bytes s') base area free zw)
              | inr (inr (inr g)) ↦ inl (wide s' k, g.no_record base area free refl)
              | inr (inr (inl same)) ↦
                  inl (
                    wide s' k,
                    entry-At_zero (ee.bytes s') base area free (λ i b. same i b ∙ z i b),
                  )
            ])

    -- An append at the end of a log, of a key from 1 to 65535 and at most 256 bytes, that fits in
    -- the half: if it succeeds, the walks meet the new record with its value and end behind it; if
    -- it fails, torn at any word of any of its writes, the log ends where it did or has the whole
    -- record. No byte before the end of the log or behind the half has changed.
    pub append_end-Leaves :
        (s : S)
        → ((i : ℕ) → ee.bytes s i ≡ m i)
        → entry m base area free ≡ none
        → Leaves
            (λ u s'. New (ee.bytes s'))
            (λ s'. Old (ee.bytes s') ⊎ New (ee.bytes s'))
            (append_end ee base area free key value s)
    unfolding append_end append
    append_end-Leaves s same ends =
        Leaves-then_do (Cleared ee s (base + free)) (Unclear ee s (base + free))
          (λ u s'. New (ee.bytes s')) (λ s'. Old (ee.bytes s') ⊎ New (ee.bytes s')) _
          (clear_word ee (base + free) s) (clear_word-Leaves ee (base + free) s)
          (λ u s1 (k, z).
            let kept =
              λ (i : ℕ) (h : (i < base + free) ⊎ (base + area ≤ i)). k i (ground arith) ∙ same i in
            Leaves-then_do (λ u s'. Ready (ee.bytes s')) (λ s'. Old (ee.bytes s'))
              (λ u s'. New (ee.bytes s')) (λ s'. Old (ee.bytes s') ⊎ New (ee.bytes s')) _
              ((if leb (next + kv_header) area then clear_word ee (base + next) else return tt) s1)
              (cleared-Leaves s1 kept z)
              (λ u2 s2 ready.
                Leaves-then_do
                  (λ u s'.
                    Ready (ee.bytes s')
                    × At (ee.bytes s') (base + free + 4) (record_body key value))
                  (λ s'. Old (ee.bytes s')) (λ u s'. New (ee.bytes s'))
                  (λ s'. Old (ee.bytes s') ⊎ New (ee.bytes s')) _
                  (put ee (base + free + 4) (record_body key value) s2) (body-Leaves s2 ready)
                  (λ u3 s3 (r, b). head-Leaves s3 r b) (λ s' o. inl o))
              (λ s' o. inl o))
          (λ s' (k, u). inl (
            (λ i h. k i (ground arith) ∙ same i),
            (elim u [
              | inl z ↦ entry-At_zero (ee.bytes s') base area free z
              | inr (inr g) ↦ g.no_record base area free refl
              | inr (inl unchanged) ↦
                  entry-Same m (ee.bytes s') base area free (λ i lo h. unchanged i ∙ same i)
                    (λ i lo h. unchanged i ∙ same i)
                  ∙ ends
            ]),
          ))
