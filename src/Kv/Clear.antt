-- ===== src/Kv/Clear.antt =====
-- `clear_word`: the zero word at the end of a log.
use tower.Prelude.{
  ℕ, ◌+◌, ◌-◌, ◌≤◌, ◌<◌, ◌≡◌, refl, subst, ◌⊎◌, inl, inr, Bool-cases, leb, ltb, ◌&&◌, arith,
}
use tower.Kv.Eeprom.{Mem, Eeprom, Caught, put}
use tower.Kv.Write.{is_zero_word, zero_word, clear_word}
use tower.Kv.Steps.{At, Kept, Leaves, Leaves-weaken, put-Leaves, Wrote, Tore}
use tower.Kv.Words.{is_zero_word-At, Torn-word}

same_everywhere :
    (m m' : Mem) (at : ℕ)
    → Kept m m' at (at + 4)
    → ((i : ℕ) → i < 4 → m' (at + i) ≡ m (at + i))
    → (i : ℕ) → m' i ≡ m i
same_everywhere m m' at k same i = elim (Bool-cases (leb at i && ltb i (at + 4))) [
  | inl within ↦
      let lo : at ≤ i = ground arith in
      let hi : i - at < 4 = ground arith in subst (λ z. m' z ≡ m z) (omega arith) (same (i - at) hi)
  | inr without ↦ k i (ground arith)
]

module _ {S : Type 0} (ee : Eeprom S) where
  abbrev pub Cleared : S → ℕ → Unit {0} → S → Type 0
  Cleared s at u s' = Kept (ee.bytes s) (ee.bytes s') at (at + 4) × At (ee.bytes s') at zero_word

  abbrev pub Unclear : S → ℕ → S → Type 0
  Unclear s at s' =
      Kept (ee.bytes s) (ee.bytes s') at (at + 4)
      × (At (ee.bytes s') at zero_word
          ⊎ (((i : ℕ) → ee.bytes s' i ≡ ee.bytes s i) ⊎ Caught (ee.bytes s') at))

  -- A cleared word is zero; a failure leaves it zero, or a word that is caught, or changes nothing.
  pub clear_word-Leaves :
      (at : ℕ) (s : S) → Leaves (Cleared s at) (Unclear s at) (clear_word ee at s)
  unfolding clear_word
  clear_word-Leaves at s = elim (Bool-cases (is_zero_word (ee.bytes s) at)) [
    | inl z ↦ rw (z) ((λ i h. refl), is_zero_word-At (ee.bytes s) at z)
    | inr n ↦ rw (n) (
        Leaves-weaken (Wrote ee s at zero_word) (Tore ee s at zero_word) (Cleared s at)
          (Unclear s at) (put ee at zero_word s) (put-Leaves ee at zero_word s) (λ u s' q. q)
          (λ s' (k, t). (
            k,
            (elim (Torn-word (ee.bytes s) (ee.bytes s') at zero_word refl t) [
              | inl z ↦ inl z
              | inr (inl z) ↦ inl z
              | inr (inr (inl same)) ↦
                  inr (inl (same_everywhere (ee.bytes s) (ee.bytes s') at k same))
              | inr (inr (inr g)) ↦ inr (inr g)
            ]),
          )))
  ]
