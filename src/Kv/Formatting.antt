-- ===== src/Kv/Formatting.antt =====
-- `init` of a region that is not formatted.
use tower.Prelude.{
  ℕ, ◌+◌, ◌-◌, ◌*◌, ◌≤◌, ◌≡◌, refl, sym, ap, ap₂, subst, ◌∙◌, inl, inr, Bool-cases, Option-cases,
  Option, none, some, leb, ◌==◌, if◌then◌else◌, arith,
}
use tower.Kv.Eeprom.{Mem, Eeprom, put, return}
use tower.Kv.Layout.{
  kv_header, region, super_len, super_off, half_len, half_base, u32_at, active, newest, read_gen,
  gen_at, superblock,
}
use tower.Kv.Scan.{entry, get_bytes}
use tower.Kv.Write.{write_gen, clear_word, init_in, init, zero_word}
use tower.Kv.Log.{stop, last_of, entry-none}
use tower.Kv.Steps.{At, Kept, Leaves, Leaves-then_do, Leaves-weaken, put-Leaves, Wrote, Tore}
use tower.Kv.Words.{entry-At_zero}
use tower.Kv.Clear.{Cleared, Unclear, clear_word-Leaves}
use tower.Kv.View.{gen_at-Same, u32_at-Same, active-Same, get_bytes-Log, halves_below}
use tower.Kv.Superblock.{Expected-word, superblock-gen_at}
use tower.Kv.Commit.{Formatted}
use tower.Kv.Dead.{entry-half}
use tower.Kv.Wiping.{Empty}

newest-none : (a b : Option ℕ) → newest a b ≡ none → (a ≡ none) × (b ≡ none)
newest-none none none e = (refl, refl)
newest-none none (some b) e = absurd (ground (arith, e))
newest-none (some a) none e = absurd (ground (arith, e))
newest-none (some a) (some b) e = elim (Bool-cases (leb b a)) [
  | inl t ↦ absurd (ground (arith, e, t))
  | inr f ↦ absurd (ground (arith, e, f))
]

active-none : (m : Mem) (capacity : ℕ) → active m capacity ≡ none → read_gen m capacity 1 ≡ none
unfolding active
active-none m capacity a = (newest-none (read_gen m capacity 0) (read_gen m capacity 1) a).1

-- Nothing is read where no half is active.
pub active-Empty : (m : Mem) (capacity : ℕ) → active m capacity ≡ none → Empty m capacity
unfolding get_bytes
active-Empty m capacity a k = elim (Bool-cases (k == 0)) [
  | inl t ↦ rw (t) refl
  | inr f ↦ rw (f, a) refl
]

-- Nor where the active half begins with the end of its log.
pub half-Empty :
    (m : Mem) (capacity h g : ℕ)
    → active m capacity ≡ some (h, g)
    → entry m (half_base capacity h) (half_len capacity) 0 ≡ none
    → Empty m capacity
unfolding last_of
half-Empty m capacity h g a e k =
    get_bytes-Log m capacity h g a (stop e) k
    ∙ (elim (Bool-cases (k == 0)) [ inl t ↦ rw (t) refl | inr f ↦ rw (f) refl ])

module _ {S : Type 0} (ee : Eeprom S) (capacity : ℕ) where
  -- The first half is the end of a log, and the superblocks are as they were.
  abbrev Cleaned : S → Unit {0} → S → Type 0
  Cleaned s u s' =
      ((i : ℕ) → region capacity - 2 * super_len ≤ i → ee.bytes s' i ≡ ee.bytes s i)
      × (entry (ee.bytes s') (half_base capacity 0) (half_len capacity) 0 ≡ none)

  abbrev Unsaid : S → S → Type 0
  Unsaid s s' = (i : ℕ) → region capacity - 2 * super_len ≤ i → ee.bytes s' i ≡ ee.bytes s i

  first_word-Leaves :
      (s : S)
      → Leaves (Cleaned s) (Unsaid s) (
          (if leb kv_header (half_len capacity)
              then clear_word ee (half_base capacity 0)
              else return tt)
            s)
  first_word-Leaves s =
      let below = halves_below capacity 0 (omega arith) in
      elim (Bool-cases (leb kv_header (half_len capacity))) [
        | inl room ↦
            let wide : kv_header ≤ half_len capacity = ground arith in
            rw (room) (
              Leaves-weaken (Cleared ee s (half_base capacity 0))
                (Unclear ee s (half_base capacity 0)) (Cleaned s) (Unsaid s)
                (clear_word ee (half_base capacity 0) s)
                (clear_word-Leaves ee (half_base capacity 0) s)
                (λ u s' (k, z). (
                  (λ i lo. k i (inr (omega (arith, below)))),
                  entry-At_zero (ee.bytes s') (half_base capacity 0) (half_len capacity) 0
                      (subst (λ x. At (ee.bytes s') x zero_word) (omega arith) z),
                ))
                (λ s' (k, z) i lo. k i (inr (omega (arith, below)))))
        | inr no_room ↦ rw (no_room) (
          (λ i lo. refl),
          entry-none (ee.bytes s) (half_base capacity 0) (half_len capacity) 0 (ground arith),
        )
      ]

  abbrev pub Fresh : Unit {0} → S → Type 0
  Fresh u s' = Formatted (ee.bytes s') capacity 0 1 × Empty (ee.bytes s') capacity

  abbrev pub FreshCut : S → Type 0
  FreshCut s' = Empty (ee.bytes s') capacity

  first_super-Leaves :
      (s : S)
      → read_gen (ee.bytes s) capacity 1 ≡ none
      → u32_at (ee.bytes s) (super_off capacity 1 + 4) ≡ 0
      → entry (ee.bytes s) (half_base capacity 0) (half_len capacity) 0 ≡ none
      → Leaves Fresh FreshCut (write_gen ee capacity 0 1 s)
  unfolding write_gen read_gen active superblock
  first_super-Leaves s none1 w e =
      let off = super_off capacity 0 in
      let below = halves_below capacity 0 (omega arith) in
      let still : (s' : S)
          → Kept (ee.bytes s) (ee.bytes s') off (off + 12)
          → (gen_at (ee.bytes s') (super_off capacity 1) ≡ none)
            × (entry (ee.bytes s') (half_base capacity 0) (half_len capacity) 0 ≡ none) =
        λ s' k. (
          gen_at-Same (ee.bytes s) (ee.bytes s') (super_off capacity 1)
                (λ i lo hi. k i (inr (omega arith)))
              ∙ none1,
          entry-half (ee.bytes s) (ee.bytes s') (half_base capacity 0) (half_len capacity) 0
                (λ i lo hi. k i (inl (omega (arith, below))))
              ∙ e,
        ) in
      Leaves-weaken (Wrote ee s off (superblock 1)) (Tore ee s off (superblock 1)) Fresh FreshCut
        (put ee off (superblock 1) s) (put-Leaves ee off (superblock 1) s)
        (λ u s' (k, a).
          let (n1, e') = still s' k in
          let g0 = superblock-gen_at (ee.bytes s') off 1 (omega arith) a in
          let act : active (ee.bytes s') capacity ≡ some (0, 1) = ap₂ newest g0 n1 in
          let word =
            u32_at-Same (ee.bytes s) (ee.bytes s') (super_off capacity 1 + 4)
              (λ i lo hi. k i (inr (omega arith))) in
          (
            (
              act,
              omega arith,
              Expected-word (ee.bytes s') (super_off capacity 1) 1 (inl (omega (arith, word, w))),
            ),
            half-Empty (ee.bytes s') capacity 0 1 act e',
          ))
        (λ s' (k, t).
          let (n1, e') = still s' k in
          elim (Option-cases (gen_at (ee.bytes s') off)) [
            | inl n0 ↦ active-Empty (ee.bytes s') capacity (ap₂ newest n0 n1)
            | inr (g, g0) ↦ half-Empty (ee.bytes s') capacity 0 g (ap₂ newest g0 n1) e'
          ])

  -- `init` of a region in which no superblock is valid and the second one has no generation: if it
  -- succeeds, the first half is active with generation 1; if it fails, at any write, or succeeds, no
  -- key has a value.
  pub init-Leaves :
      (s : S)
      → active (ee.bytes s) capacity ≡ none
      → u32_at (ee.bytes s) (super_off capacity 1 + 4) ≡ 0
      → Leaves Fresh FreshCut (init ee capacity s)
  unfolding init
  init-Leaves s a w =
      let supers =
        λ (s1 : S) (q : Unsaid s s1). active-Same (ee.bytes s) (ee.bytes s1) capacity q ∙ a in
      subst (Leaves Fresh FreshCut) (sym (ap (λ x. init_in ee capacity x s) a)) (
        Leaves-then_do (Cleaned s) (Unsaid s) Fresh FreshCut (λ u. write_gen ee capacity 0 1)
          ((if leb kv_header (half_len capacity)
              then clear_word ee (half_base capacity 0)
              else return tt)
            s)
          (first_word-Leaves s)
          (λ u s1 (q, e).
            let word =
              u32_at-Same (ee.bytes s) (ee.bytes s1) (super_off capacity 1 + 4)
                (λ i lo hi. q i (omega arith)) in
            first_super-Leaves s1 (active-none (ee.bytes s1) capacity (supers s1 q)) (word ∙ w) e)
          (λ s1 q. active-Empty (ee.bytes s1) capacity (supers s1 q)))
