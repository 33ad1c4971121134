-- ===== src/Kv/Dead.antt =====
-- The two halves: what is written in the dead one, or in its superblock slot before the commit, is not
-- seen by a reader.
use tower.Prelude.{
  ℕ, zero, suc, ◌+◌, ◌-◌, ◌*◌, ◌≤◌, ◌<◌, ◌≡◌, refl, sym, ap, ◌∙◌, ◌⊎◌, inl, inr, Bool-cases, none,
  some, List, ltb, ◌==◌, if◌then◌else◌, arith,
}
use tower.Kv.Eeprom.{Mem}
use tower.Kv.Layout.{
  kv_header, record_size, u16_at, region, super_len, super_off, half_len, half_base, active,
}
use tower.Kv.Scan.{entry, value_of, get_bytes}
use tower.Kv.Log.{
  Rec, Log, last_of, Log-total, Log-bounds, Log-end, Same, entry-none, entry-Same, value-Same,
}
use tower.Kv.Steps.{Kept}
use tower.Kv.View.{Log-keep, get_bytes-Log, active-Same, active-le, halves_below}
use tower.Kv.Commit.{Formatted}
use tower.Kv.Superblock.{checked_gen-Same}

-- A reader of this memory finds what a reader of that one does.
abbrev pub SameMap : Mem → Mem → ℕ → Type 0
SameMap m m' capacity = (k : ℕ) → get_bytes m' capacity k ≡ get_bytes m capacity k

past_area :
    (m : Mem) (base area o : ℕ)
    → area < o + record_size (u16_at m (base + o + 2))
    → entry m base area o ≡ none
unfolding entry
past_area m base area o h = ground arith

-- A step of a walk reads no byte outside the half.
pub entry-half :
    (m m' : Mem) (base area o : ℕ)
    → Same m m' base (base + area)
    → entry m' base area o ≡ entry m base area o
entry-half m m' base area o same = elim (Bool-cases (ltb area (o + kv_header))) [
  | inl out ↦
      let past : area < o + kv_header = ground arith in
      entry-none m' base area o past ∙ sym (entry-none m base area o past)
  | inr inside ↦
      let room : o + kv_header ≤ area = ground arith in
      let e0 : m' (base + o + 2) ≡ m (base + o + 2) =
        same (base + o + 2) (omega arith) (omega arith) in
      let e1 : m' (base + o + 2 + 1) ≡ m (base + o + 2 + 1) =
        same (base + o + 2 + 1) (omega arith) (omega arith) in
      elim (Bool-cases (ltb area (o + record_size (u16_at m (base + o + 2))))) [
        | inl over ↦
            let past : area < o + record_size (u16_at m (base + o + 2)) = ground arith in
            past_area m' base area o (omega (arith, e0, e1)) ∙ sym (past_area m base area o past)
        | inr fits ↦
            let le : o + record_size (u16_at m (base + o + 2)) ≤ area = ground arith in
            entry-Same m m' base area o (λ i lo hi. same i (omega arith) (omega arith))
              (λ i lo hi. same i (omega arith) (omega arith))
      ]
]

-- A half whose bytes stay keeps its log and the values that are read by it.
pub half_view :
    (m m' : Mem) (base area : ℕ) {rs : List Rec} {end : ℕ}
    → Same m m' base (base + area)
    → Log m base area 0 rs end
    → Log m' base area 0 rs end
      × ((k : ℕ) → value_of m' base (last_of k none rs) ≡ value_of m base (last_of k none rs))
half_view m m' base area {rs} {end} same lg =
    let (long, short) = Log-bounds m base area lg in
    let le : end ≤ area = short (omega arith) in
    let in_log : Same m m' base (base + end) = λ i lo hi. same i lo (omega arith) in
    (
      Log-keep m m' base area lg in_log
          (entry-half m m' base area end same ∙ Log-end m base area lg),
      λ k. value-Same m m' base area k none lg (λ i lo hi. in_log i (omega arith) hi) refl,
    )

-- The active half alone is read.
pub SameMap-active :
    (m m' : Mem) (capacity h g : ℕ)
    → active m capacity ≡ some (h, g)
    → active m' capacity ≡ some (h, g)
    → Same m m' (half_base capacity h) (half_base capacity h + half_len capacity)
    → SameMap m m' capacity
SameMap-active m m' capacity h g a a' same k =
    let (rs, end, lg) = Log-total m (half_base capacity h) (half_len capacity) in
    let (lg', vals) = half_view m m' (half_base capacity h) (half_len capacity) same lg in
    get_bytes-Log m' capacity h g a' lg' k
    ∙ (ap (λ v. if k == 0 then none else v) (vals k) ∙ sym (get_bytes-Log m capacity h g a lg k))

pub halves_apart :
    (capacity h : ℕ)
    → h ≤ 1
    → (half_base capacity h + half_len capacity ≤ half_base capacity (1 - h))
      ⊎ (half_base capacity (1 - h) + half_len capacity ≤ half_base capacity h)
halves_apart capacity zero b = inl (omega arith)
halves_apart capacity (suc zero) b = inr (omega arith)
halves_apart capacity (suc (suc h)) b = absurd (omega arith)

-- Writes that leave the superblocks.
pub Formatted-kept :
    (m m' : Mem) (capacity h g : ℕ)
    → Formatted m capacity h g
    → ((i : ℕ) → region capacity - 2 * super_len ≤ i → m' i ≡ m i)
    → Formatted m' capacity h g
Formatted-kept m m' capacity h g (a, g1, w) supers =
    let b = active-le m capacity h g a in
    let word =
      checked_gen-Same m m' (super_off capacity (1 - h)) (λ i lo hi. supers i (omega arith)) in
    (active-Same m m' capacity supers ∙ a, g1, (rw (word) w))

-- In a formatted region, writes that stay within the half that is not active leave the region
-- formatted and every key as it reads.
pub dead_half :
    (m m' : Mem) (capacity h g : ℕ)
    → Formatted m capacity h g
    → Kept m m' (half_base capacity (1 - h)) (half_base capacity (1 - h) + half_len capacity)
    → Formatted m' capacity h g × SameMap m m' capacity
dead_half m m' capacity h g f k =
    let b = active-le m capacity h g f.0 in
    let apart = halves_apart capacity h b in
    let below = halves_below capacity (1 - h) (omega arith) in
    let f' = Formatted-kept m m' capacity h g f (λ i lo. k i (inr (omega (arith, below)))) in
    (f', SameMap-active m m' capacity h g f.0 f'.0 (λ i lo hi. k i (ground (arith, apart))))
