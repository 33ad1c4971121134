-- ===== src/Kv/Commit.antt =====
-- The superblock write: what is active after it, and after one that fails.
use tower.Prelude.{
  ℕ, ◌+◌, ◌-◌, ◌≤◌, ◌<◌, ◌≡◌, sym, ap, subst, ◌∙◌, ◌⊎◌, inl, inr, Option-cases, some, u32_max,
  arith,
}
use tower.Kv.Eeprom.{Mem, Torn}
use tower.Kv.Layout.{super_len, super_off, checked_gen, gen_at, read_gen, superblock, active}
use tower.Kv.Steps.{Kept}
use tower.Kv.View.{gen_at-Same, active-le}
use tower.Kv.Superblock.{
  gen_at-checked, Expected, active-read_gen, Older, active-Older, active_newer, Torn-superblock,
}

-- The active half; what the other half's superblock says of a generation, where its checksum is
-- right, is older, or it is the next one of a commit that was cut.
abbrev pub Formatted : Mem → ℕ → ℕ → ℕ → Type 0
Formatted m capacity h g =
    (active m capacity ≡ some (h, g))
    × (1 ≤ g)
    × Expected (checked_gen m (super_off capacity (1 - h))) g

module _ (m m' : Mem) (capacity h g : ℕ) (f : Formatted m capacity h g) (lt : g < u32_max) where
  -- Only the other half's superblock may have changed.
  abbrev Swapped : Type 0
  Swapped = Kept m m' (super_off capacity (1 - h)) (super_off capacity (1 - h) + super_len)

  Swapped-read_gen : Swapped → read_gen m' capacity h ≡ some g
  unfolding read_gen
  Swapped-read_gen k =
      let b = active-le m capacity h g f.0 in
      gen_at-Same m m' (super_off capacity h) (λ i lo hi. k i (ground (arith, b)))
      ∙ active-read_gen m capacity h g f.0

  pub Formatted-new :
      Swapped → read_gen m' capacity (1 - h) ≡ some (g + 1) → Formatted m' capacity (1 - h) (g + 1)
  unfolding read_gen
  Formatted-new k e =
      let b = active-le m capacity h g f.0 in
      let old = gen_at-checked m' (super_off capacity h) g (Swapped-read_gen k) in
      let back : 1 - (1 - h) ≡ h = omega arith in
      (
        active_newer m' capacity h g (g + 1) b (Swapped-read_gen k) e (omega arith),
        omega arith,
        subst (λ z. Expected (checked_gen m' (super_off capacity z)) (g + 1)) (sym back)
            (rw (old) (inl (omega arith))),
      )

  -- The other half's superblock is missing or older.
  Formatted-old :
      Swapped
      → Older (read_gen m' capacity (1 - h)) g
      → Expected (checked_gen m' (super_off capacity (1 - h))) g
      → Formatted m' capacity h g
  unfolding read_gen
  Formatted-old k older w =
      let b = active-le m capacity h g f.0 in
      (active-Older m' capacity h g b (Swapped-read_gen k) older, f.1, w)

  pub Formatted-Torn :
      Swapped
      → Torn m m' (super_off capacity (1 - h)) (superblock (g + 1))
      → Formatted m' capacity h g ⊎ Formatted m' capacity (1 - h) (g + 1)
  unfolding read_gen
  Formatted-Torn k t =
      let off = super_off capacity (1 - h) in
      let word = Torn-superblock m m' off g lt t f.1 f.2 in
      elim (Option-cases (gen_at m' off)) [
        | inl n ↦ inl (Formatted-old k (rw (n) tt) word)
        | inr (x, e) ↦
            let case : (x < g) ⊎ (x ≡ g + 1) = rw (gen_at-checked m' off x e) at word in
            elim case [
              | inl older ↦ inl (Formatted-old k (rw (e) older) word)
              | inr next ↦ inr (Formatted-new k (e ∙ ap some next))
            ]
      ]
