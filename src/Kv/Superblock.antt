-- ===== src/Kv/Superblock.antt =====
-- The superblocks: which half is active, a superblock that was written, and one that was torn.
use tower.Prelude.{
  ℕ, zero, suc, ◌+◌, ◌-◌, ◌*◌, ◌/◌, ◌%◌, ◌≤◌, ◌<◌, ◌≡◌, refl, ap, subst, ◌∙◌, ◌⊎◌, inl, inr,
  Bool-cases, Option-cases, Option, none, some, List, [], ◌∷◌, ◌++◌, leb, ltb, ◌==◌, le_bytes,
  from_le, from_le-le_bytes, u32_max, arith,
}
use tower.Kv.Eeprom.{Mem, Torn, Cell, untouched, erased, garbled, read}
use tower.Kv.Layout.{
  super_crc, is_magic, checked_gen, u32_at, gen_at, read_gen, superblock, newest, active,
}
use tower.Kv.Steps.{At, At-append, read-At}
use tower.Kv.Words.{u32_at-At}
use tower.Kv.Log.{Same, read-Same}
use tower.Kv.View.{u32_at-Same}

pub gen_at-word : (m : Mem) (off g : ℕ) → gen_at m off ≡ some g → u32_at m (off + 4) ≡ g
unfolding gen_at
gen_at-word m off g e = ground arith

newest_left :
    (f : ℕ → Option ℕ) (h g a : ℕ)
    → f 0 ≡ some a
    → ◌≡◌ {A = Option (ℕ × ℕ)} (some (0, a)) (some (h, g))
    → f h ≡ some g
newest_left f h g a e0 p =
    let hh : 0 ≡ h = ground arith in
    let gg : a ≡ g = ground arith in subst (λ x. f x ≡ some g) hh (e0 ∙ ap some gg)

newest_right :
    (f : ℕ → Option ℕ) (h g a : ℕ)
    → f 1 ≡ some a
    → ◌≡◌ {A = Option (ℕ × ℕ)} (some (1, a)) (some (h, g))
    → f h ≡ some g
newest_right f h g a e0 p =
    let hh : 1 ≡ h = ground arith in
    let gg : a ≡ g = ground arith in subst (λ x. f x ≡ some g) hh (e0 ∙ ap some gg)

-- The dead half's superblock is missing or older.
abbrev pub Older : Option ℕ → ℕ → Type 0
Older none g = Unit
Older (some x) g = x < g

newest-read_gen : (f : ℕ → Option ℕ) (h g : ℕ) → newest (f 0) (f 1) ≡ some (h, g) → f h ≡ some g
newest-read_gen f h g e = elim (Option-cases (f 0)) [
  | inl n0 ↦ elim (Option-cases (f 1)) [
    | inl n1 ↦ absurd (ground (arith, rw (n0, n1) at e))
    | inr (b, e1) ↦ newest_right f h g b e1 (rw (n0, e1) at e)
  ]
  | inr (a, e0) ↦ elim (Option-cases (f 1)) [
    | inl n1 ↦ newest_left f h g a e0 (rw (e0, n1) at e)
    | inr (b, e1) ↦ elim (Bool-cases (leb b a)) [
      | inl le ↦ newest_left f h g a e0 (rw (e0, e1, le) at e)
      | inr gt ↦ newest_right f h g b e1 (rw (e0, e1, gt) at e)
    ]
  ]
]

newest-Older-left : (r : Option ℕ) (g : ℕ) → Older r g → newest (some g) r ≡ some (0, g)
newest-Older-left none g o = refl
newest-Older-left (some x) g o = ground arith

newest-Older-right : (r : Option ℕ) (g : ℕ) → Older r g → newest r (some g) ≡ some (1, g)
newest-Older-right none g o = refl
newest-Older-right (some x) g o = ground arith

pub active-read_gen :
    (m : Mem) (capacity h g : ℕ) → active m capacity ≡ some (h, g) → read_gen m capacity h ≡ some g
unfolding active
active-read_gen m capacity h g e = newest-read_gen (read_gen m capacity) h g e

pub active-Older :
    (m : Mem) (capacity h g : ℕ)
    → h ≤ 1
    → read_gen m capacity h ≡ some g
    → Older (read_gen m capacity (1 - h)) g
    → active m capacity ≡ some (h, g)
unfolding active
active-Older m capacity zero g b e o = rw (e) (newest-Older-left (read_gen m capacity 1) g o)
active-Older m capacity (suc zero) g b e o = rw (e) (newest-Older-right (read_gen m capacity 0) g o)
active-Older m capacity (suc (suc h)) g b e o = absurd (omega arith)

pub active_newer :
    (m : Mem) (capacity h g g' : ℕ)
    → h ≤ 1
    → read_gen m capacity h ≡ some g
    → read_gen m capacity (1 - h) ≡ some g'
    → g < g'
    → active m capacity ≡ some (1 - h, g')
unfolding active
active_newer m capacity zero g g' b e e' lt = rw (e, e') (ground arith)
active_newer m capacity (suc zero) g g' b e e' lt = rw (e, e') (ground arith)
active_newer m capacity (suc (suc h)) g g' b e e' lt = absurd (omega arith)

super_crc-le : (d : List ℕ) → super_crc d ≤ u32_max
unfolding super_crc
super_crc-le d = omega arith

pub superblock-gen_at :
    (m : Mem) (off g : ℕ) → g ≤ u32_max → At m off (superblock g) → gen_at m off ≡ some g
unfolding gen_at superblock
superblock-gen_at m off g le a =
    let head = (84 ∷ 75 ∷ 86 ∷ 50 ∷ []) ++ le_bytes g in
    let (at_head, at_crc) = At-append m off head (le_bytes (super_crc head)) a in
    let (at_magic, at_gen) = At-append m off (84 ∷ 75 ∷ 86 ∷ 50 ∷ []) (le_bytes g) at_head in
    let e0 : m off ≡ 84 = subst (λ z. m z ≡ 84) (omega arith) (at_magic 0 (omega arith)) in
    let e1 : m (off + 1) ≡ 75 = at_magic 1 (omega arith) in
    let e2 : m (off + 2) ≡ 86 = at_magic 2 (omega arith) in
    let e3 : m (off + 3) ≡ 50 = at_magic 3 (omega arith) in
    let all = read-At m off head at_head in
    let gen = u32_at-At m (off + 4) g at_gen le in
    let crc = u32_at-At m (off + 8) (super_crc head) at_crc (super_crc-le head) in
    rw (e0, e1, e2, e3, all, gen, crc) (ground arith)

u32_of :
    (m : Mem) (off a b c d : ℕ)
    → m off ≡ a
    → m (off + 1) ≡ b
    → m (off + 2) ≡ c
    → m (off + 3) ≡ d
    → u32_at m off ≡ from_le a b c d
u32_of m off a b c d e0 e1 e2 e3 = omega (arith, e0, e1, e2, e3)

read_eight :
    (m : Mem) (off : ℕ)
    → read m off 8 ≡ m off ∷ m (off + 1) ∷ m (off + 2) ∷ m (off + 3) ∷ read m (off + 4) 4
unfolding read
read_eight m off =
    let e2 : off + 1 + 1 ≡ off + 2 = omega arith in
    let e3 : off + 2 + 1 ≡ off + 3 = omega arith in
    let e4 : off + 3 + 1 ≡ off + 4 = omega arith in rw (e2, e3, e4) refl

pub gen_at-checked : (m : Mem) (off g : ℕ) → gen_at m off ≡ some g → checked_gen m off ≡ some g
unfolding gen_at
gen_at-checked m off g e = elim (Bool-cases (is_magic m off)) [
  | inl is ↦
      let e0 : m off ≡ 84 = ground (arith, is) in
      let e1 : m (off + 1) ≡ 75 = ground (arith, is) in
      let e2 : m (off + 2) ≡ 86 = ground (arith, is) in
      let e3 : m (off + 3) ≡ 50 = ground (arith, is) in rw (read_eight m off, e0, e1, e2, e3) at e
  | inr other ↦ absurd (ground (arith, rw (other) at e))
]

pub checked_gen-Same :
    (m m' : Mem) (off : ℕ) → Same m m' (off + 4) (off + 12) → checked_gen m' off ≡ checked_gen m off
checked_gen-Same m m' off h =
    let word = read-Same m m' (off + 4) 4 (λ i lo hi. h i lo (omega arith)) in
    let gen = u32_at-Same m m' (off + 4) (λ i lo hi. h i lo (omega arith)) in
    let crc = u32_at-Same m m' (off + 8) (λ i lo hi. h i (omega arith) (omega arith)) in
    rw (word, gen, crc) refl

-- No generation, an older one, or the next one of a commit that was cut.
abbrev pub Expected : Option ℕ → ℕ → Type 0
Expected none g = Unit
Expected (some x) g = (x < g) ⊎ (x ≡ g + 1)

pub Expected-word :
    (m : Mem) (off g : ℕ)
    → (u32_at m (off + 4) < g) ⊎ (u32_at m (off + 4) ≡ g + 1)
    → Expected (checked_gen m off) g
Expected-word m off g w =
    elim (Bool-cases (super_crc (84 ∷ 75 ∷ 86 ∷ 50 ∷ read m (off + 4) 4) == u32_at m (off + 8))) [
      | inl is ↦ rw (is) w
      | inr other ↦ rw (other) tt
    ]

module _ (m m' : Mem) (off g : ℕ) (le : g < u32_max) (t : Torn m m' off (superblock (g + 1))) where
  -- The words behind the one in work are as they were.
  behind : (i : ℕ) → off + 4 * t.words + 4 ≤ i → i < off + 12 → m' i ≡ m i
  unfolding superblock
  behind i lo hi =
      subst (λ z. m' z ≡ m z) (omega arith) (t.after (i - off) (omega arith) (omega arith))

  landed : 2 ≤ t.words → u32_at m' (off + 4) ≡ g + 1
  unfolding superblock
  landed two =
      u32_of m' (off + 4) ((g + 1) % 256) ((g + 1) / 256 % 256) ((g + 1) / 65536 % 256)
        ((g + 1) / 16777216 % 256) (t.before 4 (omega arith) (omega arith))
        (ap m' (omega arith) ∙ t.before 5 (omega arith) (omega arith))
        (ap m' (omega arith) ∙ t.before 6 (omega arith) (omega arith))
        (ap m' (omega arith) ∙ t.before 7 (omega arith) (omega arith))
      ∙ from_le-le_bytes (g + 1) (omega arith)

  in_work :
      (c : Cell)
      → t.cell ≡ c
      → t.words ≡ 1
      → 1 ≤ g
      → Expected (checked_gen m off) g
      → Expected (checked_gen m' off) g
  unfolding superblock
  in_work untouched c one g1 old =
      let same : Same m m' (off + 4) (off + 12) = λ i lo hi. elim (Bool-cases (ltb i (off + 8))) [
        | inl low ↦
            subst (λ z. m' z ≡ m z) (omega arith)
              (rw (c) at t.during (i - off) (omega arith) (ground (arith, low))
                (ground (arith, low)))
        | inr high ↦ behind i (ground (arith, high)) hi
      ] in
      rw (checked_gen-Same m m' off same) old
  in_work erased c one g1 old =
      let zeroed = λ (i : ℕ) (lo : 4 ≤ i) (hi : i < 8).
        rw (c) at t.during i (omega arith) (omega arith) (omega arith) in
      let nought : u32_at m' (off + 4) ≡ 0 =
        u32_of m' (off + 4) 0 0 0 0 (zeroed 4 (omega arith) (omega arith))
          (ap m' (omega arith) ∙ zeroed 5 (omega arith) (omega arith))
          (ap m' (omega arith) ∙ zeroed 6 (omega arith) (omega arith))
          (ap m' (omega arith) ∙ zeroed 7 (omega arith) (omega arith)) in
      Expected-word m' off g (inl (omega (arith, nought)))
  in_work garbled c one g1 old =
      let none_there = (t.caught c (omega arith)).no_generation off (omega arith) in
      rw (none_there) tt

  -- What a torn superblock says of a generation is as expected, too.
  pub Torn-superblock : 1 ≤ g → Expected (checked_gen m off) g → Expected (checked_gen m' off) g
  Torn-superblock g1 old = elim (Bool-cases (leb 2 t.words)) [
    | inl two ↦ Expected-word m' off g (inr (landed (ground (arith, two))))
    | inr less ↦ elim (Bool-cases (leb 1 t.words)) [
      | inl one ↦ in_work t.cell refl (ground (arith, less, one)) g1 old
      | inr first ↦
          rw (checked_gen-Same m m' off (λ i lo hi. behind i (ground (arith, first)) hi)) old
    ]
  ]
