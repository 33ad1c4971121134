-- ===== src/Kv/Table.antt =====
-- The table of the latest records that a flip and the planning of one walk for.
use tower.Prelude.{
  ℕ, zero, suc, ◌≤◌, ◌≡◌, refl, subst, ◌∙◌, inl, inr, Bool, false, Bool-cases, Option-cases, Option,
  none, some, List, [], ◌∷◌, length, ◌==◌, ◌||◌, if◌then◌else◌, arith,
}
use tower.Kv.Eeprom.{Mem, Result, ok}
use tower.Kv.Scan.{Latest, has_tag, with_off, note, walk_from, walk_latest, is_latest}
use tower.Kv.Log.{Rec, Log, stop, more, last_of, Log-bounds}

-- No tag stands twice in the table.
abbrev Distinct : Latest → Type 0
Distinct [] = Unit
Distinct ((t, off) ∷ l) = (has_tag t l ≡ false) × Distinct l

is_latest-has_tag : (t o : ℕ) (l : Latest) → has_tag t l ≡ false → is_latest t o l ≡ false
unfolding is_latest
is_latest-has_tag t o [] h = refl
is_latest-has_tag t o ((u, off) ∷ l) h = ground (arith, is_latest-has_tag t o l (ground arith))

has_tag-with_off :
    (t tag o : ℕ) (l : Latest) → has_tag t (with_off tag o l) ≡ (has_tag t l || tag == t)
has_tag-with_off t tag o [] = ground arith
has_tag-with_off t tag o ((u, off) ∷ l) = ground (arith, has_tag-with_off t tag o l)

with_off-Distinct : (tag o : ℕ) (l : Latest) → Distinct l → Distinct (with_off tag o l)
with_off-Distinct tag o [] d = (refl, tt)
with_off-Distinct tag o ((u, off) ∷ l) (h, d) = elim (Bool-cases (u == tag)) [
  | inl e ↦ rw (e) (h, d)
  | inr e ↦ rw (e) ((has_tag-with_off u tag o l ∙ (ground arith)), with_off-Distinct tag o l d)
]

is_latest-with_off :
    (k off tag o : ℕ) (l : Latest)
    → Distinct l
    → is_latest k off (with_off tag o l) ≡ (if tag == k then o == off else is_latest k off l)
unfolding is_latest
is_latest-with_off k off tag o [] d = ground arith
is_latest-with_off k off tag o ((u, w) ∷ l) (h, d) =
    ground (arith, is_latest-with_off k off tag o l d, is_latest-has_tag u off l h)

abbrev pub is_at : ℕ → Option (ℕ × ℕ) → Bool
is_at off none = false
is_at off (some (o, len)) = o == off

-- The table of a list of records: it holds the place of the last record of each tag.
abbrev pub TableOf : Latest → (ℕ → Option (ℕ × ℕ)) → Type 0
TableOf l last = (k off : ℕ) → is_latest k off l ≡ is_at off (last k)

TableOf-note :
    (tag o len : ℕ) (l l' : Latest) (last : ℕ → Option (ℕ × ℕ))
    → Distinct l
    → TableOf l last
    → note tag o l ≡ some l'
    → Distinct l' × TableOf l' (λ k. if tag == k then some (o, len) else last k)
unfolding note
TableOf-note tag o len l l' last d tab e =
    let same : with_off tag o l ≡ l' = ground arith in
    subst (λ z. Distinct z × TableOf z (λ k. if tag == k then some (o, len) else last k)) same
      (
        with_off-Distinct tag o l d,
        λ k off. is_latest-with_off k off tag o l d ∙ ground (arith, tab k off),
      )

TableOf-done :
    (l l' : Latest) (last : ℕ → Option (ℕ × ℕ)) (o end' : ℕ)
    → TableOf l last
    → ◌≡◌ {A = Result (ℕ × Latest)} (ok (o, l)) (ok (end', l'))
    → (end' ≡ o) × TableOf l' last
TableOf-done l l' last o end' tab w =
    let same : l ≡ l' = ground arith in
    let here : end' ≡ o = ground arith in (here, subst (λ z. TableOf z last) same tab)

module _ (m : Mem) (base area : ℕ) where
  walk_from-TableOf :
      (fuel : ℕ) (l : Latest) (last : ℕ → Option (ℕ × ℕ)) (end' : ℕ) (l' : Latest) {o end : ℕ}
      {rs : List Rec}
      → Log m base area o rs end
      → length rs ≤ fuel
      → Distinct l
      → TableOf l last
      → walk_from fuel m base area l o ≡ ok (end', l')
      → (end' ≡ end) × TableOf l' (λ k. last_of k (last k) rs)
  unfolding walk_from last_of
  walk_from-TableOf zero l last end' l' (stop {o} e) h d tab w = TableOf-done l l' last o end' tab w
  walk_from-TableOf zero l last end' l' (more {o} tag len e lg) h d tab w = absurd (omega arith)
  walk_from-TableOf (suc fuel) l last end' l' (stop {o} e) h d tab w =
      TableOf-done l l' last o end' tab (rw (e, walk_from) at w)
  walk_from-TableOf (suc fuel) l last end' l' (more {o} tag len e lg) h d tab w =
      elim (Option-cases (note tag o l)) [
        | inl n ↦ absurd (ground (arith, w, e, n))
        | inr (l1, n) ↦
            let (d1, tab1) = TableOf-note tag o len l l1 last d tab n in
            walk_from-TableOf fuel l1 (λ k. if tag == k then some (o, len) else last k) end' l' lg
              (omega arith) d1 tab1 (rw (e, walk_from, n) at w)
      ]

  -- A walk for the table that does not find too many keys ends where the log ends, and its table
  -- holds exactly the offset of the last record of each tag.
  pub walk_latest-TableOf :
      {rs : List Rec} {end : ℕ} (end' : ℕ) (l' : Latest)
      → Log m base area 0 rs end
      → walk_latest m base area ≡ ok (end', l')
      → (end' ≡ end) × TableOf l' (λ k. last_of k none rs)
  unfolding walk_latest is_latest
  walk_latest-TableOf end' l' lg w =
      let (long, short) = Log-bounds m base area lg in
      walk_from-TableOf area [] (λ k. none) end' l' lg (omega (arith, short (omega arith))) tt
        (λ k off. refl) w
