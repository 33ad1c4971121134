-- ===== src/Net/Replay/Locals.antt =====
-- The two searches of `assign_lane` for a free local.
use tower.Prelude.{
  ℕ, zero, suc, ◌+◌, ◌<◌, ◌≡◌, refl, true, false, none, some, Option, List, [], ◌∷◌, get_elem?,
  length, inl, inr, Bool-cases, arith,
}
use tower.Net.Replay.{LaneRecord, is_free, find_virgin, find_free}

module _ (used : ℕ) where
  pub find_virgin-none :
      (l i : ℕ) (records : List (Option LaneRecord))
      → find_virgin used l records ≡ none
      → get_elem? records i ≡ some none
      → is_free used (l + i) ≡ false
  unfolding find_virgin
  find_virgin-none l i [] e h = absurd (cc)
  find_virgin-none l zero (none ∷ rest) e h = ground arith
  find_virgin-none l zero (some r ∷ rest) e h = absurd (cc)
  find_virgin-none l (suc i) (none ∷ rest) e h = ground (arith, find_virgin-none (l + 1) i rest)
  find_virgin-none l (suc i) (some r ∷ rest) e h = ground (arith, find_virgin-none (l + 1) i rest)

  pub find_virgin-some :
      (l k : ℕ) (records : List (Option LaneRecord))
      → find_virgin used l records ≡ some k
      → (i : ℕ) × (k ≡ l + i) × (get_elem? records i ≡ some none) × (is_free used k ≡ true)
  unfolding find_virgin
  find_virgin-some l k [] e = absurd (cc)
  find_virgin-some l k (none ∷ rest) e = elim (Bool-cases (is_free used l)) [
    | inl y ↦ (0, ground arith, refl, ground arith)
    | inr n ↦
        let (i, at, held, ok) = find_virgin-some (l + 1) k rest (ground arith) in
        (suc i, omega arith, held, ok)
  ]
  find_virgin-some l k (some r ∷ rest) e =
      let (i, at, held, ok) = find_virgin-some (l + 1) k rest e in (suc i, omega arith, held, ok)

  pub find_free-none :
      (l i : ℕ) (records : List (Option LaneRecord))
      → find_free used l records ≡ none
      → i < length records
      → is_free used (l + i) ≡ false
  unfolding find_free
  find_free-none l i [] e h = absurd (omega arith)
  find_free-none l zero (rec ∷ rest) e h = ground arith
  find_free-none l (suc i) (rec ∷ rest) e h = ground (arith, find_free-none (l + 1) i rest)

  pub find_free-some :
      (l k : ℕ) (records : List (Option LaneRecord))
      → find_free used l records ≡ some k
      → (i : ℕ) × (k ≡ l + i) × (i < length records) × (is_free used k ≡ true)
  unfolding find_free
  find_free-some l k [] e = absurd (cc)
  find_free-some l k (rec ∷ rest) e = elim (Bool-cases (is_free used l)) [
    | inl y ↦ (0, ground arith, omega arith, ground arith)
    | inr n ↦
        let (i, at, held, ok) = find_free-some (l + 1) k rest (ground arith) in
        (suc i, omega arith, omega arith, ok)
  ]
