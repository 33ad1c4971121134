-- ===== src/Net/Replay/Assign.antt =====
-- `assign_lane` as a whole: a returning peer gets its lane back, and no record is lost too soon.
use tower.Prelude.{
  ℕ, suc, ◌≤◌, ◌<◌, ◌≡◌, ◌≢◌, refl, ap, subst, ◌∙◌, ◌⊎◌, true, false, Option, none, some, List, [],
  ◌∷◌, get_elem?, length, inl, inr, Option-cases, arith,
}
use tower.Net.Replay.{
  LaneRecord, LaneBinding, Own, is_free, scan_own, find_virgin, find_free, fresh_at, or_else,
  assign_lane,
}
use tower.Net.Replay.Lanes.{IsOwn, Covers, Restores, Reuses, scan_own-Covers, scan_own-Restores}
use tower.Net.Replay.Locals.{find_virgin-none, find_virgin-some, find_free-none, find_free-some}

get_elem?-lt {ℓ} :
    {A : Type ℓ} (xs : List A) (i : ℕ) {a : A} → get_elem? xs i ≡ some a → i < length xs
get_elem?-lt [] i e = absurd (cc)
get_elem?-lt (x ∷ xs) ℕ.zero e = omega arith
get_elem?-lt (x ∷ xs) (suc i) e = omega (arith, get_elem?-lt xs i e)

module _ (addr kcv : ℕ) (records : List (Option LaneRecord)) (used : ℕ) where
  abbrev own : Own
  own = scan_own addr kcv used (record { restore = none; stale_own = none }) 0 records

  own_sound :
      Restores addr kcv used records own.restore × Reuses addr kcv used records own.stale_own
  own_sound =
      scan_own-Restores addr kcv used records (record { restore = none; stale_own = none }) 0
        records (λ i. ap (get_elem? records) (omega arith)) tt tt

  -- What a returning peer is owed, of the binding it gets.
  abbrev pub IsRestored : ℕ → Option LaneBinding → Type 0
  IsRestored seen none = ⊥
  IsRestored seen (some b) =
      (r : LaneRecord) × (get_elem? records b.index ≡ some (some r))
      × IsOwn addr kcv used b.index r
      × (r.seen ≡ b.seen)
      × (b.is_fresh ≡ false)
      × (seen ≤ b.seen)

  or_else-IsRestored :
      (o other : Option LaneBinding) (seen : ℕ)
      → Restores addr kcv used records o
      → Covers addr kcv used o seen
      → IsRestored seen (or_else o other)
  or_else-IsRestored none other seen h c = absurd c
  or_else-IsRestored (some b) other seen (r, held, is, same, old) c = (r, held, is, same, old, c)

  -- A peer whose record under its present key stands at a local that no live peer holds is bound to
  -- such a record of its own, not afresh, at a last-seen that is not below that of any.
  pub assign_lane-IsRestored :
      (l : ℕ) (r : LaneRecord)
      → get_elem? records l ≡ some (some r)
      → IsOwn addr kcv used l r
      → IsRestored r.seen (assign_lane addr kcv records used)
  unfolding assign_lane
  assign_lane-IsRestored l r e h = or_else-IsRestored own.restore _ r.seen own_sound.0 (
      scan_own-Covers addr kcv used (record { restore = none; stale_own = none }) 0 l l records r e
        (omega arith) h)

  -- Where a binding comes from.
  abbrev Source : LaneBinding → Type 0
  Source b =
      IsRestored b.seen (some b)
      ⊎ ((b.seen ≡ 0) × (b.is_fresh ≡ true) × Reuses addr kcv used records (some b.index))
      ⊎ ((b.seen ≡ 0) × (b.is_fresh ≡ true) × (get_elem? records b.index ≡ some none))
      ⊎ ((b.seen ≡ 0) × (b.is_fresh ≡ true) × (find_virgin used 0 records ≡ none))

  abbrev IsProper : Option LaneBinding → Type 0
  IsProper none = find_free used 0 records ≡ none
  IsProper (some b) = (b.index < length records) × (is_free used b.index ≡ true) × Source b

  choose-IsProper :
      (restore : Option LaneBinding) (stale virgin free : Option ℕ)
      → find_virgin used 0 records ≡ virgin
      → find_free used 0 records ≡ free
      → Restores addr kcv used records restore
      → Reuses addr kcv used records stale
      → IsProper
          (or_else restore (or_else (fresh_at stale) (or_else (fresh_at virgin) (fresh_at free))))
  choose-IsProper (some b) stale virgin free v f (r, held, is, same, old) s =
      (get_elem?-lt records b.index held, is.2, inl (r, held, is, same, old, omega arith))
  choose-IsProper none (some k) virgin free v f h (r, held, is, ok) =
      (get_elem?-lt records k held, ok, inr (inl (refl, refl, (r, held, is, ok))))
  choose-IsProper none none (some k) free v f h s =
      let (i, at, held, ok) = find_virgin-some used 0 k records v in
      let here : get_elem? records k ≡ some none = ap (get_elem? records) (omega arith) ∙ held in
      (get_elem?-lt records k here, ok, inr (inr (inl (refl, refl, here))))
  choose-IsProper none none none (some k) v f h s =
      let (i, at, low, ok) = find_free-some used 0 k records f in
      (omega arith, ok, inr (inr (inr (refl, refl, v))))
  choose-IsProper none none none none v f h s = f

  assign_lane-IsProper : IsProper (assign_lane addr kcv records used)
  unfolding assign_lane
  assign_lane-IsProper =
      choose-IsProper own.restore own.stale_own _ _ refl refl own_sound.0 own_sound.1

  -- A lane that is claimed afresh, its record still to be written: no free local has a record of the
  -- peer under this key.
  abbrev pub IsClaimed : LaneBinding → Type 0
  IsClaimed b =
      (b.seen ≡ 0)
      × (b.is_fresh ≡ true)
      × ((k : ℕ) (r : LaneRecord) → get_elem? records k ≡ some (some r) → ¬ IsOwn addr kcv used k r)

  claimed :
      (b : LaneBinding)
      → assign_lane addr kcv records used ≡ some b
      → b.seen ≡ 0
      → b.is_fresh ≡ true
      → IsClaimed b
  claimed b e seen afresh = (
    seen,
    afresh,
    λ k r held is.
        let (r', held', own', same, not_fresh, old) =
          subst (IsRestored r.seen) e (assign_lane-IsRestored k r held is) in
        absurd (cc (afresh, not_fresh)),
  )

  -- While some local is free, `assign_lane` binds a free local in bounds: the peer's own record
  -- under this key, restored at its last-seen and not afresh, or, only if no free local has such a
  -- record, afresh at last-seen 0.
  pub assign_lane-binds :
      (l : ℕ)
      → l < length records
      → is_free used l ≡ true
      → (b : LaneBinding) × (assign_lane addr kcv records used ≡ some b)
        × (b.index < length records)
        × (is_free used b.index ≡ true)
        × (IsRestored b.seen (some b) ⊎ IsClaimed b)
  assign_lane-binds l low ok = elim (Option-cases (assign_lane addr kcv records used)) [
    | inl e ↦
        let none_free : find_free used 0 records ≡ none = subst IsProper e assign_lane-IsProper in
        absurd (ground (arith, find_free-none used 0 l records none_free low))
    | inr (b, e) ↦
        let (low, ok, source) = subst IsProper e assign_lane-IsProper in
        (
          b,
          e,
          low,
          ok,
          elim source [
            | inl old ↦ inl old
            | inr (inl s) ↦ inr (claimed b e s.0 s.1)
            | inr (inr (inl s)) ↦ inr (claimed b e s.0 s.1)
            | inr (inr (inr s)) ↦ inr (claimed b e s.0 s.1)
          ],
        )
  ]

  -- A record of another peer is taken over only if every local that was never written is in use.
  pub assign_lane-evicts_last :
      (b : LaneBinding) (r : LaneRecord) (l : ℕ)
      → assign_lane addr kcv records used ≡ some b
      → get_elem? records b.index ≡ some (some r)
      → r.addr ≢ addr
      → get_elem? records l ≡ some none
      → is_free used l ≡ false
  assign_lane-evicts_last b r l e held ne unwritten =
      elim (subst IsProper e assign_lane-IsProper).2 [
        | inl (r', held', is, same, old, high) ↦ absurd (ne (ground (arith, held, held', is)))
        | inr (inl s) ↦ absurd (ne (ground (arith, held, s.2)))
        | inr (inr (inl s)) ↦ absurd (cc (held, s.2))
        | inr (inr (inr s)) ↦ ground (arith, find_virgin-none used 0 l records s.2 unwritten)
      ]
