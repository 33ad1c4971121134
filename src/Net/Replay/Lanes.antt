-- ===== src/Net/Replay/Lanes.antt =====
-- The first loop of `assign_lane`: a peer's own records among the EEPROM locals.
use tower.Prelude.{
  ℕ, zero, suc, ◌+◌, ◌≤◌, ◌≡◌, true, false, Option, none, some, List, [], ◌∷◌, get_elem?, ap, ◌∙◌,
  arith,
}
use tower.Net.Replay.{LaneRecord, LaneBinding, Own, is_free, own_step, scan_own}

module _ (addr kcv used : ℕ) where
  -- A record of this peer, tracked under this key, at a local that no live peer holds.
  abbrev pub IsOwn : ℕ → LaneRecord → Type 0
  IsOwn l r = (r.addr ≡ addr) × (r.kcv ≡ kcv) × (is_free used l ≡ true)

  -- The candidate to restore is at least as high as `seen`.
  abbrev pub Covers : Option LaneBinding → ℕ → Type 0
  Covers none seen = ⊥
  Covers (some b) seen = seen ≤ b.seen

  module _ (all : List (Option LaneRecord)) where
    -- The candidate to restore is an own record.
    abbrev pub Restores : Option LaneBinding → Type 0
    Restores none = Unit
    Restores (some b) =
        (r : LaneRecord) × (get_elem? all b.index ≡ some (some r))
        × IsOwn b.index r
        × (r.seen ≡ b.seen)
        × (b.is_fresh ≡ false)

    -- The local to reuse holds a record of this peer under another key.
    abbrev pub Reuses : Option ℕ → Type 0
    Reuses none = Unit
    Reuses (some l) =
        (r : LaneRecord) × (get_elem? all l ≡ some (some r))
        × (r.addr ≡ addr)
        × (is_free used l ≡ true)

    own_step-Restores :
        (own : Own) (l : ℕ) (rec : Option LaneRecord)
        → get_elem? all l ≡ some rec
        → Restores own.restore
        → Restores (own_step addr kcv used own l rec).restore
    unfolding own_step
    own_step-Restores own l none e h = h
    own_step-Restores own l (some r) e h = ground arith

    own_step-Reuses :
        (own : Own) (l : ℕ) (rec : Option LaneRecord)
        → get_elem? all l ≡ some rec
        → Reuses own.stale_own
        → Reuses (own_step addr kcv used own l rec).stale_own
    unfolding own_step
    own_step-Reuses own l none e h = h
    own_step-Reuses own l (some r) e h = ground arith

  own_step-Covers :
      (own : Own) (l seen : ℕ) (rec : Option LaneRecord)
      → Covers own.restore seen
      → Covers (own_step addr kcv used own l rec).restore seen
  unfolding own_step
  own_step-Covers own l seen none h = h
  own_step-Covers own l seen (some r) h = ground arith

  own_step-Covers_self :
      (own : Own) (l : ℕ) (r : LaneRecord)
      → IsOwn l r
      → Covers (own_step addr kcv used own l (some r)).restore r.seen
  unfolding own_step
  own_step-Covers_self own l r h = ground arith

  scan_own-Covers_start :
      (own : Own) (l seen : ℕ) (records : List (Option LaneRecord))
      → Covers own.restore seen
      → Covers (scan_own addr kcv used own l records).restore seen
  unfolding scan_own
  scan_own-Covers_start own l seen [] h = h
  scan_own-Covers_start own l seen (rec ∷ rest) h =
      scan_own-Covers_start (own_step addr kcv used own l rec) (l + 1) seen rest
        (own_step-Covers own l seen rec h)

  pub scan_own-Covers :
      (own : Own) (l i k : ℕ) (records : List (Option LaneRecord)) (r : LaneRecord)
      → get_elem? records i ≡ some (some r)
      → k ≡ l + i
      → IsOwn k r
      → Covers (scan_own addr kcv used own l records).restore r.seen
  unfolding scan_own
  scan_own-Covers own l i k [] r e at h = absurd (cc)
  scan_own-Covers own l zero k (none ∷ rest) r e at h = absurd (cc)
  scan_own-Covers own l zero k (some r' ∷ rest) r e at h =
      scan_own-Covers_start (own_step addr kcv used own l (some r')) (l + 1) r.seen rest
        (ground (arith, own_step-Covers_self own l r))
  scan_own-Covers own l (suc i) k (rec ∷ rest) r e at h =
      scan_own-Covers (own_step addr kcv used own l rec) (l + 1) i k rest r e (omega arith) h

  -- `records` is what is left of `all` from local `l` on.
  abbrev pub Rest : List (Option LaneRecord) → ℕ → List (Option LaneRecord) → Type 0
  Rest all l records = (i : ℕ) → get_elem? all (l + i) ≡ get_elem? records i

  pub scan_own-Restores :
      (all : List (Option LaneRecord)) (own : Own) (l : ℕ) (records : List (Option LaneRecord))
      → Rest all l records
      → Restores all own.restore
      → Reuses all own.stale_own
      → let own' = scan_own addr kcv used own l records in
        Restores all own'.restore × Reuses all own'.stale_own
  unfolding scan_own
  scan_own-Restores all own l [] rest h g = (h, g)
  scan_own-Restores all own l (rec ∷ records) rest h g =
      scan_own-Restores all (own_step addr kcv used own l rec) (l + 1) records
        (λ i. ap (get_elem? all) (omega arith) ∙ rest (suc i))
        (own_step-Restores all own l rec head h) (own_step-Reuses all own l rec head g)
    where
      head : get_elem? all l ≡ some rec
      head = ap (get_elem? all) (omega arith) ∙ rest 0
