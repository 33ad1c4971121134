-- ===== src/Kv/Compaction.antt =====
-- `flip` and `compact`: no reader sees them, wherever they stop.
use tower.Prelude.{
  ℕ, ◌+◌, ◌-◌, ◌≤◌, ◌<◌, ◌≡◌, refl, sym, ap, subst, ◌∙◌, ◌⊎◌, inl, inr, Option, none, some, List,
  length, ◌==◌, if◌then◌else◌, u32_max, arith,
}
use tower.Kv.Eeprom.{Mem, Eeprom, M, Result, ok, err, KvError, Torn, put, ◌>>◌}
use tower.Kv.Layout.{
  super_len, super_off, half_len, half_base, superblock, read_gen, active, next_gen,
}
use tower.Kv.Scan.{Latest, walk_latest, value_of, get_bytes}
use tower.Kv.Write.{write_gen, blank}
use tower.Kv.Flip.{copy_live, flip_by, flip}
use tower.Kv.Log.{Rec, Log, last_of, Log-total, Same}
use tower.Kv.Steps.{At, Kept, Leaves, Leaves-then_do, Leaves-weaken, put-Leaves, Wrote, Tore}
use tower.Kv.View.{get_bytes-Log, active-le, halves_below}
use tower.Kv.Blank.{Blank, Smudged, blank-Leaves}
use tower.Kv.Table.{walk_latest-TableOf}
use tower.Kv.Pack.{Done, Cut, pack-Leaves}
use tower.Kv.Commit.{Formatted, Formatted-new, Formatted-Torn}
use tower.Kv.Superblock.{superblock-gen_at}
use tower.Kv.Dead.{half_view, SameMap, SameMap-active, halves_apart, dead_half}

length-superblock : (n : ℕ) → length (superblock n) ≡ super_len
unfolding superblock
length-superblock n = refl

-- A reader finds this map.
abbrev pub Reads : Mem → ℕ → (ℕ → Option (List ℕ)) → Type 0
Reads m capacity f = (k : ℕ) → get_bytes m capacity k ≡ f k

-- Only the dead half has been written, and its log reads as this map.
abbrev pub ReadyToCommit : Mem → Mem → ℕ → ℕ → (ℕ → Option (List ℕ)) → Type 0
ReadyToCommit m m' capacity h f =
    Kept m m' (half_base capacity (1 - h)) (half_base capacity (1 - h) + half_len capacity)
    × ((ds : List Rec) × (wr : ℕ) × Log m' (half_base capacity (1 - h)) (half_len capacity) 0 ds wr
        × ((k : ℕ)
            → (if k == 0
                then none
                else value_of m' (half_base capacity (1 - h)) (last_of k none ds))
              ≡ f k))

pub Result-cases :
    {A : Type 0} (r : Result A) → ((a : A) × (r ≡ ok a)) ⊎ ((e : KvError) × (r ≡ err e))
Result-cases (ok a) = inl (a, refl)
Result-cases (err e) = inr (e, refl)

module _ {S : Type 0} (ee : Eeprom S) (capacity h g : ℕ) (lt : g < u32_max) where
  -- After the commit of a half that reads as `f`, and after a commit that was cut.
  abbrev pub Committed : (ℕ → Option (List ℕ)) → S → Type 0
  Committed f s' = Formatted (ee.bytes s') capacity (1 - h) (g + 1) × Reads (ee.bytes s') capacity f

  abbrev pub CommitCut : S → (ℕ → Option (List ℕ)) → S → Type 0
  CommitCut s f s' =
      (Formatted (ee.bytes s') capacity h g × SameMap (ee.bytes s) (ee.bytes s') capacity)
      ⊎ Committed f s'

  pub not_yet :
      (s s' : S) (f : ℕ → Option (List ℕ))
      → Formatted (ee.bytes s) capacity h g
      → Kept
          (ee.bytes s)
          (ee.bytes s')
          (half_base capacity (1 - h))
          (half_base capacity (1 - h) + half_len capacity)
      → CommitCut s f s'
  not_yet s s' f fm k = inl (dead_half (ee.bytes s) (ee.bytes s') capacity h g fm k)

  -- The other half is active: its log is read.
  committed_map :
      (s s2 s3 : S) (f : ℕ → Option (List ℕ))
      → h ≤ 1
      → ReadyToCommit (ee.bytes s) (ee.bytes s2) capacity h f
      → Kept
          (ee.bytes s2)
          (ee.bytes s3)
          (super_off capacity (1 - h))
          (super_off capacity (1 - h) + super_len)
      → Formatted (ee.bytes s3) capacity (1 - h) (g + 1)
      → Reads (ee.bytes s3) capacity f
  committed_map s s2 s3 f b (k, (ds, wr, lg, vals)) k3 fm key =
      let base = half_base capacity (1 - h) in
      let below = halves_below capacity (1 - h) (omega arith) in
      let same : Same (ee.bytes s2) (ee.bytes s3) base (base + half_len capacity) =
        λ i lo hi. k3 i (inl (omega (arith, below))) in
      let (lg3, vals3) = half_view (ee.bytes s2) (ee.bytes s3) base (half_len capacity) same lg in
      get_bytes-Log (ee.bytes s3) capacity (1 - h) (g + 1) fm.0 lg3 key
      ∙ (ap (λ v. if key == 0 then none else v) (vals3 key) ∙ vals key)

  -- The superblock write of a flip in a formatted region whose generation is below `u32::MAX`, where
  -- only the dead half has been written so far and its log reads as the map `f`: if it succeeds,
  -- that half is active with the next generation and the map is `f`; if it fails, torn at any word,
  -- either nothing has changed for a reader or the commit is complete.
  pub commit-Leaves :
      (s s2 : S) (f : ℕ → Option (List ℕ))
      → Formatted (ee.bytes s) capacity h g
      → ReadyToCommit (ee.bytes s) (ee.bytes s2) capacity h f
      → Leaves
          (λ u s'. Committed f s')
          (CommitCut s f)
          (write_gen ee capacity (1 - h) (next_gen g) s2)
  unfolding write_gen read_gen
  commit-Leaves s s2 f fm r =
      let b = active-le (ee.bytes s) capacity h g fm.0 in
      let off = super_off capacity (1 - h) in
      let d = superblock (next_gen g) in
      let (f2, same2) = dead_half (ee.bytes s) (ee.bytes s2) capacity h g fm r.0 in
      let gg : next_gen g ≡ g + 1 = omega arith in
      let swapped : (s3 : S)
          → Kept (ee.bytes s2) (ee.bytes s3) off (off + length d)
          → Kept (ee.bytes s2) (ee.bytes s3) off (off + super_len) =
        λ s3 k3.
          subst (λ n. Kept (ee.bytes s2) (ee.bytes s3) off (off + n)) (length-superblock _) k3 in
      Leaves-weaken (Wrote ee s2 off d) (Tore ee s2 off d) (λ u s'. Committed f s') (CommitCut s f)
        (put ee off d s2) (put-Leaves ee off d s2)
        (λ u s3 (k3, a).
          let f3 = Formatted-new (ee.bytes s2) (ee.bytes s3) capacity h g f2 lt (swapped s3 k3) (
            superblock-gen_at (ee.bytes s3) off (g + 1) (omega arith)
              (subst (λ n. At (ee.bytes s3) off (superblock n)) gg a)) in
          (f3, committed_map s s2 s3 f b r (swapped s3 k3) f3))
        (λ s3 (k3, t).
          let k = swapped s3 k3 in
          elim (Formatted-Torn (ee.bytes s2) (ee.bytes s3) capacity h g f2 lt k
            (subst (λ n. Torn (ee.bytes s2) (ee.bytes s3) off (superblock n)) gg t)) [
              | inl old ↦ inl (
                old,
                λ key.
                    SameMap-active (ee.bytes s2) (ee.bytes s3) capacity h g f2.0 old.0
                      (λ i lo hi. k i (inl (omega (arith, halves_below capacity h b)))) key
                    ∙ same2 key,
              )
              | inr new ↦ inr (new, committed_map s s2 s3 f b r k new)
            ])

  copied_view :
      (s : S) {rs : List Rec} {src_free : ℕ}
      → active (ee.bytes s) capacity ≡ some (h, g)
      → Log (ee.bytes s) (half_base capacity h) (half_len capacity) 0 rs src_free
      → (u : Unit {0}) (s2 : S)
      → Done ee
          (ee.bytes s)
          (half_base capacity (1 - h))
          (half_len capacity)
          (λ k. value_of (ee.bytes s) (half_base capacity h) (last_of k none rs))
          u
          s2
      → ReadyToCommit (ee.bytes s) (ee.bytes s2) capacity h (get_bytes (ee.bytes s) capacity)
  copied_view s a lg u s2 (ds, wr, (k, lgd, zs, le, vals)) = (
    k,
    (
      ds,
      wr,
      lgd,
      λ key.
          ap (λ v. if key == 0 then none else v) (vals key)
          ∙ sym (get_bytes-Log (ee.bytes s) capacity h g a lg key),
    ),
  )

  flip_err :
      (s : S) (e : KvError)
      → walk_latest (ee.bytes s) (half_base capacity h) (half_len capacity) ≡ err e
      → flip ee capacity h g s ≡ (s, err e)
  unfolding flip
  flip_err s e w = ap (λ r. flip_by ee capacity h g r s) w

  abbrev packs : ℕ → Latest → M S (Unit {0})
  packs src_free latest =
      copy_live ee src_free (half_base capacity h) (half_base capacity (1 - h)) (half_len capacity)
        src_free latest 0 0

  flip_ok :
      (s : S) (src_free : ℕ) (latest : Latest)
      → walk_latest (ee.bytes s) (half_base capacity h) (half_len capacity) ≡ ok (src_free, latest)
      → flip ee capacity h g s
        ≡ (blank ee (half_base capacity (1 - h)) (half_len capacity)
              >> (packs src_free latest >> write_gen ee capacity (1 - h) (next_gen g)))
            s
  unfolding flip
  flip_ok s src_free latest w = ap (λ r. flip_by ee capacity h g r s) w

  -- After a flip, and after one that was cut: a reader finds the same.
  abbrev pub Flipped : S → Unit {0} → S → Type 0
  Flipped s u s' = Committed (get_bytes (ee.bytes s) capacity) s'

  abbrev pub FlipCut : S → S → Type 0
  FlipCut s = CommitCut s (get_bytes (ee.bytes s) capacity)

  -- In a region of at most `u32::MAX` bytes that is formatted with half `h` active, of a generation
  -- `g` below `u32::MAX`: a flip that succeeds makes the other half active with generation `g + 1`,
  -- and every key reads as before; if it fails, at any write, for want of room or with too many
  -- keys, every key reads as before and either half may be the active one. A write that fails may
  -- stop between two words or leave the word in work erased, or garbled so that no checksum passes
  -- over it.
  pub flip-Leaves :
      (s : S)
      → capacity ≤ u32_max
      → Formatted (ee.bytes s) capacity h g
      → Leaves (Flipped s) (FlipCut s) (flip ee capacity h g s)
  flip-Leaves s small f =
      let src = half_base capacity h in
      let dst = half_base capacity (1 - h) in
      let half = half_len capacity in
      let b = active-le (ee.bytes s) capacity h g f.0 in
      let (rs, end, lg) = Log-total (ee.bytes s) src half in
      elim (Result-cases (walk_latest (ee.bytes s) src half)) [
        | inr (e, w) ↦
            subst (Leaves (Flipped s) (FlipCut s)) (sym (flip_err s e w)) (inl (f, λ k. refl))
        | inl ((src_free, latest), w) ↦
            let (same_end, tab) = walk_latest-TableOf (ee.bytes s) src half src_free latest lg w in
            let lg' = subst (λ z. Log (ee.bytes s) src half 0 rs z) (sym same_end) lg in
            subst (Leaves (Flipped s) (FlipCut s)) (sym (flip_ok s src_free latest w)) (
              Leaves-then_do (Blank ee dst half s) (Smudged ee dst half s) (Flipped s) (FlipCut s)
                (λ u. packs src_free latest >> write_gen ee capacity (1 - h) (next_gen g))
                (blank ee dst half s) (blank-Leaves ee dst half (omega arith) s (omega arith))
                (λ u s1 (k, zs).
                  Leaves-then_do
                    (Done ee (ee.bytes s) dst half
                      (λ k. value_of (ee.bytes s) src (last_of k none rs)))
                    (Cut ee (ee.bytes s) dst half) (Flipped s) (FlipCut s)
                    (λ u. write_gen ee capacity (1 - h) (next_gen g)) (packs src_free latest s1)
                    (pack-Leaves ee (ee.bytes s) src dst half src_free latest
                      (halves_apart capacity h b) s1 lg' tab k zs)
                    (λ u s2 done.
                      commit-Leaves s s2 (get_bytes (ee.bytes s) capacity) f
                        (copied_view s f.0 lg' u s2 done))
                    (λ s' cut. not_yet s s' _ f cut))
                (λ s' k. not_yet s s' _ f k))
      ]
