-- ===== src/Gateway/Registry/Contents.antt =====
-- The registry as a bounded map from addresses to records, over any storage that keeps the laws of
-- `BucketIo` and any codec that decodes what it encoded.
use tower.Prelude.{
  ℕ, suc, ◌+◌, ◌≤◌, ◌≡◌, refl, ap, sym, ◌∙◌, Bool, true, false, ◌&&◌, Option, none, some, List,
  length, ◌==◌, if◌then◌else◌, Option-cases, Bool-cases, inl, inr, arith,
}
use tower.Gateway.Registry.{
  NodeRecord, Bucket, BucketIo, Codec, Result, capacity, find, count, remove, update, updated,
  find_in, change_in, remove_in, edit_at, indices, name_fits,
}
use tower.Gateway.Registry.Buckets.{
  occurs, mapped, Changed, Removed, change_in-Changed, change_in-none, remove_in-Removed,
  remove_in-none, Changed-find_in, Changed-occurs, Changed-length, Removed-find_in, Removed-occurs,
  Removed-length,
}
use tower.Gateway.Registry.Rows.{Changed-left, Changed-right, Removed-left, Removed-right}
use tower.Gateway.Registry.Changes.{
  AllApart, all_at, find_at-all_at, count_at-all_at, all_at-same, Landed, Edits, edit_at-Edits,
  edit_at-none,
}

module _ {S : Type 0} (io : BucketIo S) (codec : Codec) where
  abbrev pub all : S → Bucket
  all s = all_at io codec indices s

  -- No address is registered twice, and there are at most `capacity` records.
  pub record IsValid (s : S) : Type 0 where
    pub unique : (a : ℕ) → occurs a (all s) ≤ 1
    pub bounded : count io codec s ≤ capacity

  pub apart : AllApart io codec indices
  apart = ((omega arith, (omega arith, tt)), ((omega arith, tt), (tt, tt)))

  pub find-all : (s : S) (a : ℕ) → find io codec s a ≡ find_in a (all s)
  unfolding find
  find-all s a = find_at-all_at io codec indices s a

  pub count-all : (s : S) → count io codec s ≡ length (all s)
  unfolding count
  count-all s = count_at-all_at io codec indices s

  -- What does not change the records changes neither the lookups nor the validity.
  pub same-IsValid : (s s' : S) → all s' ≡ all s → IsValid s → IsValid s'
  same-IsValid s s' e v = record {
    unique = λ a. rw e (v.unique a);
    bounded = rw (count-all s', e, sym (count-all s)) v.bounded;
  }

  pub same-find : (s s' : S) (a : ℕ) → all s' ≡ all s → find io codec s' a ≡ find io codec s a
  same-find s s' a e = rw (find-all s' a, e, sym (find-all s a)) refl

  pub same-count : (s s' : S) → all s' ≡ all s → count io codec s' ≡ count io codec s
  same-count s s' e = rw (count-all s', count-all s, e) refl

  -- The registry after an edit with its effect and without.
  abbrev pub After : (Bucket → Bucket → Type 0) → Bool → S → S → Type 0
  After R true s s' = R (all s) (all s')
  After R false s s' = all s' ≡ all s

  Edits-After :
      (R : Bucket → Bucket → Type 0) (landed : Bool) (s s' : S)
      → Edits io codec R landed indices s s'
      → After R landed s s'
  Edits-After R true s s' (r, others) = r
  Edits-After R false s s' same = all_at-same io codec indices s s' same

  -- What an edit that keeps addresses does, on every branch.
  module _ (addr : ℕ) (f : NodeRecord → NodeRecord)
      (same : (r : NodeRecord) → r.addr ≡ addr → (f r).addr ≡ addr) where
    pub change_none :
        (s : S) → edit_at io codec indices s (change_in addr f) ≡ none → find io codec s addr ≡ none
    change_none s e =
        find-all s addr
        ∙ edit_at-none io codec addr (change_in addr f) (Changed addr f) (change_in-Changed addr f)
            (change_in-none addr f) (λ b b' c. Changed-left c) (λ b c c'. Changed-right b) indices s
            e

    pub change_After :
        (s s' : S) (out : Result)
        → edit_at io codec indices s (change_in addr f) ≡ some (s', out)
        → (landed : Bool) × Landed out landed × After (Changed addr f) landed s s'
    change_After s s' out e =
        let (landed, fits, edits) =
          edit_at-Edits io codec addr (change_in addr f) (Changed addr f) (change_in-Changed addr f)
            (change_in-none addr f) (λ b b' c. Changed-left c) (λ b c c'. Changed-right b) indices s
            s' out apart e in
        (landed, fits, Edits-After (Changed addr f) landed s s' edits)

    pub After-change :
        (landed : Bool) (s s' : S)
        → After (Changed addr f) landed s s'
        → IsValid s
        → IsValid s'
          × (count io codec s' ≡ count io codec s)
          × ((a : ℕ)
              → find io codec s' a ≡ (
                  if landed && a == addr
                  then mapped f (find io codec s addr)
                  else find io codec s a))
    After-change true s s' p v =
        let size : count io codec s' ≡ count io codec s =
          count-all s' ∙ Changed-length same p ∙ sym (count-all s) in
        (
          record {
            unique = λ a. rw (Changed-occurs same a p) (v.unique a);
            bounded = rw size v.bounded;
          },
          size,
          λ a. rw (find-all s' a, find-all s a, find-all s addr) (Changed-find_in same a p),
        )
    After-change false s s' p v =
        (same-IsValid s s' p v, omega (arith, same-count s s' p), λ a. same-find s s' a p)

  module _ (addr : ℕ) where
    After-remove :
        (landed : Bool) (s s' : S)
        → After (Removed addr) landed s s'
        → IsValid s
        → IsValid s'
          × ((if landed then 1 else 0) + count io codec s' ≡ count io codec s)
          × ((a : ℕ)
              → find io codec s' a ≡ (if landed && a == addr then none else find io codec s a))
    After-remove true s s' p v =
        let size : suc (count io codec s') ≡ count io codec s =
          ap suc (count-all s') ∙ Removed-length p ∙ sym (count-all s) in
        (
          record {
            unique = λ a. omega (arith, Removed-occurs a p, v.unique a);
            bounded = omega (arith, v.bounded);
          },
          omega (arith, size),
          λ a. rw (find-all s' a, find-all s a) (Removed-find_in a p (v.unique addr)),
        )
    After-remove false s s' p v =
        (same-IsValid s s' p v, omega (arith, same-count s s' p), λ a. same-find s s' a p)

    -- From a valid registry, a removal that answers `ok` takes away the record of the address alone, one
    -- that answers with a storage error does so or changes nothing, and any other changes nothing.
    pub remove_lem :
        (s : S)
        → IsValid s
        → let (s', out) = remove io codec s addr in
          (landed : Bool) × Landed out landed
          × IsValid s'
          × ((if landed then 1 else 0) + count io codec s' ≡ count io codec s)
          × ((a : ℕ)
              → find io codec s' a ≡ (if landed && a == addr then none else find io codec s a))
    unfolding remove
    remove_lem s v = elim (Option-cases (edit_at io codec indices s (remove_in addr))) [
      | inl n ↦ rw (n, remove) (false, refl, v, omega arith, λ a. refl)
      | inr ((s', out), e) ↦
          let (landed, fits, edits) =
            edit_at-Edits io codec addr (remove_in addr) (Removed addr) (remove_in-Removed addr)
              (remove_in-none addr) (λ b b' c. Removed-left c) (λ b c c'. Removed-right b) indices s
              s' out apart e in
          let (valid, size, found) =
            After-remove landed s s' (Edits-After (Removed addr) landed s s' edits) v in
          rw (e, remove) (landed, fits, valid, size, found)
    ]

  updated-addr :
      (name : Option (List ℕ)) (flags : Option ℕ) (r : NodeRecord)
      → (updated name flags r).addr ≡ r.addr
  updated-addr none none r = refl
  updated-addr none (some f) r = refl
  updated-addr (some n) none r = refl
  updated-addr (some n) (some f) r = refl

  -- From a valid registry, an update that answers `ok` sets the given name and flags of the one record
  -- of the address, one that answers with a storage error does so or changes nothing, and any other
  -- changes nothing.
  pub update_lem :
      (s : S) (addr : ℕ) (name : Option (List ℕ)) (flags : Option ℕ)
      → IsValid s
      → let (s', out) = update io codec s addr name flags in
        (landed : Bool) × Landed out landed
        × IsValid s'
        × (count io codec s' ≡ count io codec s)
        × ((a : ℕ)
            → find io codec s' a ≡ (
                if landed && a == addr
                then mapped (updated name flags) (find io codec s addr)
                else find io codec s a))
  unfolding update
  update_lem s addr name flags v =
      elim (Option-cases (edit_at io codec indices s (change_in addr (updated name flags)))) [
        | inl n ↦ rw (n, update) (false, refl, v, refl, λ a. refl)
        | inr ((s', out), e) ↦ elim (Bool-cases (name_fits name)) [
          | inl short ↦
              let keeps = λ (r : NodeRecord) (h : r.addr ≡ addr). updated-addr name flags r ∙ h in
              let (landed, fits, after) = change_After addr (updated name flags) keeps s s' out e in
              let (valid, size, found) =
                After-change addr (updated name flags) keeps landed s s' after v in
              rw (e, short, update) (landed, fits, valid, size, found)
          | inr long ↦ rw (e, long, update) (false, refl, v, refl, λ a. refl)
        ]
      ]
