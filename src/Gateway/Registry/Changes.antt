-- ===== src/Gateway/Registry/Changes.antt =====
-- What the loops over the buckets do to the registry as one list of records.
use tower.Prelude.{
  ℕ, ◌≡◌, ◌≢◌, ◌==◌, Bool, true, false, subst, refl, sym, ◌∙◌, Option, none, some, List, [], ◌∷◌,
  ◌++◌, length, length-append, Option-cases, Bool-cases, inl, inr, arith,
}
use tower.Gateway.Registry.{
  Bucket, BucketIo, Codec, Result, ok, err, full, not_found, bad_name, exists, storage, find_in,
  or_empty, load_checked, load, store, count_at, find_at, edit_at,
}
use tower.Gateway.Registry.Rows.{find_in-append_none, find_in-append_some}

-- Whether what was to be stored stands there, by the answer: a storage error leaves it open.
abbrev pub Landed : Result → Bool → Type 0
Landed ok landed = landed ≡ true
Landed (err storage) landed = Unit
Landed (err full) landed = landed ≡ false
Landed (err not_found) landed = landed ≡ false
Landed (err bad_name) landed = landed ≡ false
Landed (err exists) landed = landed ≡ false

module _ {S : Type 0} (io : BucketIo S) (codec : Codec) where
  -- The records of the buckets in order.
  unfoldable pub all_at : List ℕ → S → Bucket
  all_at [] s = []
  all_at (i ∷ is) s = load io codec s i ++ all_at is s

  pub find_at-all_at :
      (is : List ℕ) (s : S) (a : ℕ) → find_at io codec is s a ≡ find_in a (all_at is s)
  unfolding find_at all_at find_in
  find_at-all_at [] s a = refl
  find_at-all_at (i ∷ is) s a = elim (Option-cases (find_in a (load io codec s i))) [
    | inl e ↦ rw (e, find_at) (find_at-all_at is s a ∙ sym (find_in-append_none a _ _ e))
    | inr (r, e) ↦ rw (e, find_at) (sym (find_in-append_some a _ _ r e))
  ]

  pub count_at-all_at : (is : List ℕ) (s : S) → count_at io codec is s ≡ length (all_at is s)
  unfolding count_at all_at
  count_at-all_at [] s = refl
  count_at-all_at (i ∷ is) s =
      omega (arith, length-append (load io codec s i) (all_at is s), count_at-all_at is s)

  -- What a store leaves, with its effect and without.
  abbrev pub Stores : Bool → S → S → ℕ → Bucket → Type 0
  Stores true s s' i b =
      (load io codec s' i ≡ b) × ((j : ℕ) → j ≢ i → load io codec s' j ≡ load io codec s j)
  Stores false s s' i b = (j : ℕ) → load io codec s' j ≡ load io codec s j

  failed-Stores :
      (s : S) (i : ℕ) (b : Bucket) (l : List ℕ)
      → codec.encode b ≡ some l
      → (io.store s i l).1 ≡ false
      → (landed : Bool) × Stores landed s (io.store s i l).0 i b
  unfolding load load_checked or_empty
  failed-Stores s i b l enc not_done = elim (io.failed s i l not_done) [
    | inl same ↦ (
      false,
      λ j. elim (Bool-cases (j == i)) [
        | inl here ↦ let at : j ≡ i = ground (arith, here) in rw (at, same) refl
        | inr other ↦ rw (io.kept s i j l (ground (arith, other))) refl
      ],
    )
    | inr written ↦ (
      true,
      (
        (rw written (ground (arith, codec.round_trip b l enc, codec.fits b l enc))),
        λ j ne. rw (io.kept s i j l ne) refl,
      ),
    )
  ]

  pub store-Stores :
      (s s' : S) (i : ℕ) (b : Bucket) (out : Result)
      → store io codec s i b ≡ (s', out)
      → (landed : Bool) × Landed out landed × Stores landed s s' i b
  unfolding store load load_checked or_empty
  store-Stores s s' i b out e = elim (Option-cases (codec.encode b)) [
    | inl n ↦
        let at : s ≡ s' = ground arith in
        let what : err storage ≡ out = ground arith in
        (false, subst (λ o. Landed o false) what tt, λ j. rw at refl)
    | inr (l, enc) ↦ elim (Bool-cases (io.store s i l).1) [
      | inl done ↦
          let at : (io.store s i l).0 ≡ s' = ground arith in
          let what : ok ≡ out = ground arith in
          let read = io.stored s i l done in
          (
            true,
            subst (λ o. Landed o true) what refl,
            (
              rw (sym at, read) (ground (arith, codec.round_trip b l enc, codec.fits b l enc)),
              λ j ne. rw (sym at, io.kept s i j l ne) refl,
            ),
          )
      | inr not_done ↦
          let at : (io.store s i l).0 ≡ s' = ground arith in
          let what : err storage ≡ out = ground arith in
          let (landed, effect) = failed-Stores s i b l enc not_done in
          (
            landed,
            subst (λ o. Landed o landed) what tt,
            subst (λ z. Stores landed s z i b) at effect,
          )
    ]
  ]

  -- `i` is none of the indices, and no index comes twice.
  abbrev pub Apart : ℕ → List ℕ → Type 0
  Apart i [] = Unit {0}
  Apart i (j ∷ js) = (j ≢ i) × Apart i js

  abbrev pub AllApart : List ℕ → Type 0
  AllApart [] = Unit {0}
  AllApart (i ∷ is) = Apart i is × AllApart is

  pub all_at-Apart :
      (is : List ℕ) (s s' : S) (i : ℕ)
      → Apart i is
      → ((j : ℕ) → j ≢ i → load io codec s' j ≡ load io codec s j)
      → all_at is s' ≡ all_at is s
  unfolding all_at
  all_at-Apart [] s s' i a same = refl
  all_at-Apart (j ∷ js) s s' i a same = rw (same j a.0, all_at-Apart js s s' i a.1 same) refl

  pub all_at-same :
      (is : List ℕ) (s s' : S)
      → ((j : ℕ) → load io codec s' j ≡ load io codec s j)
      → all_at is s' ≡ all_at is s
  unfolding all_at
  all_at-same [] s s' same = refl
  all_at-same (j ∷ js) s s' same = rw (same j, all_at-same js s s' same) refl

  -- The records of the buckets, and the other buckets, after an edit with its effect and without.
  abbrev pub Edits : (Bucket → Bucket → Type 0) → Bool → List ℕ → S → S → Type 0
  Edits R true is s s' =
      R (all_at is s) (all_at is s')
      × ((j : ℕ) → Apart j is → load io codec s' j ≡ load io codec s j)
  Edits R false is s s' = (j : ℕ) → load io codec s' j ≡ load io codec s j

  -- The loop that edits: where the store has its effect the list of all records is related as the
  -- edited bucket is; where it has none it is as it was; without a bucket to edit the address is in none.
  module _ (addr : ℕ) (change : Bucket → Option Bucket) (R : Bucket → Bucket → Type 0)
      (changes : (b b' : Bucket) → change b ≡ some b' → R b b')
      (misses : (b : Bucket) → change b ≡ none → find_in addr b ≡ none)
      (left : (b b' c : Bucket) → R b b' → R (b ++ c) (b' ++ c))
      (right : (b c c' : Bucket) → find_in addr b ≡ none → R c c' → R (b ++ c) (b ++ c')) where
    pub edit_at-none :
        (is : List ℕ) (s : S)
        → edit_at io codec is s change ≡ none
        → find_in addr (all_at is s) ≡ none
    unfolding edit_at all_at find_in
    edit_at-none [] s e = refl
    edit_at-none (i ∷ is) s e = elim (Option-cases (change (load io codec s i))) [
      | inl n ↦ find_in-append_none addr _ _ (misses _ n) ∙ edit_at-none is s (ground arith)
      | inr (b, h) ↦ absurd (ground arith)
    ]

    Edits-cons :
        (i : ℕ) (is : List ℕ) (s s' : S) (landed : Bool)
        → change (load io codec s i) ≡ none
        → Apart i is
        → Edits R landed is s s'
        → Edits R landed (i ∷ is) s s'
    unfolding all_at
    Edits-cons i is s s' true n a (r, others) =
        ((rw (others i a) (right _ _ _ (misses _ n) r)), λ j b. others j b.1)
    Edits-cons i is s s' false n a same = same

    Stores-Edits :
        (i : ℕ) (is : List ℕ) (s s' : S) (b : Bucket) (landed : Bool)
        → change (load io codec s i) ≡ some b
        → Apart i is
        → Stores landed s s' i b
        → Edits R landed (i ∷ is) s s'
    unfolding all_at
    Stores-Edits i is s s' b true h a (new_one, others) = (
      (rw (new_one, all_at-Apart is s s' i a others) (left _ _ _ (changes _ _ h))),
      λ j apart. others j (λ q. apart.0 (sym q)),
    )
    Stores-Edits i is s s' b false h a same = same

    pub edit_at-Edits :
        (is : List ℕ) (s s' : S) (out : Result)
        → AllApart is
        → edit_at io codec is s change ≡ some (s', out)
        → (landed : Bool) × Landed out landed × Edits R landed is s s'
    unfolding edit_at
    edit_at-Edits [] s s' out a e = absurd (cc)
    edit_at-Edits (i ∷ is) s s' out a e = elim (Option-cases (change (load io codec s i))) [
      | inl n ↦
          let (landed, fits, later) = edit_at-Edits is s s' out a.1 (ground arith) in
          (landed, fits, Edits-cons i is s s' landed n a.0 later)
      | inr (b, h) ↦
          let (landed, fits, here) = store-Stores s s' i b out (ground arith) in
          (landed, fits, Stores-Edits i is s s' b landed h a.0 here)
    ]
