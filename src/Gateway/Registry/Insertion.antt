-- ===== src/Gateway/Registry/Insertion.antt =====
-- The loop of `add` that puts a new record into a bucket with room.
use tower.Prelude.{
  ℕ, ◌≡◌, refl, sym, ap, subst, Bool, true, false, if◌then◌else◌, List, [], ◌∷◌, ◌++◌, length, ltb,
  Option-cases, Bool-cases, inl, inr, arith,
}
use tower.Gateway.Registry.{
  NodeRecord, BucketIo, Codec, Result, err, full, storage, or_empty, per_bucket, load_checked, load,
  insert_at,
}
use tower.Gateway.Registry.Rows.{Inserted, Inserted-left, Inserted-right}
use tower.Gateway.Registry.Changes.{
  Landed, all_at, Apart, AllApart, all_at-Apart, Stores, store-Stores,
}

module _ {S : Type 0} (io : BucketIo S) (codec : Codec) where
  -- The records of the buckets, and the other buckets, after an insertion with its effect and
  -- without.
  abbrev pub Inserts : Bool → NodeRecord → List ℕ → S → S → Type 0
  Inserts true x is s s' =
      Inserted x (all_at io codec is s) (all_at io codec is s')
      × ((j : ℕ) → Apart io codec j is → load io codec s' j ≡ load io codec s j)
  Inserts false x is s s' = (j : ℕ) → load io codec s' j ≡ load io codec s j

  Inserts-cons :
      (i : ℕ) (is : List ℕ) (s s' : S) (x : NodeRecord) (landed : Bool)
      → Apart io codec i is
      → Inserts landed x is s s'
      → Inserts landed x (i ∷ is) s s'
  unfolding all_at
  Inserts-cons i is s s' x true a (p, others) =
      ((rw (others i a) (Inserted-right _ p)), λ j b. others j b.1)
  Inserts-cons i is s s' x false a same = same

  Stores-Inserts :
      (i : ℕ) (is : List ℕ) (s s' : S) (x : NodeRecord) (landed : Bool)
      → Apart io codec i is
      → Stores io codec landed s s' i (load io codec s i ++ (x ∷ []))
      → Inserts landed x (i ∷ is) s s'
  unfolding all_at
  Stores-Inserts i is s s' x true a (new_one, others) = (
    (rw (new_one, all_at-Apart io codec is s s' i a others) (Inserted-left (load io codec s i) _)),
    λ j apart. others j (λ q. apart.0 (sym q)),
  )
  Stores-Inserts i is s s' x false a same = same

  none_inserted : (u : Bool) → Landed (err (if u then storage else full)) false
  none_inserted true = tt
  none_inserted false = refl

  pub insert_at-Inserts :
      (is : List ℕ) (s s' : S) (x : NodeRecord) (u : Bool) (out : Result)
      → AllApart io codec is
      → insert_at io codec is s x u ≡ (s', out)
      → (landed : Bool) × Landed out landed × Inserts landed x is s s'
  unfolding insert_at
  insert_at-Inserts [] s s' x u out a e =
      let at : s ≡ s' = ap (λ p. p.0) e in
      let what : err (if u then storage else full) ≡ out = ap (λ p. p.1) e in
      (false, subst (λ o. Landed o false) what (none_inserted u), λ j. rw at refl)
  insert_at-Inserts (i ∷ is) s s' x u out a e = elim (Option-cases (load_checked io codec s i)) [
    | inl n ↦
        let (landed, fits, later) = insert_at-Inserts is s s' x true out a.1 (ground arith) in
        (landed, fits, Inserts-cons i is s s' x landed a.0 later)
    | inr (b, h) ↦ elim (Bool-cases (ltb (length b) per_bucket)) [
      | inl room ↦
          let read : load io codec s i ≡ b = unfold load or_empty in rw h refl in
          let (landed, fits, here) =
            store-Stores io codec s s' i (b ++ (x ∷ [])) out (ground arith) in
          let here' = subst (λ z. Stores io codec landed s s' i (z ++ (x ∷ []))) (sym read) here in
          (landed, fits, Stores-Inserts i is s s' x landed a.0 here')
      | inr taken ↦
          let (landed, fits, later) = insert_at-Inserts is s s' x u out a.1 (ground arith) in
          (landed, fits, Inserts-cons i is s s' x landed a.0 later)
    ]
  ]
