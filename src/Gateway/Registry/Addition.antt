-- ===== src/Gateway/Registry/Addition.antt =====
-- What `add` and `add_new` come to.
use tower.Prelude.{
  ℕ, suc, ◌+◌, ◌<◌, ◌≡◌, refl, ap, sym, ◌∙◌, Bool, true, false, ◌&&◌, Option, none, some, ◌==◌, leb,
  if◌then◌else◌, Option-cases, Bool-cases, inl, inr, arith,
}
use tower.Gateway.Registry.{
  NodeRecord, BucketIo, Codec, Result, capacity, find, count, add, add_new, change_in, edit_at,
  indices,
}
use tower.Gateway.Registry.Buckets.{Changed, Changed-found}
use tower.Gateway.Registry.Rows.{Inserted-find_in, Inserted-occurs, Inserted-length, occurs-find_in}
use tower.Gateway.Registry.Changes.{all_at-same, Landed}
use tower.Gateway.Registry.Insertion.{Inserts, insert_at-Inserts}
use tower.Gateway.Registry.Contents.{
  all, IsValid, find-all, count-all, same-IsValid, same-find, same-count, apart, change_none, After,
  change_After, After-change,
}

module _ {S : Type 0} (io : BucketIo S) (codec : Codec) where
  -- How many records an addition adds.
  abbrev pub added : Bool → Option NodeRecord → ℕ
  added false o = 0
  added true (some r) = 0
  added true none = 1

  abbrev pub Adds : Bool → S → NodeRecord → S → Type 0
  Adds landed s x s' =
      IsValid io codec s'
      × (count io codec s' ≡ added landed (find io codec s x.addr) + count io codec s)
      × ((a : ℕ)
          → find io codec s' a ≡ (if landed && a == x.addr then some x else find io codec s a))

  abbrev pub AddHolds : S → NodeRecord → S × Result → Type 0
  AddHolds s x (s', out) = (landed : Bool) × Landed out landed × Adds landed s x s'

  After-Adds :
      (landed : Bool) (s s' : S) (x : NodeRecord)
      → After io codec (Changed x.addr (λ _. x)) landed s s'
      → IsValid io codec s
      → Adds landed s x s'
  After-Adds false s s' x p v =
      let (valid, size, found) =
        After-change io codec x.addr (λ _. x) (λ r h. refl) false s s' p v in
      (valid, omega (arith, size), found)
  After-Adds true s s' x p v =
      let (valid, size, found) =
        After-change io codec x.addr (λ _. x) (λ r h. refl) true s s' p v in
      let (r, was) = Changed-found p in
      let known : find io codec s x.addr ≡ some r = find-all io codec s x.addr ∙ was in
      (valid, rw known (omega (arith, size)), λ a. rw (found a, known) refl)

  Inserts-Adds :
      (landed : Bool) (s s' : S) (x : NodeRecord)
      → Inserts io codec landed x indices s s'
      → find io codec s x.addr ≡ none
      → count io codec s < capacity
      → IsValid io codec s
      → Adds landed s x s'
  Inserts-Adds false s s' x same unknown room v =
      let p = all_at-same io codec indices s s' same in
      (
        same-IsValid io codec s s' p v,
        omega (arith, same-count io codec s s' p),
        λ a. same-find io codec s s' a p,
      )
  Inserts-Adds true s s' x (p, others) unknown room v =
      let absent_one = sym (find-all io codec s x.addr) ∙ unknown in
      let size : count io codec s' ≡ suc (count io codec s) =
        count-all io codec s' ∙ Inserted-length p ∙ ap suc (sym (count-all io codec s)) in
      (
        record {
          unique = λ a. ground (
            arith,
            Inserted-occurs a p,
            v.unique a,
            occurs-find_in x.addr (all io codec s) absent_one,
          );
          bounded = omega (arith, size);
        },
        rw unknown (omega (arith, size)),
        λ a. rw (find-all io codec s' a, find-all io codec s a) (Inserted-find_in a p absent_one),
      )

  -- From a valid registry, an addition that answers `ok` makes its record the one of its address, in
  -- the place of an older one or as one more, and changes no other address; one that answers with a
  -- storage error does that or changes nothing, and any other answer goes with unchanged lookups. No
  -- address comes to be registered twice, and the capacity is kept.
  pub add_lem : (s : S) (x : NodeRecord) → IsValid io codec s → AddHolds s x (add io codec s x)
  unfolding add
  add_lem s x v = elim (Option-cases (edit_at io codec indices s (change_in x.addr (λ _. x)))) [
    | inr ((s', out), e) ↦
        let (landed, fits, after) =
          change_After io codec x.addr (λ _. x) (λ r h. refl) s s' out e in
        rw (e, add) (landed, fits, After-Adds landed s s' x after v)
    | inl n ↦ elim (Bool-cases (leb capacity (count io codec s))) [
      | inl many ↦ rw (n, many, add) (false, refl, (v, omega arith, λ a. refl))
      | inr few ↦
          let (landed, fits, inserts) =
            insert_at-Inserts io codec indices s _ x false _ (apart io codec) refl in
          let unknown = change_none io codec x.addr (λ _. x) (λ r h. refl) s n in
          rw (n, few, add)
            (landed, fits, Inserts-Adds landed s _ x inserts unknown (ground arith) v)
    ]
  ]

  -- Pairing over the air never changes the record of a registered address, whatever address it asks for.
  pub add_new_lem :
      (s : S) (x r : NodeRecord) (a : ℕ)
      → IsValid io codec s
      → find io codec s a ≡ some r
      → find io codec (add_new io codec s x).0 a ≡ some r
  unfolding add_new
  add_new_lem s x r a v e = elim (Option-cases (find io codec s x.addr)) [
    | inr (y, known) ↦ rw (known, add_new) e
    | inl unknown ↦
        let (landed, fits, (valid, size, found)) = add_lem s x v in
        rw (unknown, add_new, found a) (ground arith)
  ]
