-- ===== src/Kv/Live.antt =====
-- The records that a flip copies: the last one of each key, if it has a value. What is read by the
-- copies is what is read by the whole log.
use tower.Prelude.{
  ℕ, zero, suc, ◌+◌, ◌≤◌, ◌<◌, ◌≡◌, refl, sym, ap, ◌∙◌, inl, inr, Bool, true, false, Bool-cases,
  Option, none, some, List, [], ◌∷◌, ◌==◌, ◌&&◌, not, if◌then◌else◌, arith,
}
use tower.Kv.Eeprom.{Mem}
use tower.Kv.Layout.{record_size}
use tower.Kv.Scan.{Latest, is_latest, value_of}
use tower.Kv.Log.{Rec, Log, stop, more, last_of}
use tower.Kv.Table.{is_at, TableOf}

module _ (m : Mem) (base area : ℕ) (latest : Latest) where
  abbrev pub is_live : Rec → Bool
  is_live r = not (r.len == 0) && is_latest r.tag r.off latest

  -- What a key reads as after the copies of these records, `acc` before them.
  unfoldable pub copied_of : ℕ → Option (List ℕ) → List Rec → Option (List ℕ)
  copied_of k acc [] = acc
  copied_of k acc (r ∷ rs) =
      copied_of k
        (if is_live r
          then if r.tag == k then value_of m base (some (r.off, r.len)) else acc
          else acc)
        rs

  last_of-ge :
      (k off len x : ℕ) {o end : ℕ} {rs : List Rec}
      → Log m base area o rs end
      → off ≤ o
      → is_at x (last_of k (some (off, len)) rs) ≡ true
      → off ≤ x
  unfolding last_of
  last_of-ge k off len x (stop {o} e) h p = ground arith
  last_of-ge k off len x (more {o} {end} {rs} tag len' e lg) h p = elim (Bool-cases (tag == k)) [
    | inl t ↦
        let later : o ≤ x = last_of-ge k o len' x lg (omega arith) (rw (t) at p) in omega arith
    | inr f ↦ last_of-ge k off len x lg (omega arith) (rw (f) at p)
  ]

  -- A record that is the last of its key has been copied, an earlier one has not.
  abbrev judged : ℕ → Option (ℕ × ℕ) → Option (List ℕ)
  judged k none = none
  judged k (some (off, len)) =
      if is_latest k off latest then value_of m base (some (off, len)) else none

  abbrev Before : Option (ℕ × ℕ) → ℕ → Type 0
  Before none o = Unit
  Before (some (off, len)) o = off < o

  Before-weaken : (found : Option (ℕ × ℕ)) (o o' : ℕ) → o ≤ o' → Before found o → Before found o'
  Before-weaken none o o' h b = tt
  Before-weaken (some (off, len)) o o' h b = omega arith

  -- Nothing has been copied for a key that is yet to come.
  acc_none :
      (k len : ℕ) (found : Option (ℕ × ℕ)) (acc : Option (List ℕ)) {o o' end : ℕ} {rs : List Rec}
      → Log m base area o' rs end
      → o ≤ o'
      → ((off : ℕ) → is_latest k off latest ≡ is_at off (last_of k (some (o, len)) rs))
      → Before found o
      → acc ≡ judged k found
      → acc ≡ none
  acc_none k len none acc lg h tab b j = j
  acc_none k len (some (off, len')) acc {o} lg h tab b j =
      elim (Bool-cases (is_latest k off latest)) [
        | inl t ↦
            let later : o ≤ off = last_of-ge k o len off lg h (sym (tab off) ∙ t) in
            absurd (omega arith)
        | inr f ↦ j ∙ (rw (f) refl)
      ]

  live_value :
      (o len : ℕ) (latest_one : Bool) (acc : Option (List ℕ))
      → acc ≡ none
      → (if not (len == 0) && latest_one then value_of m base (some (o, len)) else acc)
        ≡ (if latest_one then value_of m base (some (o, len)) else none)
  live_value o zero true acc e = e
  live_value o zero false acc e = e
  live_value o (suc k) true acc e = ground (arith, e)
  live_value o (suc k) false acc e = ground (arith, e)

  if_same : (c : Bool) (acc : Option (List ℕ)) → (if c then acc else acc) ≡ acc
  if_same true acc = refl
  if_same false acc = refl

  copied_of-judged :
      (k : ℕ) (found : Option (ℕ × ℕ)) (acc : Option (List ℕ)) {o end : ℕ} {rs : List Rec}
      → Log m base area o rs end
      → ((off : ℕ) → is_latest k off latest ≡ is_at off (last_of k found rs))
      → Before found o
      → acc ≡ judged k found
      → copied_of k acc rs ≡ value_of m base (last_of k found rs)
  unfolding last_of copied_of
  copied_of-judged k none acc (stop {o} e) tab b j = j
  copied_of-judged k (some (off, len)) acc (stop {o} e) tab b j =
      let it : is_latest k off latest ≡ true = tab off ∙ ground arith in j ∙ (rw (it) refl)
  copied_of-judged k found acc (more {o} {end} {rs} tag len e lg) tab b j =
      elim (Bool-cases (tag == k)) [
        | inl t ↦
            let same : tag ≡ k = ground arith in
            let tab' : (off : ℕ)
                → is_latest k off latest ≡ is_at off (last_of k (some (o, len)) rs) =
              λ off. rw (t) at tab off in
            rw (t) (
              copied_of-judged k (some (o, len))
                (if not (len == 0) && is_latest tag o latest
                  then value_of m base (some (o, len))
                  else acc)
                lg tab' (omega arith)
                (live_value o len (is_latest tag o latest) acc
                    (acc_none k len found acc lg (omega arith) tab' b j)
                  ∙ ap (λ z. if is_latest z o latest then value_of m base (some (o, len)) else none)
                      same))
        | inr f ↦ rw (f) (
            copied_of-judged k found (if not (len == 0) && is_latest tag o latest then acc else acc)
              lg (λ off. rw (f) at tab off)
              (Before-weaken found o (o + record_size len) (omega arith) b)
              (if_same (not (len == 0) && is_latest tag o latest) acc ∙ j))
      ]

  pub copied_of-last :
      (k : ℕ) {end : ℕ} {rs : List Rec}
      → Log m base area 0 rs end
      → TableOf latest (λ k'. last_of k' none rs)
      → copied_of k none rs ≡ value_of m base (last_of k none rs)
  copied_of-last k lg tab = copied_of-judged k none none lg (tab k) tt refl
