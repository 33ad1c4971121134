-- ===== src/Radio/Ccm/Authentic.antt =====
-- What `open` accepts: what `seal` gives, and nothing else.
use Prim.Native.Nat.{bit_or, bit_xor}
use mathlib.Core.Option
use mathlib.Core.Option.{Option}
use tower.Prelude.{
  ℕ, ◌≡◌, ◌↔◌, inl, inr, refl, sym, ap, ap₂, ◌∙◌, true, false, not, none, some, List, [], ◌∷◌,
  length, ◌==◌, if◌then◌else◌, arith, bit_xor_self, bit_xor-zero→eq, bit_or-zero→zero, ==_iff,
  ==_refl, Bool-cases,
}
use tower.Radio.Ccm.{AesBlock, diff_of, ct_eq, ctr_apply, cbc_mac, tag_from, seal, open_}
use tower.Radio.Ccm.Bytewise.{ctr_apply-masked, masked-masked, stream_byte}

diff_of-zero :
    (diff : ℕ) (a b : List ℕ) → length a ≡ length b → diff_of diff a b ≡ 0 → (diff ≡ 0) × (a ≡ b)
unfolding diff_of
diff_of-zero diff [] [] len e = (e, refl)
diff_of-zero diff [] (y ∷ b) len e = absurd (omega arith)
diff_of-zero diff (x ∷ a) [] len e = absurd (omega arith)
diff_of-zero diff (x ∷ a) (y ∷ b) len e =
    let (none_yet, same) = diff_of-zero (bit_or diff (bit_xor x y)) a b (omega arith) e in
    let (before, here) = bit_or-zero→zero diff (bit_xor x y) none_yet in
    (before, ap₂ (◌∷◌) (bit_xor-zero→eq x y here) same)

diff_of_self : (a : List ℕ) → diff_of 0 a a ≡ 0
unfolding diff_of
diff_of_self [] = refl
diff_of_self (x ∷ a) = ap (λ t. diff_of t a a) (ap (bit_or 0) (bit_xor_self x)) ∙ diff_of_self a

ct_eq→eq : (a b : List ℕ) → ct_eq a b ≡ true → a ≡ b
unfolding ct_eq
ct_eq→eq a b e = elim (Bool-cases (length a == length b)) [
  | inl same ↦
      (let by_diff : (diff_of 0 a b == 0) ≡ true =
          sym (ap (λ t. if not t then false else (diff_of 0 a b == 0)) same) ∙ e in
        (diff_of-zero 0 a b ((==_iff _ _).0 same) ((==_iff _ _).0 by_diff)).1)
  | inr other ↦ absurd (ground (arith, other, e))
]

ct_eq_refl : (a : List ℕ) → ct_eq a a ≡ true
unfolding ct_eq
ct_eq_refl a = rw (==_refl (length a), diff_of_self a) refl

map-some :
    {A B : Type 0} (f : A → B) (o : Option A) (b : B)
    → Option.map f o ≡ some b
    → (a : A) × (o ≡ some a) × (f a ≡ b)
map-some f none b e = absurd (ground arith)
map-some f (some a) b e = (a, refl, ap (λ o. elim o [ none ↦ f a | some x ↦ x ]) e)

module _ (aes : AesBlock) (key nonce aad : List ℕ) where
  pub ctr_apply-ctr_apply :
      length nonce ≡ 13
      → (message : List ℕ) → ctr_apply aes key nonce (ctr_apply aes key nonce message) ≡ message
  ctr_apply-ctr_apply len message =
      ap (ctr_apply aes key nonce) (ctr_apply-masked aes key nonce len message)
      ∙ ctr_apply-masked aes key nonce len _
      ∙ masked-masked (stream_byte aes key nonce) 0 message

  -- `open` gives the verdict true and a message exactly when `seal` gives the ciphertext and the tag
  -- for that message.
  pub open_iff :
      (message sealed tag : List ℕ)
      → length nonce ≡ 13
      → (open_ aes key nonce aad sealed tag ≡ some (true, message))
        ↔ (seal aes key nonce aad message ≡ some (sealed, tag))
  unfolding open_ seal
  open_iff message sealed tag len = (opened, sealed_by)
    where
      opened :
          open_ aes key nonce aad sealed tag ≡ some (true, message)
          → seal aes key nonce aad message ≡ some (sealed, tag)
      opened e =
          let (mac, has_mac, result) =
            map-some _ (cbc_mac aes key nonce aad (ctr_apply aes key nonce sealed)) _ e in
          let clear : ctr_apply aes key nonce sealed ≡ message = ap (λ r. r.1) result in
          let back : ctr_apply aes key nonce message ≡ sealed =
            ap (ctr_apply aes key nonce) (sym clear) ∙ ctr_apply-ctr_apply len sealed in
          let same_tag : tag_from aes key nonce mac ≡ tag = ct_eq→eq _ _ (ap (λ r. r.0) result) in
          ap (Option.map _) (ap (cbc_mac aes key nonce aad) (sym clear) ∙ has_mac)
          ∙ ap₂ (λ c t. some (c, t)) back same_tag

      sealed_by :
          seal aes key nonce aad message ≡ some (sealed, tag)
          → open_ aes key nonce aad sealed tag ≡ some (true, message)
      sealed_by e =
          let (mac, has_mac, result) = map-some _ (cbc_mac aes key nonce aad message) _ e in
          let clear : ctr_apply aes key nonce sealed ≡ message =
            ap (ctr_apply aes key nonce) (sym (ap (λ r. r.0) result))
            ∙ ctr_apply-ctr_apply len message in
          let same_tag : tag_from aes key nonce mac ≡ tag = ap (λ r. r.1) result in
          ap (Option.map _) (ap (cbc_mac aes key nonce aad) clear ∙ has_mac)
          ∙ ap₂ (λ v m. some (v, m))
              (ap (ct_eq (tag_from aes key nonce mac)) (sym same_tag) ∙ ct_eq_refl _) clear
