-- ===== src/Gateway/Registry/Tests.antt =====
-- A registry in memory, with a codec that writes lengths before keys and names.
use tower.Prelude.{
  ℕ, zero, suc, ◌≡◌, ◌≢◌, refl, subst, true, false, Option, none, some, List, [], ◌∷◌, ◌++◌, length,
  take, drop, take-append, drop-append, ◌==◌, leb, if◌then◌else◌, arith,
}
use tower.Gateway.Registry.{
  NodeRecord, Bucket, BucketIo, Codec, Loaded, absent, bytes, err, max_bucket_bytes, find, count,
  add, add_new, exists, count_at, find_at, edit_at, insert_at, load, load_checked, or_empty, store,
  find_in, change_in,
}
use tower.Gateway.Registry.Buckets.{occurs}
use tower.Gateway.Registry.Contents.{IsValid}
use tower.Gateway.Registry.Addition.{AddHolds, add_lem}
use tower.Gateway.Registry.Changes.{all_at}

unfoldable packed : Bucket → List ℕ
packed [] = []
packed (r ∷ b) = r.addr ∷ r.flags ∷ length r.key ∷ length r.name ∷ (r.key ++ (r.name ++ packed b))

abbrev with_rest : NodeRecord → Option Bucket → Option Bucket
with_rest r none = none
with_rest r (some b) = some (r ∷ b)

unfoldable unpacked : ℕ → List ℕ → Option Bucket
unpacked zero l = some []
unpacked (suc n) (a ∷ f ∷ k ∷ m ∷ l) =
    let rest = unpacked n (drop m (drop k l)) in
    let r : NodeRecord = record { addr = a; key = take k l; flags = f; name = take m (drop k l) } in
    with_rest r rest
unpacked (suc n) _ = none

abbrev encode : Bucket → Option (List ℕ)
encode b = let l = length b ∷ packed b in if leb (length l) max_bucket_bytes then some l else none

abbrev decode : List ℕ → Option Bucket
decode [] = none
decode (n ∷ l) = unpacked n l

unpacked-packed : (b : Bucket) → unpacked (length b) (packed b) ≡ some b
unfolding unpacked packed
unpacked-packed [] = refl
unpacked-packed (r ∷ b) =
    rw
      (
        drop-append r.key (r.name ++ packed b),
        drop-append r.name (packed b),
        take-append r.key (r.name ++ packed b),
        take-append r.name (packed b),
        unpacked-packed b,
      )
      refl

encoded : (b : Bucket) (l : List ℕ) → encode b ≡ some l → (length b ∷ packed b) ≡ l
encoded b l e = ground arith

encode-fits : (b : Bucket) (l : List ℕ) → encode b ≡ some l → leb (length l) max_bucket_bytes ≡ true
encode-fits b l e = ground arith

abbrev codec : Codec
codec = record {
  encode = encode;
  decode = decode;
  round_trip = λ b l e. subst (λ x. decode x ≡ some b) (encoded b l e) (unpacked-packed b);
  fits = encode-fits;
}

abbrev written : (ℕ → Loaded) → ℕ → List ℕ → ℕ → Loaded
written s i b j = if j == i then bytes b else s j

written-here : (s : ℕ → Loaded) (i : ℕ) (b : List ℕ) → written s i b i ≡ bytes b
written-here s i b = ground arith

written-other : (s : ℕ → Loaded) (i j : ℕ) (b : List ℕ) → j ≢ i → written s i b j ≡ s j
written-other s i j b ne = ground arith

never : {P : Type 0} → true ≡ false → P
never e = absurd (cc)

abbrev memory : BucketIo (ℕ → Loaded)
memory = record {
  load = λ s i. s i;
  store = λ s i b. (written s i b, true);
  stored = λ s i b e. written-here s i b;
  kept = written-other;
  failed = λ s i b e. never e;
}

abbrev start : ℕ → Loaded
start i = absent

abbrev node : NodeRecord
node = record { addr = 77; key = 1 ∷ 2 ∷ []; flags = 0; name = [] }

abbrev other : NodeRecord
other = record { addr = 77; key = 9 ∷ 9 ∷ []; flags = 0; name = [] }

start-IsValid : IsValid memory codec start
unfolding all_at load load_checked or_empty occurs count count_at
start-IsValid = record { unique = λ a. omega arith; bounded = omega arith }

abbrev one : ℕ → Loaded
one = (add memory codec start node).0

one-IsValid : IsValid memory codec one
one-IsValid = (add_lem memory codec start node start-IsValid).2.0

one_holds : find memory codec one 77 ≡ some node
unfolding add edit_at insert_at load load_checked or_empty find_in change_in store count count_at
    find find_at packed unpacked
one_holds = refl

one-keeps_key : (add_new memory codec one other).1 ≡ err exists
unfolding add add_new edit_at insert_at load load_checked or_empty find_in change_in store count
    count_at find find_at packed unpacked
one-keeps_key = refl

add_lem_example : AddHolds memory codec one other (add memory codec one other)
add_lem_example = add_lem memory codec one other one-IsValid
