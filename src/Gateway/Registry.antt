-- ===== src/Gateway/Registry.antt =====
-- crates/gateway/src/registry.rs: the node registry, one stored value per bucket of records. The
-- storage behind `BucketIo` and the `postcard` codec are the parameters `io` and `codec`.
pub mod Buckets
pub mod Rows
pub mod Changes
pub mod Insertion
pub mod Contents
pub mod Addition
mod Tests
use tower.Prelude.{
  ℕ, suc, ◌+◌, ◌≡◌, ◌≢◌, ◌⊎◌, Bool, true, false, Option, none, some, List, [], ◌∷◌, ◌++◌, length,
  ◌==◌, leb, ltb, if◌then◌else◌,
}

abbrev pub per_bucket : ℕ
per_bucket = 6

abbrev pub buckets : ℕ
buckets = 3

abbrev pub capacity : ℕ
capacity = 16

abbrev pub max_name : ℕ
max_name = 16

abbrev pub max_bucket_bytes : ℕ
max_bucket_bytes = 256

pub record NodeRecord : Type 0 where
  pub addr : ℕ
  pub key : List ℕ
  pub flags : ℕ
  pub name : List ℕ

abbrev pub Bucket : Type 0
Bucket = List NodeRecord

pub data RegistryError : Type 0 where
  full not_found bad_name exists storage : RegistryError

pub data Result : Type 0 where
  ok : Result
  err : RegistryError → Result

-- `Result<Option<usize>, IoError>` with the bytes that were read
pub data Loaded : Type 0 where
  absent : Loaded
  bytes : List ℕ → Loaded
  io_error : Loaded

-- The trait `BucketIo` over a state `S`, and what its callers rely on: a store that succeeds replaces
-- the value of its bucket; one that fails, as when a write of the EEPROM reports an error, has had that
-- effect or none; no store changes another bucket.
pub record BucketIo (S : Type 0) : Type 0 where
  pub load : S → ℕ → Loaded
  pub store : S → ℕ → List ℕ → S × Bool
  pub stored :
      (s : S) (i : ℕ) (b : List ℕ) → (store s i b).1 ≡ true → load (store s i b).0 i ≡ bytes b
  pub kept : (s : S) (i j : ℕ) (b : List ℕ) → j ≢ i → load (store s i b).0 j ≡ load s j
  pub failed :
      (s : S) (i : ℕ) (b : List ℕ)
      → (store s i b).1 ≡ false
      → (load (store s i b).0 i ≡ load s i) ⊎ (load (store s i b).0 i ≡ bytes b)

-- `postcard::to_slice` into `max_bucket_bytes` bytes and `postcard::from_bytes`.
pub record Codec : Type 0 where
  pub encode : Bucket → Option (List ℕ)
  pub decode : List ℕ → Option Bucket
  pub round_trip : (b : Bucket) (l : List ℕ) → encode b ≡ some l → decode l ≡ some b
  pub fits : (b : Bucket) (l : List ℕ) → encode b ≡ some l → leb (length l) max_bucket_bytes ≡ true

unfoldable pub or_empty : Option Bucket → Bucket
or_empty none = []
or_empty (some b) = b

unfoldable pub find_in : ℕ → Bucket → Option NodeRecord
find_in addr [] = none
find_in addr (r ∷ b) = if r.addr == addr then some r else find_in addr b

-- `position(|r| r.addr == addr)`, and the write of the changed record to that slot
unfoldable pub change_in : ℕ → (NodeRecord → NodeRecord) → Bucket → Option Bucket
change_in addr f [] = none
change_in addr f (r ∷ b) =
    let rest = change_in addr f b in
    if r.addr == addr then some (f r ∷ b) else elim rest [ none ↦ none | some b' ↦ some (r ∷ b') ]

-- `position(|r| r.addr == addr)`, and the removal of that slot
unfoldable pub remove_in : ℕ → Bucket → Option Bucket
remove_in addr [] = none
remove_in addr (r ∷ b) =
    let rest = remove_in addr b in
    if r.addr == addr then some b else elim rest [ none ↦ none | some b' ↦ some (r ∷ b') ]

abbrev pub renamed : Option (List ℕ) → NodeRecord → NodeRecord
renamed none r = r
renamed (some n) r = record r { name = n }

abbrev pub flagged : Option ℕ → NodeRecord → NodeRecord
flagged none r = r
flagged (some f) r = record r { flags = f }

-- `push_str` into a `String<MAX_NAME>` that is empty fails on a longer name.
unfoldable pub name_fits : Option (List ℕ) → Bool
name_fits none = true
name_fits (some n) = leb (length n) max_name

abbrev pub updated : Option (List ℕ) → Option ℕ → NodeRecord → NodeRecord
updated name flags r = flagged flags (renamed name r)

-- `0..BUCKETS`
abbrev pub indices : List ℕ
indices = 0 ∷ 1 ∷ 2 ∷ []

module _ {S : Type 0} (io : BucketIo S) (codec : Codec) where
  abbrev pub decoded : Loaded → Option Bucket
  decoded absent = some []
  decoded (bytes l) = if leb (length l) max_bucket_bytes then codec.decode l else none
  decoded io_error = none

  unfoldable pub load_checked : S → ℕ → Option Bucket
  load_checked s i = decoded (io.load s i)

  unfoldable pub load : S → ℕ → Bucket
  load s i = or_empty (load_checked s i)

  abbrev pub store_bytes : S → ℕ → Option (List ℕ) → S × Result
  store_bytes s i none = (s, err storage)
  store_bytes s i (some l) =
      let (s', done) = io.store s i l in (s', if done then ok else err storage)

  unfoldable pub store : S → ℕ → Bucket → S × Result
  store s i b = store_bytes s i (codec.encode b)

  unfoldable pub count_at : List ℕ → S → ℕ
  count_at [] s = 0
  count_at (i ∷ is) s = length (load s i) + count_at is s

  unfoldable pub count : S → ℕ
  count s = count_at indices s

  unfoldable pub find_at : List ℕ → S → ℕ → Option NodeRecord
  find_at [] s addr = none
  find_at (i ∷ is) s addr = elim (find_in addr (load s i)) [
    | none ↦ find_at is s addr
    | some r ↦ some r
  ]

  unfoldable pub find : S → ℕ → Option NodeRecord
  find s addr = find_at indices s addr

  -- A loop over the buckets that stores the first changed bucket: `change` gives nothing for a bucket
  -- without the address.
  unfoldable pub edit_at : List ℕ → S → (Bucket → Option Bucket) → Option (S × Result)
  edit_at [] s change = none
  edit_at (i ∷ is) s change = elim (change (load s i)) [
    | none ↦ edit_at is s change
    | some b ↦ some (store s i b)
  ]

  -- The second loop of `add`.
  unfoldable pub insert_at : List ℕ → S → NodeRecord → Bool → S × Result
  insert_at [] s rec_ unreadable = (s, err (if unreadable then storage else full))
  insert_at (i ∷ is) s rec_ unreadable = elim (load_checked s i) [
    | none ↦ insert_at is s rec_ true
    | some b ↦
        let rest = insert_at is s rec_ unreadable in
        if ltb (length b) per_bucket then store s i (b ++ (rec_ ∷ [])) else rest
  ]

  unfoldable pub add : S → NodeRecord → S × Result
  add s rec_ = elim (edit_at indices s (change_in rec_.addr (λ _. rec_))) [
    | some done ↦ done
    | none ↦ if leb capacity (count s) then (s, err full) else insert_at indices s rec_ false
  ]

  unfoldable pub add_new : S → NodeRecord → S × Result
  add_new s rec_ = elim (find s rec_.addr) [ some r ↦ (s, err exists) | none ↦ add s rec_ ]

  unfoldable pub remove : S → ℕ → S × Result
  remove s addr = elim (edit_at indices s (remove_in addr)) [
    | some done ↦ done
    | none ↦ (s, err not_found)
  ]

  unfoldable pub update : S → ℕ → Option (List ℕ) → Option ℕ → S × Result
  update s addr name flags = elim (edit_at indices s (change_in addr (updated name flags))) [
    | none ↦ (s, err not_found)
    | some done ↦ if name_fits name then done else (s, err bad_name)
  ]
