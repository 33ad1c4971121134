-- ===== src/Kv/Eeprom.antt =====
-- crates/kv/src/lib.rs: the trait `Eeprom` and the chain of fallible steps. The driver behind the trait
-- is the parameter `ee`. A read within the region does not fail.
use tower.Prelude.{ℕ, ◌+◌, ◌*◌, ◌≤◌, ◌<◌, ◌≡◌, Bool, true, false, none, List, length}
unfoldable pub use tower.Kv.Memory.{read}
pub use tower.Kv.Memory.{
  Mem, nth, KvError, backend, value_too_large, full, invalid_key, too_many_keys, stale, Result, ok,
  err,
}
use tower.Kv.Layout.{checked_gen}
use tower.Kv.Scan.{entry}

-- How a write that fails leaves the word in work.
pub data Cell : Type 0 where
  untouched erased garbled : Cell

abbrev pub LeftAs : Cell → ℕ → ℕ → Type 0
LeftAs untouched old now = now ≡ old
LeftAs erased old now = now ≡ 0
LeftAs garbled old now = Unit

-- No checksum passes over the word at `at`: with it no record begins there, and no superblock has it
-- for its generation.
pub record Caught (m : Mem) (at : ℕ) : Type 0 where
  pub no_record : (base area o : ℕ) → base + o ≡ at → entry m base area o ≡ none
  pub no_generation : (off : ℕ) → off + 4 ≡ at → checked_gen m off ≡ none

-- What a write may leave when it fails, as when power is cut in it: some words of it are programmed,
-- the word in work is as it was, erased, or garbled to any bytes, which the checksum over them
-- tells, and the words after it are as they were.
pub record Torn (m m' : Mem) (off : ℕ) (bytes : List ℕ) : Type 0 where
  pub words : ℕ
  pub cell : Cell
  pub before : (i : ℕ) → i < 4 * words → i < length bytes → m' (off + i) ≡ nth bytes i
  pub during :
      (i : ℕ)
      → 4 * words ≤ i
      → i < 4 * words + 4
      → i < length bytes
      → LeftAs cell (m (off + i)) (m' (off + i))
  pub after : (i : ℕ) → 4 * words + 4 ≤ i → i < length bytes → m' (off + i) ≡ m (off + i)
  pub caught : cell ≡ garbled → 4 * words < length bytes → Caught m' (off + 4 * words)

-- The trait, over a state `S`, and what the store relies on: a write changes nothing outside its span;
-- one that succeeds leaves its bytes there; one that fails tears at most one word, and the checksums
-- catch a garbled one.
pub record Eeprom (S : Type 0) : Type 0 where
  pub bytes : S → Mem
  pub write : S → ℕ → List ℕ → S × Bool
  pub below :
      (s : S) (off : ℕ) (d : List ℕ) (i : ℕ) → i < off → bytes (write s off d).0 i ≡ bytes s i
  pub above :
      (s : S) (off : ℕ) (d : List ℕ) (i : ℕ)
      → off + length d ≤ i
      → bytes (write s off d).0 i ≡ bytes s i
  pub written :
      (s : S) (off : ℕ) (d : List ℕ) (i : ℕ)
      → (write s off d).1 ≡ true
      → i < length d
      → bytes (write s off d).0 (off + i) ≡ nth d i
  pub torn :
      (s : S) (off : ℕ) (d : List ℕ)
      → (write s off d).1 ≡ false
      → Torn (bytes s) (bytes (write s off d).0) off d

abbrev pub M : Type 0 → Type 0 → Type 0
M S A = S → S × Result A

abbrev pub return : {S A : Type 0} → A → M S A
return a s = (s, ok a)

abbrev pub fail : {S A : Type 0} → KvError → M S A
fail e s = (s, err e)

abbrev pub then_do : {S A B : Type 0} → (A → M S B) → S × Result A → S × Result B
then_do f (s, ok a) = f a s
then_do f (s, err e) = (s, err e)

infixl 5 ◌>>=◌ ◌>>◌
abbrev pub ◌>>=◌ : {S A B : Type 0} → M S A → (A → M S B) → M S B
◌>>=◌ m f s = then_do f (m s)

abbrev pub ◌>>◌ : {S A B : Type 0} → M S A → M S B → M S B
m >> k = m >>= λ _. k

-- `write(..).map_err(KvError::Backend)?`
abbrev pub written_or_failed : {S : Type 0} → S × Bool → S × Result (Unit {0})
written_or_failed (s, true) = (s, ok tt)
written_or_failed (s, false) = (s, err backend)

unfoldable pub put : {S : Type 0} → Eeprom S → ℕ → List ℕ → M S (Unit {0})
put ee off d s = written_or_failed (ee.write s off d)

-- A step that depends on what the region holds.
abbrev pub reading : {S A : Type 0} → Eeprom S → (Mem → M S A) → M S A
reading ee f s = f (ee.bytes s) s
