-- ===== src/Kv/Commands.antt =====
-- The store over a sequence of commands, any of which may be cut: it refines a map.
use tower.Prelude.{
  ℕ, ◌+◌, ◌≤◌, ◌<◌, ◌≡◌, refl, subst, ◌⊎◌, inl, inr, Bool, true, false, Option, none, List, [], ◌∷◌,
  length, All, u32_max, arith,
}
use tower.Kv.Eeprom.{Mem, Eeprom, M, Result, ok, err}
use tower.Kv.Layout.{max_value}
use tower.Kv.Scan.{get_bytes}
use tower.Kv.Flip.{compact}
use tower.Kv.Store.{set_bytes, delete, wipe}
use tower.Kv.Steps.{Leaves, Leaves-weaken}
use tower.Kv.View.{with_value}
use tower.Kv.Setting.{Sound, set_bytes-Leaves}
use tower.Kv.Removing.{Compacted, delete-Leaves, compact-Leaves}
use tower.Kv.Wiping.{wipe-Leaves}

pub data Command : Type 0 where
  set_to : ℕ → List ℕ → Command
  remove : ℕ → Command
  pack erase : Command

abbrev pub Map : Type 0
Map = ℕ → Option (List ℕ)

-- What a command does to the map.
abbrev pub effect : Command → Map → Map
effect (set_to key value) f = with_value key value f
effect (remove key) f = with_value key [] f
effect pack f = f
effect erase f = λ k. none

abbrev pub IsValid : Command → Type 0
IsValid (set_to key value) = (1 ≤ key) × (key < 65536) × (length value ≤ max_value)
IsValid (remove key) = (1 ≤ key) × (key < 65536)
IsValid pack = Unit
IsValid erase = Unit

abbrev pub execute : {S : Type 0} → Eeprom S → ℕ → Command → M S (Unit {0})
execute ee capacity (set_to key value) = set_bytes ee capacity key value
execute ee capacity (remove key) = delete ee capacity key
execute ee capacity pack = compact ee capacity
execute ee capacity erase = wipe ee capacity

abbrev pub is_ok : {A : Type 0} → Result A → Bool
is_ok (ok a) = true
is_ok (err e) = false

-- The commands one after the other, each from what the last one left, and which of them succeeded.
unfoldable pub run : {S : Type 0} → Eeprom S → ℕ → List Command → S → S × List Bool
run ee capacity [] s = (s, [])
run ee capacity (c ∷ cs) s =
    let p = execute ee capacity c s in
    let rest = run ee capacity cs p.0 in (rest.0, is_ok p.1 ∷ rest.1)

-- Of commands with these effects: one that succeeded has had its effect on the map; one that failed has
-- had it or none.
pub data Outcome {C : Type 0} (does : C → Map → Map) : List C → List Bool → Map → Map → Type 0 where
  finished : {f f' : Map} → ((k : ℕ) → f' k ≡ f k) → Outcome does [] [] f f'
  applied :
      {c : C} {cs : List C} {b : Bool} {bs : List Bool} {f f' : Map} (g : Map)
      → ((k : ℕ) → g k ≡ does c f k)
      → Outcome does cs bs g f'
      → Outcome does (c ∷ cs) (b ∷ bs) f f'
  dropped :
      {c : C} {cs : List C} {bs : List Bool} {f f' : Map} (g : Map)
      → ((k : ℕ) → g k ≡ f k)
      → Outcome does cs bs g f'
      → Outcome does (c ∷ cs) (false ∷ bs) f f'

module _ {S : Type 0} (ee : Eeprom S) (capacity : ℕ) where
  abbrev Executed : Command → Mem → ℕ → Unit {0} → S → Type 0
  Executed c m n u s' =
      Sound (ee.bytes s') capacity n
      × ((k : ℕ) → get_bytes (ee.bytes s') capacity k ≡ effect c (get_bytes m capacity) k)

  abbrev ExecutedOrNot : Command → Mem → ℕ → S → Type 0
  ExecutedOrNot c m n s' =
      Sound (ee.bytes s') capacity n
      × (((k : ℕ) → get_bytes (ee.bytes s') capacity k ≡ get_bytes m capacity k)
          ⊎ ((k : ℕ) → get_bytes (ee.bytes s') capacity k ≡ effect c (get_bytes m capacity) k))

  module _ (small : capacity ≤ u32_max) where
    execute-Leaves :
        (c : Command) (s : S) (n : ℕ)
        → IsValid c
        → Sound (ee.bytes s) capacity n
        → n < u32_max
        → Leaves
            (Executed c (ee.bytes s) (n + 1))
            (ExecutedOrNot c (ee.bytes s) (n + 1))
            (execute ee capacity c s)
    execute-Leaves (set_to key value) s n (k1, k2, v) sound lt =
        set_bytes-Leaves ee capacity key value k1 k2 v s n small sound lt
    execute-Leaves (remove key) s n (k1, k2) sound lt =
        delete-Leaves ee capacity key s n k1 k2 small sound lt
    execute-Leaves pack s n v sound lt =
        Leaves-weaken (λ u s'. Compacted ee capacity s (n + 1) s') (Compacted ee capacity s (n + 1))
          (Executed pack (ee.bytes s) (n + 1)) (ExecutedOrNot pack (ee.bytes s) (n + 1))
          (compact ee capacity s) (compact-Leaves ee capacity s n small sound lt) (λ u s' r. r)
          (λ s' (so, same). (so, inl same))
    execute-Leaves erase s n v sound lt = wipe-Leaves ee capacity s n small sound lt

    -- One command before the others.
    Outcome-step :
        (c : Command) (cs : List Command) (bs : List Bool) (m : Mem) (n : ℕ) (f' : Map)
        (p : S × Result (Unit {0}))
        → Leaves (Executed c m n) (ExecutedOrNot c m n) p
        → Outcome effect cs bs (get_bytes (ee.bytes p.0) capacity) f'
        → Outcome effect (c ∷ cs) (is_ok p.1 ∷ bs) (get_bytes m capacity) f'
    Outcome-step c cs bs m n f' (s', ok u) (sound, e) o =
        applied (get_bytes (ee.bytes s') capacity) e o
    Outcome-step c cs bs m n f' (s', err x) (sound, e) o = elim e [
      | inl same ↦ dropped (get_bytes (ee.bytes s') capacity) same o
      | inr new ↦ applied (get_bytes (ee.bytes s') capacity) new o
    ]

    Leaves-Sound :
        (c : Command) (m : Mem) (n : ℕ) (p : S × Result (Unit {0}))
        → Leaves (Executed c m n) (ExecutedOrNot c m n) p
        → Sound (ee.bytes p.0) capacity n
    Leaves-Sound c m n (s', ok u) q = q.0
    Leaves-Sound c m n (s', err x) q = q.0

    -- In a region of at most `u32::MAX` bytes that is formatted (one half is active, with a
    -- generation from 1 to `n`, and the generation of the other superblock, where its checksum is
    -- right, is older or the next one), any sequence of valid commands, where `n` and their number
    -- are `u32::MAX` at most together, each of them cut at any write: at the end the region is
    -- formatted, and the map is that of the commands in their order, where each one that succeeded
    -- has had its whole effect and each one that failed has had its whole effect or none. A write
    -- that fails may stop between two words or leave the word in work erased, or garbled so that no
    -- checksum passes over it.
    pub run-Outcome :
        (cs : List Command) (s : S) (n : ℕ)
        → All IsValid cs
        → Sound (ee.bytes s) capacity n
        → n + length cs ≤ u32_max
        → Sound (ee.bytes (run ee capacity cs s).0) capacity (n + length cs)
          × Outcome effect cs
              (run ee capacity cs s).1
              (get_bytes (ee.bytes s) capacity)
              (get_bytes (ee.bytes (run ee capacity cs s).0) capacity)
    unfolding run
    run-Outcome [] s n v sound le =
        (subst (Sound (ee.bytes s) capacity) (omega arith) sound, finished (λ k. refl))
    run-Outcome (c ∷ cs) s n v sound le =
        let q = execute-Leaves c s n v.0 sound (omega arith) in
        let s1 = (execute ee capacity c s).0 in
        let (sound', o) =
          run-Outcome cs s1 (n + 1) v.1
            (Leaves-Sound c (ee.bytes s) (n + 1) (execute ee capacity c s) q) (omega arith) in
        (
          subst (Sound (ee.bytes (run ee capacity cs s1).0) capacity) (omega arith) sound',
          Outcome-step c cs (run ee capacity cs s1).1 (ee.bytes s) (n + 1) _
              (execute ee capacity c s) q o,
        )
