-- ===== src/Kv/Session.antt =====
-- The store as the firmware runs it: writes of keys with slices of maintenance between them.
use tower.Prelude.{
  none, ℕ, ◌+◌, ◌*◌, ◌%◌, ◌≤◌, ◌<◌, ◌≡◌, refl, sym, subst, ◌⊎◌, inl, inr, Bool, false, Bool-cases,
  Option, List, [], ◌∷◌, length, All, ◌==◌, u32_max, arith,
}
use tower.Kv.Eeprom.{Mem, Eeprom, Result, ok, err}
use tower.Kv.Layout.{half_len, half_base, max_value}
use tower.Kv.Scan.{get_bytes, scan_half}
use tower.Kv.Flip.{FlipState, compact_with}
use tower.Kv.Store.{with_pending, is_live, set_bytes_with, delete_with}
use tower.Kv.Maintenance.{MaintState, maintain}
use tower.Kv.Dead.{SameMap}
use tower.Kv.View.{with_value}
use tower.Kv.Removing.{absent-Updated}
use tower.Kv.Commands.{Map, is_ok, Outcome, finished, applied, dropped}
use tower.Kv.Pending.{Managed, KeptBy, maintain-KeptBy}
use tower.Kv.Setting.{Sound}
use tower.Kv.Steps.{Leaves}
use tower.Kv.CompactWith.{compact_with-Leaves}
use tower.Kv.Managing.{SetWith, set_bytes_with-SetWith, Managed-weaken}

module _ {S : Type 0} (ee : Eeprom S) (capacity : ℕ) where
  -- A `delete_with`, as a `set_bytes_with` of the empty value.
  pub delete_with-SetWith :
      (key : ℕ) (s : S) (n : ℕ) (p : Option FlipState)
      → 1 ≤ key
      → key < 65536
      → capacity ≤ u32_max
      → n + 1 < u32_max
      → Managed (ee.bytes s) capacity n p
      → SetWith ee capacity key [] (ee.bytes s) (n + 2) (delete_with ee capacity key p s)
  unfolding delete_with
  delete_with-SetWith key s n p k1 k2 small lt managed =
      let (h, g, f, le, w) = managed in
      let valid : (key == 0) ≡ false = ground arith in
      rw (valid, f.0)
        (elim (Bool-cases
          (is_live (scan_half (ee.bytes s) (half_base capacity h) (half_len capacity) key).1)) [
            | inl live ↦ rw (live) (
                set_bytes_with-SetWith ee capacity key [] k1 k2 (omega arith) s n p small lt
                  managed)
            | inr dead ↦ rw (dead) (
              ((h, g, f, omega arith), absent-Updated ee capacity s h g key f.0 dead),
              Managed-weaken (ee.bytes s) capacity n (n + 2) p (omega arith) managed,
            )
          ])

-- What the firmware asks of the store.
pub data Request : Type 0 where
  write_key : ℕ → List ℕ → Request
  drop_key : ℕ → Request
  tend : ℕ → ℕ → Request
  pack : Request

-- What a request does to the map.
abbrev pub request_effect : Request → Map → Map
request_effect (write_key key value) f = with_value key value f
request_effect (drop_key key) f = with_value key [] f
request_effect (tend budget threshold) f = f
request_effect pack f = f

abbrev pub IsValid : Request → Type 0
IsValid (write_key key value) = (1 ≤ key) × (key < 65536) × (length value ≤ max_value)
IsValid (drop_key key) = (1 ≤ key) × (key < 65536)
IsValid (tend budget threshold) = Unit
IsValid pack = Unit

-- The store and the state of its maintenance, and whether the request succeeded.
abbrev pub answered :
    {S : Type 0} → MaintState → S × Option FlipState × Result (Unit {0}) → S × MaintState × Bool
answered st (s, p, r) = (s, record st { pending = p }, is_ok r)

abbrev pub tended : {S : Type 0} → S × MaintState × Result Bool → S × MaintState × Bool
tended (s, st, r) = (s, st, is_ok r)

abbrev pub serve : {S : Type 0} → Eeprom S → ℕ → Request → MaintState → S → S × MaintState × Bool
serve ee capacity (write_key key value) st s =
    answered st (set_bytes_with ee capacity key value st.pending s)
serve ee capacity (drop_key key) st s = answered st (delete_with ee capacity key st.pending s)
serve ee capacity pack st s =
    answered st (with_pending none (compact_with ee capacity st.pending s))
serve ee capacity (tend budget threshold) st s = tended (maintain ee capacity st budget threshold s)

unfoldable pub session :
    {S : Type 0} → Eeprom S → ℕ → List Request → MaintState → S → S × MaintState × List Bool
session ee capacity [] st s = (s, st, [])
session ee capacity (r ∷ rs) st s =
    let p = serve ee capacity r st s in
    let rest = session ee capacity rs p.1 p.0 in (rest.0, rest.1, p.2 ∷ rest.2)

module _ {S : Type 0} (ee : Eeprom S) (capacity : ℕ) where
  -- The store is managed, and the cursor of the blanking is at a word.
  abbrev pub Ready : Mem → ℕ → MaintState → Type 0
  Ready m n st = Managed m capacity n st.pending × (st.blank_cursor.off % 4 ≡ 0)

  -- The request has had its effect, or it failed without one.
  abbrev Answer : Request → Mem → S × MaintState × Bool → Type 0
  Answer r m p =
      ((k : ℕ) → get_bytes (ee.bytes p.0) capacity k ≡ request_effect r (get_bytes m capacity) k)
      ⊎ ((p.2 ≡ false) × SameMap m (ee.bytes p.0) capacity)

  answered-Answer :
      (key : ℕ) (value : List ℕ) (m : Mem) (n : ℕ) (st : MaintState)
      (p : S × Option FlipState × Result (Unit {0}))
      → st.blank_cursor.off % 4 ≡ 0
      → SetWith ee capacity key value m n p
      → Ready (ee.bytes (answered st p).0) n (answered st p).1
        × Answer (write_key key value) m (answered st p)
  answered-Answer key value m n st (s', p, ok u) c (q, managed) = ((managed, c), inl q.1)
  answered-Answer key value m n st (s', p, err e) c ((sound, q), managed) =
      ((managed, c), elim q [ inl same ↦ inr (refl, same) | inr new ↦ inl new ])

  tended-Answer :
      (budget threshold : ℕ) (m : Mem) (n : ℕ) (p : S × MaintState × Result Bool)
      → KeptBy ee capacity m n p
      → Ready (ee.bytes (tended p).0) n (tended p).1 × Answer (tend budget threshold) m (tended p)
  tended-Answer budget threshold m n p (same, managed, c) = ((managed, c), inl same)

  packed-Answer :
      (m : Mem) (n : ℕ) (st : MaintState) (p : S × Result (Unit {0}))
      → st.blank_cursor.off % 4 ≡ 0
      → Leaves
          (λ u s'. Sound (ee.bytes s') capacity n × SameMap m (ee.bytes s') capacity)
          (λ s'. Sound (ee.bytes s') capacity n × SameMap m (ee.bytes s') capacity)
          p
      → Ready
          (ee.bytes (answered st (with_pending none p)).0)
          n
          (answered st (with_pending none p)).1
        × Answer pack m (answered st (with_pending none p))
  packed-Answer m n st (s', ok u) c ((h, g, f, le), same) = (((h, g, f, le, tt), c), inl same)
  packed-Answer m n st (s', err e) c ((h, g, f, le), same) = (((h, g, f, le, tt), c), inl same)

  module _ (small : capacity ≤ u32_max) where
    serve-Answer :
        (r : Request) (s : S) (n : ℕ) (st : MaintState)
        → IsValid r
        → n + 1 < u32_max
        → Ready (ee.bytes s) n st
        → Ready (ee.bytes (serve ee capacity r st s).0) (n + 2) (serve ee capacity r st s).1
          × Answer r (ee.bytes s) (serve ee capacity r st s)
    serve-Answer (write_key key value) s n st (k1, k2, v) lt (managed, c) =
        answered-Answer key value (ee.bytes s) (n + 2) st _ c
          (set_bytes_with-SetWith ee capacity key value k1 k2 v s n st.pending small lt managed)
    serve-Answer (drop_key key) s n st (k1, k2) lt (managed, c) =
        answered-Answer key [] (ee.bytes s) (n + 2) st _ c
          (delete_with-SetWith ee capacity key s n st.pending k1 k2 small lt managed)
    serve-Answer (tend budget threshold) s n st v lt ((h, g, f, le, w), c) =
        let (same, managed, c') =
          maintain-KeptBy ee capacity h g (omega arith) small s st budget threshold f w c in
        tended-Answer budget threshold (ee.bytes s) (n + 2)
          (maintain ee capacity st budget threshold s)
          (same, Managed-weaken _ capacity (g + 1) (n + 2) _ (omega arith) managed, c')
    serve-Answer pack s n st v lt (managed, c) =
        packed-Answer (ee.bytes s) (n + 2) st _ c
          (compact_with-Leaves ee capacity small s n st.pending lt managed)

    Outcome-answer :
        (r : Request) (rs : List Request) (bs : List Bool) (m : Mem) (f' : Map)
        (p : S × MaintState × Bool)
        → Answer r m p
        → Outcome request_effect rs bs (get_bytes (ee.bytes p.0) capacity) f'
        → Outcome request_effect (r ∷ rs) (p.2 ∷ bs) (get_bytes m capacity) f'
    Outcome-answer r rs bs m f' (s', st, b) (inl new) o =
        applied (get_bytes (ee.bytes s') capacity) new o
    Outcome-answer r rs bs m f' (s', st, b) (inr (failed, same)) o =
        subst (λ x. Outcome request_effect (r ∷ rs) (x ∷ bs) (get_bytes m capacity) f') (sym failed)
          (dropped (get_bytes (ee.bytes s') capacity) same o)

    -- Any session of valid requests (writes and removals of keys, compactions, and slices of
    -- maintenance of any budget and threshold) in a region of at most `u32::MAX` bytes, where a
    -- write may fail at any point of each: if the region is formatted with a generation from 1 to
    -- `n`, with the pending flip, if there is one, at work or of an earlier generation and the
    -- cursor of the blanking at a word, and `n` and twice the number of requests are `u32::MAX` at
    -- most together, then the same holds at the end, with `n` and twice that number; and the map is
    -- that of the requests in their order, where a slice and a compaction change nothing, a write
    -- or a removal that succeeded has had its whole effect, and one that failed has had its whole
    -- effect or none. A write that fails may stop between two words or leave the word in work
    -- erased, or garbled so that no checksum passes over it.
    pub session-Outcome :
        (rs : List Request) (s : S) (n : ℕ) (st : MaintState)
        → All IsValid rs
        → n + 2 * length rs ≤ u32_max
        → Ready (ee.bytes s) n st
        → Ready
            (ee.bytes (session ee capacity rs st s).0)
            (n + 2 * length rs)
            (session ee capacity rs st s).1
          × Outcome request_effect rs
              (session ee capacity rs st s).2
              (get_bytes (ee.bytes s) capacity)
              (get_bytes (ee.bytes (session ee capacity rs st s).0) capacity)
    unfolding session
    session-Outcome [] s n st v le ready =
        (subst (λ x. Ready (ee.bytes s) x st) (omega arith) ready, finished (λ k. refl))
    session-Outcome (r ∷ rs) s n st v le ready =
        let p = serve ee capacity r st s in
        let (ready1, answer) = serve-Answer r s n st v.0 (omega arith) ready in
        let (ready2, o) = session-Outcome rs p.0 (n + 2) p.1 v.1 (omega arith) ready1 in
        let last = session ee capacity rs p.1 p.0 in
        (
          subst (λ x. Ready (ee.bytes last.0) x last.1) (omega arith) ready2,
          Outcome-answer r rs last.2 (ee.bytes s) (get_bytes (ee.bytes last.0) capacity) p answer o,
        )
