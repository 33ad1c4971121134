-- ===== src/Protocol/Ring/Fifo.antt =====
-- The ring is a queue: what is pushed comes out in its order.
use tower.Prelude.{
  ℕ, suc, ◌+◌, ◌-◌, ◌%◌, ◌≤◌, ◌<◌, ◌≡◌, inl, inr, refl, sym, ap, ap₂, subst, ◌∙◌, min, some, List,
  [], ◌∷◌, ◌++◌, length, take, length-append, length-take, true, false, ltb, ltb→lt, Bool-cases,
  ◌==◌, arith,
}
use native.Mathlib.Nat.{mod-lt, mod-add-mod, mod-eq-sub-mod}
use tower.Protocol.Frame.{MsgType, as_u8}
use tower.Protocol.Frame.RoundTrip.{from_u8-as_u8}
use tower.Protocol.Ring.{
  PayloadRing, record_overhead, push, pop, peek, parsed, popped, skip, fits, write_at, read_at,
}
use tower.Protocol.Ring.Bounds.{IsValid, fits-le, push-IsValid}
use mathlib.Core.List.{append-nil, append_assoc}
use tower.Protocol.Ring.Bytes.{
  nth, nth-append, nth-take, write_at-inside, write_at-outside, length-read_at, nth-read_at,
}

-- The records of a queue, the oldest first, as bytes.
abbrev pub Queued : Type 0
Queued = MsgType × List ℕ

unfoldable pub encode : List Queued → List ℕ
encode [] = []
encode ((t, payload) ∷ items) = as_u8 t ∷ length payload ∷ (payload ++ encode items)

nth_ext :
    (a b : List ℕ) → length a ≡ length b → ((i : ℕ) → i < length a → nth a i ≡ nth b i) → a ≡ b
nth_ext [] [] e h = refl
nth_ext [] (y ∷ b) e h = absurd (omega arith)
nth_ext (x ∷ a) [] e h = absurd (omega arith)
nth_ext (x ∷ a) (y ∷ b) e h =
    ap₂ (◌∷◌) (h 0 (omega arith)) (nth_ext a b (omega arith) (λ i lt. h (suc i) (omega arith)))

encode-append :
    (items items' : List Queued) → encode (items ++ items') ≡ encode items ++ encode items'
unfolding encode
encode-append [] items' = refl
encode-append ((t, p) ∷ items) items' =
    ap (λ l. as_u8 t ∷ length p ∷ l)
      (ap (λ l. p ++ l) (encode-append items items')
        ∙ sym (append_assoc p (encode items) (encode items')))

module _ (n : ℕ) (pos : 0 < n) where
  -- The bytes in use, from the oldest one on, are those of the queue.
  abbrev pub Holds : PayloadRing → List Queued → Type 0
  Holds r items =
      (length (encode items) ≡ r.len)
      × ((i : ℕ) → i < r.len → r.buf ((r.head + i) % n) ≡ nth (encode items) i)

  same_place : (a j x : ℕ) → a + j ≡ x → (a % n + j) % n ≡ x % n
  same_place a j x e = mod-add-mod a n j ∙ ap (λ z. z % n) e

  place_round : (a j x : ℕ) → a + j ≡ x + n → (a % n + j) % n ≡ x % n
  place_round a j x e =
      mod-add-mod a n j ∙ mod-eq-sub-mod (omega arith) ∙ ap (λ z. z % n) (omega arith)

  module _ (r : PayloadRing) (t : MsgType) (p : List ℕ) (fit : 2 + length p ≤ n - r.len) where
    abbrev record_header : List ℕ
    record_header = as_u8 t ∷ length p ∷ []

    abbrev at : ℕ
    at = (r.head + r.len) % n

    abbrev at2 : ℕ
    at2 = (at + 2) % n

    abbrev buf1 : ℕ → ℕ
    buf1 = write_at n r.buf at record_header

    pushed_old :
        (i : ℕ) → i < r.len → write_at n buf1 at2 p ((r.head + i) % n) ≡ r.buf ((r.head + i) % n)
    pushed_old i h =
        let j1 = n - r.len + i in
        let j2 = n - r.len - 2 + i in
        let e1 : (at + j1) % n ≡ (r.head + i) % n =
          place_round (r.head + r.len) j1 (r.head + i) (omega arith) in
        let e2 : (at2 + j2) % n ≡ (r.head + i) % n =
          same_place (at + 2) j2 (at + j1) (omega arith) ∙ e1 in
        ap (write_at n buf1 at2 p) (sym e2)
        ∙ write_at-outside n buf1 at2 (mod-lt (at + 2) pos) p j2 (omega arith) (omega arith)
            (omega arith)
        ∙ ap buf1 (e2 ∙ sym e1)
        ∙ write_at-outside n r.buf at (mod-lt (r.head + r.len) pos) record_header j1 (omega arith)
            (omega arith) (omega arith)
        ∙ ap r.buf e1

    pushed_new :
        (j : ℕ)
        → j < 2 + length p
        → write_at n buf1 at2 p ((r.head + (r.len + j)) % n) ≡ nth (record_header ++ p) j
    pushed_new j h =
        let e1 : (at + j) % n ≡ (r.head + (r.len + j)) % n =
          same_place (r.head + r.len) j (r.head + (r.len + j)) (omega arith) in
        elim (Bool-cases (ltb j 2)) [
          | inl low ↦
              let small : j < 2 = ltb→lt j 2 low in
              let j2 = n - 2 + j in
              let e2 : (at2 + j2) % n ≡ (at + j) % n =
                place_round (at + 2) j2 (at + j) (omega arith) in
              ap (write_at n buf1 at2 p) (sym (e2 ∙ e1))
              ∙ write_at-outside n buf1 at2 (mod-lt (at + 2) pos) p j2 (omega arith) (omega arith)
                  (omega arith)
              ∙ ap buf1 e2
              ∙ write_at-inside n r.buf at (mod-lt (r.head + r.len) pos) record_header j
                  (omega arith) small
              ∙ sym (nth-append record_header p j ∙ (rw (low) refl))
          | inr high ↦
              let large : 2 ≤ j = ground (arith, high) in
              let e2 : (at2 + (j - 2)) % n ≡ (at + j) % n =
                same_place (at + 2) (j - 2) (at + j) (omega arith) in
              ap (write_at n buf1 at2 p) (sym (e2 ∙ e1))
              ∙ write_at-inside n buf1 at2 (mod-lt (at + 2) pos) p (j - 2) (omega arith)
                  (omega arith)
              ∙ sym (nth-append record_header p j ∙ (rw (high) refl))
        ]

  -- A record that fits goes behind the others.
  pub push-Holds :
      (r : PayloadRing) (items : List Queued) (t : MsgType) (p : List ℕ)
      → fits n r (length p) ≡ true
      → IsValid n r
      → Holds r items
      → ((push n r t p).1 ≡ true) × Holds (push n r t p).0 (items ++ ((t, p) ∷ []))
  unfolding push encode
  push-Holds r items t p ok v (used, bytes) =
      let fit : 2 + length p ≤ n - r.len = (fits-le n pos r (length p) ok).1 in
      let all = encode-append items ((t, p) ∷ []) in
      let new = record_header r t p fit ++ (p ++ []) in
      let buf' = write_at n (buf1 r t p fit) (at2 r t p fit) p in
      let size : length (encode items ++ new) ≡ r.len + (record_overhead + length p) =
        omega (arith, used, length-append (encode items) new, length-append p []) in
      rw (ok) (
        refl,
        (
          ap length all ∙ size,
          λ i h. elim (Bool-cases (ltb i r.len)) [
            | inl old ↦
                let lt : i < r.len = ltb→lt i r.len old in
                let side : ltb i (length (encode items)) ≡ true = ground (arith, used, lt) in
                pushed_old r t p fit i lt
                ∙ bytes i lt
                ∙ sym (ap (λ l. nth l i) all ∙ nth-append (encode items) new i ∙ (rw (side) refl))
            | inr fresh ↦
                let ge : r.len ≤ i = ground (arith, fresh) in
                let side : ltb i (length (encode items)) ≡ false = ground (arith, used, ge) in
                let whole : p ++ [] ≡ p = append-nil p in
                ap (λ x. buf' ((r.head + x) % n)) (omega (arith, ge))
                ∙ pushed_new r t p fit (i - r.len) (omega arith)
                ∙ sym (
                    ap (λ l. nth l i) all
                    ∙ nth-append (encode items) new i
                    ∙ (rw (side) (
                        ap₂ (λ l x. nth (record_header r t p fit ++ l) x) whole
                          (omega (arith, used)))))
          ],
        ),
      )

  popped_place : (r : PayloadRing) (u i : ℕ) → ((r.head + u) % n + i) % n ≡ (r.head + (u + i)) % n
  popped_place r u i = same_place (r.head + u) i (r.head + (u + i)) (omega arith)

  module _ (r : PayloadRing) (items : List Queued) (t : MsgType) (p : List ℕ) (v : IsValid n r)
      (holds : Holds r ((t, p) ∷ items)) where
    rest_used : 2 + length p + length (encode items) ≡ r.len
    unfolding encode
    rest_used = omega (arith, holds.0, length-append p (encode items))

    byte_at :
        (i : ℕ)
        → i < length p + length (encode items)
        → r.buf ((r.head + suc (suc i)) % n) ≡ nth (p ++ encode items) i
    unfolding encode
    byte_at i h = holds.1 (suc (suc i)) (omega (arith, rest_used))

    oldest_header : read_at n r.buf r.head record_overhead ≡ as_u8 t ∷ length p ∷ []
    unfolding encode
    oldest_header =
        let le : r.len ≤ n = v.bounded in
        let size = length-read_at n r.buf r.head v.inside record_overhead in
        nth_ext (read_at n r.buf r.head record_overhead) (as_u8 t ∷ length p ∷ []) size (λ i h.
          let small : i < 2 = omega (arith, size) in
          let side : ltb i 2 ≡ true = ground (arith, small) in
          nth-read_at n r.buf r.head v.inside record_overhead i (omega (arith, rest_used)) small
          ∙ holds.1 i (omega (arith, rest_used))
          ∙ nth-append (as_u8 t ∷ length p ∷ []) (p ++ encode items) i
          ∙ (rw (side) refl))

    peek-oldest : peek n r ≡ (r, some (t, length p))
    unfolding peek
    peek-oldest =
        let used : (r.len == 0) ≡ false = ground (arith, rest_used) in
        (rw (used) refl) ∙ ap (parsed n r) oldest_header ∙ (rw (from_u8-as_u8 t, parsed) refl)

    oldest_payload :
        (out_len : ℕ)
        → read_at n r.buf ((r.head + record_overhead) % n) (min (length p) out_len) ≡ take out_len p
    oldest_payload out_len =
        let le : r.len ≤ n = v.bounded in
        let k = min (length p) out_len in
        let from = (r.head + record_overhead) % n in
        let inside = mod-lt (r.head + record_overhead) pos in
        let size = length-read_at n r.buf from inside k in
        nth_ext (read_at n r.buf from k) (take out_len p)
          (omega (arith, size, length-take out_len p))
          (λ i h.
            let small : i < k = omega (arith, size) in
            let side : ltb i (length p) ≡ true = ground (arith, small) in
            nth-read_at n r.buf from inside k i (omega (arith, rest_used)) small
            ∙ ap r.buf (popped_place r record_overhead i)
            ∙ ap (λ x. r.buf ((r.head + x) % n)) (omega arith)
            ∙ byte_at i (omega arith)
            ∙ nth-append p (encode items) i
            ∙ (rw (side) (sym (nth-take out_len p i (omega arith)))))

    skip-Holds : Holds (skip n r (length p)) items
    unfolding skip
    skip-Holds =
        let u = min (record_overhead + length p) r.len in
        (
          omega (arith, rest_used),
          λ i h.
              let left : i < length (encode items) = omega (arith, rest_used) in
              let some_left : (r.len - u == 0) ≡ false = ground (arith, rest_used, left) in
              let side : ltb (length p + i) (length p) ≡ false = ground arith in
              rw (some_left) (
                ap r.buf (popped_place r u i)
                ∙ ap (λ x. r.buf ((r.head + x) % n)) (omega (arith, rest_used))
                ∙ byte_at (length p + i) (omega arith)
                ∙ nth-append p (encode items) (length p + i)
                ∙ (rw (side) (ap (nth (encode items)) (omega arith)))),
        )

    -- The oldest record comes out, with as much of its payload as there is room for.
    pub pop-Holds :
        (out_len : ℕ)
        → ((pop n out_len r).1 ≡ some (t, take out_len p)) × Holds (pop n out_len r).0 items
    unfolding pop
    pop-Holds out_len =
        let oldest : pop n out_len r ≡ (skip n r (length p), some (t, take out_len p)) =
          ap (popped n out_len) peek-oldest
          ∙ ap (λ l. (skip n r (length p), some (t, l))) (oldest_payload out_len) in
        subst (λ q. (q.1 ≡ some (t, take out_len p)) × Holds q.0 items) (sym oldest)
          (refl, skip-Holds)

  -- The ring is a queue: when it holds the records `(t, p) ∷ items` and the new record fits, the
  -- push succeeds, the pop after it gives the oldest record `t`, with as much of its payload `p` as
  -- there is room for, and the ring then holds the other records and the new one behind them.
  pub pop-push :
      (r : PayloadRing) (items : List Queued) (t t' : MsgType) (p p' : List ℕ) (out_len : ℕ)
      → fits n r (length p') ≡ true
      → IsValid n r
      → Holds r ((t, p) ∷ items)
      → let (r', done) = push n r t' p' in
        (done ≡ true)
        × ((pop n out_len r').1 ≡ some (t, take out_len p))
        × Holds (pop n out_len r').0 (items ++ ((t', p') ∷ []))
  pop-push r items t t' p p' out_len ok v holds =
      let pushed = push-Holds r ((t, p) ∷ items) t' p' ok v holds in
      let valid = (push-IsValid n pos r t' p' v).0 in
      let taken =
        pop-Holds (push n r t' p').0 (items ++ ((t', p') ∷ [])) t p valid pushed.1 out_len in
      (pushed.0, taken.0, taken.1)
