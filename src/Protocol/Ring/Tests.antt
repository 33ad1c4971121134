-- ===== src/Protocol/Ring/Tests.antt =====
-- A ring of 300 bytes with two records.
use tower.Prelude.{ℕ, ◌<◌, ◌≡◌, refl, some, List, [], ◌∷◌, length, take, true, arith}
use tower.Protocol.Frame.{log, print, as_u8, from_u8}
use tower.Protocol.Ring.{
  PayloadRing, new, room, fits, push, pop, peek, skip, clear, write_at, read_at, copy_in, copy_out,
}
use tower.Protocol.Ring.Bounds.{IsValid, push-IsValid}
use tower.Protocol.Ring.Fifo.{Holds, encode, push-Holds, pop-push}

abbrev two : PayloadRing
two = (push 300 (push 300 new log (7 ∷ 8 ∷ [])).0 print (9 ∷ [])).0

first_out : (pop 300 247 two).1 ≡ some (log, 7 ∷ 8 ∷ [])
unfolding pop peek push fits write_at read_at copy_in copy_out new as_u8 from_u8
first_out = refl

two_counted : (clear 300 7 two).1 ≡ 2
unfolding clear peek skip push fits write_at read_at copy_in copy_out new as_u8 from_u8
two_counted = refl

new-IsValid : IsValid 300 new
unfolding new
new-IsValid = record { inside = omega arith; bounded = omega arith }

three_hundred : 0 < 300
three_hundred = omega arith

two-IsValid : IsValid 300 two
two-IsValid =
    (push-IsValid 300 three_hundred (push 300 new log (7 ∷ 8 ∷ [])).0 print (9 ∷ [])
      (push-IsValid 300 three_hundred new log (7 ∷ 8 ∷ []) new-IsValid).0).0

abbrev payload : List ℕ
payload = 1 ∷ 2 ∷ 3 ∷ []

two_fits : fits 300 two (length payload) ≡ true
unfolding push fits room new
two_fits = refl

abbrev one : PayloadRing
one = (push 300 new log (7 ∷ 8 ∷ [])).0

new_fits : fits 300 new 2 ≡ true
unfolding fits room new
new_fits = refl

one_fits : fits 300 one 1 ≡ true
unfolding push fits room new
one_fits = refl

new-Holds : Holds 300 three_hundred new []
unfolding new encode
new-Holds = (refl, λ i h. absurd (omega arith))

two_items : Holds 300 three_hundred two ((log, 7 ∷ 8 ∷ []) ∷ (print, 9 ∷ []) ∷ [])
two_items =
    let first =
      push-Holds 300 three_hundred new [] log (7 ∷ 8 ∷ []) new_fits new-IsValid new-Holds in
    (push-Holds 300 three_hundred one ((log, 7 ∷ 8 ∷ []) ∷ []) print (9 ∷ []) one_fits
      (push-IsValid 300 three_hundred new log (7 ∷ 8 ∷ []) new-IsValid).0 first.1).1

pop-push_example :
    let (r', done) = push 300 two log payload in
    (done ≡ true)
    × ((pop 300 247 r').1 ≡ some (log, take 247 (7 ∷ 8 ∷ [])))
    × Holds 300 three_hundred (pop 300 247 r').0 ((print, 9 ∷ []) ∷ (log, payload) ∷ [])
pop-push_example =
    pop-push 300 three_hundred two ((print, 9 ∷ []) ∷ []) log log (7 ∷ 8 ∷ []) payload 247 two_fits
      two-IsValid two_items
