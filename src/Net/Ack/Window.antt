-- ===== src/Net/Ack/Window.antt =====
-- Which frame of an ACK window resolves the delivery.
use tower.Prelude.{
  ℕ, ◌+◌, ◌*◌, take, ◌≤◌, ◌≡◌, ◌++◌, refl, true, false, List, [], ◌∷◌, replicate, length, All, ap,
  ◌⊎◌, le_bytes, u32_max, from_le-le_bytes, inl, inr, some, arith,
}
use tower.Net.Ack.{
  AckVerdict, resolved, ignore, AckWait, Heard, new, acked_counter, offer, offer_all,
}

-- The number that bytes stand for, the lowest byte first.
abbrev pub little_endian : List ℕ → ℕ
little_endian [] = 0
little_endian (b ∷ bs) = b + 256 * little_endian bs

-- An ACK's payload is six bytes long, and its first four are the counter.
abbrev pub Acks : List ℕ → ℕ → Type 0
Acks payload counter = (length payload ≡ 6) × (little_endian (take 4 payload) ≡ counter)

acked_counter-Acks : (payload : List ℕ) (c : ℕ) → acked_counter payload ≡ some c → Acks payload c
unfolding acked_counter
acked_counter-Acks (a ∷ b ∷ d ∷ e ∷ x ∷ y ∷ []) c h = ground arith
acked_counter-Acks [] c h = absurd (cc)
acked_counter-Acks (a ∷ []) c h = absurd (cc)
acked_counter-Acks (a ∷ b ∷ []) c h = absurd (cc)
acked_counter-Acks (a ∷ b ∷ d ∷ []) c h = absurd (cc)
acked_counter-Acks (a ∷ b ∷ d ∷ e ∷ []) c h = absurd (cc)
acked_counter-Acks (a ∷ b ∷ d ∷ e ∷ x ∷ []) c h = absurd (cc)
acked_counter-Acks (a ∷ b ∷ d ∷ e ∷ x ∷ y ∷ z ∷ l) c h = absurd (cc)

Acks-acked_counter : (payload : List ℕ) (c : ℕ) → Acks payload c → acked_counter payload ≡ some c
unfolding acked_counter
Acks-acked_counter (a ∷ b ∷ d ∷ e ∷ x ∷ y ∷ []) c h = ap some (omega (arith, h.1))
Acks-acked_counter [] c h = absurd (omega (arith, h.0))
Acks-acked_counter (a ∷ []) c h = absurd (omega (arith, h.0))
Acks-acked_counter (a ∷ b ∷ []) c h = absurd (omega (arith, h.0))
Acks-acked_counter (a ∷ b ∷ d ∷ []) c h = absurd (omega (arith, h.0))
Acks-acked_counter (a ∷ b ∷ d ∷ e ∷ []) c h = absurd (omega (arith, h.0))
Acks-acked_counter (a ∷ b ∷ d ∷ e ∷ x ∷ []) c h = absurd (omega (arith, h.0))
Acks-acked_counter (a ∷ b ∷ d ∷ e ∷ x ∷ y ∷ z ∷ l) c h = absurd (omega (arith, h.0))

-- The ACK that a peer sends for `counter`.
abbrev pub IsAckOf : AckWait → Heard → Type 0
IsAckOf w h = (h.is_ack ≡ true) × (h.src ≡ w.peer) × (h.dest ≡ w.me) × Acks h.payload w.counter

offer-IsAckOf :
    (w : AckWait) (h : Heard)
    → w.is_resolved ≡ false
    → IsAckOf w h
    → offer w h ≡ (record w { is_resolved = true }, resolved)
unfolding offer
offer-IsAckOf w h e is =
    let c = Acks-acked_counter h.payload w.counter is.3 in ground (arith, c, is)

-- The same as the code reads it.
abbrev Matches : AckWait → Heard → Type 0
Matches w h =
    (h.is_ack ≡ true)
    × (h.src ≡ w.peer)
    × (h.dest ≡ w.me)
    × (acked_counter h.payload ≡ some w.counter)

Matches-or :
    (w : AckWait) (h : Heard)
    → w.is_resolved ≡ false
    → (Matches w h) ⊎ ((¬ Matches w h) × (offer w h ≡ (w, ignore)))
unfolding offer
Matches-or w h e = ground arith

offer-ignore :
    (w : AckWait) (h : Heard)
    → w.is_resolved ≡ false
    → (IsAckOf w h) ⊎ ((¬ IsAckOf w h) × (offer w h ≡ (w, ignore)))
unfolding offer
offer-ignore w h e = elim (Matches-or w h e) [
  | inl is ↦ inl (is.0, is.1, is.2, acked_counter-Acks h.payload w.counter is.3)
  | inr (isnt, same) ↦
      inr ((λ is. isnt (is.0, is.1, is.2, Acks-acked_counter h.payload w.counter is.3)), same)
]

offer_all-resolved :
    (w : AckWait) (hs : List Heard)
    → w.is_resolved ≡ true
    → offer_all w hs ≡ replicate (length hs) ignore
unfolding offer_all
offer_all-resolved w [] e = refl
offer_all-resolved w (h ∷ hs) e = ground (arith, offer_all-resolved w hs e)

-- How a window resolves: at the first ACK of the frame that is waited for, and only there.
abbrev pub ResolvesOnce : AckWait → List Heard → List AckVerdict → Type 0
ResolvesOnce w hs verdicts =
    (All (λ h. ¬ IsAckOf w h) hs × (verdicts ≡ replicate (length hs) ignore))
    ⊎ ((before : List Heard) × (h : Heard) × (after : List Heard) × (hs ≡ before ++ (h ∷ after))
        × All (λ x. ¬ IsAckOf w x) before
        × IsAckOf w h
        × (verdicts
            ≡ replicate (length before) ignore ++ (resolved ∷ replicate (length after) ignore)))

offer_all-ResolvesOnce :
    (w : AckWait) (hs : List Heard) → w.is_resolved ≡ false → ResolvesOnce w hs (offer_all w hs)
unfolding offer_all
offer_all-ResolvesOnce w [] e = inl (tt, refl)
offer_all-ResolvesOnce w (h ∷ hs) e = elim (offer-ignore w h e) [
  | inl is ↦ inr (
    [],
    h,
    hs,
    refl,
    tt,
    is,
    ground (
      arith,
      offer-IsAckOf w h e is,
      offer_all-resolved (record w { is_resolved = true }) hs refl,
    ),
  )
  | inr (isnt, same) ↦ elim (offer_all-ResolvesOnce w hs e) [
    | inl (none_is, vs) ↦ inl ((isnt, none_is), ground (arith, same, vs))
    | inr (before, x, after, split, none_is, is, vs) ↦
        inr (h ∷ before, x, after, ap (◌∷◌ h) split, (isnt, none_is), is, ground (arith, same, vs))
  ]
]

-- Of all the frames heard in an ACK window, the first that is an ACK of the frame sent (from the
-- peer, to this device, six bytes long, with the frame's counter in its first four) resolves the delivery; every frame
-- before it and after it is ignored, and without such a frame all are.
pub new-ResolvesOnce :
    (me peer counter : ℕ) (hs : List Heard)
    → let w = new me peer counter in ResolvesOnce w hs (offer_all w hs)
unfolding new
new-ResolvesOnce me peer counter hs = offer_all-ResolvesOnce (new me peer counter) hs refl

-- The counter that a receiver writes into its ACK is the one that the sender reads from it.
acked_counter-le_bytes :
    (c rssi flags : ℕ) → c ≤ u32_max → acked_counter (le_bytes c ++ (rssi ∷ flags ∷ [])) ≡ some c
unfolding acked_counter
acked_counter-le_bytes c rssi flags h = ap some (from_le-le_bytes c h)
