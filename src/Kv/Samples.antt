-- ===== src/Kv/Samples.antt =====
-- A region of 64 bytes in a memory whose writes succeed, and one whose writes fail and garble a word.
use tower.Prelude.{
  ℕ, ◌+◌, ◌-◌, ◌≤◌, ◌<◌, ◌≡◌, refl, sym, ap, subst, ◌∙◌, inl, inr, Bool, true, false, ◌&&◌, not,
  Option, none, some, Option-cases, List, [], ◌∷◌, length, leb, ltb, if◌then◌else◌, arith,
}
use tower.Protocol.Crc.{crc32_update, crc_rounds}
use tower.Kv.Eeprom.{Mem, Eeprom, Torn, Caught, untouched, garbled, nth, read}
use tower.Kv.Scan.{entry}
use tower.Kv.Layout.{checked_gen, active, superblock, read_gen, gen_at, super_crc}
use tower.Kv.Superblock.{Expected-word}
use tower.Kv.Commit.{Formatted}
use tower.Kv.Setting.{Sound}

abbrev pub over : Mem → ℕ → List ℕ → Mem
over m off d i = if leb off i && ltb i (off + length d) then nth d (i - off) else m i

pub over-below : (m : Mem) (off : ℕ) (d : List ℕ) (i : ℕ) → i < off → over m off d i ≡ m i
over-below m off d i h = ground arith

pub over-above :
    (m : Mem) (off : ℕ) (d : List ℕ) (i : ℕ) → off + length d ≤ i → over m off d i ≡ m i
over-above m off d i h = ground arith

pub over-written :
    (m : Mem) (off : ℕ) (d : List ℕ) (i : ℕ) → i < length d → over m off d (off + i) ≡ nth d i
over-written m off d i h =
    let inside : (leb off (off + i) && ltb (off + i) (off + length d)) ≡ true = ground arith in
    let back : off + i - off ≡ i = omega arith in rw (inside, back) refl

pub false-true : {A : Type 0} → false ≡ true → A
false-true e = absurd (ground (arith, e))

kept_not_garbled : {A : Type 0} → untouched ≡ garbled → A
kept_not_garbled e = absurd (ground (arith, e))

pub nothing-Torn : (m : Mem) (off : ℕ) (d : List ℕ) → Torn m m off d
nothing-Torn m off d = record {
  words = 0;
  cell = untouched;
  before = λ i b h. absurd (omega arith);
  during = λ i lo b h. refl;
  after = λ i lo h. refl;
  caught = λ e. kept_not_garbled e;
}

abbrev pub ram : Eeprom Mem
ram = record {
  bytes = λ m. m;
  write = λ m off d. (over m off d, true);
  below = over-below;
  above = over-above;
  written = λ m off d i ok_write h. over-written m off d i h;
  torn = λ m off d failed. false-true (sym failed);
}

-- A region of 64 bytes: two halves of 20, the superblocks at 40 and 52.
abbrev pub formatted : Mem
formatted i = if leb 40 i then nth (superblock 1) (i - 40) else 0

pub formatted-active : active formatted 64 ≡ some (0, 1)
unfolding active superblock read_gen gen_at super_crc crc32_update read crc_rounds
formatted-active = refl

pub formatted_ok : Formatted formatted 64 0 1
unfolding superblock
formatted_ok = (formatted-active, omega arith, Expected-word formatted 52 1 (inl (omega arith)))

pub sound : Sound formatted 64 1
sound = (0, 1, formatted_ok, omega arith)

pub below_max : 1 < 4294967295
below_max = omega arith

-- Every write fails and garbles its first word, unless a checksum would pass over that word.
abbrev pub garble : Mem → ℕ → Mem
garble m off = over m off (255 ∷ 255 ∷ 255 ∷ 255 ∷ [])

abbrev pub passes : Option ℕ → Bool
passes none = false
passes (some g) = true

abbrev pub garbles : Mem → ℕ → List ℕ → Bool
garbles m off d = leb 4 (length d) && not (passes (checked_gen (garble m off) (off - 4)))

abbrev pub left : Bool → Mem → ℕ → Mem
left true m off = garble m off
left false m off = m

garbled_header :
    (m : Mem) (base area o : ℕ)
    → m (base + o + 2) ≡ 255
    → m (base + o + 2 + 1) ≡ 255
    → entry m base area o ≡ none
unfolding entry
garbled_header m base area o b2 b3 = rw (b2, b3) (ground arith)

garble-Caught :
    (m : Mem) (off : ℕ)
    → passes (checked_gen (garble m off) (off - 4)) ≡ false
    → Caught (garble m off) off
garble-Caught m off e = record {
  no_record = λ base area o at.
      let b2 : garble m off (base + o + 2) ≡ 255 =
        ap (garble m off) (omega (arith, at))
        ∙ over-written m off (255 ∷ 255 ∷ 255 ∷ 255 ∷ []) 2 (omega arith) in
      let b3 : garble m off (base + o + 2 + 1) ≡ 255 =
        ap (garble m off) (omega (arith, at))
        ∙ over-written m off (255 ∷ 255 ∷ 255 ∷ 255 ∷ []) 3 (omega arith) in
      garbled_header (garble m off) base area o b2 b3;
  no_generation = λ sb at.
      let here : sb ≡ off - 4 = omega arith in
      rw (here) (elim (Option-cases (checked_gen (garble m off) (off - 4))) [
        | inl n ↦ n
        | inr (g, s) ↦ absurd (ground (arith, rw (s) at e))
      ]);
}

pub left-Torn :
    (m : Mem) (off : ℕ) (d : List ℕ) (g : Bool) → garbles m off d ≡ g → Torn m (left g m off) off d
left-Torn m off d false e = nothing-Torn m off d
left-Torn m off d true e = record {
  words = 0;
  cell = garbled;
  before = λ i b h. absurd (omega arith);
  during = λ i lo b h. tt;
  after = λ i lo h. over-above m off (255 ∷ 255 ∷ 255 ∷ 255 ∷ []) (off + i) (omega arith);
  caught =
      λ c h. subst (Caught (garble m off)) (omega arith) (garble-Caught m off (ground (arith, e)));
}

pub left-below : (m : Mem) (off : ℕ) (g : Bool) (i : ℕ) → i < off → left g m off i ≡ m i
left-below m off true i h = over-below m off (255 ∷ 255 ∷ 255 ∷ 255 ∷ []) i h
left-below m off false i h = refl

pub left-above :
    (m : Mem) (off : ℕ) (d : List ℕ) (g : Bool) (i : ℕ)
    → garbles m off d ≡ g
    → off + length d ≤ i
    → left g m off i ≡ m i
left-above m off d true i e h =
    let wide : 4 ≤ length d = ground (arith, e) in
    over-above m off (255 ∷ 255 ∷ 255 ∷ 255 ∷ []) i (omega (arith, wide))
left-above m off d false i e h = refl

abbrev pub garbling : Eeprom Mem
garbling = record {
  bytes = λ m. m;
  write = λ m off d. (left (garbles m off d) m off, false);
  below = λ m off d i h. left-below m off (garbles m off d) i h;
  above = λ m off d i h. left-above m off d (garbles m off d) i refl h;
  written = λ m off d i ok_write h. false-true ok_write;
  torn = λ m off d failed. left-Torn m off d (garbles m off d) refl;
}
