-- ===== src/Endian/Wide.antt =====
-- libCSP/trunk/src/csp_endian.c: the 64-bit conversions. The first argument is `csp_host_be`.
use cubesat_space_protocol.Base.{
  ℕ, ◌+◌, ◌*◌, ◌/◌, ◌%◌, ◌^◌, ◌<◌, ◌≡◌, List, [], ◌∷◌, Bool, true, false, if◌then◌else◌, not,
  bit_and, bit_or, refl, ap, ◌∙◌, arith,
}
use cubesat_space_protocol.Base.Bits.{and_field, or_low_high, or_insert}

-- The expression that the 64-bit conversions share.
unfoldable pub swap64 : ℕ → ℕ
swap64 h =
    bit_or
      (bit_or
        (bit_or
          (bit_or
            (bit_or
              (bit_or
                (bit_or (bit_and h 0xff00000000000000 / 2 ^ 56)
                  (bit_and h 0x00000000000000ff * 2 ^ 56))
                (bit_and h 0x00ff000000000000 / 2 ^ 40))
              (bit_and h 0x000000000000ff00 * 2 ^ 40))
            (bit_and h 0x0000ff0000000000 / 2 ^ 24))
          (bit_and h 0x0000000000ff0000 * 2 ^ 24))
        (bit_and h 0x000000ff00000000 / 2 ^ 8))
      (bit_and h 0x00000000ff000000 * 2 ^ 8)
    % 2 ^ 64

-- `csp_hton64`, `csp_htobe64` and `csp_betoh64`
pub hton64 : Bool → ℕ → ℕ
unfolding swap64
hton64 big h = if big then h else swap64 h

pub ntoh64 : Bool → ℕ → ℕ
unfolding hton64
ntoh64 big n = hton64 big n

-- `csp_htole64` and `csp_letoh64`
pub htole64 : Bool → ℕ → ℕ
unfolding swap64
htole64 big h = if not big then h else swap64 h

-- A byte of a word, the least significant one is byte 0.
abbrev pub byte_of : ℕ → ℕ → ℕ
byte_of k h = h / 2 ^ (8 * k) % 256

-- Eight bytes, put together in the order of the source.
join64 :
    (a b c d e f g h : ℕ)
    → a < 256
    → b < 256
    → c < 256
    → d < 256
    → e < 256
    → f < 256
    → g < 256
    → h < 256
    → bit_or
        (bit_or
          (bit_or
            (bit_or (bit_or (bit_or (bit_or a (b * 2 ^ 56)) (c * 2 ^ 8)) (d * 2 ^ 48)) (e * 2 ^ 16))
            (f * 2 ^ 40))
          (g * 2 ^ 24))
        (h * 2 ^ 32)
      ≡ b * 2 ^ 56 + d * 2 ^ 48 + f * 2 ^ 40 + h * 2 ^ 32 + g * 2 ^ 24 + e * 2 ^ 16 + c * 2 ^ 8 + a
join64 a b c d e f g h ha hb hc hd he hf hg hh =
    let add = λ (x y : ℕ). bit_or x y in
    ap
      (λ (t : ℕ).
        add
          (add (add (add (add (add t (c * 2 ^ 8)) (d * 2 ^ 48)) (e * 2 ^ 16)) (f * 2 ^ 40))
            (g * 2 ^ 24))
          (h * 2 ^ 32))
      (or_low_high 56 b a (omega arith) ∙ omega arith)
    ∙ ap
        (λ (t : ℕ).
          add (add (add (add (add t (d * 2 ^ 48)) (e * 2 ^ 16)) (f * 2 ^ 40)) (g * 2 ^ 24))
            (h * 2 ^ 32))
        (or_insert 8 8 (b * 2 ^ 40) a c (omega arith) (omega arith) ∙ omega arith)
    ∙ ap (λ (t : ℕ). add (add (add (add t (e * 2 ^ 16)) (f * 2 ^ 40)) (g * 2 ^ 24)) (h * 2 ^ 32))
        (or_insert 48 8 b (c * 2 ^ 8 + a) d (omega arith) (omega arith) ∙ omega arith)
    ∙ ap (λ (t : ℕ). add (add (add t (f * 2 ^ 40)) (g * 2 ^ 24)) (h * 2 ^ 32))
        (or_insert 16 8 (b * 2 ^ 32 + d * 2 ^ 24) (c * 2 ^ 8 + a) e (omega arith) (omega arith)
          ∙ omega arith)
    ∙ ap (λ (t : ℕ). add (add t (g * 2 ^ 24)) (h * 2 ^ 32))
        (or_insert 40 8 (b * 2 ^ 8 + d) (e * 2 ^ 16 + c * 2 ^ 8 + a) f (omega arith) (omega arith)
          ∙ omega arith)
    ∙ ap (λ (t : ℕ). add t (h * 2 ^ 32))
        (or_insert 24 8 (b * 2 ^ 24 + d * 2 ^ 16 + f * 2 ^ 8) (e * 2 ^ 16 + c * 2 ^ 8 + a) g
            (omega arith) (omega arith)
          ∙ omega arith)
    ∙ or_insert 32 8 (b * 2 ^ 16 + d * 2 ^ 8 + f) (g * 2 ^ 24 + e * 2 ^ 16 + c * 2 ^ 8 + a) h
        (omega arith) (omega arith)
    ∙ omega arith

-- The swapped word as a sum of its bytes.
swap64_sum :
    (h : ℕ)
    → swap64 h
      ≡ byte_of 0 h * 2 ^ 56
        + byte_of 1 h * 2 ^ 48
        + byte_of 2 h * 2 ^ 40
        + byte_of 3 h * 2 ^ 32
        + byte_of 4 h * 2 ^ 24
        + byte_of 5 h * 2 ^ 16
        + byte_of 6 h * 2 ^ 8
        + byte_of 7 h
unfolding swap64
swap64_sum h =
    let a : bit_and h 0xff00000000000000 ≡ h / 2 ^ 56 % 256 * 2 ^ 56 = and_field 56 8 h in
    let b : bit_and h 0xff ≡ h / 2 ^ 0 % 256 * 2 ^ 0 = and_field 0 8 h in
    let c : bit_and h 0xff000000000000 ≡ h / 2 ^ 48 % 256 * 2 ^ 48 = and_field 48 8 h in
    let d : bit_and h 0xff00 ≡ h / 2 ^ 8 % 256 * 2 ^ 8 = and_field 8 8 h in
    let e : bit_and h 0xff0000000000 ≡ h / 2 ^ 40 % 256 * 2 ^ 40 = and_field 40 8 h in
    let f : bit_and h 0xff0000 ≡ h / 2 ^ 16 % 256 * 2 ^ 16 = and_field 16 8 h in
    let g : bit_and h 0xff00000000 ≡ h / 2 ^ 32 % 256 * 2 ^ 32 = and_field 32 8 h in
    let k : bit_and h 0xff000000 ≡ h / 2 ^ 24 % 256 * 2 ^ 24 = and_field 24 8 h in
    let sum =
      join64 (byte_of 7 h) (byte_of 0 h) (byte_of 6 h) (byte_of 1 h) (byte_of 5 h) (byte_of 2 h)
        (byte_of 4 h) (byte_of 3 h) (omega arith) (omega arith) (omega arith) (omega arith)
        (omega arith) (omega arith) (omega arith) (omega arith) in
    let a' : bit_and h 0xff00000000000000 / 2 ^ 56 ≡ byte_of 7 h = omega (arith, a) in
    let b' : bit_and h 0xff * 2 ^ 56 ≡ byte_of 0 h * 2 ^ 56 = omega (arith, b) in
    let c' : bit_and h 0xff000000000000 / 2 ^ 40 ≡ byte_of 6 h * 2 ^ 8 = omega (arith, c) in
    let d' : bit_and h 0xff00 * 2 ^ 40 ≡ byte_of 1 h * 2 ^ 48 = omega (arith, d) in
    let e' : bit_and h 0xff0000000000 / 2 ^ 24 ≡ byte_of 5 h * 2 ^ 16 = omega (arith, e) in
    let f' : bit_and h 0xff0000 * 2 ^ 24 ≡ byte_of 2 h * 2 ^ 40 = omega (arith, f) in
    let g' : bit_and h 0xff00000000 / 2 ^ 8 ≡ byte_of 4 h * 2 ^ 24 = omega (arith, g) in
    let k' : bit_and h 0xff000000 * 2 ^ 8 ≡ byte_of 3 h * 2 ^ 32 = omega (arith, k) in
    rw (a', b', c', d', e', f', g', k', sum) (omega arith)

-- Its bytes are those of the word in the other order.
swapped :
    (w : ℕ)
    → (byte_of 0 (swap64 w) ≡ byte_of 7 w)
      × (byte_of 1 (swap64 w) ≡ byte_of 6 w)
      × (byte_of 2 (swap64 w) ≡ byte_of 5 w)
      × (byte_of 3 (swap64 w) ≡ byte_of 4 w)
      × (byte_of 4 (swap64 w) ≡ byte_of 3 w)
      × (byte_of 5 (swap64 w) ≡ byte_of 2 w)
      × (byte_of 6 (swap64 w) ≡ byte_of 1 w)
      × (byte_of 7 (swap64 w) ≡ byte_of 0 w)
swapped w =
    let sum = swap64_sum w in
    (
      omega (arith, sum),
      omega (arith, sum),
      omega (arith, sum),
      omega (arith, sum),
      omega (arith, sum),
      omega (arith, sum),
      omega (arith, sum),
      omega (arith, sum),
    )

-- The bytes of a word as the host keeps them in memory.
abbrev pub memory64 : Bool → ℕ → List ℕ
memory64 big w =
    if big
    then byte_of 7 w
      ∷ byte_of 6 w
      ∷ byte_of 5 w
      ∷ byte_of 4 w
      ∷ byte_of 3 w
      ∷ byte_of 2 w
      ∷ byte_of 1 w
      ∷ byte_of 0 w
      ∷ []
    else byte_of 0 w
      ∷ byte_of 1 w
      ∷ byte_of 2 w
      ∷ byte_of 3 w
      ∷ byte_of 4 w
      ∷ byte_of 5 w
      ∷ byte_of 6 w
      ∷ byte_of 7 w
      ∷ []

swap64-swap64 : (w : ℕ) → w < 2 ^ 64 → swap64 (swap64 w) ≡ w
swap64-swap64 w h =
    let (b0, b1, b2, b3, b4, b5, b6, b7) = swapped w in
    swap64_sum (swap64 w) ∙ rw (b0, b1, b2, b3, b4, b5, b6, b7) (omega arith)

-- Whatever the host, the bytes of `csp_hton64 w` in memory are those of `w` in network order, the
-- most significant first, those of `csp_htole64 w` the least significant first, and for a word of 64
-- bits `csp_ntoh64` undoes `csp_hton64`.
pub hton64-memory :
    (big : Bool) (w : ℕ)
    → w < 2 ^ 64
    → (memory64 big (hton64 big w) ≡ memory64 true w)
      × (memory64 big (htole64 big w) ≡ memory64 false w)
      × (ntoh64 big (hton64 big w) ≡ w)
unfolding hton64 htole64 ntoh64
hton64-memory true w h =
    let (b0, b1, b2, b3, b4, b5, b6, b7) = swapped w in
    (refl, rw (b0, b1, b2, b3, b4, b5, b6, b7) refl, refl)
hton64-memory false w h =
    let (b0, b1, b2, b3, b4, b5, b6, b7) = swapped w in
    (rw (b0, b1, b2, b3, b4, b5, b6, b7) refl, refl, swap64-swap64 w h)
