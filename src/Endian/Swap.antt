-- ===== src/Endian/Swap.antt =====
-- Conversion to network order puts the most significant byte first in memory on every host, and
-- undoes itself.
use cubesat_space_protocol.Base.{
  ℕ, ◌+◌, ◌*◌, ◌/◌, ◌%◌, ◌^◌, ◌<◌, ◌≡◌, [], ◌∷◌, word32, Bool, true, false, bit_and, bit_or, refl,
  ap, ap₂, ◌∙◌, arith,
}
use cubesat_space_protocol.Base.Bits.{and_field, or_low_high, or_insert}
use cubesat_space_protocol.Endian.{
  swap16, swap32, hton16, ntoh16, hton32, ntoh32, htole32, memory32,
}

-- The swapped word as a sum of its bytes.
pub swap16_sum : (h : ℕ) → swap16 h ≡ h % 256 * 256 + h / 256 % 256
unfolding swap16
swap16_sum h =
    rw (and_field 8 8 h, and_field 0 8 h)
      (omega (
        arith,
        ap₂ (λ (s t : ℕ). bit_or s (t * 2 ^ 8)) above below,
        or_low_high 8 (h % 256) (h / 256 % 256) (omega arith),
      ))
  where
    above : h / 2 ^ 8 % 2 ^ 8 * 2 ^ 8 / 2 ^ 8 ≡ h / 256 % 256
    above = omega arith

    below : h / 2 ^ 0 % 2 ^ 8 * 2 ^ 0 ≡ h % 256
    below = omega arith

join32 :
    (a b c d : ℕ)
    → a < 256
    → b < 256
    → c < 256
    → d < 256
    → bit_or (bit_or (bit_or a (b * 2 ^ 24)) (c * 2 ^ 16)) (d * 2 ^ 8)
      ≡ b * 2 ^ 24 + c * 2 ^ 16 + d * 2 ^ 8 + a
join32 a b c d ha hb hc hd =
    ap (λ (t : ℕ). bit_or (bit_or t (c * 2 ^ 16)) (d * 2 ^ 8))
      (or_low_high 24 b a (omega arith) ∙ omega arith)
    ∙ ap (λ (t : ℕ). bit_or t (d * 2 ^ 8))
        (or_insert 16 8 b a c (omega arith) (omega arith) ∙ omega arith)
    ∙ or_insert 8 8 (b * 2 ^ 8 + c) a d (omega arith) (omega arith)
    ∙ omega arith

pub swap32_sum :
    (h : ℕ)
    → swap32 h
      ≡ h % 256 * 2 ^ 24 + h / 2 ^ 8 % 256 * 2 ^ 16 + h / 2 ^ 16 % 256 * 2 ^ 8 + h / 2 ^ 24 % 256
unfolding swap32
swap32_sum h =
    ap₂ (λ (t u : ℕ). bit_or t u % 2 ^ 32)
      (ap₂ bit_or (ap₂ bit_or (third_byte (and_field 24 8 h)) (low_byte (and_field 0 8 h)))
        (second_byte (and_field 8 8 h)))
      (first_byte (and_field 16 8 h))
    ∙ ap (λ (t : ℕ). t % 2 ^ 32)
        (join32 (h / 2 ^ 24 % 256) (h % 256) (h / 2 ^ 8 % 256) (h / 2 ^ 16 % 256) (omega arith)
          (omega arith) (omega arith) (omega arith))
    ∙ omega arith
  where
    third_byte :
        bit_and h 0xff000000 ≡ h / 2 ^ 24 % 2 ^ 8 * 2 ^ 24
        → bit_and h 0xff000000 / 2 ^ 24 ≡ h / 2 ^ 24 % 256
    third_byte e = omega arith

    low_byte :
        bit_and h 0xff ≡ h / 2 ^ 0 % 2 ^ 8 * 2 ^ 0 → bit_and h 0xff * 2 ^ 24 ≡ h % 256 * 2 ^ 24
    low_byte e = omega arith

    second_byte :
        bit_and h 0xff00 ≡ h / 2 ^ 8 % 2 ^ 8 * 2 ^ 8
        → bit_and h 0xff00 * 2 ^ 8 ≡ h / 2 ^ 8 % 256 * 2 ^ 16
    second_byte e = omega arith

    first_byte :
        bit_and h 0xff0000 ≡ h / 2 ^ 16 % 2 ^ 8 * 2 ^ 16
        → bit_and h 0xff0000 / 2 ^ 8 ≡ h / 2 ^ 16 % 256 * 2 ^ 8
    first_byte e = omega arith

-- Whatever the host, the bytes of `csp_hton32 w` in memory are those of `w` in network order, the
-- most significant first, and those of `csp_htole32 w` the least significant first.
pub hton32-memory :
    (big : Bool) (w : ℕ)
    → w < 2 ^ 32
    → (memory32 big (hton32 big w) ≡ memory32 true w)
      × (memory32 big (htole32 big w) ≡ memory32 false w)
unfolding hton32 htole32
hton32-memory true w h = ground (arith, swap32_sum w)
hton32-memory false w h = ground (arith, swap32_sum w)

-- `csp_ntoh32` undoes `csp_hton32` and `csp_ntoh16` undoes `csp_hton16`, on every host.
pub ntoh-hton :
    (big : Bool) (w v : ℕ)
    → w < 2 ^ 32
    → v < 2 ^ 16
    → (ntoh32 big (hton32 big w) ≡ w) × (ntoh16 big (hton16 big v) ≡ v)
unfolding hton32 ntoh32 hton16 ntoh16
ntoh-hton true w v h k = (refl, refl)
ntoh-hton false w v h k =
    omega (arith, swap32_sum w, swap32_sum (swap32 w), swap16_sum v, swap16_sum (swap16 v))

pub hton32-lt : (big : Bool) (w : ℕ) → w < 2 ^ 32 → hton32 big w < 2 ^ 32
unfolding hton32 swap32
hton32-lt true w h = h
hton32-lt false w h = omega arith

pub hton16-lt : (big : Bool) (h : ℕ) → h < 2 ^ 16 → hton16 big h < 2 ^ 16
unfolding hton16 swap16
hton16-lt true h k = k
hton16-lt false h k = omega arith

-- Four bytes as a host that keeps the least significant byte first reads them in network order.
pub network_word :
    (a b c d : ℕ)
    → a < 256
    → b < 256
    → c < 256
    → d < 256
    → ntoh32 false (word32 (a ∷ b ∷ c ∷ d ∷ [])) ≡ ((a * 256 + b) * 256 + c) * 256 + d
unfolding ntoh32 hton32
network_word a b c d ha hb hc hd = omega (arith, swap32_sum (word32 (a ∷ b ∷ c ∷ d ∷ [])))
