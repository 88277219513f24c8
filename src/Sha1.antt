-- ===== src/Sha1.antt =====
-- libCSP/trunk/src/crypto/csp_sha1.c: SHA1. Memory is a list of bytes; a `uint32_t` wraps at 2 ^ 32.
pub mod Fuel
pub mod Stack
mod Tests
use cubesat_space_protocol.Base.{
  ℕ, zero, suc, ◌+◌, ◌-◌, ◌*◌, ◌/◌, ◌%◌, ◌^◌, List, [], ◌∷◌, ◌++◌, get_or, take, drop, blit,
  replicate, length, min, bit_and, bit_or, bit_xor, ◌==◌, ◌&&◌, ltb, leb, if◌then◌else◌, Bool,
}

-- SHA1_BLOCKSIZE
abbrev pub blocksize : ℕ
blocksize = 64

abbrev u32 : ℕ → ℕ
u32 n = n % 2 ^ 32

-- ROL, LOAD32H, STORE32H and STORE64H
pub rol : ℕ → ℕ → ℕ
rol x y = bit_or (u32 (x * 2 ^ y)) (x / 2 ^ (32 - y))

pub load32 : List ℕ → ℕ → ℕ
load32 buf i =
    bit_or
      (bit_or (bit_or (get_or buf i 0 * 2 ^ 24) (get_or buf (i + 1) 0 * 2 ^ 16))
        (get_or buf (i + 2) 0 * 2 ^ 8))
      (get_or buf (i + 3) 0)

abbrev pub store32 : ℕ → List ℕ
store32 x = x / 2 ^ 24 % 256 ∷ x / 2 ^ 16 % 256 ∷ x / 2 ^ 8 % 256 ∷ x % 256 ∷ []

abbrev pub store64 : ℕ → List ℕ
store64 x = store32 (x / 2 ^ 32) ++ store32 x

-- The functions F0, F1 (which is also F3) and F2, and the constants of FF_0 to FF_3, for round `i`.
pub mix : ℕ → ℕ → ℕ → ℕ → ℕ
mix i x y z =
    if ltb i 20
    then bit_xor z (bit_and x (bit_xor y z))
    else if ltb i 40
    then bit_xor (bit_xor x y) z
    else if ltb i 60
    then bit_or (bit_and x y) (bit_and z (bit_or x y))
    else bit_xor (bit_xor x y) z

pub constant : ℕ → ℕ
constant i =
    if ltb i 20
    then 0x5a827999
    else if ltb i 40
    then 0x6ed9eba1
    else if ltb i 60
    then 0x8f1bbcdc
    else 0xca62c1d6

-- The five words of `state`, or `a` to `e`.
pub record Words : Type 0 where
  pub a : ℕ
  pub b : ℕ
  pub c : ℕ
  pub d : ℕ
  pub e : ℕ

-- The first words of W, and the words that are computed from them, `n` from index `i` on.
pub loaded : ℕ → ℕ → List ℕ → List ℕ
unfolding load32
loaded zero i buf = []
loaded (suc n) i buf = load32 buf (4 * i) ∷ loaded n (i + 1) buf

pub expand : ℕ → ℕ → List ℕ → List ℕ
unfolding rol
expand zero i w = w
expand (suc n) i w = expand n (i + 1) (
    w
    ++ (rol
          (bit_xor
            (bit_xor (bit_xor (get_or w (i - 3) 0) (get_or w (i - 8) 0)) (get_or w (i - 14) 0))
            (get_or w (i - 16) 0))
          1
        ∷ []))

-- `n` rounds from round `i` on. Where the source names the variables anew for the next round, the
-- words here change their places.
pub compress_rounds : ℕ → ℕ → List ℕ → Words → Words
unfolding rol mix constant
compress_rounds zero i w s = s
compress_rounds (suc n) i w s = compress_rounds n (i + 1) w (record {
  a = u32 (rol s.a 5 + mix i s.b s.c s.d + s.e + get_or w i 0 + constant i);
  b = s.a;
  c = rol s.b 30;
  d = s.c;
  e = s.d;
})

-- `csp_sha1_compress` on the block at `buf`.
unfoldable pub compress : Words → List ℕ → Words
unfolding loaded expand compress_rounds
compress s buf =
    let r = compress_rounds 80 0 (expand 64 16 (loaded 16 0 buf)) s in
    record {
      a = u32 (s.a + r.a);
      b = u32 (s.b + r.b);
      c = u32 (s.c + r.c);
      d = u32 (s.d + r.d);
      e = u32 (s.e + r.e);
    }

-- `csp_sha1_state`
pub record Sha1 : Type 0 where
  pub length : ℕ
  pub state : Words
  pub curlen : ℕ
  pub buf : List ℕ

-- `csp_sha1_init`; `buf` keeps what it held.
unfoldable pub init : List ℕ → Sha1
init buf = record {
  length = 0;
  state = record { a = 0x67452301; b = 0xefcdab89; c = 0x98badcfe; d = 0x10325476; e = 0xc3d2e1f0 };
  curlen = 0;
  buf = buf;
}

-- The block in `buf` is full.
full_block : Sha1 → Sha1
full_block s = record s {
  state = compress s.state s.buf;
  length = (s.length + 8 * blocksize) % 2 ^ 64;
  curlen = 0;
}

-- One round of the loop of `csp_sha1_process`: the state, and how many bytes it took.
pub process_step : Sha1 → List ℕ → Sha1 × ℕ
unfolding full_block
process_step s input =
    let n = min (length input) (blocksize - s.curlen) in
    let s' : Sha1 = record s { buf = blit s.buf s.curlen (take n input); curlen = s.curlen + n } in
    if (s.curlen == 0) && leb blocksize (length input)
    then (
      record s {
        state = compress s.state (take blocksize input);
        length = (s.length + blocksize * 8) % 2 ^ 64;
      },
      blocksize,
    )
    else (if s'.curlen == blocksize then full_block s' else s', n)

-- `csp_sha1_process`, on fuel: each round takes a byte at least.
pub process_on : ℕ → Sha1 → List ℕ → Sha1
unfolding process_step
process_on fuel s [] = s
process_on zero s (b ∷ bs) = s
process_on (suc fuel) s (b ∷ bs) =
    let (s', n) = process_step s (b ∷ bs) in process_on fuel s' (drop n (b ∷ bs))

unfoldable pub process : Sha1 → List ℕ → Sha1
unfolding process_on
process s input = process_on (length input) s input

-- Zeros from `curlen` up to `n`.
padded : Sha1 → ℕ → Sha1
padded s n = record s { buf = blit s.buf s.curlen (replicate (n - s.curlen) 0); curlen = n }

-- The test `curlen > 56` of `csp_sha1_done` and its block.
spill : Sha1 → Sha1
unfolding padded
spill s =
    let s' = padded s 64 in
    if ltb 56 s.curlen then record s' { state = compress s'.state s'.buf; curlen = 0 } else s

-- `csp_sha1_done`: the 20 bytes at `out`.
unfoldable pub done : Sha1 → List ℕ
unfolding spill padded
done s =
    let s1 : Sha1 = record s {
      length = (s.length + s.curlen * 8) % 2 ^ 64;
      buf = blit s.buf s.curlen (0x80 ∷ []);
      curlen = s.curlen + 1;
    } in
    let s2 = padded (spill s1) 56 in
    let r = compress s2.state (blit s2.buf 56 (store64 s2.length)) in
    store32 r.a ++ (store32 r.b ++ (store32 r.c ++ (store32 r.d ++ store32 r.e)))

-- `csp_sha1_memory`; `buf` is what the state on the stack holds at first.
unfoldable pub sha1_memory : List ℕ → List ℕ → List ℕ
unfolding init process done
sha1_memory buf msg = done (process (init buf) msg)
