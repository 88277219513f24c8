-- ===== src/Can/Ident.antt =====
-- libCSP/trunk/src/interfaces/csp_if_can.c: the fields of a frame's identifier.
use cubesat_space_protocol.Base.{
  ℕ, ◌+◌, ◌*◌, ◌/◌, ◌%◌, ◌^◌, ◌<◌, ◌≡◌, ◌↔◌, bit_and, bit_or, ap, ◌∙◌, arith,
}
use cubesat_space_protocol.Base.Bits.{and_low, and_split, or_sum, or_insert, zero-or}
use native.Mathlib.Nat.{mod-eq_of_lt}
use cubesat_space_protocol.Can.{
  make_field, can_id, cfp_conn_mask, cfp_src, cfp_dst, cfp_type, cfp_remain, cfp_ident,
}

make_lem : (v s r : ℕ) → v < 2 ^ s → v * 2 ^ r < 2 ^ 32 → make_field v s r ≡ v * 2 ^ r
make_lem v s r h k =
    ap (λ (t : ℕ). t * 2 ^ r % 2 ^ 32) (and_low s v ∙ mod-eq_of_lt h) ∙ mod-eq_of_lt k

-- Every field fits its width.
pub record IsIdent (src dst ident type remain : ℕ) : Type 0 where
  pub src_in : src < 32
  pub dst_in : dst < 32
  pub ident_in : ident < 1024
  pub type_in : type < 2
  pub remain_in : remain < 256

next_part : (x y c z : ℕ) → x ≡ y → bit_or y c ≡ z → bit_or x c ≡ z
next_part x y c z e h = ap (λ (t : ℕ). bit_or t c) e ∙ h

or_parts :
    (src dst ident type remain : ℕ)
    → IsIdent src dst ident type remain
    → bit_or
        (bit_or
          (bit_or (bit_or (bit_or 0 (src * 2 ^ 24)) (dst * 2 ^ 19)) (ident * 2 ^ 0))
          (type * 2 ^ 18))
        (remain * 2 ^ 10)
      ≡ src * 2 ^ 24 + dst * 2 ^ 19 + type * 2 ^ 18 + remain * 2 ^ 10 + ident
or_parts src dst ident type remain v =
    let host = src * 2 ^ 5 + dst in
    let src_part = zero-or (src * 2 ^ 24) in
    let dst_part =
      next_part _ _ (dst * 2 ^ 19) (host * 2 ^ 9 * 2 ^ 10) src_part
        (or_sum 24 src (dst * 2 ^ 19) (omega (arith, v.dst_in)) ∙ omega arith) in
    let ident_part = next_part _ _ (ident * 2 ^ 0) (host * 2 ^ 1 * 2 ^ 18 + ident) dst_part (
      ap (λ (t : ℕ). bit_or (host * 2 ^ 9 * 2 ^ 10) t) (omega arith)
      ∙ or_sum 10 (host * 2 ^ 9) ident v.ident_in
      ∙ omega arith) in
    let type_part =
      next_part _ _ (type * 2 ^ 18) ((host * 2 ^ 1 + type) * 2 ^ 8 * 2 ^ 10 + ident) ident_part
        (or_insert 18 1 host ident type (omega (arith, v.ident_in)) v.type_in ∙ omega arith) in
    next_part _ _ (remain * 2 ^ 10)
      (src * 2 ^ 24 + dst * 2 ^ 19 + type * 2 ^ 18 + remain * 2 ^ 10 + ident) type_part
      (or_insert 10 8 (host * 2 ^ 1 + type) ident remain v.ident_in v.remain_in ∙ omega arith)

-- The parts that are put together by `|=` do not meet.
pub can_id_sum :
    {src dst ident type remain : ℕ}
    → IsIdent src dst ident type remain
    → can_id src dst ident type remain
      ≡ src * 2 ^ 24 + dst * 2 ^ 19 + type * 2 ^ 18 + remain * 2 ^ 10 + ident
unfolding can_id
can_id_sum {src} {dst} {ident} {type} {remain} v =
    rw
      (
        make_lem src 5 24 v.src_in (omega (arith, v.src_in)),
        make_lem dst 5 19 v.dst_in (omega (arith, v.dst_in)),
        make_lem ident 10 0 v.ident_in (omega (arith, v.ident_in)),
        make_lem type 1 18 v.type_in (omega (arith, v.type_in)),
        make_lem remain 8 10 v.remain_in (omega (arith, v.remain_in)),
      )
      (or_parts src dst ident type remain v)

-- Reading the fields of an identifier gives back what it was made of.
pub can_id-fields :
    {src dst ident type remain : ℕ}
    → IsIdent src dst ident type remain
    → let id = can_id src dst ident type remain in
      (cfp_src id ≡ src)
      × (cfp_dst id ≡ dst)
      × (cfp_ident id ≡ ident)
      × (cfp_type id ≡ type)
      × (cfp_remain id ≡ remain)
unfolding cfp_src cfp_dst cfp_ident cfp_type cfp_remain
can_id-fields {src} {dst} {ident} {type} {remain} v =
    let id = can_id src dst ident type remain in
    let sum = can_id_sum v in
    (
      omega (
        arith,
        and_low 5 (id / 2 ^ 24),
        sum,
        v.src_in,
        v.dst_in,
        v.ident_in,
        v.type_in,
        v.remain_in,
      ),
      omega (
        arith,
        and_low 5 (id / 2 ^ 19),
        sum,
        v.src_in,
        v.dst_in,
        v.ident_in,
        v.type_in,
        v.remain_in,
      ),
      omega (
        arith,
        and_low 10 (id / 2 ^ 0),
        sum,
        v.src_in,
        v.dst_in,
        v.ident_in,
        v.type_in,
        v.remain_in,
      ),
      omega (
        arith,
        and_low 1 (id / 2 ^ 18),
        sum,
        v.src_in,
        v.dst_in,
        v.ident_in,
        v.type_in,
        v.remain_in,
      ),
      omega (
        arith,
        and_low 8 (id / 2 ^ 10),
        sum,
        v.src_in,
        v.dst_in,
        v.ident_in,
        v.type_in,
        v.remain_in,
      ),
    )

conn_mask_lem : (x : ℕ) → x < 2 ^ 29 → bit_and x cfp_conn_mask ≡ x / 2 ^ 19 * 2 ^ 19 + x % 2 ^ 10
conn_mask_lem x h =
    omega (arith, and_split 19 x cfp_conn_mask, and_low 10 (x / 2 ^ 19), and_low 10 (x % 2 ^ 19))

pub masked_lem :
    {src dst ident type remain : ℕ}
    → IsIdent src dst ident type remain
    → bit_and (can_id src dst ident type remain) cfp_conn_mask ≡ src * 2 ^ 24 + dst * 2 ^ 19 + ident
masked_lem {src} {dst} {ident} {type} {remain} v =
    let id = can_id src dst ident type remain in
    let sum = can_id_sum v in
    let small : id < 2 ^ 29 =
      omega (arith, sum, v.src_in, v.dst_in, v.ident_in, v.type_in, v.remain_in) in
    omega (arith, conn_mask_lem id small, sum, v.dst_in, v.ident_in, v.type_in, v.remain_in)

-- CFP_ID_CONN_MASK compares the source, the destination and the identification number: two identifiers agree under it exactly when they agree in these, whatever their types and remaining frames.
pub cfp_conn_mask_iff :
    {src dst ident type remain src' dst' ident' type' remain' : ℕ}
    → IsIdent src dst ident type remain
    → IsIdent src' dst' ident' type' remain'
    → (bit_and (can_id src dst ident type remain) cfp_conn_mask
        ≡ bit_and (can_id src' dst' ident' type' remain') cfp_conn_mask)
      ↔ ((src ≡ src') × (dst ≡ dst') × (ident ≡ ident'))
cfp_conn_mask_iff {src} {dst} {ident} {type} {remain} {src'} {dst'} {ident'} {type'} {remain'} v w =
    let masked = masked_lem v in
    let masked' = masked_lem w in
    (
      λ e. omega (
        arith, masked, masked', e, v.src_in, v.dst_in, v.ident_in, w.src_in, w.dst_in, w.ident_in,
      ),
      λ h. omega (arith, masked, masked', h),
    )
