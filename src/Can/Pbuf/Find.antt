-- ===== src/Can/Pbuf/Find.antt =====
-- libCSP/trunk/src/interfaces/csp_if_can.c: what `pbuf_find` and `pbuf_new` have found.
use cubesat_space_protocol.Base.{
  ℕ, zero, suc, ◌+◌, ◌≡◌, List, [], ◌∷◌, Option, none, some, Bool, true, false, bit_and, ◌==◌,
  get_elem?, set, if◌then◌else◌, Bool-cases, ◌⊎◌, inl, inr, ltb, ◌-◌, ◌%◌, ◌^◌, eq→==, arith, refl,
  ap,
}
use cubesat_space_protocol.Can.{Element, PbufState, buf_free, buf_used, Event, cfp_conn_mask}
use cubesat_space_protocol.Can.Pbuf.{
  pbuf_find, pbuf_new, found_behind, shifted, is_used, taken, free_element, pbuf_timeout_ms,
}

-- The element is in use for the frames whose identifiers are `key` under the mask.
abbrev pub agrees : Element → ℕ → Bool
agrees e key = if is_used e.state then bit_and e.cfpid cfp_conn_mask == key else false

-- Element `i` is `e`, and the first that agrees.
pub data FoundAt (key : ℕ) : List Element → ℕ → Element → Type 0 where
  at_head : {e : Element} {es : List Element} → agrees e key ≡ true → FoundAt key (e ∷ es) 0 e
  behind :
      {e e' : Element} {es : List Element} {i : ℕ}
      → agrees e' key ≡ false
      → FoundAt key es i e
      → FoundAt key (e' ∷ es) (suc i) e

pub pbuf_find-FoundAt :
    (id now : ℕ) {es : List Element} {i : ℕ} {e : Element}
    → FoundAt (bit_and id cfp_conn_mask) es i e
    → pbuf_find es id cfp_conn_mask now ≡ (some i, set es i (record e { last_used = now }))
unfolding pbuf_find
pbuf_find-FoundAt id now (at_head a) = rw (a) refl
pbuf_find-FoundAt id now (behind {e' = e'} d rest) =
    rw (d) (ap (found_behind e') (pbuf_find-FoundAt id now rest))

pub set-FoundAt :
    {key : ℕ} {es : List Element} {i : ℕ} {e : Element} (e' : Element)
    → agrees e' key ≡ true
    → FoundAt key es i e
    → FoundAt key (set es i e') i e'
set-FoundAt e' a (at_head _) = at_head a
set-FoundAt e' a (behind d rest) = behind d (set-FoundAt e' a rest)

pub agrees-FoundAt :
    {key : ℕ} {es : List Element} {i : ℕ} {e : Element} → FoundAt key es i e → agrees e key ≡ true
agrees-FoundAt (at_head a) = a
agrees-FoundAt (behind _ rest) = agrees-FoundAt rest

pub get-FoundAt :
    {key : ℕ} {es : List Element} {i : ℕ} {e : Element} (e' : Element)
    → FoundAt key es i e
    → get_elem? (set es i e') i ≡ some e'
get-FoundAt e' (at_head _) = refl
get-FoundAt e' (behind _ rest) = get-FoundAt e' rest

pub elem-FoundAt :
    {key : ℕ} {es : List Element} {i : ℕ} {e : Element}
    → FoundAt key es i e
    → get_elem? es i ≡ some e
elem-FoundAt (at_head _) = refl
elem-FoundAt (behind _ rest) = elem-FoundAt rest

pub set-twice : (es : List Element) (i : ℕ) (a b : Element) → set (set es i a) i b ≡ set es i b
set-twice [] i a b = refl
set-twice (e ∷ es) zero a b = refl
set-twice (e ∷ es) (suc i) a b = ap (◌∷◌ e) (set-twice es i a b)

found_behind-none :
    (b : Bool) (e e' : Element) (es : List Element) (r : Option ℕ × List Element)
    → (if b then (some 0, e' ∷ es) else found_behind e r).0 ≡ none
    → (b ≡ false) × (r.0 ≡ none)
found_behind-none true e e' es r h = absurd (ground (arith, h))
found_behind-none false e e' es (none, es') h = (refl, refl)
found_behind-none false e e' es (some i, es') h = absurd (ground (arith, h))

absent :
    (e : Element) (es : List Element) (id now : ℕ)
    → (pbuf_find (e ∷ es) id cfp_conn_mask now).0 ≡ none
    → (agrees e (bit_and id cfp_conn_mask) ≡ false) × ((pbuf_find es id cfp_conn_mask now).0 ≡ none)
unfolding pbuf_find
absent e es id now h =
    found_behind-none (agrees e (bit_and id cfp_conn_mask)) e (record e { last_used = now }) es
      (pbuf_find es id cfp_conn_mask now) h

-- Where nothing is found, nothing changes.
pub pbuf_find-none :
    (es : List Element) (id now : ℕ)
    → (pbuf_find es id cfp_conn_mask now).0 ≡ none
    → pbuf_find es id cfp_conn_mask now ≡ (none, es)
unfolding pbuf_find
pbuf_find-none [] id now h = refl
pbuf_find-none (e ∷ es) id now h =
    let (d, h') = absent e es id now h in rw (d) (ap (found_behind e) (pbuf_find-none es id now h'))

-- An element that no packet is bound to has no packet buffer.
pub data IsTidy : List Element → Type 0 where
  no_elements : IsTidy []
  next_element :
      {e : Element} {es : List Element}
      → (e.state ≡ buf_free → e.packet ≡ none)
      → IsTidy es
      → IsTidy (e ∷ es)

-- What `pbuf_new` gives: nothing, or an element without a packet that the identifier is found at.
pub data Given (id now : ℕ) : List Element → Option ℕ × List Element × List Event → Type 0 where
  no_element : {es es' : List Element} {evs : List Event} → Given id now es (none, es', evs)
  element :
      {es : List Element} (i : ℕ) (e : Element) {evs : List Event}
      → e.packet ≡ none
      → FoundAt (bit_and id cfp_conn_mask) (set es i (taken id now e)) i (taken id now e)
      → Given id now es (some i, set es i (taken id now e), evs)

shifted-Given :
    {id now : ℕ} {e : Element} {es : List Element} {r : Option ℕ × List Element × List Event}
    → agrees e (bit_and id cfp_conn_mask) ≡ false
    → Given id now es r
    → Given id now (e ∷ es) (shifted e r)
shifted-Given d no_element = no_element
shifted-Given d (element i e empty found) = element (suc i) e empty (behind d found)

is_used-cases : (s : PbufState) → (s ≡ buf_free) ⊎ (is_used s ≡ true)
is_used-cases buf_free = inl refl
is_used-cases buf_used = inr refl

pub pbuf_new-Given :
    (es : List Element) (id now : ℕ)
    → IsTidy es
    → (pbuf_find es id cfp_conn_mask now).0 ≡ none
    → Given id now es (pbuf_new es id now)
unfolding pbuf_new
pbuf_new-Given [] id now no_elements h = no_element
pbuf_new-Given (e ∷ es) id now (next_element tidy rest) h =
    let key = bit_and id cfp_conn_mask in
    let (other, h') = absent e es id now h in
    let old = ltb pbuf_timeout_ms ((now + 2 ^ 32 - e.last_used) % 2 ^ 32) in
    elim (is_used-cases e.state) [
      | inl q ↦ rw (q) (element 0 e (tidy q) (at_head (eq→== key key refl)))
      | inr q ↦ rw (q) (elim (Bool-cases old) [
        | inl t ↦ rw (t) (element 0 free_element refl (at_head (eq→== key key refl)))
        | inr t ↦ rw (t) (shifted-Given other (pbuf_new-Given es id now rest h'))
      ])
    ]
