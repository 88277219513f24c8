-- ===== src/Can/Pbuf/Unsent.antt =====
-- libCSP/trunk/src/interfaces/csp_if_can.c: elements that have not sent anything, at `pbuf_new`.
use cubesat_space_protocol.Base.{
  ℕ, ◌+◌, ◌-◌, ◌%◌, ◌^◌, ◌≡◌, List, [], ◌∷◌, Option, none, some, false, get_elem?, ltb, refl, sym,
  ap, ◌∙◌, Bool-cases, inl, inr, if_cases,
}
use mathlib.Core.Option.{some-injective}
use cubesat_space_protocol.Can.{Element, Event}
use cubesat_space_protocol.Can.Pbuf.{
  pbuf_new, taken, free_element, free_packet, is_used, shifted, pbuf_timeout_ms,
}

-- Elements that are not in use have not sent anything, as `pbuf_init` and `pbuf_free` leave them.
abbrev pub IsUnsent : List Element → Type 0
IsUnsent [] = Unit
IsUnsent (e ∷ es) = (is_used e.state ≡ false → e.tx_count ≡ 0) × IsUnsent es

abbrev pub Unsent : Option ℕ × List Element × List Event → Type 0
Unsent (none, es, evs) = Unit
Unsent (some i, es, evs) = (e : Element) → get_elem? es i ≡ some e → e.tx_count ≡ 0

shifted-Unsent :
    (e : Element) (r : Option ℕ × List Element × List Event) → Unsent r → Unsent (shifted e r)
shifted-Unsent e (none, es, evs) h = tt
shifted-Unsent e (some i, es, evs) h = h

at_once :
    (id now : ℕ) (e : Element) (es : List Element) (evs : List Event)
    → e.tx_count ≡ 0
    → Unsent (some 0, taken id now e ∷ es, evs)
at_once id now e es evs h e' is_e =
    ap (λ (x : Element). x.tx_count) (sym (some-injective _ _ is_e)) ∙ h

pub pbuf_new-Unsent : (es : List Element) (id now : ℕ) → IsUnsent es → Unsent (pbuf_new es id now)
unfolding pbuf_new
pbuf_new-Unsent [] id now h = tt
pbuf_new-Unsent (e ∷ es) id now (h, hs) = elim (Bool-cases (is_used e.state)) [
  | inl u ↦ rw u (
      if_cases Unsent (ltb pbuf_timeout_ms ((now + 2 ^ 32 - e.last_used) % 2 ^ 32)) _ _
        (λ t. at_once id now free_element es (free_packet e.packet) refl)
        (λ t. shifted-Unsent e (pbuf_new es id now) (pbuf_new-Unsent es id now hs)))
  | inr u ↦ rw u (at_once id now e es [] (h u))
]
