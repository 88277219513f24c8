-- ===== src/Can/Pbuf.antt =====
-- libCSP/trunk/src/interfaces/csp_if_can.c: the packet buffers `pbuf` and the identification number.
pub mod Find
pub mod Unsent
use cubesat_space_protocol.Base.{
  ℕ, zero, suc, ◌+◌, ◌-◌, ◌%◌, ◌^◌, List, [], ◌∷◌, ◌++◌, Option, none, some, Bool, true, false,
  bit_and, ltb, ◌==◌, replicate, if◌then◌else◌,
}
use cubesat_space_protocol.Can.{
  Element, Buffered, PbufState, buf_free, buf_used, Event, freed, cfp_id_size,
}

-- PBUF_TIMEOUT_MS
abbrev pub pbuf_timeout_ms : ℕ
pbuf_timeout_ms = 10000

-- `id_get` on `cfp_id`, with the outcome of the wait; `none` is -1.
unfoldable pub id_get : Bool → ℕ → Option ℕ × ℕ
id_get false cfp_id = (none, cfp_id)
id_get true cfp_id = (some cfp_id, bit_and (cfp_id + 1) (2 ^ cfp_id_size - 1))

abbrev pub free_element : Element
free_element = record {
  rx_count = 0;
  tx_count = 0;
  remain = 0;
  cfpid = 0;
  packet = none;
  state = buf_free;
  last_used = 0;
}

-- `pbuf_init`, for `n` elements.
unfoldable pub pbuf_init : ℕ → List Element
pbuf_init n = replicate n free_element

abbrev pub free_packet : Option Buffered → List Event
free_packet none = []
free_packet (some b) = freed b.address ∷ []

-- `pbuf_free`: the element afterwards is `free_element`.
abbrev pub pbuf_free : Element → Element × List Event
pbuf_free e = (free_element, free_packet e.packet)

abbrev pub is_used : PbufState → Bool
is_used buf_free = false
is_used buf_used = true

-- What `pbuf_new` writes to the element that it gives out.
abbrev pub taken : ℕ → ℕ → Element → Element
taken id now e = record e { state = buf_used; cfpid = id; remain = 0; last_used = now }

abbrev pub shifted :
    Element → Option ℕ × List Element × List Event → Option ℕ × List Element × List Event
shifted e (none, es, evs) = (none, e ∷ es, evs)
shifted e (some i, es, evs) = (some (suc i), e ∷ es, evs)

-- The loop of `pbuf_new` at time `now`: the index given out, the elements, the packet it has freed.
unfoldable pub pbuf_new : List Element → ℕ → ℕ → Option ℕ × List Element × List Event
pbuf_new [] id now = (none, [], [])
pbuf_new (e ∷ es) id now =
    let rest = shifted e (pbuf_new es id now) in
    if is_used e.state
    then if ltb pbuf_timeout_ms ((now + 2 ^ 32 - e.last_used) % 2 ^ 32)
      then (some 0, taken id now (pbuf_free e).0 ∷ es, (pbuf_free e).1)
      else rest
    else (some 0, taken id now e ∷ es, [])

-- The condition in the loop of `pbuf_find`.
abbrev pub matches : Element → ℕ → ℕ → Bool
matches e id mask = if is_used e.state then bit_and e.cfpid mask == bit_and id mask else false

abbrev pub found_behind : Element → Option ℕ × List Element → Option ℕ × List Element
found_behind e (none, es) = (none, e ∷ es)
found_behind e (some i, es) = (some (suc i), e ∷ es)

-- `pbuf_find` at time `now`, with `pbuf_timestamp` on the element found.
unfoldable pub pbuf_find : List Element → ℕ → ℕ → ℕ → Option ℕ × List Element
pbuf_find [] id mask now = (none, [])
pbuf_find (e ∷ es) id mask now =
    let rest = found_behind e (pbuf_find es id mask now) in
    if matches e id mask then (some 0, record e { last_used = now } ∷ es) else rest
