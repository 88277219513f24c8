-- ===== src/Io/Direct/Received.antt =====
-- libCSP/trunk/src/csp_io.c against libCSP/trunk/src/csp_route.c: a packet that `csp_send_direct` has
-- sent, at a node that holds the same keys.
use cubesat_space_protocol.Base.{
  ℕ, ◌+◌, ◌≤◌, ◌<◌, ◌≡◌, ◌⊎◌, inl, inr, List, [], map, ◌∷◌, ◌++◌, some, length, ◌==◌, ◌^◌, ◌%◌,
  refl, sym, ◌∙◌, ap, if_cases, arith, subst, eq→==,
}
use cubesat_space_protocol.Error.{Error, err_none}
use cubesat_space_protocol.Header.{Packet, PacketId}
use cubesat_space_protocol.Security.{Crypto, Errors, Area, protect, security_check}
use cubesat_space_protocol.Security.Roundtrip.{Restored, IsMet}
use cubesat_space_protocol.Security.Nodes.{Share, security_check-protect}
use cubesat_space_protocol.Conn.{Effect, freed}
use cubesat_space_protocol.Route.Input.{Input, Counters, new_packet}
use cubesat_space_protocol.Route.Input.Order.{Queued, IsFull, Entered, new_packet-Entered}
use cubesat_space_protocol.Route.Promisc.Copies.{Fresh, promisc_add-Kept}
use cubesat_space_protocol.Transport.{Endpoint, transmitted, closing, write}
use cubesat_space_protocol.Io.{
  Station, if_lo, as_sent, observe, prepare, send_direct, lo_tx, lo_taken, count_sent,
}
use cubesat_space_protocol.Io.Direct.{
  Ending, unreachable, too_long, refused, driven, looped, send_direct-Ending,
}

-- Promiscuous mode has left alone what `csp_send_direct` goes on with.
pub record Unmoved (s s' : Station) (a : ℕ) : Type 0 where
  pub my_address : s'.my_address ≡ s.my_address
  pub crypto : s'.crypto ≡ s.crypto
  pub rand : s'.endpoint.rand ≡ s.endpoint.rand
  pub contents : (s'.endpoint.mem a).contents ≡ (s.endpoint.mem a).contents
  pub size : (s'.endpoint.mem a).length ≡ (s.endpoint.mem a).length
  pub input : s'.input ≡ s.input

pub observe-Unmoved :
    (s : Station) (idout : PacketId) (a : ℕ)
    → Fresh a s.endpoint.supply
    → Unmoved s (observe s idout a) a
unfolding observe
observe-Unmoved s idout a h =
    let w : Endpoint = write s.endpoint a (record (s.endpoint.mem a) { id = idout }) in
    let kept = promisc_add-Kept s.promisc w a h in
    let there : w.mem a ≡ record (s.endpoint.mem a) { id = idout } = rw (eq→== a a refl) refl in
    if_cases (λ s'. Unmoved s s' a) (idout.dst == s.my_address) _ _
      (λ e. record {
        my_address = refl;
        crypto = refl;
        rand = refl;
        contents = refl;
        size = refl;
        input = refl;
      })
      (λ e. record {
        my_address = refl;
        crypto = refl;
        rand = kept.rand;
        contents = ap (λ (p : Packet). p.contents) (kept.packet ∙ there);
        size = ap (λ (p : Packet). p.length) (kept.packet ∙ there);
        input = refl;
      })

-- The check of a receiver, of what `as_sent` makes of a packet.
module _ (s : Station) (receiver : Crypto) (idout : PacketId) (opts : ℕ) (c : Errors) where
  abbrev pub Passes : Packet → Packet → Type 0
  Passes p q =
      let (r, c') = security_check receiver opts idout.flags c q.contents q.length in
      (q.id ≡ idout) × Restored r p.contents p.length × (c' ≡ c)

  -- By the loopback interface: the packet is the last one in the queue of its priority at the router of
  -- this node, or, that queue being full, has been given back.
  abbrev pub Looped : Input → ℕ → ℕ → Station → Type 0
  Looped input pri a s' =
      Queued input pri (record { interface = if_lo; packet = a }) s'.input
      ⊎ (IsFull input pri
          × (s'.input ≡ input)
          × ((es : _) × (s'.endpoint.actions ≡ es ++ (closing (freed a) ∷ []))))

  -- How the packet has left.
  abbrev pub Left : ℕ → Packet → Station → Type 0
  Left a q s' =
      ((es : _) × (s'.endpoint.actions ≡ es ++ (transmitted idout q ∷ [])))
      ⊎ Looped s.input idout.pri a s'

  Entered-Looped :
      (r : Station) (a bytes : ℕ) (t : Input × Counters × List Effect)
      → Entered r.input a (r.endpoint.mem a).id.pri bytes if_lo r.lo t
      → Looped r.input (r.endpoint.mem a).id.pri a (lo_taken r t)
  Entered-Looped r a bytes (input, lo, es) (inl (into_queue, counted, none_)) = inl into_queue
  Entered-Looped r a bytes (input, lo, es) (inr (full, same, counted, out)) =
      inr (full, same, (r.endpoint.actions, ap (λ l. r.endpoint.actions ++ map closing l) out))

  loops : (r : Station) (a : ℕ) → Looped r.input (r.endpoint.mem a).id.pri a (lo_tx r a).1
  unfolding lo_tx
  loops r a =
      let p = r.endpoint.mem a in
      Entered-Looped r a p.length (new_packet r.input (some a) p.id.pri p.length (some if_lo) r.lo)
        (new_packet-Entered r.input a p.id.pri p.length if_lo r.lo)

  area :
      (s' : Station) (p : Packet)
      → idout.src ≡ s'.my_address
      → let q = as_sent s' idout p in
        (q.contents, q.length)
        ≡ protect s'.crypto idout.flags (s'.endpoint.rand % 2 ^ 32) (p.contents, p.length)
  unfolding as_sent
  area s' p h = rw (eq→== idout.src s'.my_address h) refl

  area-Unmoved :
      (s' : Station) (a : ℕ)
      → Unmoved s s' a
      → protect s'.crypto idout.flags
          (s'.endpoint.rand % 2 ^ 32)
          ((s'.endpoint.mem a).contents, (s'.endpoint.mem a).length)
        ≡ protect s.crypto idout.flags
            (s.endpoint.rand % 2 ^ 32)
            ((s.endpoint.mem a).contents, (s.endpoint.mem a).length)
  area-Unmoved s' a u =
      let e = u.crypto in let e' = u.rand in let e'' = u.contents in let e''' = u.size in cc

  pub as_sent-id : (s' : Station) (p : Packet) → (as_sent s' idout p).id ≡ idout
  unfolding as_sent
  as_sent-id s' p = refl

  abbrev pub Checks : Packet → Area → Type 0
  Checks p m =
      let (r, c') = security_check receiver opts idout.flags c m.0 m.1 in
      Restored r p.contents p.length × (c' ≡ c)

  as_sent-Passes :
      (s' : Station) (a : ℕ)
      → Unmoved s s' a
      → Share s.crypto receiver
      → idout.src ≡ s.my_address
      → let p = s.endpoint.mem a in
        p.length + 12 ≤ length p.contents
        → p.length + 12 < 2 ^ 16
        → 1 ≤ length s.crypto.keys.hmac_key
        → IsMet opts idout.flags
        → Passes p (as_sent s' idout (s'.endpoint.mem a))
  as_sent-Passes s' a u share mine fits small keyed met =
      let p = s.endpoint.mem a in
      let restored =
        security_check-protect s.crypto receiver opts idout.flags (s.endpoint.rand % 2 ^ 32)
          p.length p.contents c share fits small (omega arith) keyed met in
      let same = area s' (s'.endpoint.mem a) (mine ∙ sym u.my_address) ∙ area-Unmoved s' a u in
      let both = subst (Checks p) (sym same) restored in
      (as_sent-id s' (s'.endpoint.mem a), both.0, both.1)

  pub into :
      (r : Station) (a : ℕ) {dst : ℕ} {x : Error × Station}
      → Ending s r dst a x
      → x.0 ≡ err_none
      → (r.endpoint.mem a).id ≡ idout
      → r.input ≡ s.input
      → (x.1.endpoint.mem a ≡ r.endpoint.mem a) × Left a (r.endpoint.mem a) x.1
  unfolding lo_tx
  into r a (unreachable no_way) e named input = cc
  into r a (too_long i n w over) e named input = cc
  into r a (refused i takes w fits not_taken) e named input = cc
  into r a (driven i takes w fits ok) e named input = (
    refl,
    inl (
      r.endpoint.actions,
      ap (λ (id : PacketId). r.endpoint.actions ++ (transmitted id (r.endpoint.mem a) ∷ [])) named,
    ),
  )
  into r a (looped i w fits) e named input =
      let s' = count_sent (lo_tx r a).1 i (r.endpoint.mem a).length in
      (
        refl,
        inr (
            subst (λ l. Looped l idout.pri a s') input
              (subst (λ (id : PacketId). Looped r.input id.pri a s') named (loops r a))),
      )

  pub prepared-as_sent :
      (s' : Station) (a : ℕ)
      → (prepare s' idout a).endpoint.mem a ≡ as_sent s' idout (s'.endpoint.mem a)
  prepared-as_sent s' a = rw (eq→== a a refl) refl

-- A packet of a node itself with room for 12 bytes more, in a buffer that the pool does not give out again, and whose flags ask for all that the receiver requires: if `csp_send_direct` succeeds, what then stands in the buffer bears the new identifier and has left: by a driver, or by the loopback interface, and then it is the last one in the queue of its priority at the router of this node, or, if that queue is full, has been given back to the pool; and a node with the same keys, whatever its own stack holds, passes it, with the length and the data that the caller gave and no error counted.
pub send_direct-received :
    (s : Station) (receiver : Crypto) (idout : PacketId) (a opts : ℕ) (c : Errors)
    → (send_direct s idout (some a)).0 ≡ err_none
    → Fresh a s.endpoint.supply
    → Share s.crypto receiver
    → idout.src ≡ s.my_address
    → let p = s.endpoint.mem a in
      p.length + 12 ≤ length p.contents
      → p.length + 12 < 2 ^ 16
      → 1 ≤ length s.crypto.keys.hmac_key
      → IsMet opts idout.flags
      → let s' = (send_direct s idout (some a)).1 in
        let q = s'.endpoint.mem a in
        Passes s receiver idout opts c p q × Left s receiver idout opts c a q s'
send_direct-received s receiver idout a opts c ok fresh share mine fits small keyed met =
    let u = observe-Unmoved s idout a fresh in
    let o = observe s idout a in
    let p = s.endpoint.mem a in
    let s' = (send_direct s idout (some a)).1 in
    let there = prepared-as_sent s receiver idout opts c o a in
    let (kept, left) =
      into s receiver idout opts c (prepare o idout a) a (send_direct-Ending s idout a) ok
        (ap (λ (q : Packet). q.id) there ∙ as_sent-id s receiver idout opts c o (o.endpoint.mem a))
        u.input in
    let passes = as_sent-Passes s receiver idout opts c o a u share mine fits small keyed met in
    (
      subst (Passes s receiver idout opts c p) (sym (kept ∙ there)) passes,
      subst (λ q. Left s receiver idout opts c a q s') (sym kept) left,
    )
