-- ===== src/Io/Direct/Relayed.antt =====
-- libCSP/trunk/src/csp_io.c and libCSP/trunk/src/csp_route.c: a packet that another node passes on with
-- `csp_send_direct`, as its router does.
use cubesat_space_protocol.Base.{
  ℕ, ◌+◌, ◌≤◌, ◌<◌, ◌≡◌, ◌≢◌, some, length, ◌^◌, sym, ◌∙◌, ap, ap₂, subst, refl, ne→==,
}
use cubesat_space_protocol.Error.{err_none}
use cubesat_space_protocol.Header.{Packet, PacketId}
use cubesat_space_protocol.Security.{Crypto, Errors}
use cubesat_space_protocol.Security.Roundtrip.{IsMet}
use cubesat_space_protocol.Security.Nodes.{Share}
use cubesat_space_protocol.Route.Promisc.Copies.{Fresh}
use cubesat_space_protocol.Io.{Station, as_sent, observe, prepare, send_direct}
use cubesat_space_protocol.Io.Direct.{send_direct-Ending}
use cubesat_space_protocol.Io.Direct.Received.{
  Passes, Checks, Left, into, prepared-as_sent, as_sent-id, observe-Unmoved, send_direct-received,
}

-- A packet of another node is sent as it is.
foreign :
    (o : Station) (idout : PacketId) (p : Packet)
    → idout.src ≢ o.my_address
    → ((as_sent o idout p).contents ≡ p.contents) × ((as_sent o idout p).length ≡ p.length)
unfolding as_sent
foreign o idout p h = rw (ne→== idout.src o.my_address h) (refl, refl)

-- Over two hops: a packet that its own node has sent as in `send_direct-received`, and that stands in a
-- buffer of another node, which its pool does not give out again: if `csp_send_direct` succeeds there as
-- well, the data area and the length of the packet are unchanged, it has left that node as
-- `send_direct-received` says, and a node with the keys of the first one, whatever its own stack holds,
-- passes it, with the length and the data that the first caller gave and no error counted. Nothing is
-- asked of the keys of the node between.
pub send_direct-relayed :
    (s r : Station) (receiver : Crypto) (idout : PacketId) (a b opts : ℕ) (c : Errors)
    → (send_direct s idout (some a)).0 ≡ err_none
    → Fresh a s.endpoint.supply
    → Share s.crypto receiver
    → idout.src ≡ s.my_address
    → let p = s.endpoint.mem a in
      p.length + 12 ≤ length p.contents
      → p.length + 12 < 2 ^ 16
      → 1 ≤ length s.crypto.keys.hmac_key
      → IsMet opts idout.flags
      → let sent = (send_direct s idout (some a)).1.endpoint.mem a in
        (r.endpoint.mem b).contents ≡ sent.contents
        → (r.endpoint.mem b).length ≡ sent.length
        → (send_direct r idout (some b)).0 ≡ err_none
        → Fresh b r.endpoint.supply
        → idout.src ≢ r.my_address
        → let r' = (send_direct r idout (some b)).1 in
          let q = r'.endpoint.mem b in
          (q.contents ≡ (r.endpoint.mem b).contents)
          × (q.length ≡ (r.endpoint.mem b).length)
          × Passes s receiver idout opts c p q
          × Left r receiver idout opts c b q r'
send_direct-relayed s r receiver idout a b opts c ok fresh share mine fits small keyed met same
      same_length ok' fresh' other =
    let p = s.endpoint.mem a in
    let ((_, restored, uncounted), _) =
      send_direct-received s receiver idout a opts c ok fresh share mine fits small keyed met in
    let o = observe r idout b in
    let u = observe-Unmoved r idout b fresh' in
    let there = prepared-as_sent r receiver idout opts c o b in
    let (kept, left) =
      into r receiver idout opts c (prepare o idout b) b (send_direct-Ending r idout b) ok'
        (ap (λ (q : Packet). q.id) there ∙ as_sent-id r receiver idout opts c o (o.endpoint.mem b))
        u.input in
    let (bytes, size) = foreign o idout (o.endpoint.mem b) (λ e. other (e ∙ u.my_address)) in
    let q = (send_direct r idout (some b)).1.endpoint.mem b in
    let q_is = kept ∙ there in
    let contents_in = ap (λ (q : Packet). q.contents) q_is ∙ bytes ∙ u.contents in
    let length_in = ap (λ (q : Packet). q.length) q_is ∙ size ∙ u.size in
    let both : Checks s receiver idout opts c p (q.contents, q.length) =
      subst (Checks s receiver idout opts c p)
        (sym (ap₂ (λ l n. (l, n)) (contents_in ∙ same) (length_in ∙ same_length)))
        (restored, uncounted) in
    (
      contents_in,
      length_in,
      (
        ap (λ (q : Packet). q.id) q_is ∙ as_sent-id r receiver idout opts c o (o.endpoint.mem b),
        both.0,
        both.1,
      ),
      subst (λ q'. Left r receiver idout opts c b q' (send_direct r idout (some b)).1) (sym kept)
          left,
    )
