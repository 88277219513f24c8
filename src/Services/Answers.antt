-- ===== src/Services/Answers.antt =====
-- libCSP/trunk/src/csp_service_handler.c against libCSP/trunk/src/csp_services.c: what a node answers,
-- and what the one that has asked makes of it.
use cubesat_space_protocol.Base.{
  ℕ, ◌+◌, ◌*◌, ◌%◌, ◌^◌, ◌≤◌, ◌<◌, ◌≡◌, ◌≢◌, ◌↔◌, List, [], ◌∷◌, Option, none, some, length, take,
  blit, take-drop-blit, bytes32, word32, word32-bytes32, Bool, true, false, ◌==◌, ==_iff, eq→==,
  refl, sym, ◌∙◌, ap, subst, arith, if◌then◌else◌,
}
use cubesat_space_protocol.Header.{Packet}
use cubesat_space_protocol.Endian.{hton32, ntoh32}
use cubesat_space_protocol.Endian.Swap.{network_word, ntoh-hton, hton32-lt}
use cubesat_space_protocol.Io.{Station}
use cubesat_space_protocol.Io.Transactions.{reply_read}
use cubesat_space_protocol.Services.{
  ServicePort, ping, ps, memfree, reboot, buf_free, uptime, other, Host, Service, answer, discard,
  reset, holding, magic_word, serve,
}
use cubesat_space_protocol.Services.Client.{as_number, four_bytes}

-- What `csp_transaction` and its caller make of an answer, in whatever buffer it comes.
abbrev pub ReadAs : Option ℕ → Packet → Type 0
ReadAs n q =
    (s : Station) (a : ℕ)
    → s.endpoint.mem a ≡ q
    → as_number (reply_read four_bytes (some 4) (some a, s)) ≡ n

abbrev pub Answered : (Packet → Type 0) → Service → Type 0
Answered P (answer q) = P q
Answered P discard = ⊥
Answered P reset = ⊥

held-ReadAs :
    (p : Packet) (w : ℕ)
    → 4 ≤ length p.contents
    → w < 2 ^ 32
    → ReadAs (some w) (holding p (bytes32 (hton32 false w)))
unfolding as_number reply_read
held-ReadAs p w room h s a e =
    let swapped = hton32 false w in
    let copied : take 4 (blit p.contents 0 (bytes32 swapped)) ≡ bytes32 swapped =
      take-drop-blit p.contents 0 (bytes32 swapped) room in
    rw e (
      rw copied (
        ap some (
          ap (ntoh32 false) (word32-bytes32 swapped (hton32-lt false w h))
          ∙ (ntoh-hton false w 0 h (omega arith)).0)))

-- The numbers of seconds and of free buffers are read as the node has them, modulo 2 ^ 32, if the buffer has room for four bytes; the answer about free memory has eight bytes on such a host, and no reader takes it.
pub serve-ReadAs :
    (h : Host) (p : Packet)
    → 4 ≤ length p.contents
    → Answered (ReadAs (some (h.seconds % 2 ^ 32))) (serve h uptime p)
      × Answered (ReadAs (some (h.free_buffers % 2 ^ 32))) (serve h buf_free p)
      × Answered (ReadAs none) (serve h memfree p)
unfolding serve as_number reply_read
serve-ReadAs h p room = (
  held-ReadAs p (h.seconds % 2 ^ 32) room (omega arith),
  held-ReadAs p (h.free_buffers % 2 ^ 32) room (omega arith),
  λ s a e. rw e refl,
)

magic_bytes :
    (a b c d : ℕ)
    → a < 256
    → b < 256
    → c < 256
    → d < 256
    → ((ntoh32 false (word32 (a ∷ b ∷ c ∷ d ∷ [])) == magic_word) ≡ true)
      ↔ (◌≡◌ {A = List ℕ} (a ∷ b ∷ c ∷ d ∷ []) (0x80 ∷ 0x07 ∷ 0x80 ∷ 0x07 ∷ []))
magic_bytes a b c d ha hb hc hd =
    let word = network_word a b c d ha hb hc hd in
    (
      λ e.
          let n = (==_iff _ magic_word).0 e in
          let ea : a ≡ 0x80 = omega (arith, word, n) in
          let eb : b ≡ 0x07 = omega (arith, word, n) in
          let ec : c ≡ 0x80 = omega (arith, word, n) in
          let ed : d ≡ 0x07 = omega (arith, word, n) in cc,
      λ e.
          let bytes : ◌≡◌ {A = ℕ × ℕ × ℕ × ℕ} (a, b, c, d) (0x80, 0x07, 0x80, 0x07) = cc in
          eq→== _ magic_word
            (word ∙ ap (λ (t : ℕ × ℕ × ℕ × ℕ). ((t.0 * 256 + t.1) * 256 + t.2) * 256 + t.3) bytes),
    )

abbrev pub Magic : Host → ServicePort → Packet → Type 0
Magic h port p =
    (port ≡ reboot) × (h.has_reset ≡ true) × (take 4 p.contents ≡ 0x80 ∷ 0x07 ∷ 0x80 ∷ 0x07 ∷ [])

by_tests :
    (magic linked : Bool) (Q : Type 0)
    → ((magic ≡ true) ↔ Q)
    → let r = if magic then if linked then reset else discard else discard in
      (r ≡ reset) ↔ ((linked ≡ true) × Q)
by_tests true true Q e = (λ h. (refl, e.0 refl), λ h. refl)
by_tests true false Q e = (λ h. cc, λ h. cc)
by_tests false linked Q e = (λ h. cc, λ h. absurd (unlike (e.1 h.1)))
  where
    unlike : false ≢ true
    unlike h = cc

-- A request starts the node again exactly if it comes to the port for that, the program has the means to, and the first four bytes of its buffer are the magic word in network order.
pub serve-reset_iff :
    (h : Host) (port : ServicePort) (p : Packet) (a b c d : ℕ)
    → take 4 p.contents ≡ a ∷ b ∷ c ∷ d ∷ []
    → a < 256
    → b < 256
    → c < 256
    → d < 256
    → (serve h port p ≡ reset) ↔ Magic h port p
unfolding serve
serve-reset_iff h reboot p a b c d e ha hb hc hd =
    let test = magic_bytes a b c d ha hb hc hd in
    let (there, back) =
      by_tests (ntoh32 false (word32 (take 4 p.contents)) == magic_word) h.has_reset
        (take 4 p.contents ≡ 0x80 ∷ 0x07 ∷ 0x80 ∷ 0x07 ∷ [])
        (subst
          (λ l.
            ((ntoh32 false (word32 l) == magic_word) ≡ true) ↔ (l ≡ 0x80 ∷ 0x07 ∷ 0x80 ∷ 0x07 ∷ []))
          (sym e) test) in
    (λ r. (refl, (there r).0, (there r).1), λ m. back (m.1, m.2))
serve-reset_iff h ping p a b c d e ha hb hc hd = (λ r. cc, λ m. let e' = m.0 in cc)
serve-reset_iff h ps p a b c d e ha hb hc hd = (λ r. cc, λ m. let e' = m.0 in cc)
serve-reset_iff h memfree p a b c d e ha hb hc hd = (λ r. cc, λ m. let e' = m.0 in cc)
serve-reset_iff h buf_free p a b c d e ha hb hc hd = (λ r. cc, λ m. let e' = m.0 in cc)
serve-reset_iff h uptime p a b c d e ha hb hc hd = (λ r. cc, λ m. let e' = m.0 in cc)
serve-reset_iff h other p a b c d e ha hb hc hd = (λ r. cc, λ m. let e' = m.0 in cc)
