-- ===== src/Services/Client/Echo.antt =====
-- libCSP/trunk/src/csp_services.c: when `csp_ping` takes an echo for one.
use cubesat_space_protocol.Base.{
  ℕ, zero, suc, ◌+◌, ◌≤◌, ◌≡◌, List, [], ◌∷◌, take, blit, length, take-drop-blit, false, ◌==◌, leb,
  refl, sym, ◌∙◌, ap, subst, arith, if◌then◌else◌,
}
use cubesat_space_protocol.Header.{Packet}
use cubesat_space_protocol.Services.{Host, serve, ping}
use cubesat_space_protocol.Services.Answers.{Answered}
use cubesat_space_protocol.Services.Client.{counting, counts, ping_request, is_echo}

length-counting : (n i : ℕ) → length (counting n i) ≡ n
unfolding counting
length-counting zero i = refl
length-counting (suc n) i = omega (arith, length-counting n (suc i))

-- Only the bytes that the loop looks at matter.
counts-take : (n i : ℕ) (l : List ℕ) → counts n i (take n l) ≡ counts n i l
unfolding counts
counts-take zero i l = refl
counts-take (suc n) i [] = refl
counts-take (suc n) i (b ∷ l) = ap (λ r. if b == i then r else false) (counts-take n (suc i) l)

counts-counting : (n i : ℕ) → i ≤ 256 → counts n i (counting n i) ≡ leb (i + n) 256
unfolding counts counting
counts-counting zero i h = ground arith
counts-counting (suc n) i h = ground (arith, counts-counting n (suc i))

-- The echo of a ping is taken for one exactly if it has no more than 256 bytes: the numbers are bytes, and are compared as numbers.
pub is_echo-ping_request :
    (h : Host) (p : Packet) (size : ℕ)
    → size ≤ length p.contents
    → Answered (λ q. is_echo q size ≡ leb size 256) (serve h ping (ping_request p size))
unfolding serve ping_request is_echo
is_echo-ping_request h p size room =
    let bytes = counting size 0 in
    let size_of = length-counting size 0 in
    let there : take size (blit p.contents 0 bytes) ≡ bytes =
      subst (λ n. take n (blit p.contents 0 bytes) ≡ bytes) size_of
        (take-drop-blit p.contents 0 bytes (omega (arith, size_of, room))) in
    sym (counts-take size 0 (blit p.contents 0 bytes))
    ∙ ap (counts size 0) there
    ∙ counts-counting size 0 (omega arith)
    ∙ ap (λ n. leb n 256) (omega arith)
