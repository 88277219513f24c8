-- ===== src/Services/Client.antt =====
-- libCSP/trunk/src/csp_services.c: the requests to the services of a node, without what they print.
pub mod Echo
use cubesat_space_protocol.Base.{
  ℕ, zero, suc, ◌+◌, ◌%◌, ◌^◌, List, [], ◌∷◌, Option, none, some, blit, bytes32, word32, Bool, true,
  false, ◌==◌, if◌then◌else◌,
}
use cubesat_space_protocol.Error.{Error}
use cubesat_space_protocol.Header.{Packet}
use cubesat_space_protocol.Endian.{hton32, ntoh32}
use cubesat_space_protocol.Conn.{Conn, Effect}
use cubesat_space_protocol.Conn.Pool.{Connections}
use cubesat_space_protocol.Transport.{Endpoint, write, buffer_get, buffer_free}
use cubesat_space_protocol.Io.{Station, set_endpoint}
use cubesat_space_protocol.Io.Read.{read}
use cubesat_space_protocol.Io.Calls.{Waits, send}
use cubesat_space_protocol.Io.Transactions.{Transaction, Transacted, Locks, transaction}
use cubesat_space_protocol.Services.{magic_word}

-- `n` bytes that count up from `i`.
pub counting : ℕ → ℕ → List ℕ
counting zero i = []
counting (suc n) i = i % 256 ∷ counting n (suc i)

-- The request of `csp_ping`.
unfoldable pub ping_request : Packet → ℕ → Packet
unfolding counting
ping_request p size = record p {
  contents = blit p.contents 0 (counting size 0);
  length = size % 2 ^ 16;
}

-- The loop of `csp_ping` over `n` bytes of the answer, the first of which is at `i`: is each the
-- number of its place? (The data area has as many bytes.)
pub counts : ℕ → ℕ → List ℕ → Bool
counts zero i bytes = true
counts (suc n) i [] = false
counts (suc n) i (b ∷ bytes) = let rest = counts n (suc i) bytes in if b == i then rest else false

unfoldable pub is_echo : Packet → ℕ → Bool
unfolding counts
is_echo p size = counts size 0 p.contents

abbrev freed : Station → ℕ → Station
freed s a = set_endpoint s (buffer_free s.endpoint a)

ping_read : ℕ → Option ℕ × Station → Bool × Station
ping_read size (none, s) = (false, s)
ping_read size (some a, s) = (is_echo (s.endpoint.mem a) size, freed s a)

ping_sent : Waits → ℕ → ℕ → Bool × Station → Bool × Station
unfolding ping_read
ping_sent waits size a (false, s) = (false, freed s a)
ping_sent waits size a (true, s) = ping_read size (read waits.rx_event s (some s.endpoint.conn))

ping_got : Waits → Station → ℕ → Option ℕ × Endpoint → Bool × Station
unfolding ping_sent
ping_got waits s size (none, w) = (false, set_endpoint s w)
ping_got waits s size (some a, w) =
    let s' = set_endpoint s (write w a (ping_request (w.mem a) size)) in
    ping_sent waits size a (send waits s' (some w.conn) (some a))

-- `csp_ping` between `csp_connect` and `csp_close`, on the connection of the endpoint: `status`.
unfoldable pub ping_over : Waits → Station → ℕ → Bool × Station
unfolding ping_got
ping_over waits s size = ping_got waits s size (buffer_get s.endpoint)

-- CSP_PRIO_NORM
abbrev prio_norm : ℕ
prio_norm = 2

-- What the caller makes of a transaction for a number: none if the status is 0.
unfoldable pub as_number : Transaction → Option ℕ
as_number t =
    if t.status == 0
    then none
    else elim t.inbuf [ none ↦ none | some bytes ↦ some (ntoh32 false (word32 bytes)) ]

abbrev pub four_bytes : List ℕ
four_bytes = 0 ∷ 0 ∷ 0 ∷ 0 ∷ []

module _ (rdp_connect : ℕ → Conn → Error × Conn × List Effect) (waits : Waits) (l : Locks) where
  -- `csp_reboot`
  unfoldable pub reboot_node : ℕ → Station → Connections → ℕ → ℕ → Option Transacted
  reboot_node fuel s p sport node =
      transaction rdp_connect waits l fuel s p sport prio_norm node 4
        (some (bytes32 (hton32 false magic_word))) 4 [] (some 0)

  -- `csp_memfree`, `csp_buf_free` and `csp_uptime`, up to `csp_ntoh32`.
  unfoldable pub ask_memfree : ℕ → Station → Connections → ℕ → ℕ → Option Transacted
  ask_memfree fuel s p sport node =
      transaction rdp_connect waits l fuel s p sport prio_norm node 3 none 0 four_bytes (some 4)

  unfoldable pub ask_buf_free : ℕ → Station → Connections → ℕ → ℕ → Option Transacted
  ask_buf_free fuel s p sport node =
      transaction rdp_connect waits l fuel s p sport prio_norm node 5 none 0 four_bytes (some 4)

  unfoldable pub ask_uptime : ℕ → Station → Connections → ℕ → ℕ → Option Transacted
  ask_uptime fuel s p sport node =
      transaction rdp_connect waits l fuel s p sport prio_norm node 6 none 0 four_bytes (some 4)
