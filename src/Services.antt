-- ===== src/Services.antt =====
-- libCSP/trunk/src/csp_service_handler.c: the services of every node, on a 64-bit POSIX host that keeps
-- the least significant byte first. What the system says of itself is an argument.
pub mod Client
pub mod Answers
pub mod Handled
mod Tests
use Prim.Native.Char.{code}
use Prim.Native.String.{String}
use cubesat_space_protocol.Base.{
  ℕ, ◌+◌, ◌*◌, ◌%◌, ◌^◌, List, [], ◌∷◌, ◌++◌, Option, none, some, length, take, blit, bytes32,
  word32, Bool, true, false, ◌==◌, if◌then◌else◌,
}
use cubesat_space_protocol.Header.{Packet}
use cubesat_space_protocol.Endian.{hton32, ntoh32}
use cubesat_space_protocol.Conn.{Conn}
use cubesat_space_protocol.Transport.{write, buffer_free}
use cubesat_space_protocol.Io.{Station, set_endpoint}
use cubesat_space_protocol.Io.Read.{set_conn}
use cubesat_space_protocol.Io.Calls.{Waits, send}

-- `enum csp_reserved_ports_e`, and every other port.
pub data ServicePort : Type 0 where
  ping ps memfree reboot buf_free uptime other : ServicePort

abbrev pub port_of : ℕ → ServicePort
port_of n =
    if n == 1
    then ping
    else if n == 2
    then ps
    else if n == 3
    then memfree
    else if n == 4
    then reboot
    else if n == 5
    then buf_free
    else if n == 6
    then uptime
    else other

-- What the host says: `sysinfo`, `csp_buffer_remaining` and `csp_get_s`, and whether `cpu_reset` is
-- linked to the program.
pub record Host : Type 0 where
  pub freeram : ℕ
  pub mem_unit : ℕ
  pub free_buffers : ℕ
  pub seconds : ℕ
  pub has_reset : Bool

-- What becomes of a request: its packet is the answer, it is freed, or the host starts again.
pub data Service : Type 0 where
  answer : Packet → Service
  discard reset : Service

-- `memcpy` of some bytes to the data, which are the whole answer.
abbrev pub holding : Packet → List ℕ → Packet
holding p bytes = record p { contents = blit p.contents 0 bytes; length = length bytes }

abbrev codes : String → List ℕ
codes String.[] = []
codes (String.◌∷◌ c s) = code c ∷ codes s

-- The answer of CSP_PS on POSIX.
abbrev tasklist : List ℕ
tasklist = codes "Tasklist in not available on posix"

abbrev pub magic_word : ℕ
magic_word = 0x80078007

-- `total` is a `size_t`: 8 bytes, of which `csp_hton32` leaves 4.
abbrev pub memfree_bytes : ℕ → List ℕ
memfree_bytes total = bytes32 (hton32 false (total % 2 ^ 32)) ++ (0 ∷ 0 ∷ 0 ∷ 0 ∷ [])

-- The switch of `csp_service_handler`.
unfoldable pub serve : Host → ServicePort → Packet → Service
serve h ping p = answer p
serve h ps p = answer (holding p (tasklist ++ (0 ∷ [])))
serve h memfree p = answer (holding p (memfree_bytes (h.freeram * h.mem_unit)))
serve h reboot p =
    if ntoh32 false (word32 (take 4 p.contents)) == magic_word
    then if h.has_reset then reset else discard
    else discard
serve h buf_free p = answer (holding p (bytes32 (hton32 false (h.free_buffers % 2 ^ 32))))
serve h uptime p = answer (holding p (bytes32 (hton32 false (h.seconds % 2 ^ 32))))
serve h other p = discard

abbrev given : Station → ℕ → Station
given s a = set_endpoint s (buffer_free s.endpoint a)

answered : ℕ → Bool × Station → Station
answered a (true, s) = s
answered a (false, s) = given s a

-- What is done with the packet at `a`; `none` is a host that starts again.
handle : Waits → Station → Conn → ℕ → Service → Option Station
unfolding answered
handle waits s c a (answer p) =
    some (answered a (send waits (set_endpoint s (write s.endpoint a p)) (some c) (some a)))
handle waits s c a discard = some (given (set_conn s c) a)
handle waits s c a reset = none

-- `csp_service_handler` for connection `c` and the packet at `a`.
unfoldable pub service_handler : Host → Waits → Station → Conn → ℕ → Option Station
unfolding serve handle
service_handler h waits s c a =
    handle waits s c a (serve h (port_of c.idin.dport) (s.endpoint.mem a))
