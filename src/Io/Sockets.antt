-- ===== src/Io/Sockets.antt =====
-- libCSP/trunk/src/csp_io.c: sockets. The handle of a queue is a number, and `queues` has what each
-- queue holds.
pub mod Supported
use cubesat_space_protocol.Base.{
  ℕ, ◌-◌, ◌^◌, ◌==◌, bit_and, bit_or, Option, none, some, Bool, true, false, not, ◌&&◌,
  if◌then◌else◌,
}
use cubesat_space_protocol.Header.{
  has, so_rdpreq, so_xteareq, so_hmacreq, so_crc32req, so_conn_less,
}
use cubesat_space_protocol.Queue.Fifo.{Fifo, pop}
use cubesat_space_protocol.Port.{Socket}
use cubesat_space_protocol.Io.Calls.{Features}

-- The options that `csp_socket` knows.
abbrev pub so_all : ℕ
so_all = bit_or (bit_or (bit_or (bit_or so_rdpreq so_xteareq) so_hmacreq) so_crc32req) so_conn_less

-- `~so_all`, on 32 bits
abbrev pub so_unknown : ℕ
so_unknown = 2 ^ 32 - 1 - so_all

-- The checks of `csp_socket`.
unfoldable pub is_supported : Features → ℕ → Bool
is_supported f opts =
    if has opts so_rdpreq && not f.rdp
    then false
    else if has opts so_xteareq && not f.xtea
    then false
    else if has opts so_hmacreq && not f.hmac
    then false
    else if has opts so_crc32req && not f.crc32
    then false
    else not (has opts so_unknown)

-- What `csp_socket` comes to: a socket, NULL, or NULL with the memory of the socket lost.
pub data Created : Type 0 where
  given : Socket → Created
  refused lost : Created

with_queue : ℕ → Option ℕ → Created
with_queue opts none = lost
with_queue opts (some q) = given (record { queue = some q; opts = opts })

allocated : Bool → Option ℕ → ℕ → Created
unfolding with_queue
allocated false queue opts = refused
allocated true queue opts =
    if has opts so_conn_less
    then with_queue opts queue
    else given (record { queue = none; opts = opts })

-- `csp_socket`, with the outcomes of `csp_malloc` and of `csp_queue_create`.
unfoldable pub socket : Features → Bool → Option ℕ → ℕ → Created
unfolding is_supported allocated
socket f memory queue opts = if is_supported f opts then allocated memory queue opts else refused

dequeued : Option (ℕ × Fifo ℕ) → (ℕ → Fifo ℕ) → ℕ → Option ℕ × (ℕ → Fifo ℕ)
dequeued none queues q = (none, queues)
dequeued (some (x, f)) queues q = (some x, λ j. if j == q then f else queues j)

dequeue_from : Option ℕ → (ℕ → Fifo ℕ) → Option ℕ × (ℕ → Fifo ℕ)
unfolding dequeued
dequeue_from none queues = (none, queues)
dequeue_from (some q) queues = dequeued (pop (queues q)) queues q

-- `csp_accept`, with nothing more to come while it waits; NULL is `none`.
unfoldable pub accept : Option Socket → (ℕ → Fifo ℕ) → Option ℕ × (ℕ → Fifo ℕ)
unfolding dequeue_from
accept none queues = (none, queues)
accept (some s) queues = dequeue_from s.queue queues

-- `csp_recvfrom`, with nothing more to come while it waits. (A socket without connections has a
-- queue from `csp_socket` on.)
unfoldable pub recvfrom : Option Socket → (ℕ → Fifo ℕ) → Option ℕ × (ℕ → Fifo ℕ)
unfolding dequeue_from
recvfrom none queues = (none, queues)
recvfrom (some s) queues =
    if has s.opts so_conn_less then dequeue_from s.queue queues else (none, queues)
