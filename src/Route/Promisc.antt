-- ===== src/Route/Promisc.antt =====
-- libCSP/trunk/src/csp_route.c: promiscuous mode, in which the router and `csp_send_direct` queue a
-- copy of every packet for the user.
pub mod Copies
use cubesat_space_protocol.Base.{
  ℕ, List, [], ◌∷◌, Option, none, some, take, blit, Bool, true, false,
}
use cubesat_space_protocol.Header.{Packet}
use cubesat_space_protocol.Queue.Fifo.{Fifo, fresh, push, pop}
use cubesat_space_protocol.Transport.{Endpoint, write, buffer_get, buffer_free}

-- `csp_promisc_enabled` and `csp_promisc_queue`; NULL is `none`.
pub record Promisc : Type 0 where
  pub enabled : Bool
  pub queue : Option (Fifo ℕ)

create_queue : Promisc → Bool → ℕ → Bool × Promisc
create_queue s true buf_size = (true, record { enabled = true; queue = some (fresh buf_size) })
create_queue s false buf_size = (false, s)

enable_with : Option (Fifo ℕ) → Promisc → Bool → ℕ → Bool × Promisc
unfolding create_queue
enable_with (some q) s created buf_size = (true, record s { enabled = true })
enable_with none s created buf_size = create_queue s created buf_size

-- `csp_promisc_enable`, with the outcome of `csp_queue_create`: whether it returns 1.
unfoldable pub promisc_enable : Promisc → Bool → ℕ → Bool × Promisc
unfolding enable_with
promisc_enable s created buf_size = enable_with s.queue s created buf_size

-- `csp_promisc_disable`
unfoldable pub promisc_disable : Promisc → Promisc
promisc_disable s = record s { enabled = false }

promisc_popped : Promisc → Option (ℕ × Fifo ℕ) → Option ℕ × Promisc
promisc_popped s none = (none, s)
promisc_popped s (some (a, q)) = (some a, record s { queue = some q })

read_from : Option (Fifo ℕ) → Promisc → Option ℕ × Promisc
unfolding promisc_popped
read_from none s = (none, s)
read_from (some q) s = promisc_popped s (pop q)

-- `csp_promisc_read`, with nothing more to come while it waits.
unfoldable pub promisc_read : Promisc → Option ℕ × Promisc
unfolding read_from
promisc_read s = read_from s.queue s

-- What the `memcpy` of `csp_promisc_add` makes of the new buffer: the length, the identifier and
-- the data are those of the packet.
abbrev pub as_copy : Packet → Packet → Packet
as_copy buffer p = record buffer {
  length = p.length;
  id = p.id;
  contents = blit buffer.contents 0 (take p.length p.contents);
}

copy_queued : Promisc → Endpoint → ℕ → Bool × Fifo ℕ → Promisc × Endpoint
copy_queued s w copy (true, q) = (record s { queue = some q }, w)
copy_queued s w copy (false, q) = (s, buffer_free w copy)

add_copy : Promisc → Fifo ℕ → ℕ → Option ℕ × Endpoint → Promisc × Endpoint
unfolding copy_queued
add_copy s q a (none, w) = (s, w)
add_copy s q a (some copy, w) =
    copy_queued s (write w copy (as_copy (w.mem copy) (w.mem a))) copy (push q copy)

add_to : Bool → Option (Fifo ℕ) → Promisc → Endpoint → ℕ → Promisc × Endpoint
unfolding add_copy
add_to false queue s w a = (s, w)
add_to true none s w a = (s, w)
add_to true (some q) s w a = add_copy s q a (buffer_get w)

-- `csp_promisc_add` of the packet at `a`, on `csp_promisc_queue`.
unfoldable pub promisc_add : Promisc → Endpoint → ℕ → Promisc × Endpoint
unfolding add_to
promisc_add s w a = add_to s.enabled s.queue s w a
