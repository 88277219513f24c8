-- ===== src/Io/Transactions.antt =====
-- libCSP/trunk/src/csp_io.c: transactions, a request and its reply.
pub mod Bounds
use cubesat_space_protocol.Base.{
  ℕ, ◌+◌, ◌-◌, ◌%◌, ◌^◌, List, [], ◌∷◌, ◌++◌, map, Option, none, some, get_elem?, take, blit,
  length, Bool, true, false, leb, ◌==◌, if◌then◌else◌,
}
use cubesat_space_protocol.Error.{Error}
use cubesat_space_protocol.Header.{Packet}
use cubesat_space_protocol.Conn.{Conn, Effect}
use cubesat_space_protocol.Conn.Pool.{Connections, update, close}
use cubesat_space_protocol.Conn.Connect.{Connected, connect}
use cubesat_space_protocol.Transport.{Endpoint, closing, write, buffer_get, buffer_free}
use cubesat_space_protocol.Io.{Station, set_endpoint}
use cubesat_space_protocol.Io.Read.{set_conn, read}
use cubesat_space_protocol.Io.Calls.{Waits, send}

-- What a transaction returns, `inbuf` behind it (`none`: a write outside of it), and the station.
pub record Transaction : Type 0 where
  pub status : ℕ
  pub inbuf : Option (List ℕ)
  pub station : Station

abbrev pub over : ℕ → List ℕ → Station → Transaction
over status inbuf s = record { status = status; inbuf = some inbuf; station = s }

abbrev pub freed_at : Station → ℕ → Station
freed_at s a = set_endpoint s (buffer_free s.endpoint a)

-- The reply is copied to `inbuf` and its buffer freed.
abbrev pub copy_in : List ℕ → List ℕ → Option (List ℕ)
copy_in inbuf bytes = if leb (length bytes) (length inbuf) then some (blit inbuf 0 bytes) else none

-- The test of the reply's length; `none` is the `inlen` -1.
abbrev pub is_expected : Option ℕ → ℕ → Bool
is_expected none n = true
is_expected (some inlen) n = n == inlen

unfoldable pub reply_read : List ℕ → Option ℕ → Option ℕ × Station → Transaction
reply_read inbuf inlen (none, s) = over 0 inbuf s
reply_read inbuf inlen (some a, s) =
    let p = s.endpoint.mem a in
    if is_expected inlen p.length
    then record {
      status = p.length;
      inbuf = copy_in inbuf (take p.length p.contents);
      station = freed_at s a;
    }
    else over 0 inbuf (freed_at s a)

abbrev is_zero : Option ℕ → Bool
is_zero none = false
is_zero (some n) = n == 0

request_sent : Waits → ℕ → List ℕ → Option ℕ → Bool × Station → Transaction
unfolding reply_read
request_sent waits a inbuf inlen (false, s) = over 0 inbuf (freed_at s a)
request_sent waits a inbuf inlen (true, s) =
    if is_zero inlen
    then over 1 inbuf s
    else reply_read inbuf inlen (read waits.rx_event s (some s.endpoint.conn))

-- The request in its buffer.
abbrev pub as_request : Packet → Option (List ℕ) → ℕ → Packet
as_request p none outlen = record p { length = outlen % 2 ^ 16 }
as_request p (some outbuf) outlen = record p {
  contents = blit p.contents 0 (take outlen outbuf);
  length = outlen % 2 ^ 16;
}

buffer_got :
    Waits → Option (List ℕ) → ℕ → List ℕ → Option ℕ → Station → Option ℕ × Endpoint → Transaction
unfolding request_sent
buffer_got waits outbuf outlen inbuf inlen s (none, w) = over 0 inbuf (set_endpoint s w)
buffer_got waits outbuf outlen inbuf inlen s (some a, w) =
    let s' = set_endpoint s (write w a (as_request (w.mem a) outbuf outlen)) in
    request_sent waits a inbuf inlen (send waits s' (some w.conn) (some a))

-- `csp_transaction_persistent` on the connection of the endpoint, for an `outlen` of no less than 0
-- and an `inlen` of no less than -1.
unfoldable pub transaction_persistent :
    Waits → Station → Option (List ℕ) → ℕ → List ℕ → Option ℕ → Transaction
unfolding buffer_got
transaction_persistent waits s outbuf outlen inbuf inlen =
    buffer_got waits outbuf outlen inbuf inlen s (buffer_get s.endpoint)

-- What `csp_connect` and `csp_close` do to the outside.
abbrev pub with_effects : Station → List Effect → Station
with_effects s es =
    set_endpoint s (record s.endpoint { actions = s.endpoint.actions ++ map closing es })

-- The transaction, the connections and the port counter afterwards.
abbrev pub Transacted : Type 0
Transacted = Transaction × Connections × ℕ

closed_after : Transaction → Connections → ℕ → ℕ → Error × Option Conn × List Effect → Transacted
closed_after t p sport i (e, none, es) = (t, p, sport)
closed_after t p sport i (e, some c, es) = (
  record t { station = with_effects t.station es },
  record p { arr_conn = update p.arr_conn i (λ _. c) },
  sport,
)

-- `csp_transaction_persistent` on connection `i`, and `csp_close`.
over_conn :
    Waits
    → Bool
    → Station
    → Option (List ℕ)
    → ℕ
    → List ℕ
    → Option ℕ
    → Connections
    → ℕ
    → ℕ
    → Option Conn
    → Transacted
unfolding transaction_persistent closed_after
over_conn waits locked s outbuf outlen inbuf inlen p sport i none = (over 0 inbuf s, p, sport)
over_conn waits locked s outbuf outlen inbuf inlen p sport i (some c) =
    let t = transaction_persistent waits (set_conn s c) outbuf outlen inbuf inlen in
    closed_after t p sport i (close locked t.station.endpoint.now (some t.station.endpoint.conn))

connected :
    Waits → Bool → Station → Option (List ℕ) → ℕ → List ℕ → Option ℕ → Connected → Transacted
unfolding over_conn
connected waits locked s outbuf outlen inbuf inlen r = elim r.connection [
  | none ↦ (over 0 inbuf (with_effects s r.effects), r.connections, r.sport)
  | some i ↦
      over_conn waits locked (with_effects s r.effects) outbuf outlen inbuf inlen r.connections
        r.sport i (get_elem? r.connections.arr_conn i)
]

-- The outcomes of the locks in `csp_connect`, `csp_conn_new` and `csp_close`.
pub record Locks : Type 0 where
  pub sport_lock : Bool
  pub free_lock : Bool
  pub close_lock : Bool

module _ (rdp_connect : ℕ → Conn → Error × Conn × List Effect) (waits : Waits) (l : Locks) where
  -- `csp_transaction`, with fuel for the port search of `csp_connect`: `none` is a search that is not
  -- done. The other connections stay as they are meanwhile.
  unfoldable pub transaction :
      ℕ
      → Station
      → Connections
      → ℕ
      → ℕ
      → ℕ
      → ℕ
      → Option (List ℕ)
      → ℕ
      → List ℕ
      → Option ℕ
      → Option Transacted
  unfolding connected
  transaction fuel s p sport prio dest port outbuf outlen inbuf inlen =
      elim (connect rdp_connect fuel l.sport_lock l.free_lock l.close_lock s.my_address
        s.endpoint.now p sport prio dest port 0 0) [
          | none ↦ none
          | some r ↦ some (connected waits l.close_lock s outbuf outlen inbuf inlen r)
        ]
