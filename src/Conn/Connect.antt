-- ===== src/Conn/Connect.antt =====
-- libCSP/trunk/src/csp_conn.c: `csp_connect`, with HMAC, XTEA and CRC32 compiled in. What
-- `csp_rdp_connect` does is a parameter.
pub mod Ports
use cubesat_space_protocol.Base.{
  ℕ, zero, suc, ◌+◌, ◌%◌, ◌^◌, List, [], ◌∷◌, ◌++◌, Option, none, some, get_elem?, bit_or, ◌==◌,
  ltb, Bool, true, false, if◌then◌else◌,
}
use cubesat_space_protocol.Error.{Error, is_none}
use cubesat_space_protocol.Header.{
  PacketId, ext, port_max, dport_mask, frdp, fhmac, fxtea, fcrc32, so_rdpreq, so_hmacreq,
  so_xteareq, so_crc32req, has,
}
use cubesat_space_protocol.Port.{max_bind_port}
use cubesat_space_protocol.Conn.{Conn, Effect}
use cubesat_space_protocol.Conn.Pool.{Connections, find, update, new, close}

-- `outgoing_id.flags` and `incoming_id.flags`, for the options of the connection.
abbrev pub set_flag : ℕ → ℕ → ℕ → ℕ → ℕ
set_flag opts option flag flags = if has opts option then bit_or flags flag else flags

unfoldable pub flags_of : ℕ → ℕ
flags_of opts = set_flag opts so_crc32req fcrc32 (
    set_flag opts so_xteareq fxtea
      (set_flag opts so_hmacreq fhmac (set_flag opts so_rdpreq frdp 0)))

-- `incoming_id` and `outgoing_id` with the ephemeral port `sport`.
pub incoming : ℕ → ℕ → ℕ → ℕ → ℕ → ℕ → PacketId
unfolding flags_of
incoming my_address prio dest dport opts sport = record {
  pri = prio;
  src = dest;
  dst = my_address;
  dport = sport;
  sport = dport;
  flags = flags_of opts;
}

pub outgoing : ℕ → ℕ → ℕ → ℕ → ℕ → ℕ → PacketId
unfolding flags_of
outgoing my_address prio dest dport opts sport = record {
  pri = prio;
  src = my_address;
  dst = dest;
  dport = dport;
  sport = sport;
  flags = flags_of opts;
}

-- The test of the loop: no connection's incoming identifier has the destination port that
-- `incoming_id` has.
pub is_unused : List Conn → PacketId → Bool
is_unused cs id = elim (find cs (ext id) dport_mask) [ none ↦ true | some i ↦ false ]

-- The loop `while (++sport != start)`, on fuel: the value of `sport` behind it. The first argument
-- is the test of a port.
unfoldable pub choose : ℕ → (ℕ → Bool) → ℕ → ℕ → Option ℕ
choose zero unused start sport = none
choose (suc fuel) unused start sport =
    let sport' = (sport + 1) % 2 ^ 8 in
    let port = if ltb port_max sport' then max_bind_port + 1 else sport' in
    let rest = choose fuel unused start port in
    if sport' == start then some start else if unused port then some port else rest

-- What has come of a call: the connection, the array and the port counter afterwards.
pub record Connected : Type 0 where
  pub connection : Option ℕ
  pub connections : Connections
  pub sport : ℕ
  pub effects : List Effect

module _ (rdp_connect : ℕ → Conn → Error × Conn × List Effect) where
  -- Behind `csp_rdp_connect`: if it has failed the connection is closed again.
  settle : Bool → ℕ → Connections → ℕ → ℕ → List Effect → Error × Conn × List Effect → Connected
  settle locked now p i sport es (e, c, es') = elim (is_none e) [
    | true ↦ record {
      connection = some i;
      connections = record p { arr_conn = update p.arr_conn i (λ w. c) };
      sport = sport;
      effects = es ++ es';
    }
    | false ↦
        let (e', c', es'') = close locked now (some c) in
        record {
          connection = none;
          connections = record p {
            arr_conn = update p.arr_conn i (λ w. elim c' [ none ↦ c | some d ↦ d ]);
          };
          sport = sport;
          effects = es ++ es' ++ es'';
        }
  ]

  -- Behind `csp_conn_new`.
  set_options : Bool → ℕ → ℕ → ℕ → PacketId → ℕ → Option ℕ × Connections × List Effect → Connected
  unfolding settle
  set_options locked now timeout opts idout sport (none, p, es) = record {
    connection = none;
    connections = p;
    sport = sport;
    effects = es;
  }
  set_options locked now timeout opts idout sport (some i, p, es) =
      let p' = record p { arr_conn = update p.arr_conn i (λ c. record c { conn_opts = opts }) } in
      let plain : Connected = record {
        connection = some i;
        connections = p';
        sport = sport;
        effects = es;
      } in
      if has idout.flags frdp
      then elim (get_elem? p'.arr_conn i) [
        | none ↦ plain
        | some c ↦ settle locked now p' i sport es (rdp_connect timeout c)
      ]
      else plain

  -- `csp_connect`, with the outcomes of the waits for `sport_lock` and, in `csp_conn_new` and in
  -- `csp_close`, for `conn_lock`; the fuel is for the loop. `none` is a loop that is not done.
  unfoldable pub connect :
      ℕ → Bool → Bool → Bool → ℕ → ℕ → Connections → ℕ → ℕ → ℕ → ℕ → ℕ → ℕ → Option Connected
  unfolding choose set_options
  connect fuel false free_lock close_lock my_address now p sport prio dest dport timeout opts =
      some (record { connection = none; connections = p; sport = sport; effects = [] })
  connect fuel true free_lock close_lock my_address now p sport prio dest dport timeout opts =
      let idin = incoming my_address prio dest dport opts in
      let idout = outgoing my_address prio dest dport opts in
      elim (choose fuel (λ s. is_unused p.arr_conn (idin s)) sport sport) [
        | none ↦ none
        | some s ↦ some (
            if s == sport
            then record { connection = none; connections = p; sport = s; effects = [] }
            else set_options close_lock now timeout opts (idout s) s
                (new free_lock now p (idin s) (idout s)))
      ]
