-- ===== src/Can.antt =====
-- libCSP/trunk/src/interfaces/csp_if_can.c: packets over CAN, on a host that keeps the least
-- significant byte first. A packet in a buffer element is known by its address and its contents;
-- semaphores and locks are left out but for the outcomes that a function branches on.
pub mod Ident
pub mod Pbuf
pub mod Rx
pub mod Tx
pub mod Transfer
pub mod Start
mod Tests
use cubesat_space_protocol.Base.{
  ℕ, ◌+◌, ◌-◌, ◌*◌, ◌/◌, ◌%◌, ◌^◌, List, Option, Bool, bit_and, bit_or,
}
use cubesat_space_protocol.Header.{Packet}

-- CFP_HOST_SIZE, CFP_TYPE_SIZE, CFP_REMAIN_SIZE and CFP_ID_SIZE
abbrev pub cfp_host_size : ℕ
cfp_host_size = 5

abbrev pub cfp_type_size : ℕ
cfp_type_size = 1

abbrev pub cfp_remain_size : ℕ
cfp_remain_size = 8

abbrev pub cfp_id_size : ℕ
cfp_id_size = 10

-- CFP_FIELD, with CFP_SRC, CFP_DST, CFP_TYPE, CFP_REMAIN and CFP_ID
abbrev pub field : ℕ → ℕ → ℕ → ℕ
field id rsiz fsiz = bit_and (id / 2 ^ rsiz) (2 ^ fsiz - 1)

pub cfp_src : ℕ → ℕ
cfp_src id = field id (cfp_host_size + cfp_type_size + cfp_remain_size + cfp_id_size) cfp_host_size

pub cfp_dst : ℕ → ℕ
cfp_dst id = field id (cfp_type_size + cfp_remain_size + cfp_id_size) cfp_host_size

pub cfp_type : ℕ → ℕ
cfp_type id = field id (cfp_remain_size + cfp_id_size) cfp_type_size

pub cfp_remain : ℕ → ℕ
cfp_remain id = field id cfp_id_size cfp_remain_size

pub cfp_ident : ℕ → ℕ
cfp_ident id = field id 0 cfp_id_size

-- CFP_MAKE_FIELD, with CFP_MAKE_SRC, CFP_MAKE_DST, CFP_MAKE_TYPE, CFP_MAKE_REMAIN and CFP_MAKE_ID
abbrev pub make_field : ℕ → ℕ → ℕ → ℕ
make_field id fsiz rsiz = bit_and id (2 ^ fsiz - 1) * 2 ^ rsiz % 2 ^ 32

abbrev pub make_src : ℕ → ℕ
make_src id =
    make_field id cfp_host_size (cfp_host_size + cfp_type_size + cfp_remain_size + cfp_id_size)

abbrev pub make_dst : ℕ → ℕ
make_dst id = make_field id cfp_host_size (cfp_type_size + cfp_remain_size + cfp_id_size)

abbrev pub make_type : ℕ → ℕ
make_type id = make_field id cfp_type_size (cfp_remain_size + cfp_id_size)

abbrev pub make_remain : ℕ → ℕ
make_remain id = make_field id cfp_remain_size cfp_id_size

abbrev pub make_ident : ℕ → ℕ
make_ident id = make_field id cfp_id_size 0

-- CFP_ID_CONN_MASK
abbrev pub cfp_conn_mask : ℕ
cfp_conn_mask =
    bit_or (bit_or (make_src (2 ^ 5 - 1)) (make_dst (2 ^ 5 - 1))) (make_ident (2 ^ 10 - 1))

-- CFP_BEGIN and CFP_MORE
abbrev pub cfp_begin : ℕ
cfp_begin = 0

abbrev pub cfp_more : ℕ
cfp_more = 1

-- The identifier that `csp_can_tx` and `csp_tx_callback` put together by `|=`.
pub can_id : ℕ → ℕ → ℕ → ℕ → ℕ → ℕ
can_id src dst ident type remain =
    bit_or
      (bit_or (bit_or (bit_or (bit_or 0 (make_src src)) (make_dst dst)) (make_ident ident))
        (make_type type))
      (make_remain remain)

-- `can_frame_t`
pub record Frame : Type 0 where
  pub id : ℕ
  pub dlc : ℕ
  pub bytes : List ℕ

-- A `csp_packet_t *`.
pub record Buffered : Type 0 where
  pub address : ℕ
  pub packet : Packet

-- `pbuf_state_t` and `pbuf_element_t`
pub data PbufState : Type 0 where
  buf_free buf_used : PbufState

pub record Element : Type 0 where
  pub rx_count : ℕ
  pub tx_count : ℕ
  pub remain : ℕ
  pub cfpid : ℕ
  pub packet : Option Buffered
  pub state : PbufState
  pub last_used : ℕ

-- The counters of `csp_if_can` that change here.
pub record Counters : Type 0 where
  pub tx_error : ℕ
  pub rx_error : ℕ
  pub frame : ℕ

-- `pbuf`, the counters of `csp_if_can`, and `cfp_id`.
pub record Can : Type 0 where
  pub pbuf : List Element
  pub counters : Counters
  pub cfp_id : ℕ

-- What a call does to the outside: it gives a packet back, hands one to `csp_new_packet`, sends a
-- frame, posts `tx_sem`; or it writes behind the packet's data area or through NULL.
pub data Event : Type 0 where
  freed : ℕ → Event
  delivered : Buffered → Event
  framed : Frame → Event
  posted overrun : Event
