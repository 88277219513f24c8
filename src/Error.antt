-- ===== src/Error.antt =====
-- libCSP/trunk/include/csp/csp_error.h: the error codes.
use cubesat_space_protocol.Base.{Bool, true, false}

pub data Error : Type 0 where
  err_none err_nomem err_inval err_timedout err_used err_notsup err_busy err_already : Error
  err_reset err_nobufs err_tx err_hmac err_xtea err_crc32 : Error

-- The C test `== CSP_ERR_NONE`; every other code is negative.
abbrev pub is_none : Error → Bool
is_none err_none = true
is_none _ = false
