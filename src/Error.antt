-- ===== src/Error.antt =====
-- src/error.c, include/copper/error.h and the codes of include/copper/result.h: the error state
-- of a thread. An operation that may fail takes the state and returns the new one.
use Prim.Native.String.{String}

-- `CPR_RESULT_TABLE`
pub data CprResult : Type 0 where
  ok err_oom err_invalid err_overflow err_not_found : CprResult
  err_io err_exhausted err_align err_busy err_sync : CprResult

pub record CprError : Type 0 where
  pub code : CprResult
  pub message : String

-- The initial value of `S_ERROR`
abbrev pub no_error : CprError
no_error = record { code = ok; message = "" }

-- Both fields of the state are overwritten, whatever it was.
abbrev pub set_error : CprResult → String → CprError → CprError
set_error code message s = record s { code = code; message = message }

-- `cpr_get_error`
abbrev pub get_error : CprError → CprError
get_error s = s

-- `cpr_clear_error`
abbrev pub clear_error : CprError → CprError
clear_error s = record s { code = ok; message = "" }
