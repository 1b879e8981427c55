-- ===== src/Base/Errors.antt =====
-- `error_code_t` of kernel/include/errors.h, as far as the modelled code returns it.
pub data ErrorCode : Type 0 where
  ok invalid_arg out_of_memory not_found permission_denied already_exists invalid_state
        not_initialized :
      ErrorCode
