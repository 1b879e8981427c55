-- ===== src/Ipc/Message.antt =====
-- `ipc_message_t` of kernel/include/ipc/ipc.h. The inline bytes are a function of the index, of
-- which 0 to 63 lie in the structure; a pointer is its address.
use scarlett_os.Base.{ℕ}

abbrev pub inline_capacity : ℕ
inline_capacity = 64

pub record Message : Type 0 where
  pub sender_tid : ℕ
  pub msg_id : ℕ
  pub kind : ℕ
  pub inline_size : ℕ
  pub inline_data : ℕ → ℕ
  pub buffer : ℕ
  pub buffer_size : ℕ
