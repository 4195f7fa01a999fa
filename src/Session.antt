-- ===== src/Session.antt =====
-- code/ChainSocket/Buffer.h: a session, the state of one socket.
pub mod Reset
use chain_socket.Base.{ℕ, Bool, true, false, Option, none, some, ◌≡◌, refl}
use chain_socket.Buffer.{MessageBuffer, Allocator}
use chain_socket.Buffer

pub data SessionType : Type 0 where
  unused accept connect listen : SessionType

-- `user_data` is the union `userData` as a number; a callback of the owner is named by a number.
pub record Session : Type 0 where
  pub fd : ℕ
  pub session_id : ℕ
  pub write_buffer : MessageBuffer
  pub read_buffer : MessageBuffer
  pub type : SessionType
  pub heart_beats : ℕ
  pub can_read : Bool
  pub io_pending : Bool
  pub is_connect : Bool
  pub user_data : ℕ
  pub on_user_data_destory : Option ℕ

pub init : Allocator → Session → Session
init a s = record s {
  session_id = 0;
  heart_beats = 0;
  can_read = false;
  io_pending = false;
  is_connect = false;
  user_data = 0;
  on_user_data_destory = none;
  read_buffer = Buffer.init a s.read_buffer;
  write_buffer = Buffer.init a s.write_buffer;
}

-- The owner's callback for its data is called first; it is not modelled.
pub destroy : Session → Session
destroy s = record s {
  read_buffer = Buffer.destroy s.read_buffer;
  write_buffer = Buffer.destroy s.write_buffer;
  user_data = 0;
  on_user_data_destory = none;
  session_id = 0;
  heart_beats = 0;
  can_read = false;
  io_pending = false;
  is_connect = false;
}

pub reset : Allocator → Session → Session
unfolding init destroy
reset a s = init a (destroy s)
