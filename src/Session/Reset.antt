-- ===== src/Session/Reset.antt =====
-- Session::reset on any memory.
use chain_socket.Base.{◌≡◌, ◌≢◌, refl, [], none}
use chain_socket.Buffer.{Allocator, MessageBuffer, buffer_size}
use chain_socket.Buffer
use chain_socket.Buffer.Contents.{IsValid, contents}
use chain_socket.Buffer.Refusal.{init_iff}
use chain_socket.Session.{Session, init, destroy, reset}

-- The buffer can be used, and holds no bytes.
abbrev pub IsReady : MessageBuffer → Type 0
IsReady b = IsValid b × (contents b ≡ [])

-- When malloc grants a block, reset leaves two valid buffers without bytes; but for its socket and
-- its type, the session that results is the same whatever was there before.
pub reset_lem :
    (a : Allocator) (s t : Session)
    → a.malloc buffer_size ≢ none
    → IsReady (reset a s).read_buffer
      × IsReady (reset a s).write_buffer
      × (reset a s ≡ record (reset a t) { fd = s.fd; type = s.type })
unfolding init destroy reset Buffer.init
reset_lem a s t granted =
    let (read, no_read) = init_iff a (Buffer.destroy s.read_buffer) in
    let (write, no_write) = init_iff a (Buffer.destroy s.write_buffer) in
    ((read.1 granted, no_read), (write.1 granted, no_write), refl)
