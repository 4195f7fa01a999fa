-- ===== src/WebSocket/Sha1/Bytes.antt =====
-- The result of sha1 is 20 bytes.
use chain_socket.Base.{ℕ, ◌≡◌, refl, List, [], ◌++◌, arith, length}
use chain_socket.WebSocket.RoundTrip.{IsBytes}
use chain_socket.WebSocket.Sha1.{Regs, four_bytes, digest, sha1}

four_bytes-IsBytes : (x : ℕ) (rest : List ℕ) → IsBytes rest → IsBytes (four_bytes x ++ rest)
four_bytes-IsBytes x rest all = (omega arith, (omega arith, (omega arith, (omega arith, all))))

digest-IsBytes : (r : Regs) → IsBytes (digest r)
unfolding digest
digest-IsBytes r =
    four_bytes-IsBytes r.a
      (four_bytes r.b ++ (four_bytes r.c ++ (four_bytes r.d ++ four_bytes r.e)))
      (four_bytes-IsBytes r.b (four_bytes r.c ++ (four_bytes r.d ++ four_bytes r.e)) (
        four_bytes-IsBytes r.c (four_bytes r.d ++ four_bytes r.e)
          (four_bytes-IsBytes r.d (four_bytes r.e) (four_bytes-IsBytes r.e [] tt))))

length-digest : (r : Regs) → length (digest r) ≡ 20
unfolding digest
length-digest r = refl

pub sha1-IsBytes : (p : List ℕ) → IsBytes (sha1 p)
unfolding sha1
sha1-IsBytes p = digest-IsBytes _

pub length-sha1 : (p : List ℕ) → length (sha1 p) ≡ 20
unfolding sha1
length-sha1 p = length-digest _
