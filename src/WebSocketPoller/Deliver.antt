-- ===== src/WebSocketPoller/Deliver.antt =====
-- onRecv hands the messages of whole frames to onReadMsg, in order, and keeps the rest.
use chain_socket.Base.{
  ℕ, zero, suc, ◌+◌, ◌<◌, ◌≡◌, sym, ap, ◌∙◌, subst, List, [], ◌∷◌, ◌++◌, some, arith, length,
  length-append, append_assoc, append-nil, take, drop, take-append_length, drop-append_length, map,
  get_elem?-set_self, get_elem?-in_range_inv,
}
use chain_socket.Base.Outcome.{Yields}
use chain_socket.Buffer.Contents.{contents, erase_drops}
use chain_socket.Buffer.Contents
use chain_socket.Session.{Session}
use chain_socket.Poller.{Poller, put}
use chain_socket.Poller.Table.{session_at}
use chain_socket.Poller.Failure.{deref-some}
use chain_socket.WebSocketPoller.{MessageHandlers, parsed, frames, erase_parsed, on_frames}
use chain_socket.WebSocketPoller.Wire.{payload_field, length-payload_field}
use chain_socket.WebSocketPoller.Memory.{
  Sent, AllSendable, wires, framed, IsPart, Unread, Reads, header_of, framed_split,
  length-header_of, length-framed, frames-message, round_lem, frames-part, cleared, cleared-Unread,
}

module _ (h : MessageHandlers) (id : ℕ) (reader : Reads h id) where
  frames_deliver :
      (ms : List Sent) (rest : List ℕ) (f at : ℕ) (p : Poller)
      → Unread p id at (wires ms ++ rest)
      → AllSendable ms
      → IsPart rest
      → length ms < f
      → Yields
          (λ (end, p').
            (end ≡ parsed (at + length (wires ms)))
            × Unread p' id (at + length (wires ms)) rest
            × (reader.seen p' ≡ reader.seen p ++ map (λ m. m.bytes) ms))
          (frames f h p id at)
  frames_deliver ms rest zero at p u all part enough = absurd (omega arith)
  frames_deliver [] rest (suc f) at p u all part enough =
      let stay : at + 0 ≡ at = omega arith in
      (
        (parsed at, p),
        frames-part f h p id at rest u part,
        (
          ap parsed (sym stay),
          subst (λ k. Unread p id k rest) (sym stay) u,
          sym (append-nil (reader.seen p)),
        ),
      )
  frames_deliver (m ∷ ms) rest (suc f) at p u (sendable, all) part enough =
      let header = header_of m in
      let pay = payload_field m.key m.bytes in
      let more = wires ms ++ rest in
      let same = length-payload_field m.key m.bytes in
      let split : (framed m ++ wires ms) ++ rest ≡ (header ++ pay) ++ more =
        append_assoc (framed m) (wires ms) rest ∙ ap (λ w. w ++ more) (framed_split m) in
      let u' = subst (Unread p id at) split u in
      let s' = cleared p id at header pay m.bytes more same u' in
      let here =
        get_elem?-set_self p.sessions id (some s') (get_elem?-in_range_inv p.sessions id u'.here) in
      let (p1, ran, (kept, saw)) = reader.reads (put p id (some s')) m.bytes s' here in
      let at' = at + (length header + length m.bytes) in
      let (r, run, (end, left, seen)) =
        frames_deliver ms rest f at' p1
          (cleared-Unread p id at header pay m.bytes more same u' p1 (kept ∙ here)) all part
          (omega arith) in
      let total : at' + length (wires ms) ≡ at + length (wires (m ∷ ms)) =
        omega (arith, length-framed m, length-header_of m, length-append (framed m) (wires ms)) in
      (
        r,
        frames-message f h p id at header pay m.bytes more same u'
              (round_lem m more u'.junk sendable)
            ∙ rw ran run,
        (
          end ∙ ap parsed total,
          subst (λ k. Unread r.1 id k rest) total left,
          seen
              ∙ ap (λ xs. xs ++ map (λ m. m.bytes) ms)
                  (saw ∙ ap (λ xs. xs ++ m.bytes ∷ []) (reader.seen_put p (some s')))
              ∙ append_assoc (reader.seen p) (m.bytes ∷ []) (map (λ m. m.bytes) ms),
        ),
      )

-- The session is in its slot with a valid read buffer that holds these bytes.
pub record Keeping (p : Poller) (id : ℕ) (rest : List ℕ) : Type 0 where
  pub s : Session
  pub here : session_at p id ≡ some (some s)
  pub valid : Contents.IsValid s.read_buffer
  pub left : contents s.read_buffer ≡ rest

erase_parsed-Keeping :
    (h : MessageHandlers) (p : Poller) (id at : ℕ) (rest : List ℕ) (reader : Reads h id)
    → Unread p id at rest
    → Yields
        (λ p'. Keeping p' id rest × (reader.seen p' ≡ reader.seen p))
        (erase_parsed p id (parsed at))
unfolding erase_parsed
erase_parsed-Keeping h p id at rest reader u =
    let block = u.front ++ (rest ++ u.junk) in
    let size = length-append u.front rest in
    let valid : Contents.IsValid u.s.read_buffer = (
      block,
      record {
        owned = u.block;
        sized = u.capacity;
        fits = omega (
          arith,
          u.size,
          u.place,
          u.capacity,
          length-append u.front (rest ++ u.junk),
          length-append rest u.junk,
        );
      },
    ) in
    let (b, run, (valid', same, size', cap')) =
      erase_drops u.s.read_buffer at valid (omega (arith, u.size)) in
    let s' = record u.s { read_buffer = b } in
    let grouped : contents u.s.read_buffer ≡ u.front ++ rest = rw u.block (
      ap (take u.s.read_buffer.size) (sym (append_assoc u.front rest u.junk))
      ∙ take-append_length u.s.read_buffer.size (u.front ++ rest) u.junk
          (omega (arith, size, u.size, u.place))) in
    (
      put p id (some s'),
      rw (deref-some p id u.here, run),
      (
        record {
          s = s';
          here =
              get_elem?-set_self p.sessions id (some s')
                (get_elem?-in_range_inv p.sessions id u.here);
          valid = valid';
          left = same ∙ ap (drop at) grouped ∙ drop-append_length at u.front rest u.place;
        },
        reader.seen_put p (some s'),
      ),
    )

-- When the read buffer of a session holds the frames of messages, each of them text or binary, masked
-- or not, and then a proper part of such a frame, onRecv returns: each message has been handed to onReadMsg, unmasked and in
-- order, and the read buffer is valid and holds that part. onReadMsg returns and leaves the
-- session alone, each message is at most 65535 bytes, and one round for each frame and one more
-- are enough.
pub on_frames_delivers :
    (h : MessageHandlers) (p : Poller) (id fuel : ℕ) (ms : List Sent) (rest : List ℕ)
    (reader : Reads h id)
    → Unread p id 0 (wires ms ++ rest)
    → AllSendable ms
    → IsPart rest
    → length ms < fuel
    → Yields
        (λ p'. Keeping p' id rest × (reader.seen p' ≡ reader.seen p ++ map (λ m. m.bytes) ms))
        (on_frames fuel h p id)
unfolding on_frames
on_frames_delivers h p id fuel ms rest reader u all part enough =
    let ((end, p1), run, (ended, left, saw)) =
      frames_deliver h id reader ms rest fuel 0 p u all part enough in
    let (p2, erased, (kept, same)) =
      erase_parsed-Keeping h p1 id (0 + length (wires ms)) rest reader left in
    (p2, rw (run, ended) erased, (kept, same ∙ saw))
