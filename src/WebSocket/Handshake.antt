-- ===== src/WebSocket/Handshake.antt =====
-- code/example/wsserver/websocket.cpp: the opening handshake. A pointer into the request is the
-- list of the bytes from there to the end of their block.
pub mod Answer
pub mod Overflow
pub mod Ends
mod Tests
use chain_socket.Base.{
  ℕ, zero, suc, ◌+◌, ◌-◌, ◌%◌, Bool, true, false, ◌&&◌, ◌||◌, not, List, [], ◌∷◌, ◌++◌, map, Option,
  none, some, ltb, leb, ◌==◌, if◌then◌else◌, length, drop, take,
}
use mathlib.Core.Option
use chain_socket.Base.Outcome.{Outcome, done, aborted, fault, no_fuel, ◌>>=◌}
use chain_socket.WebSocket.{FrameType, empty_frame, error_frame, opening_frame}
use chain_socket.WebSocket.Base64.{base64}
use chain_socket.WebSocket.Sha1.{sha1}
use chain_socket.WebSocket.Texts.{
  connection_field, upgrade, upgrade2, upgrade_field, websocket, host_field, origin_field,
  key_field, protocol_field, version_field, version, secret, get, rn, switching, accept_field,
}

-- `none` is the null pointer.
pub record Handshake : Type 0 where
  pub host : Option (List ℕ)
  pub origin : Option (List ℕ)
  pub key : Option (List ℕ)
  pub resource : Option (List ℕ)
  pub frame_type : FrameType

pub null_handshake : Handshake
null_handshake = record {
  host = none;
  origin = none;
  key = none;
  resource = none;
  frame_type = empty_frame;
}

-- The texts are freed first.
pub free_handshake : Handshake → Handshake
free_handshake hs = null_handshake

-- `memcmp(p, sub, strlen(sub)) == 0`
pub begins : List ℕ → List ℕ → Bool
begins p [] = true
begins [] (s ∷ sub) = false
begins (c ∷ p) (s ∷ sub) = c == s && begins p sub

-- `strchr` and `strstr` on the bytes before the first 0, as a distance.
pub strchr : List ℕ → ℕ → Option ℕ
strchr [] x = none
strchr (c ∷ p) x =
    let rest = Option.map suc (strchr p x) in
    if c == x then some 0 else if c == 0 then none else rest

pub strstr : List ℕ → List ℕ → Option ℕ
strstr [] sub = none
strstr (c ∷ p) sub =
    let rest = Option.map suc (strstr p sub) in
    if c == 0 then none else if begins (c ∷ p) sub then some 0 else rest

-- A null result is used as a pointer.
pub found : Option ℕ → Outcome ℕ
found none = fault
found (some n) = done n

-- The length is a uint8_t, and `assert` wants it not to be 0.
pub get_upto_linefeed : List ℕ → Outcome (List ℕ)
get_upto_linefeed p = do
  n ← found (strstr p rn)
  if n % 256 == 0 then aborted else done (take (n % 256) p)

-- The characters that sscanf skips before `%s`, and at which it stops.
pub is_space : ℕ → Bool
is_space c = c == 32 || (leb 9 c && leb c 13)

pub skip_spaces : List ℕ → List ℕ
skip_spaces [] = []
skip_spaces (c ∷ p) = let rest = skip_spaces p in if is_space c then rest else c ∷ p

pub token : List ℕ → List ℕ
token [] = []
token (c ∷ p) = let rest = token p in if is_space c || c == 0 then [] else c ∷ rest

pub tolower : ℕ → ℕ
tolower c = if leb 65 c && leb c 90 then c + 32 else c

pub record Parsing : Type 0 where
  pub hs : Handshake
  pub connection_flag : Bool
  pub upgrade_flag : Bool
  pub subprotocol_flag : Bool
  pub version_mismatch : Bool

abbrev pub is_some : Option ℕ → Bool
is_some none = false
is_some (some n) = true

-- One line: the pointer behind the field's name, and what is known after the line.
pub parse_line : List ℕ → Parsing → Outcome (List ℕ × Parsing)
parse_line p s =
    if begins p host_field
    then (do
      let p' = drop (length host_field) p
      value ← get_upto_linefeed p'
      done (p', record s { hs = record s.hs { host = some value } }))
    else if begins p origin_field
    then (do
      let p' = drop (length origin_field) p
      value ← get_upto_linefeed p'
      done (p', record s { hs = record s.hs { origin = some value } }))
    else if begins p protocol_field
    then done (drop (length protocol_field) p, record s { subprotocol_flag = true })
    else if begins p key_field
    then (do
      let p' = drop (length key_field) p
      value ← get_upto_linefeed p'
      done (p', record s { hs = record s.hs { key = some value } }))
    else if begins p version_field
    then (do
      let p' = drop (length version_field) p
      value ← get_upto_linefeed p'
      done (p', record s { version_mismatch = s.version_mismatch || not (begins value version) }))
    else if begins p connection_field
    then (do
      let p' = drop (length connection_field) p
      value ← get_upto_linefeed p'
      done (
        p',
        record s {
          connection_flag = s.connection_flag || is_some (strstr (map tolower value) upgrade);
        },
      ))
    else if begins p upgrade_field
    then (do
      let p' = drop (length upgrade_field) p
      value ← get_upto_linefeed p'
      done (p', record s { upgrade_flag = s.upgrade_flag || begins (map tolower value) websocket }))
    else done (p, s)

-- `inputPtr[0] != '\r' && inputPtr[1] != '\n'`
pub goes_on : List ℕ → Outcome Bool
goes_on [] = fault
goes_on (c ∷ []) = if c == 13 then done false else fault
goes_on (c ∷ d ∷ p) = done (not (c == 13) && not (d == 10))

-- The loop over the lines; `left` is the number of bytes before `endPtr`, 0 also behind it.
pub parse_lines : ℕ → List ℕ → ℕ → Parsing → Outcome Parsing
parse_lines zero p left s = no_fuel
parse_lines (suc n) p left s = if left == 0 then done s else (do
  more ← goes_on p
  if not more then done s else (do
    (p1, s1) ← parse_line p s
    k ← found (strstr p1 rn)
    let p2 = drop (k + 2) p1
    parse_lines n p2 (left - (length p - length p2)) s1))

-- The checks behind the loop.
pub verdict : Parsing → FrameType
verdict s =
    let missing : Option (List ℕ) → Bool = λ o. elim o [ none ↦ true | some v ↦ false ] in
    if missing s.hs.host
      || missing s.hs.key
      || not s.connection_flag
      || not s.upgrade_flag
      || s.subprotocol_flag
      || s.version_mismatch
    then error_frame
    else opening_frame

-- From the second line on, with the resource.
pub parse_fields : List ℕ → ℕ → Handshake → List ℕ → Outcome (FrameType × Handshake)
parse_fields frame size hs name = do
  eol ← found (strstr frame rn)
  s ← parse_lines (suc size) (drop (eol + 2) frame) (size - (eol + 2)) (record {
    hs = record hs { resource = some name };
    connection_flag = false;
    upgrade_flag = false;
    subprotocol_flag = false;
    version_mismatch = false;
  })
  done (verdict s, record s.hs { frame_type = verdict s })

-- The pointer `first`, and the distance from there to `second`. `sscanf` writes its token and a 0
-- into a block of that distance plus one; without a token the block is not written.
pub parse_resource : List ℕ → ℕ → Handshake → List ℕ → Option ℕ → Outcome (FrameType × Handshake)
parse_resource frame size hs first none = done (error_frame, hs)
parse_resource frame size hs first (some room) =
    let name = token (skip_spaces first) in
    if length name == 0
    then done (error_frame, record hs { resource = some [] })
    else if leb (room + 1) (length name)
    then fault
    else parse_fields frame size hs name

-- The type and the handshake.
pub ws_parse_handshake : List ℕ → ℕ → Handshake → Outcome (FrameType × Handshake)
ws_parse_handshake frame size hs = if not (begins frame get) then done (error_frame, hs) else (do
  k ← found (strchr frame 32)
  parse_resource frame size hs (drop (k + 1) frame) (strchr (drop (k + 1) frame) 32))

-- The key of the answer: the secret is appended in a block whose size is a uint8_t, and base64 puts
-- its text there, with a 0 behind it.
pub response_key : List ℕ → Outcome (List ℕ)
response_key key =
    let size = (length key + length secret) % 256 in
    if ltb size (length key + length secret)
    then fault
    else (let (text, n) = base64 size (sha1 (key ++ secret)) in
        if leb size n then fault else done text)

abbrev pub answer_of : List ℕ → List ℕ
answer_of text =
    switching
    ++ (upgrade_field
        ++ (websocket
            ++ (rn
                ++ (connection_field
                    ++ (upgrade2 ++ (rn ++ (accept_field ++ (text ++ (rn ++ rn)))))))))

-- The array has `out_length` bytes; the text and its 0 are written before their size is checked.
pub ws_get_handshake_answer : Handshake → ℕ → Outcome (List ℕ)
ws_get_handshake_answer hs out_length = if out_length == 0 then aborted else (elim hs.frame_type [
  | opening_frame ↦ (elim hs.key [
    | none ↦ aborted
    | some key ↦ response_key key >>= λ text.
        if ltb out_length (length (answer_of text) + 1) then fault else done (answer_of text)
  ])
  | _ ↦ aborted
])
