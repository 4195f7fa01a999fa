-- ===== src/WebSocket/Handshake/Ends.antt =====
-- wsParseHandshake ends: every line takes the pointer forward.
use chain_socket.Base.{
  ℕ, zero, suc, ◌+◌, ◌-◌, ◌%◌, ◌≤◌, ◌<◌, ◌≡◌, refl, sym, ◌≢◌, Bool, true, false, not, List, [], ◌∷◌,
  Option, none, some, some-injective, arith, leb, ◌==◌, if◌then◌else◌, length, length-drop, drop,
  take, Bool-cases, inl, inr,
}
use mathlib.Core.Option
use chain_socket.Base.Outcome.{Outcome, done, aborted, fault, no_fuel, ◌>>=◌}
use chain_socket.WebSocket.{error_frame}
use chain_socket.WebSocket.Texts.{
  get, rn, host_field, origin_field, protocol_field, key_field, version_field, connection_field,
  upgrade_field,
}
use chain_socket.WebSocket.Handshake.{
  Handshake, Parsing, begins, strchr, strstr, found, get_upto_linefeed, skip_spaces, token,
  parse_line, goes_on, parse_lines, verdict, parse_fields, parse_resource, ws_parse_handshake,
}

-- The model does not cut the call off, and what it returns satisfies `P`.
Ends {ℓ} : {A : Type ℓ} → (A → Type 0) → Outcome A → Type 0
Ends P (done a) = P a
Ends P aborted = Unit
Ends P fault = Unit
Ends P no_fuel = ⊥

Ends-bind :
    {A B : Type 0} (P : A → Type 0) (Q : B → Type 0) (r : Outcome A) (f : A → Outcome B)
    → Ends P r
    → ((a : A) → P a → Ends Q (f a))
    → Ends Q (r >>= f)
unfolding Ends
Ends-bind P Q (done a) f h k = k a h
Ends-bind P Q aborted f h k = tt
Ends-bind P Q fault f h k = tt
Ends-bind P Q no_fuel f h k = absurd h

Ends-if :
    {A : Type 0} (P : A → Type 0) (b : Bool) (r s : Outcome A)
    → Ends P r
    → Ends P s
    → Ends P (if b then r else s)
Ends-if P true r s hr hs = hr
Ends-if P false r s hr hs = hs

begins-length : (p sub : List ℕ) → begins p sub ≡ true → length sub ≤ length p
unfolding begins
begins-length p [] h = omega arith
begins-length [] (s ∷ sub) h = absurd (cc)
begins-length (c ∷ p) (s ∷ sub) h =
    let rest : begins p sub ≡ true = ground arith in omega (arith, begins-length p sub rest)

found_later :
    (o : Option ℕ) (k : ℕ) → Option.map suc o ≡ some k → (j : ℕ) × (o ≡ some j) × (k ≡ suc j)
found_later none k h = absurd (cc)
found_later (some j) k h = (j, refl, sym (some-injective _ _ h))

-- A text that is found lies before the end.
strstr-length : (p sub : List ℕ) (k : ℕ) → strstr p sub ≡ some k → k + length sub ≤ length p
unfolding strstr
strstr-length [] sub k h = absurd (cc)
strstr-length (c ∷ p) sub k h = elim (Bool-cases (c == 0)) [
  | inl end ↦ absurd (let missed = rw end at h in cc)
  | inr goes ↦ elim (Bool-cases (begins (c ∷ p) sub)) [
    | inl here ↦
        let hit = rw (goes, here) at h in
        let first : 0 ≡ k = some-injective _ _ hit in
        omega (arith, first, begins-length (c ∷ p) sub here)
    | inr later ↦
        let (j, e, same) = found_later (strstr p sub) k (rw (goes, later) at h) in
        omega (arith, same, strstr-length p sub j e)
  ]
]

found-Ends : (o : Option ℕ) → Ends (λ k. o ≡ some k) (found o)
unfolding Ends found
found-Ends none = tt
found-Ends (some k) = refl

get_upto_linefeed-Ends : (p : List ℕ) → Ends (λ v. Unit) (get_upto_linefeed p)
unfolding get_upto_linefeed Ends
get_upto_linefeed-Ends p =
    Ends-bind (λ k. strstr p rn ≡ some k) (λ v. Unit) (found (strstr p rn)) _
      (found-Ends (strstr p rn))
      (λ k h. Ends-if (λ v. Unit) (k % 256 == 0) aborted (done (take (k % 256) p)) tt tt)

-- The pointer does not go back.
abbrev Forward : List ℕ → List ℕ × Parsing → Type 0
Forward p (p', s') = length p' ≤ length p

value-Forward :
    (p : List ℕ) (n : ℕ) (f : List ℕ → Parsing)
    → Ends (Forward p) (get_upto_linefeed (drop n p) >>= λ value. done (drop n p, f value))
unfolding Ends
value-Forward p n f =
    Ends-bind (λ v. Unit) (Forward p) (get_upto_linefeed (drop n p))
      (λ value. done (drop n p, f value)) (get_upto_linefeed-Ends (drop n p))
      (λ v h. omega (arith, length-drop n p))

parse_line-Forward : (p : List ℕ) (s : Parsing) → Ends (Forward p) (parse_line p s)
unfolding parse_line Ends
parse_line-Forward p s =
    Ends-if (Forward p) (begins p host_field) _ _ (value-Forward p (length host_field) _) (
      Ends-if (Forward p) (begins p origin_field) _ _ (value-Forward p (length origin_field) _) (
        Ends-if (Forward p) (begins p protocol_field) _ _
          (omega (arith, length-drop (length protocol_field) p))
          (Ends-if (Forward p) (begins p key_field) _ _ (value-Forward p (length key_field) _) (
            Ends-if (Forward p) (begins p version_field) _ _
              (value-Forward p (length version_field) _)
              (Ends-if (Forward p) (begins p connection_field) _ _
                (value-Forward p (length connection_field) _)
                (Ends-if (Forward p) (begins p upgrade_field) _ _
                  (value-Forward p (length upgrade_field) _) (omega arith)))))))

returned : {A : Type 0} (a : A) → Ends (λ r. Unit) (done a)
unfolding Ends
returned a = tt

faulted : (A : Type 0) → Ends {A = A} (λ r. Unit) fault
unfolding Ends
faulted A = tt

goes_on-Ends : (p : List ℕ) → Ends (λ b. Unit) (goes_on p)
unfolding goes_on Ends
goes_on-Ends [] = tt
goes_on-Ends (c ∷ []) = Ends-if (λ b. Unit) (c == 13) (done false) fault tt tt
goes_on-Ends (c ∷ d ∷ p) = tt

-- More rounds than there are bytes are enough.
parse_lines-Ends :
    (n : ℕ) (p : List ℕ) (left : ℕ) (s : Parsing)
    → left < n
    → Ends (λ s'. Unit) (parse_lines n p left s)
unfolding parse_lines
parse_lines-Ends zero p left s h = absurd (omega arith)
parse_lines-Ends (suc n) p left s h = elim (Bool-cases (left == 0)) [
  | inl end ↦ rw end (returned s)
  | inr more ↦
      let some_left : left ≢ 0 = ground arith in
      rw more (
        Ends-bind (λ b. Unit) (λ s'. Unit) (goes_on p) _ (goes_on-Ends p)
          (λ b tt1.
            Ends-if (λ s'. Unit) (not b) (done s) _ (returned s)
              (Ends-bind (Forward p) (λ s'. Unit) (parse_line p s) _ (parse_line-Forward p s)
                (λ (p1, s1) forward.
                  Ends-bind (λ k. strstr p1 rn ≡ some k) (λ s'. Unit) (found (strstr p1 rn)) _
                    (found-Ends (strstr p1 rn))
                    (λ k e.
                      parse_lines-Ends n (drop (k + 2) p1)
                        (left - (length p - length (drop (k + 2) p1))) s1
                        (omega
                          (arith, some_left, strstr-length p1 rn k e, length-drop (k + 2) p1)))))))
]

parse_from-Ends :
    (size eol : ℕ) (frame : List ℕ) (s : Parsing)
    → Ends (λ s'. Unit) (parse_lines (suc size) (drop (eol + 2) frame) (size - (eol + 2)) s)
parse_from-Ends size eol frame s =
    parse_lines-Ends (suc size) (drop (eol + 2) frame) (size - (eol + 2)) s (omega arith)

not_cut {ℓ} : {A : Type ℓ} (P : A → Type 0) (r : Outcome A) → Ends P r → r ≢ no_fuel
unfolding Ends
not_cut P (done a) h e = cc
not_cut P aborted h e = cc
not_cut P fault h e = cc
not_cut P no_fuel h e = h

parse_fields-Ends :
    (frame : List ℕ) (size : ℕ) (hs : Handshake) (name : List ℕ)
    → Ends (λ r. Unit) (parse_fields frame size hs name)
unfolding parse_fields
parse_fields-Ends frame size hs name =
    Ends-bind (λ k. strstr frame rn ≡ some k) (λ r. Unit) (found (strstr frame rn)) _
      (found-Ends (strstr frame rn))
      (λ eol e.
        Ends-bind (λ s. Unit) (λ r. Unit)
          (parse_lines (suc size) (drop (eol + 2) frame) (size - (eol + 2)) _) _
          (parse_from-Ends size eol frame _)
          (λ s h. returned (verdict s, record s.hs { frame_type = verdict s })))

parse_resource-Ends :
    (frame : List ℕ) (size : ℕ) (hs : Handshake) (first : List ℕ) (o : Option ℕ)
    → Ends (λ r. Unit) (parse_resource frame size hs first o)
unfolding parse_resource
parse_resource-Ends frame size hs first none = returned (error_frame, hs)
parse_resource-Ends frame size hs first (some room) =
    Ends-if (λ r. Unit) (length (token (skip_spaces first)) == 0) _ _
      (returned (error_frame, record hs { resource = some [] }))
      (Ends-if (λ r. Unit) (leb (room + 1) (length (token (skip_spaces first)))) _ _ (faulted _)
        (parse_fields-Ends frame size hs (token (skip_spaces first))))

whole :
    (frame : List ℕ) (size : ℕ) (hs : Handshake)
    → Ends (λ r. Unit) (ws_parse_handshake frame size hs)
unfolding ws_parse_handshake
whole frame size hs =
    Ends-if (λ r. Unit) (not (begins frame get)) _ _ (returned (error_frame, hs))
      (Ends-bind (λ k. strchr frame 32 ≡ some k) (λ r. Unit) (found (strchr frame 32)) _
        (found-Ends (strchr frame 32))
        (λ k e.
          parse_resource-Ends frame size hs (drop (k + 1) frame) (strchr (drop (k + 1) frame) 32)))

-- wsParseHandshake ends, whatever the bytes are: its loop over the lines of a request takes at most
-- one round for each byte and one more.
pub ws_parse_handshake_ends :
    (frame : List ℕ) (size : ℕ) (hs : Handshake) → ws_parse_handshake frame size hs ≢ no_fuel
ws_parse_handshake_ends frame size hs =
    not_cut (λ r. Unit) (ws_parse_handshake frame size hs) (whole frame size hs)
