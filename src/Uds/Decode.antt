-- ===== src/Uds/Decode.antt =====
-- `decode_response` against the layout of UDS responses.
use cantools_rs.Prelude.{
  ℕ, ◌+◌, ◌-◌, ◌≡◌, refl, sym, subst, ◌↔◌, ◌≢◌, [], ◌∷◌, Result, ok, err, panic, ◌>>=◌, map_err,
  Bytes, arith,
}
use cantools_rs.Uds.{
  ServiceId, Response, UdsError, positive, negative, service_code, response_code, decode_response,
  payload_too_short, Transport, Request, encode, send, SendError, transport, decode,
}
use cantools_rs.Uds.Tables.{decode_service_iff, decode_negative_response_code_iff}

-- The layout of a response: a service code raised by 0x40 before the data, or 0x7f, the service
-- code and the reason before bytes that are ignored.
abbrev pub Encodes : Response → Bytes → Type 0
Encodes (positive service payload) bytes = bytes ≡ (service_code service + 0x40) ∷ payload
Encodes (negative service code) (first ∷ sid ∷ reason ∷ ignored) =
    (first ≡ 0x7f) × (sid ≡ service_code service) × (reason ≡ response_code code)
Encodes (negative service code) _ = ⊥

positive_iff :
    (sid : ℕ) (rest : Bytes) (s : ServiceId) (payload : Bytes)
    → (decode_response (sid ∷ rest) ≡ ok (positive s payload))
      ↔ Encodes (positive s payload) (sid ∷ rest)
unfolding decode_response
positive_iff sid [] s payload = ground (arith, decode_service_iff (sid - 0x40) s)
positive_iff sid (a ∷ []) s payload = ground (arith, decode_service_iff (sid - 0x40) s)
positive_iff sid (a ∷ b ∷ rest) s payload = ground (arith, decode_service_iff (sid - 0x40) s)

-- `decode_response` returns a response exactly for the payloads laid out as that response.
pub decode_response_iff :
    (bytes : Bytes) (r : Response) → (decode_response bytes ≡ ok r) ↔ Encodes r bytes
unfolding decode_response
decode_response_iff [] (positive s payload) = ground arith
decode_response_iff [] (negative s c) = ground arith
decode_response_iff (sid ∷ rest) (positive s payload) = positive_iff sid rest s payload
decode_response_iff (sid ∷ []) (negative s c) = ground arith
decode_response_iff (sid ∷ a ∷ []) (negative s c) = ground arith
decode_response_iff (sid ∷ a ∷ b ∷ rest) (negative s c) =
    ground (arith, decode_service_iff a s, decode_negative_response_code_iff b c)

-- No data, or the start of a negative response only.
abbrev pub TooShort : Bytes → Type 0
TooShort [] = Unit {0}
TooShort (first ∷ []) = first ≡ 0x7f
TooShort (first ∷ _ ∷ []) = first ≡ 0x7f
TooShort _ = ⊥

-- `decode_response` reports a payload as too short exactly when it is empty or a negative response
-- of fewer than three bytes, and it never panics.
pub decode_response-TooShort :
    (bytes : Bytes)
    → ((decode_response bytes ≡ err payload_too_short) ↔ TooShort bytes)
      × (decode_response bytes ≢ panic)
unfolding decode_response
decode_response-TooShort [] = ground arith
decode_response-TooShort (a ∷ []) = ground arith
decode_response-TooShort (a ∷ b ∷ []) = ground arith
decode_response-TooShort (a ∷ b ∷ c ∷ rest) = ground arith

-- The converted error of a decoder changes no value, is no error of the transport, and adds no panic.
converted :
    {E : Type 0} (x : Result UdsError Response)
    → ((r : Response) → (map_err {F = SendError E} decode x ≡ ok r) ↔ (x ≡ ok r))
      × ((e : E) → map_err {F = SendError E} decode x ≢ err (transport e))
      × ((map_err {F = SendError E} decode x ≡ panic) → x ≡ panic)
converted (ok a) = ((λ r. ground arith), (λ e. ground arith), ground arith)
converted (err e) = ((λ r. ground arith), (λ e. ground arith), ground arith)
converted panic = ((λ r. ground arith), (λ e. ground arith), ground arith)

send_decoded :
    {E : Type 0} (answer : Result E Bytes)
    → let sent : Result (SendError E) Response =
        map_err transport answer >>= λ payload. map_err decode (decode_response payload) in
      ((r : Response) → (sent ≡ ok r) ↔ ((bytes : Bytes) × (answer ≡ ok bytes) × Encodes r bytes))
      × ((e : E) → (sent ≡ err (transport e)) ↔ (answer ≡ err e))
      × ((sent ≡ panic) ↔ (answer ≡ panic))
send_decoded {E} (ok bytes) =
    let (values, errors, panics) = converted {E = E} (decode_response bytes) in
    (
      λ r. (
        λ h. (bytes, refl, (decode_response_iff bytes r).0 ((values r).0 h)),
        λ found.
            let (b, same, laid) = found in
            let back : bytes ≡ b = cc in
            (values r).1 ((decode_response_iff bytes r).1 (subst (Encodes r) (sym back) laid)),
      ),
      λ e. ((λ h. absurd (errors e h)), cc),
      ((λ h. absurd ((decode_response-TooShort bytes).1 (panics h))), cc),
    )
send_decoded (err e) =
    ((λ r. (cc, λ found. let (b, same, laid) = found in cc)), (λ e'. ground arith), ground arith)
send_decoded panic =
    ((λ r. (cc, λ found. let (b, same, laid) = found in cc)), (λ e'. ground arith), ground arith)

-- A client sends the service code and then the payload of a request, in one call of the transport, and
-- is left in the state of that call. It returns a response exactly if the call answers with bytes that
-- are laid out as that response, and reports an error of the transport exactly if the call fails with
-- it; it panics only where the call does.
pub send_iff :
    {S E : Type 0} (t : Transport S E) (s : S) (request : Request)
    → let call : Result E Bytes × S = t.call s (service_code request.service ∷ request.payload) in
      ((send t s request).1 ≡ call.1)
      × ((r : Response)
          → ((send t s request).0 ≡ ok r)
            ↔ ((bytes : Bytes) × (call.0 ≡ ok bytes) × Encodes r bytes))
      × ((e : E) → ((send t s request).0 ≡ err (transport e)) ↔ (call.0 ≡ err e))
      × (((send t s request).0 ≡ panic) ↔ (call.0 ≡ panic))
unfolding send encode
send_iff t s request =
    let (values, errors, panics) = send_decoded (t.call s (encode request)).0 in
    (refl, values, errors, panics)
