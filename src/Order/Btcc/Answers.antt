-- ===== src/Order/Btcc/Answers.antt =====
-- bundle/internal/order/delegator/btcc: the ways in which sending an order ends.
use go_hft.Prelude.{
  ◌≡◌, refl, ◌⊎◌, inl, inr, true, false, Option, none, some, [], ◌==◌, Bytes, arith, Bool-cases,
}
use go_hft.Prelude.Int.{ℤ}
use go_hft.Adapter.Common.{append_int}
use go_hft.Adapter.Enum.{
  platform_btcc, type_limit, type_market, action_place_order, action_cancel_order,
}
use go_hft.Adapter.Str64.{new_str64, len, copy_into, append_bytes}
use go_hft.Adapter.Order.{
  OrderRequest, OrderResponse, code_internal_error, request_not_sent, response_btcc_code, is_zero,
  error, set_error, set_internal_error,
}
use go_hft.Order.Btcc.{
  Services, Sending, SendError, HttpRequest, Response, DecodeError, eof, malformed, Body, by_data,
  decoded, answered, posted_to, exchange, place_order, cancel_order, send, new_response,
  not_answered, refused, not_decoded, empty_order_id, not_created, not_marshalled, parse_int,
  mismatch_platform, unsupported_type, no_id, unsupported_action,
}

-- No answer came: nothing was posted, or the client failed.
abbrev pub IsUnsent : Services → Sending → Type 0
IsUnsent services r =
    (r.response.sent ≡ false)
    × (error r.response ≡ some request_not_sent)
    × ((e : SendError) × (r.failure ≡ some e))
    × ((r.posted ≡ none) ⊎ ((q : HttpRequest) × (r.posted ≡ some q) × (services.answer q ≡ none)))

-- The answer is no order: it is not read, or has a code, or has no identifier. The response has the
-- answer's code, or else that of an internal error, and then an error is returned.
abbrev IsNoOrder : Response × Option DecodeError → OrderResponse × Option SendError → Type 0
IsNoOrder d x =
    (d.1 ≡ some malformed) × (x.0.code ≡ code_internal_error) × (x.1 ≡ some not_decoded)
    ⊎ (is_zero d.0.error.code ≡ false) × (x.0.code ≡ d.0.error.code) × (x.1 ≡ none)
    ⊎ (is_zero d.0.error.code ≡ true)
      × (is_zero d.0.id ≡ true)
      × (x.0.code ≡ code_internal_error)
      × (x.1 ≡ some empty_order_id)

abbrev IsRefusal : Response × Option DecodeError → OrderResponse × Option SendError → Type 0
IsRefusal d x =
    (error x.0 ≡ some response_btcc_code) × (x.0.order_id ≡ new_str64 []) × IsNoOrder d x

-- The answer is an order: it is read, and has code 0 and an identifier.
abbrev IsAccepted : Response × Option DecodeError → OrderResponse × Option SendError → Type 0
IsAccepted d x =
    (error x.0 ≡ none)
    × (x.1 ≡ none)
    × ((d.1 ≡ none) ⊎ (d.1 ≡ some eof))
    × (is_zero d.0.error.code ≡ true)
    × (is_zero d.0.id ≡ false)
    × (x.0.order_id ≡ new_str64 (append_int d.0.id))

-- An answer came: the response carries a code and no order, or the identifier that the answer has.
abbrev pub IsAnswered : Services → Sending → Type 0
IsAnswered services r =
    (q : HttpRequest) × (body : Bytes) × (r.posted ≡ some q)
    × (services.answer q ≡ some body)
    × (r.response.sent ≡ true)
    × (IsRefusal (services.decode_body body) (r.response, r.failure)
        ⊎ IsAccepted (services.decode_body body) (r.response, r.failure))

abbrev sent_response : OrderRequest → OrderResponse
sent_response req = record (new_response req) { sent = true }

new_msg : len (new_str64 []) ≡ 0
unfolding len new_str64 copy_into
new_msg = refl

by_data_cases :
    (req : OrderRequest) (data' : Response) (e : Option DecodeError)
    → (e ≡ none) ⊎ (e ≡ some eof)
    → IsRefusal (data', e) (by_data (sent_response req) data')
      ⊎ IsAccepted (data', e) (by_data (sent_response req) data')
unfolding by_data error set_error set_internal_error new_response
by_data_cases req data' e read = elim (Bool-cases (is_zero data'.error.code)) [
  | inr c ↦ rw (c, c) (inl (refl, refl, inr (inl (refl, refl, refl))))
  | inl c ↦ elim (Bool-cases (is_zero data'.id)) [
    | inl z ↦ rw (c, z) (inl (refl, refl, inr (inr (refl, refl, refl, refl))))
    | inr z ↦ rw (c, z, new_msg) (inr (refl, refl, read, refl, refl, refl))
  ]
]

decoded_cases :
    (req : OrderRequest) (d : Response × Option DecodeError)
    → IsRefusal d (decoded (sent_response req) d) ⊎ IsAccepted d (decoded (sent_response req) d)
unfolding decoded error set_internal_error new_response
decoded_cases req (data', none) = by_data_cases req data' none (inl refl)
decoded_cases req (data', some eof) = by_data_cases req data' (some eof) (inr refl)
decoded_cases req (data', some malformed) = inl (refl, refl, inl (refl, refl, refl))

by_data-sent :
    (req : OrderRequest) (data' : Response) → (by_data (sent_response req) data').0.sent ≡ true
unfolding by_data set_error set_internal_error
by_data-sent req data' = ground arith

-- Every answer leaves the flag that the request was sent.
decoded-sent :
    (req : OrderRequest) (d : Response × Option DecodeError)
    → (decoded (sent_response req) d).0.sent ≡ true
unfolding decoded set_internal_error
decoded-sent req (data', none) = by_data-sent req data'
decoded-sent req (data', some eof) = by_data-sent req data'
decoded-sent req (data', some malformed) = refl

abbrev Ends : Services → Sending → Type 0
Ends services r = IsUnsent services r ⊎ IsAnswered services r

answered_cases :
    (services : Services) (req : OrderRequest) (q : HttpRequest) (o : Option Bytes)
    → services.answer q ≡ o
    → Ends services (answered services (new_response req) q o)
unfolding answered new_response error
answered_cases services req q none h = inl (refl, refl, (not_answered, refl), inr (q, refl, h))
answered_cases services req q (some body) h =
    inr (q, body, refl, h, decoded-sent req d, decoded_cases req d)
  where
    d : Response × Option DecodeError
    d = services.decode_body body

refused-IsUnsent :
    (services : Services) (req : OrderRequest) (e : SendError)
    → Ends services (refused (new_response req) e)
unfolding new_response error
refused-IsUnsent services req e = inl (refl, refl, (e, refl), inl refl)

posted_to-Ends :
    (services : Services) (url secret : Bytes) (body : Body) (req : OrderRequest) (o : Option Bytes)
    → Ends services (posted_to services url secret body (new_response req) o)
unfolding posted_to
posted_to-Ends services url secret body req none = refused-IsUnsent services req not_marshalled
posted_to-Ends services url secret body req (some payload) =
    elim (Bool-cases (services.is_url url)) [
      | inl e ↦ rw (e) (answered_cases services req _ _ refl)
      | inr e ↦ rw (e) (refused-IsUnsent services req not_created)
    ]

exchange-Ends :
    (services : Services) (url secret : Bytes) (body : Body) (req : OrderRequest)
    → Ends services (exchange services url secret body (new_response req))
unfolding exchange
exchange-Ends services url secret body req =
    posted_to-Ends services url secret body req (services.marshal body)

place_order-Ends :
    (services : Services) (base : Bytes) (now : ℤ) (req : OrderRequest)
    → Ends services (place_order services base now req)
unfolding place_order
place_order-Ends services base now req = elim (Bool-cases (req.intent.platform == platform_btcc)) [
  | inr e ↦ rw (e) (refused-IsUnsent services req mismatch_platform)
  | inl e ↦ elim (Bool-cases (req.intent.type == type_limit)) [
    | inl l ↦ rw (e, l) (exchange-Ends services _ _ _ req)
    | inr l ↦ elim (Bool-cases (req.intent.type == type_market)) [
      | inl m ↦ rw (e, l, m) (exchange-Ends services _ _ _ req)
      | inr m ↦ rw (e, l, m) (refused-IsUnsent services req unsupported_type)
    ]
  ]
]

cancel_order-Ends :
    (services : Services) (base : Bytes) (now : ℤ) (req : OrderRequest)
    → Ends services (cancel_order services base now req)
unfolding cancel_order
cancel_order-Ends services base now req = elim (Bool-cases (req.intent.platform == platform_btcc)) [
  | inr e ↦ rw (e) (refused-IsUnsent services req mismatch_platform)
  | inl e ↦ elim (Bool-cases (is_zero (parse_int (append_bytes req.intent.id)))) [
    | inl z ↦ rw (e, z) (refused-IsUnsent services req no_id)
    | inr z ↦ rw (e, z) (exchange-Ends services _ _ _ req)
  ]
]

-- Sending an order ends in one of three ways. Nothing was posted or no answer came: the response is not
-- marked as sent, says so, and an error is returned. Or an answer came that is no order, since it cannot be
-- decoded, has a code, or has identifier 0: the response says that its code is not zero, the answer's in the
-- second case and else that of an internal error with an error returned, and has no identifier. Or
-- the answer can be decoded and has code 0 and another identifier: there is no error, and the response has
-- the identifier.
pub send_ends :
    (services : Services) (base : Bytes) (now : ℤ) (req : OrderRequest)
    → IsUnsent services (send services base now req)
      ⊎ IsAnswered services (send services base now req)
unfolding send
send_ends services base now req = elim (Bool-cases (req.intent.action == action_place_order)) [
  | inl e ↦ rw (e) (place_order-Ends services base now req)
  | inr e ↦ elim (Bool-cases (req.intent.action == action_cancel_order)) [
    | inl c ↦ rw (e, c) (cancel_order-Ends services base now req)
    | inr c ↦ rw (e, c) (refused-IsUnsent services _ unsupported_action)
  ]
]
