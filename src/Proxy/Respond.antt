-- ===== src/Proxy/Respond.antt =====
-- proxy/proxy.go: the answers that the proxy gives itself.
use aperture.Prelude.{ℕ, List, [], ◌∷◌, ◌++◌, if◌then◌else◌, Bytes, codes, Result, ok, err}
use aperture.Go.HttpHeader.{Header, get, set, add, values}
use aperture.Go.Strconv.{format_uint}
use aperture.Go.Strings.{has_prefix}
use aperture.Proxy.Backend.{Request}

-- The header, the status and the body of a response.
pub data Reply : Type 0 where
  direct : Header → ℕ → Bytes → Reply

abbrev pub hdr_content_type : Bytes
hdr_content_type = codes "Content-Type"

abbrev pub hdr_grpc_status : Bytes
hdr_grpc_status = codes "Grpc-Status"

abbrev pub hdr_grpc_message : Bytes
hdr_grpc_message = codes "Grpc-Message"

-- addCorsHeaders
unfoldable pub add_cors_headers : Header → Header
add_cors_headers h =
    add (codes "Access-Control-Allow-Headers")
      (codes "Authorization, Grpc-Metadata-macaroon, WWW-Authenticate")
      (add (codes "Access-Control-Expose-Headers") (codes "WWW-Authenticate") (
        add (codes "Access-Control-Allow-Methods") (codes "GET, POST, OPTIONS")
          (add (codes "Access-Control-Allow-Origin") (codes "*") h)))

-- http.Error
unfoldable pub http_error : Header → Bytes → ℕ → Reply
http_error h text status =
    direct
      (set (codes "X-Content-Type-Options") (codes "nosniff")
        (set hdr_content_type (codes "text/plain; charset=utf-8") h))
      status (text ++ 10 ∷ [])

-- sendDirectResponse; codes.Internal of gRPC is 13.
unfoldable pub send_direct_response : Request → Header → ℕ → Bytes → Reply
unfolding http_error
send_direct_response req h status err_info =
    if has_prefix (get hdr_content_type req.header) (codes "application/grpc")
    then direct (set hdr_grpc_message err_info (set hdr_grpc_status (format_uint 13) h)) 200 []
    else http_error h err_info status

abbrev add_values : Bytes → List Bytes → Header → Header
add_values name [] h = h
add_values name (v ∷ vs) h = add_values name vs (add name v h)

-- The values of one field: the first is set, the others are added.
unfoldable pub copy_field : Bytes → List Bytes → Header → Header
copy_field name [] h = h
copy_field name (v ∷ vs) h = add_values name vs (set name v h)

-- The loop of handlePaymentRequired over the fields
unfoldable pub copy_header : Header → Header → Header
unfolding copy_field
copy_header [] h = h
copy_header ((name, vs) ∷ fields) h = copy_header fields (copy_field name vs h)

-- handlePaymentRequired, given what FreshChallengeHeader returned
unfoldable pub handle_payment_required : Request → Result Header → Reply
unfolding copy_header add_cors_headers send_direct_response
handle_payment_required req (err e) = send_direct_response req [] 500 (codes "challenge failure")
handle_payment_required req (ok header) =
    send_direct_response req (copy_header (add_cors_headers header) []) 402
      (codes "payment required")

-- RoundTrip of trailerFixingTransport: the trailer of a response, given its header and its trailer
unfoldable pub fixed_trailer : Header → Header → Header
fixed_trailer header [] = elim (values hdr_grpc_status header) [
  | [] ↦ []
  | v ∷ vs ↦
      add hdr_grpc_message (get hdr_grpc_message header)
        (add hdr_grpc_status (get hdr_grpc_status header) [])
]
fixed_trailer header (field ∷ trailer) = field ∷ trailer
