-- ===== src/Collector/Handler.antt =====
-- The HTTP handler of internal/collector/handler.go, without its log lines and the closing of the readers.
pub mod Bodies
pub mod Outcomes
pub mod Examples
use tracewell.Prelude.{
  ℕ, suc, ◌+◌, ◌*◌, ◌^◌, ◌≤◌, String, Bool, true, false, not, List, [], ◌∷◌, ◌++◌, Option, none,
  some, codes, str_eq, eq_iff, ltb, leb, length, take, ◌≡◌, ◌≢◌, refl, sym, ap, ◌∙◌, arith,
  if◌then◌else◌, ◌⊎◌, inl, inr, Bool-cases, Option-cases,
}
use tracewell.Value.{Value}
use tracewell.Semconv.Extract as Extract
use tracewell.Collector.Batcher.{SpanWithProject}
use tracewell.Collector.Decode.Spans.{ResourceSpans, decode_spans}

-- What a reader yields: its bytes, and then the end, or an error with its text.
pub record Stream : Type 0 where
  pub bytes : List ℕ
  pub failure : Option (List ℕ)

pub record Request : Type 0 where
  pub method : String
  pub content_type : String
  pub content_encoding : String
  pub body : Stream

pub record Response : Type 0 where
  pub status : ℕ
  pub allow : Option String
  pub content_type : String
  pub body : List ℕ

-- the bytes of a body, or the text of the error
pub data Body : Type 0 where
  refused : List ℕ → Body
  bytes_read : List ℕ → Body

-- gzip.NewReader: an error, or a reader
pub data Opened : Type 0 where
  no_reader : List ℕ → Opened
  reader : Stream → Opened

-- compress/gzip, compress/flate, proto.Unmarshal of a request and proto.Marshal of the empty response; and what
-- DecodeSpans relies on.
pub record Outside : Type 0 where
  pub gunzip : Stream → Opened
  pub inflate : Stream → Stream
  pub unmarshal_request : List ℕ → Option (List ResourceSpans)
  pub marshal_response : Option (List ℕ)
  pub semconv : Extract.Outside
  pub unmarshal_json : String → Option Value

-- A response, and the spans that the handler passed to its callback, if it called it.
pub record Handled : Type 0 where
  pub response : Response
  pub sunk : Option (List SpanWithProject)

abbrev pub content_type_proto_buf : String
content_type_proto_buf = "application/x-protobuf"

abbrev pub max_body_bytes : ℕ
max_body_bytes = 32 * 2 ^ 20

-- errUnsupportedEncoding and errBodyTooLarge, as texts
unfoldable pub unsupported_encoding : String → List ℕ
unsupported_encoding enc = codes "unsupported content encoding: " ++ codes enc

abbrev pub body_too_large : List ℕ
body_too_large = codes "request body too large"

at_end : Option (List ℕ) → List ℕ → Body
at_end none bytes = bytes_read bytes
at_end (some error) bytes = refused error

-- io.Copy(&buf, io.LimitReader(reader, n)): a reader that has n bytes is not asked for its end
unfoldable pub copy_limited : ℕ → Stream → Body
unfolding at_end
copy_limited n s =
    if leb n (length s.bytes) then bytes_read (take n s.bytes) else at_end s.failure s.bytes

-- buf.Len() > maxBodyBytes
unfoldable pub check_size : Body → Body
check_size (refused error) = refused error
check_size (bytes_read bytes) =
    if ltb max_body_bytes (length bytes) then refused body_too_large else bytes_read bytes

-- decodeBody, from its reader on
unfoldable pub read_body : Stream → Body
unfolding copy_limited check_size
read_body s = check_size (copy_limited (max_body_bytes + 1) s)

unfoldable pub read_opened : Opened → Body
unfolding read_body
read_opened (no_reader error) = refused error
read_opened (reader s) = read_body s

-- http.Error
unfoldable pub http_error : List ℕ → ℕ → Response
http_error message status = record {
  status = status;
  allow = none;
  content_type = "text/plain; charset=utf-8";
  body = message ++ b'\n' ∷ [];
}

unfoldable pub rejected : List ℕ → ℕ → Handled
unfolding http_error
rejected message status = record { response = http_error message status; sunk = none }

module _ (o : Outside) where
  -- decodeBody
  unfoldable pub decode_body : Request → Body
  unfolding read_opened unsupported_encoding
  decode_body r =
      if str_eq r.content_encoding ""
      then read_body r.body
      else if str_eq r.content_encoding "gzip"
      then read_opened (o.gunzip r.body)
      else if str_eq r.content_encoding "deflate"
      then read_body (o.inflate r.body)
      else refused (unsupported_encoding r.content_encoding)

  -- from proto.Marshal on
  unfoldable pub respond : Option (List ℕ) → Response
  unfolding http_error
  respond none = http_error (codes "failed to marshal response") 500
  respond (some bytes) = record {
    status = 200;
    allow = none;
    content_type = content_type_proto_buf;
    body = bytes;
  }

  -- from the unmarshalled request on; `sink` tells that the callback is not nil
  unfoldable pub accept : Bool → Option (List ResourceSpans) → Handled
  unfolding rejected respond
  accept sink none = rejected (codes "request body is not a valid ExportTraceServiceRequest") 422
  accept sink (some resources) = record {
    response = respond o.marshal_response;
    sunk = if sink then some (decode_spans o.semconv o.unmarshal_json resources) else none;
  }

  -- from the decoded body on
  unfoldable pub handle_body : Bool → Body → Handled
  unfolding accept
  handle_body sink (refused error) = rejected error 415
  handle_body sink (bytes_read bytes) = accept sink (o.unmarshal_request bytes)

  -- the function of Handler
  unfoldable pub handle : Bool → Request → Handled
  unfolding handle_body rejected http_error decode_body
  handle sink r =
      if str_eq r.method "POST"
      then if str_eq r.content_type content_type_proto_buf
        then handle_body sink (decode_body r)
        else rejected (codes "unsupported content type: " ++ codes r.content_type) 415
      else record {
        response = record (http_error (codes "method not allowed") 405) { allow = some "POST" };
        sunk = none;
      }
