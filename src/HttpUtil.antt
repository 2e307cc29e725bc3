-- ===== src/HttpUtil.antt =====
-- src/http_util.rs: the responses that the bridge writes itself. Texts are their bytes, so that a length
-- is the one that `len` gives.
pub mod Framing
pub mod Tests
use zenoh_bridge_tcp.Prelude.{ℕ, Bool, true, false, [], ◌∷◌, ◌++◌, length, ◌==◌, if◌then◌else◌}
use zenoh_bridge_tcp.Text.{Text, codes}
use zenoh_bridge_tcp.Election.{digits}

-- `{}` of a number.
unfoldable pub show_len : ℕ → Text
show_len n = if n == 0 then b'0' ∷ [] else digits n n

-- A response: what stands in front of the length, the length, the header behind it, and the body.
abbrev pub with_body : Text → Text → Text → Text
with_body front connection body =
    front ++ (show_len (length body) ++ (codes "\r\n" ++ (connection ++ (codes "\r\n" ++ body))))

abbrev pub head_400 : Text
head_400 = codes "HTTP/1.1 400 Bad Request\r\nContent-Type: text/plain\r\nContent-Length: "

abbrev pub head_502 : Text
head_502 = codes "HTTP/1.1 502 Bad Gateway\r\nContent-Type: text/plain\r\nContent-Length: "

abbrev pub head_504 : Text
head_504 = codes "HTTP/1.1 504 Gateway Timeout\r\nContent-Type: text/plain\r\nContent-Length: "

abbrev pub connection_header : Bool → Text
connection_header close =
    if close then codes "Connection: close\r\n" else codes "Connection: keep-alive\r\n"

unfoldable pub http_400_response : Text → Text
http_400_response reason =
    with_body head_400 (connection_header true) (codes "400 Bad Request: " ++ reason)

unfoldable pub http_502_body : Text → Bool → Text
http_502_body dns close =
    with_body head_502 (connection_header close)
      (codes "502 Bad Gateway: No backend available for " ++ dns)

unfoldable pub http_502_response : Text → Text
http_502_response dns = http_502_body dns true

unfoldable pub http_502_response_keep_alive : Text → Text
http_502_response_keep_alive dns = http_502_body dns false

unfoldable pub http_504_response : Text
http_504_response = with_body head_504 (connection_header true) (codes "504 Gateway Timeout")
