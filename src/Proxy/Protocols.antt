-- ===== src/Proxy/Protocols.antt =====
-- internal/proxy/proxy.go: the tests that tell WebSocket, gRPC and script requests apart, and the
-- replies to those that are not let through.
use veilgate.Prelude.{
  Bool, ◌&&◌, ◌||◌, [], ◌∷◌, ◌++◌, Bytes, codes, ◌==◌, nat_eq, bytes_eq, if◌then◌else◌, to_lower,
  equal_fold, contains, has_prefix, has_suffix,
}
use veilgate.Http.{
  Request, Reply, header_get, cors_headers, status_ok, status_forbidden, status_unavailable,
  status_not_implemented,
}
use veilgate.Proxy.Decision.{Decision, is_tarpit}

unfoldable pub contains_fold : Bytes → Bytes → Bool
unfolding contains to_lower
contains_fold s sub = contains (to_lower s) (to_lower sub)

unfoldable pub is_websocket_upgrade : Request → Bool
unfolding contains_fold header_get equal_fold
is_websocket_upgrade r =
    equal_fold (header_get (codes "Upgrade") r) (codes "websocket")
    && contains_fold (header_get (codes "Connection") r) (codes "upgrade")

unfoldable pub is_grpc : Request → Bool
unfolding header_get has_prefix
is_grpc r = has_prefix (header_get (codes "Content-Type") r) (codes "application/grpc")

unfoldable pub is_http2_websocket_connect : Request → Bool
unfolding header_get equal_fold
is_http2_websocket_connect r =
    r.proto_major == 2
    && (r.method == codes "CONNECT"
        && equal_fold (header_get (codes ":protocol") r) (codes "websocket"))

unfoldable pub is_js_asset_path : Bytes → Bool
unfolding to_lower has_suffix
is_js_asset_path path =
    let p = to_lower path in
    has_suffix p (codes ".js") || (has_suffix p (codes ".js.gz") || has_suffix p (codes ".mjs"))

abbrev json : Bytes
json = codes "application/json"

unfoldable pub upgrade_blocked : Request → Decision → Reply
unfolding cors_headers
upgrade_blocked r d = record {
  status = if is_tarpit d then status_forbidden else status_unavailable;
  headers = cors_headers r ++ (codes "Content-Type", json) ∷ [];
  body =
      if is_tarpit d
      then codes "{\"error\":\"forbidden\"}"
      else codes "{\"error\":\"challenge_required\"}";
}

-- The gRPC status stands in the headers: 7 is PERMISSION_DENIED, 16 UNAUTHENTICATED.
unfoldable pub grpc_blocked : Request → Decision → Reply
unfolding cors_headers
grpc_blocked r d = record {
  status = status_ok;
  headers =
      cors_headers r
      ++ ((codes "Content-Type", codes "application/grpc")
          ∷ (codes "grpc-status", if is_tarpit d then codes "7" else codes "16")
          ∷ (
            codes "grpc-message",
            if is_tarpit d then codes "forbidden" else codes "challenge_required",
          )
          ∷ []);
  body = [];
}

unfoldable pub http2_websocket_unsupported : Request → Reply
unfolding cors_headers
http2_websocket_unsupported r = record {
  status = status_not_implemented;
  headers = cors_headers r ++ (codes "Content-Type", json) ∷ [];
  body = codes "{\"error\":\"http2_websocket_unsupported\"}";
}
