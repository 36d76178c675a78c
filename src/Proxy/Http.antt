-- ===== src/Proxy/Http.antt =====
-- umay/src/proxy/http.rs: a structure with no field.
pub data HttpProxy : Type 0 where
  http_proxy : HttpProxy
