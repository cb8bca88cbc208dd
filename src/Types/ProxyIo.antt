-- ===== src/Types/ProxyIo.antt =====
-- crates/partly-proxy-lib/src/proxy_io.rs
use partly_proxy.Base.{ℕ, String, Bytes, [], apply_some}
use partly_proxy.Http.{Http}

-- `http::Version`
pub data Version : Type 0 where
  http_10 http_11 http_2 : Version

pub record ProxyRequest (http : Http) : Type 0 where
  pub method : String
  pub uri : http.Uri
  pub headers : http.HeaderMap
  pub body : Bytes
  pub version : Version

pub record ProxyResponse (http : Http) : Type 0 where
  pub status : ℕ
  pub headers : http.HeaderMap
  pub body : Bytes
  pub version : Version

module _ (http : Http) where
  -- `ProxyRequest::new`
  abbrev pub new_request : String → http.Uri → http.HeaderMap → Bytes → ProxyRequest http
  new_request method uri headers body = record {
    method = method;
    uri = uri;
    headers = headers;
    body = body;
    version = http_11;
  }

  -- `ProxyResponse::new`
  abbrev pub new_response : ℕ → ProxyResponse http
  new_response status = record {
    status = status;
    headers = http.no_headers;
    body = [];
    version = http_11;
  }

  -- `with_header`: a value that is no header value is dropped.
  unfoldable pub with_header : ProxyResponse http → String → Bytes → ProxyResponse http
  with_header r name value =
      apply_some (http.header_value value)
        (λ v (s : ProxyResponse http). record s { headers = http.insert s.headers name v }) r

  unfoldable pub with_body : ProxyResponse http → Bytes → ProxyResponse http
  with_body r body = record r { body = body }
