-- ===== src/Request.antt =====
-- src/request.rs: requests and their builder.
pub mod Builder
use simple_http.Base.{ℕ, Option, none, some, List, [], ◌∷◌, ◌++◌, Outcome, ok}
use simple_http.Base.Bytes.{Bytes, codes}
use simple_http.Uri.{HttpTypes}
use simple_http.Io.{IoError}

abbrev pub Headers : Type 0
Headers = List (Bytes × Bytes)

-- `B` is the type of the body stream.
module _ (h : HttpTypes) (B : Type 0) where
  pub record Request : Type 0 where
    pub method : h.Method
    pub version : h.Version
    pub uri : h.Uri
    pub headers : Headers
    pub body : Option B

  pub record RequestBuilder : Type 0 where
    pub method : h.Method
    pub version : h.Version
    pub uri : h.Uri
    pub headers : Headers

  -- `Request::new`
  unfoldable pub new : h.Method → h.Uri → Request
  new method uri = record {
    method = method;
    version = h.http_10;
    uri = uri;
    headers = (codes "User-Agent", codes "Simple http request") ∷ [];
    body = none;
  }

  -- `RequestBuilder::default`
  unfoldable pub default : RequestBuilder
  default = record {
    method = h.default_method;
    version = h.default_version;
    uri = h.default_uri;
    headers = [];
  }

  -- `Request::builder`
  unfoldable pub builder : RequestBuilder
  unfolding default
  builder = default

  unfoldable pub version : RequestBuilder → h.Version → RequestBuilder
  version self v = record self { version = v }

  unfoldable pub uri : RequestBuilder → h.Uri → RequestBuilder
  uri self u = record self { uri = u }

  unfoldable pub header : RequestBuilder → Bytes → Bytes → RequestBuilder
  header self name value = record self { headers = self.headers ++ (name, value) ∷ [] }

  -- `RequestBuilder::body`
  unfoldable pub body : RequestBuilder → B → Outcome IoError Request
  body self b = ok (record {
    method = self.method;
    version = self.version;
    uri = self.uri;
    headers = self.headers;
    body = some b;
  })

  -- `RequestBuilder::done`
  unfoldable pub done : RequestBuilder → Outcome IoError Request
  done self = ok (record {
    method = self.method;
    version = self.version;
    uri = self.uri;
    headers = self.headers;
    body = none;
  })
