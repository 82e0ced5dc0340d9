-- ===== src/Request/Builder.antt =====
-- What a chain of calls of the builder of src/request.rs makes.
use simple_http.Base.{none, some, List, [], ◌∷◌, ◌++◌, ◌≡◌, ◌∙◌, append-nil, append_assoc, ok}
use simple_http.Base.Bytes.{Bytes}
use simple_http.Uri.{HttpTypes}
use simple_http.Request.{Headers, RequestBuilder, builder, version, uri, header, body, done}

module _ (h : HttpTypes) (B : Type 0) where
  -- One call in a chain.
  pub data Call : Type 0 where
    set_version : h.Version → Call
    set_uri : h.Uri → Call
    add_header : Bytes → Bytes → Call

  unfoldable pub apply : RequestBuilder h B → Call → RequestBuilder h B
  unfolding version uri header
  apply self (set_version v) = version h B self v
  apply self (set_uri u) = uri h B self u
  apply self (add_header n v) = header h B self n v

  unfoldable pub chain : RequestBuilder h B → List Call → RequestBuilder h B
  chain self [] = self
  chain self (c ∷ cs) = chain (apply self c) cs

  abbrev last_version : h.Version → List Call → h.Version
  last_version v [] = v
  last_version v (set_version w ∷ cs) = last_version w cs
  last_version v (c ∷ cs) = last_version v cs

  abbrev last_uri : h.Uri → List Call → h.Uri
  last_uri u [] = u
  last_uri u (set_uri w ∷ cs) = last_uri w cs
  last_uri u (c ∷ cs) = last_uri u cs

  abbrev given_headers : List Call → Headers
  given_headers [] = []
  given_headers (add_header n v ∷ cs) = (n, v) ∷ given_headers cs
  given_headers (c ∷ cs) = given_headers cs

  chain_lem :
      (self : RequestBuilder h B) (cs : List Call)
      → chain self cs ≡ record {
        method = self.method;
        version = last_version self.version cs;
        uri = last_uri self.uri cs;
        headers = self.headers ++ given_headers cs;
      }
  unfolding chain apply
  chain_lem self [] = rw append-nil
  chain_lem self (set_version v ∷ cs) = chain_lem (apply self (set_version v)) cs
  chain_lem self (set_uri u ∷ cs) = chain_lem (apply self (set_uri u)) cs
  chain_lem self (add_header n v ∷ cs) =
      chain_lem (apply self (add_header n v)) cs ∙ (rw append_assoc)

  -- A request that any chain of calls builds has the default method, the version and the URI that
  -- were set last, the headers in the order of the calls, and the body that is given.
  pub body-chain :
      (cs : List Call) (b : B)
      → body h B (chain (builder h B) cs) b
        ≡ ok (record {
          method = h.default_method;
          version = last_version h.default_version cs;
          uri = last_uri h.default_uri cs;
          headers = given_headers cs;
          body = some b;
        })
  unfolding body builder
  body-chain cs b = rw chain_lem

  -- The same holds of a request without a body.
  pub done-chain :
      (cs : List Call)
      → done h B (chain (builder h B) cs)
        ≡ ok (record {
          method = h.default_method;
          version = last_version h.default_version cs;
          uri = last_uri h.default_uri cs;
          headers = given_headers cs;
          body = none;
        })
  unfolding done builder
  done-chain cs = rw chain_lem
