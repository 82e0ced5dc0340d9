-- ===== src/Tests/Requests.antt =====
-- Tests of the request builder.
use simple_http.Base.{List, [], ◌∷◌, ◌≡◌, some, ok}
use simple_http.Base.Bytes.{Bytes, codes}
use simple_http.Request.{builder, body}
use simple_http.Request.Builder.{Call, set_version, set_uri, add_header, chain, body-chain}
use simple_http.Tests.World.{http, example_uri}

abbrev calls : List (Call http Bytes)
calls =
    set_uri example_uri
    ∷ add_header (codes "A") (codes "1")
    ∷ set_version 10
    ∷ add_header (codes "B") (codes "2")
    ∷ []

body-chain_example :
    body http Bytes (chain http Bytes (builder http Bytes) calls) (codes "x")
    ≡ ok (record {
      method = codes "GET";
      version = 10;
      uri = example_uri;
      headers = (codes "A", codes "1") ∷ (codes "B", codes "2") ∷ [];
      body = some (codes "x");
    })
body-chain_example = body-chain http Bytes calls (codes "x")
