-- ===== src/Client/Served.antt =====
-- That a request of src/lib.rs to a server that answers succeeds.
use simple_http.Base.{Option, none, some, List, [], ◌∷◌, inr}
use simple_http.Base.Bytes.{Bytes}
use simple_http.Io.{IoResult}
use simple_http.Request.{Request}
use simple_http.Response
use simple_http.Body

-- A body stream that gives no error.
pub data NoError : List (IoResult Bytes) → Type 0 where
  ended : NoError []
  chunk : (c : Bytes) {chunks : List (IoResult Bytes)} → NoError chunks → NoError (inr c ∷ chunks)

abbrev pub NoErrorIn : Option (List (IoResult Bytes)) → Type 0
NoErrorIn none = Unit
NoErrorIn (some chunks) = NoError chunks
