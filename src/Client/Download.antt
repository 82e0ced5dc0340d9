-- ===== src/Client/Download.antt =====
-- examples/simple.rs: a request, and its response's body read to the end.
use simple_http.Base.{
  ℕ, suc, ◌<◌, ◌+◌, List, [], ◌++◌, ◌≡◌, ap, sym, subst, ◌∙◌, length, usize_mod, Outcome, ok, err,
  panic, out_of_fuel, ◌>>=◌, Build,
}
use simple_http.Base.Bytes.{Bytes}
use simple_http.Base.Text.{Unicode}
use simple_http.Uri.{HttpTypes}
use simple_http.Io.{IoError, IoResult}
use simple_http.Request.{Request}
use simple_http.Response
use simple_http.Body
use simple_http.Body.Collect.{collect, Delivers, total, expected, collect-new}
use simple_http.Client.{Transport, content_length, request}
use simple_http.Client.Receiving.{TransportLaw}
use simple_http.Client.Sending.{SendLaw}
use simple_http.Client.Exchange.{Exchanged, request-Exchanged}

-- `Result::unwrap`
abbrev pub unwrap_result {ℓ} : {A : Type ℓ} → Outcome IoError A → Outcome IoError A
unwrap_result (ok a) = ok a
unwrap_result (err e) = panic
unwrap_result panic = panic
unwrap_result out_of_fuel = out_of_fuel

boxed_inj : {R : Type 0} {a b : R} → Body.boxed a ≡ Body.boxed b → a ≡ b
boxed_inj e = cc

module _ (h : HttpTypes) (t : Transport) (connect : h.Uri → Outcome IoError t.io.Reader) where
  -- `main`, past the client and the request; the body is polled `polls` times at most.
  unfoldable pub download :
      Unicode → Build → Bytes → ℕ → Request h (List (IoResult Bytes)) → Outcome IoError Bytes
  download u build uninit polls req = do
    res ← unwrap_result (request h t connect u build uninit req)
    collect t.io build polls (Response.into_body h (Body.Body t.io.Reader) res) []

  -- Of a request that succeeds, over a connection that then delivers its chunks up to the end, the
  -- download ends as the description of the kept chunks says, behind the bytes that came with the
  -- head: they are what was read behind the blank line. The request was sent whole.
  pub download-Exchanged :
      (law : TransportLaw t) (sends : SendLaw t) (u : Unicode) (build : Build) (uninit : Bytes)
      (req : Request h (List (IoResult Bytes))) {res : Response.Response h (Body.Body t.io.Reader)}
      {last : t.io.Reader} {polls : ℕ} {cs : List Bytes}
      → request h t connect u build uninit req ≡ ok res
      → res.body.reader ≡ Body.boxed last
      → Delivers t.io polls last cs
      → length uninit ≡ 4096
      → total cs + 4096 < usize_mod
      → (e : Exchanged h t connect sends u build uninit req res) × (download u build uninit
            (suc polls)
            req
          ≡ (expected (content_length e.head.headers) 0 cs >>= λ b. ok (e.rest ++ b)))
  unfolding download Response.into_body Body.new
  download-Exchanged law sends u build uninit req {res} {last} {polls} {cs} r b d full small =
      let e = request-Exchanged h t connect law sends u build uninit req r in
      let same : e.last ≡ last = boxed_inj (sym (ap (λ x. x.reader) e.body_is) ∙ b) in
      (
        e,
        rw r (
            rw e.body_is (
              collect-new t.io build uninit e.rest (content_length e.head.headers)
                (subst (λ x. Delivers t.io polls x cs) (sym same) d) full small)),
      )
