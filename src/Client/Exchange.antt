-- ===== src/Client/Exchange.antt =====
-- A whole exchange of src/lib.rs: it ends, what is sent, and what the response is made of.
use simple_http.Base.{
  Returns, Returns-ok, Returns-unwrap, Returns-bind, returns_rules, ℕ, ◌≤◌, ◌<◌, some, List, ◌++◌,
  ◌≡◌, ap, ◌∙◌, arith, append_assoc, Outcome, ok, ok_parts, ◌>>=◌, Build, unwrap,
}
use simple_http.Base.Bytes.{Bytes}
use simple_http.Base.Text.{Unicode}
use simple_http.Uri.{HttpTypes, StatusLaw}
use simple_http.Io.{IoError, IoResult}
use simple_http.Request.{Headers, Request}
use simple_http.Client.{Head, content_length, build_req, Transport, write_body, receive, request}
use simple_http.Client.Receiving.{TransportLaw, Reads, Returns-receive, receive-Splits, Splits}
use simple_http.Client.Sending.{SendLaw, sent_body, Returns-write_body, write_body-sent, Reads-sent}
use simple_http.Response
use simple_http.Body

Returns-push_headers :
    {E : Type 0} (h : HttpTypes) (u : Unicode) (m : h.Method) (url : h.Uri) (hs : Headers)
    → Returns (build_req h {E = E} u m url hs)
unfolding build_req
Returns-push_headers h u m url hs = search returns_rules

module _ (h : HttpTypes) (t : Transport) (connect : h.Uri → Outcome IoError t.io.Reader) where
  -- Over a transport whose calls end, a request ends: with a response, an error or a panic.
  pub Returns-request :
      TransportLaw t
      → ((uri : h.Uri) → Returns (connect uri))
      → (u : Unicode) (build : Build) (uninit : Bytes) (req : Request h (List (IoResult Bytes)))
      → Returns (request h t connect u build uninit req)
  unfolding request Response.new
  Returns-request law c u build uninit req = Returns-bind (connect req.uri) _ (c req.uri) λ conn.
      Returns-bind (build_req h u req.method req.uri req.headers) _
        (Returns-push_headers h u req.method req.uri req.headers)
        λ head. Returns-bind (t.write_all conn head) _ (law.write_returns conn head) λ conn₁.
          Returns-bind (write_body t conn₁ req.body) _ (Returns-write_body t law conn₁ req.body)
            λ conn₂.
              Returns-bind (receive t u build conn₂) _ (Returns-receive t law u build conn₂) λ p.
                Returns-bind (unwrap (h.status_from_u16 p.0.status)) _ (Returns-unwrap _)
                  λ s. Returns-ok _

  -- What a finished exchange was.
  pub record Exchanged (sends : SendLaw t) (u : Unicode) (build : Build) (uninit : Bytes)
      (req : Request h (List (IoResult Bytes))) (res : Response.Response h (Body.Body t.io.Reader))
      : Type 0 where
    pub opened : t.io.Reader
    pub last : t.io.Reader
    pub head : Head
    pub request_head : Bytes
    pub rest : Bytes
    pub received : Bytes
    -- the connection when the request was written
    pub written : t.io.Reader
    pub connected : connect req.uri ≡ ok opened
    pub built : build_req h {E = IoError} u req.method req.uri req.headers ≡ ok request_head
    -- the request on the wire: the head, then the chunks of the body in order
    pub sent_all : sends.sent last ≡ sends.sent opened ++ (request_head ++ sent_body req.body)
    pub written_by : t.write_all opened request_head >>= (λ c. write_body t c req.body) ≡ ok written
    -- what the reads behind the request have answered, one after another and up to the last
    pub reads : Reads t written received last
    -- the response: split at the first blank line of what was read
    pub splits : Splits u build head rest received
    pub status_low : 100 ≤ head.status
    pub status_high : head.status < 600
    pub status_is : h.status_from_u16 head.status ≡ some res.status_code
    pub headers_are : res.headers ≡ Response.new_map head.headers
    pub body_is : res.body ≡ Body.new uninit last (some rest) (content_length head.headers)

  abbrev Res : Type 0
  Res = Response.Response h (Body.Body t.io.Reader)

  new_status :
      (n : ℕ) (hs : Headers) (b : Body.Body t.io.Reader) {res : Res}
      → Response.new h (Body.Body t.io.Reader) {E = IoError} n hs b ≡ ok res
      → (h.status_from_u16 n ≡ some res.status_code)
        × (res.headers ≡ Response.new_map hs)
        × (res.body ≡ b)
  unfolding Response.new
  new_status n hs b e = ground arith

  Exchanged-steps :
      (law : TransportLaw t) (sends : SendLaw t) (u : Unicode) (build : Build) (uninit : Bytes)
      (req : Request h (List (IoResult Bytes))) {res : Res} (c₀ c₁ c₂ c₃ : t.io.Reader)
      (out rest : Bytes) (head : Head)
      → connect req.uri ≡ ok c₀
      → build_req h {E = IoError} u req.method req.uri req.headers ≡ ok out
      → t.write_all c₀ out ≡ ok c₁
      → write_body t c₁ req.body ≡ ok c₂
      → receive t u build c₂ ≡ ok (head, rest, c₃)
      → Response.new h
          (Body.Body t.io.Reader)
          {E = IoError}
          head.status
          head.headers
          (Body.new uninit c₃ (some rest) (content_length head.headers))
        ≡ ok res
      → Exchanged sends u build uninit req res
  Exchanged-steps law sends u build uninit req c₀ c₁ c₂ c₃ out rest head e₀ e₁ e₂ e₃ e₄ e₅ =
      let (all, r, s, low, high) = receive-Splits t law u build c₂ e₄ in
      let (status_is, headers_are, body_is) = new_status head.status head.headers _ e₅ in
      record {
        opened = c₀;
        last = c₃;
        head = head;
        request_head = out;
        rest = rest;
        received = all;
        written = c₂;
        written_by = rw e₂ e₃;
        reads = r;
        connected = e₀;
        built = e₁;
        sent_all =
            Reads-sent t sends r
            ∙ write_body-sent t sends c₁ req.body e₃
            ∙ ap (λ x. x ++ sent_body req.body) (sends.write_sends c₀ out e₂)
            ∙ append_assoc (sends.sent c₀) out (sent_body req.body);
        splits = s;
        status_low = low;
        status_high = high;
        status_is = status_is;
        headers_are = headers_are;
        body_is = body_is;
      }

  -- A request that succeeds has sent its head and its body whole and in order, and its response
  -- is made of what the reads behind that have answered, one after another: status, headers, and a
  -- body that starts behind the blank line and goes on with the connection after the last read.
  pub request-Exchanged :
      (law : TransportLaw t) (sends : SendLaw t) (u : Unicode) (build : Build) (uninit : Bytes)
      (req : Request h (List (IoResult Bytes))) {res : Res}
      → request h t connect u build uninit req ≡ ok res
      → Exchanged sends u build uninit req res
  unfolding request
  request-Exchanged law sends u build uninit req {res} e =
      let (c₀, e₀, k₀) = ok_parts (connect req.uri) _ e in
      let (out, e₁, k₁) = ok_parts (build_req h u req.method req.uri req.headers) _ k₀ in
      let (c₁, e₂, k₂) = ok_parts (t.write_all c₀ out) _ k₁ in
      let (c₂, e₃, k₃) = ok_parts (write_body t c₁ req.body) _ k₂ in
      let (p, e₄, k₄) = ok_parts (receive t u build c₂) _ k₃ in
      Exchanged-steps law sends u build uninit req c₀ c₁ c₂ p.2 out p.1 p.0 e₀ e₁ e₂ e₃ e₄ k₄

  -- The `unwrap` of `Response::new` does not panic on a head that was received.
  pub new-receive :
      TransportLaw t
      → StatusLaw h
      → (u : Unicode) (build : Build) (c : t.io.Reader) {head : Head} {rest : Bytes}
        {c' : t.io.Reader} (body : Body.Body t.io.Reader)
      → receive t u build c ≡ ok (head, rest, c')
      → (res : Res) × (Response.new h
            (Body.Body t.io.Reader)
            {E = IoError}
            head.status
            head.headers
            body
          ≡ ok res)
        × (h.status_as_u16 res.status_code ≡ head.status)
  unfolding Response.new
  new-receive law status_law u build c {head} body e =
      let (all, r, s, low, high) = receive-Splits t law u build c e in
      let (st, accepted) = status_law.accepts head.status low high in
      (
        record { status_code = st; headers = Response.new_map head.headers; body = body },
        rw accepted,
        status_law.keeps head.status st accepted,
      )
