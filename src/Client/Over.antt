-- ===== src/Client/Over.antt =====
-- src/lib.rs: `Client::request` over the connector that the client holds. `tokio_io::io` is a
-- parameter.
pub mod Ways
pub mod Whole
use simple_http.Base.{ℕ, List, Outcome, ok, ◌>>=◌, Build}
use simple_http.Base.Bytes.{Bytes}
use simple_http.Base.Text.{Unicode}
use simple_http.Uri.{HttpTypes}
use simple_http.Io.{IoError, IoResult, Poll}
use simple_http.Connect.{Connector}
use simple_http.Request.{Request}
use simple_http.Response
use simple_http.Body
use simple_http.Client.{Transport, Client, request}

-- `tokio_io::io::{read, write_all}` with every `.await` done, and `poll_read`, over a stream
pub record TokioIo (Stream : Type 0) : Type 0 where
  pub poll_read : Stream → ℕ → Poll (IoResult Bytes) × Stream
  pub read : Stream → ℕ → Outcome IoError (Bytes × Stream)
  pub write_all : Stream → Bytes → Outcome IoError Stream

abbrev pub over : {Stream : Type 0} → TokioIo Stream → Transport
over {Stream} w = record {
  io = record { Reader = Stream; poll_read = w.poll_read };
  read = w.read;
  write_all = w.write_all;
}

abbrev pub connection : {R Connected : Type 0} → R × Connected → Outcome IoError R
connection (conn, connected) = ok conn

module _ (h : HttpTypes) {R Connected : Type 0} where
  -- `self.inner.connect(Destination { uri })`; what is told of the connection is dropped.
  unfoldable pub dial : Connector h R Connected → h.Uri → Outcome IoError R
  dial inner uri = inner.connect (record { uri = uri }) >>= connection

module _ (h : HttpTypes) (t : Transport) {C Connected : Type 0}
    (way : C → Connector h t.io.Reader Connected) where
  -- `Client::request`; `way` is the implementation of `Connect` for the connector's type.
  unfoldable pub request_by :
      Client C
      → Unicode
      → Build
      → Bytes
      → Request h (List (IoResult Bytes))
      → Outcome IoError (Response.Response h (Body.Body t.io.Reader))
  request_by this u build uninit req = request h t (dial h (way this.inner)) u build uninit req
