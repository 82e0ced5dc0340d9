-- ===== src/Client/Sending.antt =====
-- What src/lib.rs has sent when it has written a body.
use simple_http.Base.{
  Returns, Returns-ok, Returns-err, Returns-bind, ℕ, Option, none, some, List, [], ◌∷◌, ◌++◌, ◌≡◌,
  inl, inr, ap, ◌∙◌, arith, append-nil, append_assoc, ok, ok_parts,
}
use simple_http.Base.Bytes.{Bytes}
use simple_http.Io.{IoResult}
use simple_http.Client.{Transport, write_chunks, write_body}
use simple_http.Client.Receiving.{TransportLaw, Reads, done, more}

-- What is documented of writing: `write_all` sends all of its bytes behind those sent before, and
-- a read sends nothing.
pub record SendLaw (t : Transport) : Type 0 where
  pub sent : t.io.Reader → Bytes
  pub write_sends :
      (c : t.io.Reader) (bytes : Bytes) {c' : t.io.Reader}
      → t.write_all c bytes ≡ ok c'
      → sent c' ≡ sent c ++ bytes
  pub read_keeps :
      (c : t.io.Reader) (n : ℕ) {bytes : Bytes} {c' : t.io.Reader}
      → t.read c n ≡ ok (bytes, c')
      → sent c' ≡ sent c

-- The chunks of a body stream up to its end.
abbrev pub sent_chunks : List (IoResult Bytes) → Bytes
sent_chunks [] = []
sent_chunks (inl e ∷ chunks) = []
sent_chunks (inr c ∷ chunks) = c ++ sent_chunks chunks

abbrev pub sent_body : Option (List (IoResult Bytes)) → Bytes
sent_body none = []
sent_body (some chunks) = sent_chunks chunks

module _ (t : Transport) where
  Returns-write_chunks :
      TransportLaw t
      → (c : t.io.Reader) (chunks : List (IoResult Bytes)) → Returns (write_chunks t c chunks)
  unfolding write_chunks
  Returns-write_chunks law c [] = Returns-ok c
  Returns-write_chunks law c (inl e ∷ chunks) = Returns-err e
  Returns-write_chunks law c (inr x ∷ chunks) =
      Returns-bind (t.write_all c x) _ (law.write_returns c x)
        (λ c'. Returns-write_chunks law c' chunks)

  pub Returns-write_body :
      TransportLaw t
      → (c : t.io.Reader) (body : Option (List (IoResult Bytes))) → Returns (write_body t c body)
  unfolding write_body
  Returns-write_body law c none = Returns-ok c
  Returns-write_body law c (some chunks) = Returns-write_chunks law c chunks

  write_chunks-sent :
      (law : SendLaw t) (c : t.io.Reader) (chunks : List (IoResult Bytes)) {c' : t.io.Reader}
      → write_chunks t c chunks ≡ ok c'
      → law.sent c' ≡ law.sent c ++ sent_chunks chunks
  unfolding write_chunks
  write_chunks-sent law c [] {c'} e =
      let same : c' ≡ c = ground arith in rw append-nil (ap law.sent same)
  write_chunks-sent law c (inl x ∷ chunks) e = cc
  write_chunks-sent law c (inr x ∷ chunks) e =
      let (c₁, w, later) = ok_parts (t.write_all c x) _ e in
      write_chunks-sent law c₁ chunks later
      ∙ ap (λ s. s ++ sent_chunks chunks) (law.write_sends c x w)
      ∙ append_assoc (law.sent c) x (sent_chunks chunks)

  pub write_body-sent :
      (law : SendLaw t) (c : t.io.Reader) (body : Option (List (IoResult Bytes))) {c' : t.io.Reader}
      → write_body t c body ≡ ok c'
      → law.sent c' ≡ law.sent c ++ sent_body body
  unfolding write_body
  write_body-sent law c none e = write_chunks-sent law c [] (unfold write_chunks in e)
  write_body-sent law c (some chunks) e = write_chunks-sent law c chunks e

  pub Reads-sent :
      (law : SendLaw t) {c c' : t.io.Reader} {bytes : Bytes}
      → Reads t c bytes c'
      → law.sent c' ≡ law.sent c
  Reads-sent law (done e) = ap law.sent e
  Reads-sent law (more {c} {n = n} e r _) = Reads-sent law r ∙ law.read_keeps c n e
