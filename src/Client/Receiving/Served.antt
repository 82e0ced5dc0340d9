-- ===== src/Client/Receiving/Served.antt =====
-- That the loop of src/lib.rs receives the head that a server sends, and loses nothing behind it.
use simple_http.Base.{
  ℕ, zero, suc, ◌+◌, ◌-◌, ◌≤◌, ◌<◌, some, [], ◌++◌, ◌≡◌, ◌≢◌, refl, arith, length, length-append,
  take-append_length, take, drop, ap, sym, ◌∙◌, append_assoc, ok, Build, Outcome, ◌==◌, false,
}
use native.Mathlib.Decide.{dec_le}
use simple_http.Base.Bytes.{Bytes}
use simple_http.Base.Search.{position}
use simple_http.Base.Search.Prefixes.{position-append, position-prefix, append-parts}
use simple_http.Base.Text.{Unicode}
use simple_http.Io.{IoError}
use simple_http.Client.{Head, read_head, head_end, Transport, at_end, receive_loop, receive}

-- What is documented of an open connection: each write is taken whole, and each read into a buffer
-- with room gives a part of what the peer still sends, until there is nothing more.
pub record ServedLaw (t : Transport) : Type 0 where
  pub incoming : t.io.Reader → Bytes
  pub read_part :
      (c : t.io.Reader) (n : ℕ)
      → 0 < n
      → incoming c ≢ []
      → (bytes : Bytes) × (c' : t.io.Reader) × (t.read c n ≡ ok (bytes, c'))
        × (0 < length bytes)
        × (length bytes ≤ n)
        × (incoming c ≡ bytes ++ incoming c')
  pub write_taken :
      (c : t.io.Reader) (bytes : Bytes)
      → (c' : t.io.Reader) × (t.write_all c bytes ≡ ok c') × (incoming c' ≡ incoming c)

-- The bytes of a head, with its only blank line at the end.
pub record IsHead (u : Unicode) (build : Build) (bytes : Bytes) (head : Head) : Type 0 where
  pub end : ℕ
  pub blank : position head_end bytes ≡ some end
  pub whole : length bytes ≡ end + 4
  pub parsed : read_head u build bytes ≡ ok head
  pub fits : length bytes ≤ 4096

module _ (t : Transport) (law : ServedLaw t) (u : Unicode) (build : Build) {bytes : Bytes}
    {head : Head} (w : IsHead u build bytes head) (body : Bytes) where
  -- The head is given out, with a part of the body; the rest of the body is still to come.
  abbrev Received : Outcome IoError (Head × Bytes × t.io.Reader) → Type 0
  Received m =
      (rest : Bytes) × (c' : t.io.Reader) × (m ≡ ok (head, rest, c'))
      × (rest ++ law.incoming c' ≡ body)

  at_end-whole :
      (go : t.io.Reader → Bytes → Outcome IoError (Head × Bytes × t.io.Reader)) (c : t.io.Reader)
      (got : Bytes)
      → got ++ law.incoming c ≡ bytes ++ body
      → length bytes ≤ length got
      → Received (at_end t u build go c got (position head_end got))
  at_end-whole go c got e le =
      let (split, behind) = append-parts got (law.incoming c) bytes body e le in
      let found =
        ap (position head_end) split
        ∙ position-append head_end bytes (drop (length bytes) got) w.end w.blank in
      let taken : take (length bytes) got ≡ bytes =
        ap (take (length bytes)) split ∙ take-append_length bytes (drop (length bytes) got) in
      (
        drop (length bytes) got,
        c,
        rw found (rw (sym w.whole) (rw taken (rw w.parsed refl))),
        behind,
      )

  at_end-part :
      (go : t.io.Reader → Bytes → Outcome IoError (Head × Bytes × t.io.Reader)) (c : t.io.Reader)
      (got : Bytes)
      → got ++ law.incoming c ≡ bytes ++ body
      → length got < length bytes
      → at_end t u build go c got (position head_end got) ≡ go c got
  at_end-part go c got e lt =
      let (split, behind) = append-parts bytes body got (law.incoming c) (sym e) (omega arith) in
      rw
        (position-prefix head_end got (drop (length got) bytes) w.end
          (sym (ap (position head_end) split) ∙ w.blank) (omega (arith, w.whole)))
        refl

  receive_loop-Received :
      (fuel : ℕ) (c : t.io.Reader) (got : Bytes)
      → got ++ law.incoming c ≡ bytes ++ body
      → length got < length bytes
      → 4096 < fuel + length got
      → Received (receive_loop t u build fuel c got)
  unfolding receive_loop
  receive_loop-Received zero c got e lt f = absurd (omega (arith, w.fits))
  receive_loop-Received (suc fuel) c got e lt f =
      let (part, c', r, pos, le, i) =
        law.read_part c (4096 - length got) (omega (arith, w.fits)) (λ n. omega (
          arith,
          ap length e,
          ap length n,
          length-append got (law.incoming c),
          length-append bytes body,
        )) in
      let joined : (got ++ part) ++ law.incoming c' ≡ bytes ++ body =
        append_assoc got part (law.incoming c') ∙ (ap (◌++◌ got) (sym i) ∙ e) in
      let answered : (length part == 0) ≡ false = ground arith in
      let go = receive_loop t u build fuel in
      rw r (
        rw answered (elim (dec_le (length bytes) (length (got ++ part))) [
          | yes all ↦ at_end-whole go c' (got ++ part) joined all
          | no some_left ↦ rw (at_end-part go c' (got ++ part) joined (omega arith)) (
              receive_loop-Received fuel c' (got ++ part) joined (omega arith)
                (omega (arith, length-append got part)))
        ]))

  -- A head that the peer sends, with any bytes behind it, is received by parts of any length: the
  -- loop ends with the head and a part of the bytes behind it, and the others are still to come.
  pub receive-Received :
      (c : t.io.Reader) → law.incoming c ≡ bytes ++ body → Received (receive t u build c)
  unfolding receive
  receive-Received c e = receive_loop-Received 4097 c [] e (omega (arith, w.whole)) (omega arith)
