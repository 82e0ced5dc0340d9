-- ===== src/Client/Parsing.antt =====
-- The head of a response, as the client of src/lib.rs reads it.
use simple_http.Base.{
  Returns, Returns-bind_eq, Returns-ok, Returns-err, ℕ, zero, suc, ◌≤◌, ◌<◌, true, false, Option,
  none, some, List, [], ◌∷◌, ◌++◌, ◌≡◌, inl, inr, refl, ap, ◌∙◌, map, arith, length, length-append,
  append-nil, append_assoc, Outcome, ok, ok_parts, Build,
}
use simple_http.Base.Bytes.{Bytes, crlf}
use simple_http.Base.Search.{position}
use simple_http.Base.Text.{Unicode, from_utf8_lossy, to_lowercase}
use simple_http.Io.{IoError}
use simple_http.Httparse.{HeaderIter, Item, status, header, parse_headers, next}
use simple_http.Client.{
  Head, no_head, parse_header_error, add_item, after_item, read_items, read_head,
}
use simple_http.Httparse.Lines.{
  at, Field, field_line, IsField, next-field, next-blank, StatusLine, status_line, IsStatusLine,
  status_code, next-status,
}
use simple_http.Httparse.Progress.{
  IsFirstItem, IsLaterItem, next-first, next-later, next-shrinks, Returns-next,
}

Returns-after_item :
    (u : Unicode) (go : HeaderIter → Head → Outcome IoError Head) (head : Head) (n : ℕ)
    → ((it : HeaderIter) (head' : Head) → length it.input < n → Returns (go it head'))
    → (p : Option Item × HeaderIter) → ((i : Item) → p.0 ≡ some i → length p.1.input < n)
    → Returns (after_item u go head p)
Returns-after_item u go head n ih (none, it) k = Returns-ok head
Returns-after_item u go head n ih (some (inl e), it) k = Returns-err parse_header_error
Returns-after_item u go head n ih (some (inr h), it) k = ih it (add_item u head h) (k (inr h) refl)

-- With fuel for every byte the loop over the items ends.
Returns-read_items :
    (u : Unicode) (build : Build) (fuel : ℕ) (it : HeaderIter) (head : Head)
    → length it.input < fuel
    → Returns (read_items u build fuel it head)
unfolding read_items
Returns-read_items u build zero it head h = absurd (omega arith)
Returns-read_items u build (suc fuel) it head h =
    Returns-bind_eq (next build it) (after_item u (read_items u build fuel) head)
      (Returns-next build it)
      (λ p e.
        Returns-after_item u (read_items u build fuel) head (length it.input)
          (λ it' head' lt. Returns-read_items u build fuel it' head' (omega arith)) p
          (λ i q.
            next-shrinks {E = IoError} build it i p.1
              (e ∙ ap (λ (o : Option Item). ok (o, p.1)) q)))

-- Reading a head ends for every input, in both builds.
pub Returns-read_head :
    (u : Unicode) (build : Build) (bytes : Bytes) → Returns (read_head u build bytes)
unfolding read_head parse_headers
Returns-read_head u build bytes =
    Returns-read_items u build (suc (length bytes)) (parse_headers bytes) no_head (omega arith)

-- The header lines and the blank line behind them.
abbrev pub field_lines : List Field → Bytes
field_lines [] = crlf
field_lines (f ∷ fs) = field_line f ++ (crlf ++ field_lines fs)

-- A response head as a server sends it.
abbrev pub sent_head : StatusLine → List Field → Bytes
sent_head s fs = status_line s ++ (crlf ++ field_lines fs)

pub data AllFields : List Field → Type 0 where
  nil : AllFields []
  cons : {f : Field} {fs : List Field} → IsField f → AllFields fs → AllFields (f ∷ fs)

abbrev pub decoded : Unicode → Field → Bytes × Bytes
decoded u f = (to_lowercase u (from_utf8_lossy u f.name), from_utf8_lossy u f.value)

read_items-fields :
    (u : Unicode) (build : Build) (fuel : ℕ) {fs : List Field} (head : Head)
    → AllFields fs
    → length (field_lines fs) < fuel
    → read_items u build fuel (at (field_lines fs) true) head
      ≡ ok (record head { headers = head.headers ++ map (decoded u) fs })
unfolding read_items add_item
read_items-fields u build zero head w h = absurd (omega arith)
read_items-fields u build (suc fuel) head nil h =
    rw (next-blank {E = IoError} build []) (rw append-nil)
read_items-fields u build (suc fuel) head (cons {f} {fs} x w) h =
    rw (next-field {E = IoError} build (field_lines fs) x) (
      read_items-fields u build fuel (add_item u head (header f.name f.value)) w
        (omega (arith, length-append (field_line f) (crlf ++ field_lines fs)))
      ∙ ap (λ hs. ok (record head { headers = hs }))
          (append_assoc head.headers (decoded u f ∷ []) (map (decoded u) fs)))

pub read_head-sent_head :
    (u : Unicode) (build : Build) {s : StatusLine} {fs : List Field}
    → IsStatusLine s
    → AllFields fs
    → read_head u build (sent_head s fs)
      ≡ ok (record {
        status = status_code s;
        reason = from_utf8_lossy u s.version;
        headers = map (decoded u) fs;
      })
unfolding read_head parse_headers read_items add_item
read_head-sent_head u build {s} {fs} ws wf =
    rw (next-status {E = IoError} build (field_lines fs) ws) (
      read_items-fields u build (length (sent_head s fs))
        (add_item u no_head (status (status_code s) s.version s.reason)) wf
        (omega (arith, length-append (status_line s) (crlf ++ field_lines fs))))

after_item-status :
    (u : Unicode) (go : HeaderIter → Head → Outcome IoError Head) (head head' : Head)
    → ((it : HeaderIter) (h : Head)
        → it.status_parsed ≡ true
        → go it h ≡ ok head'
        → head'.status ≡ h.status)
    → (p : Option Item × HeaderIter)
    → ((i : Item) → p.0 ≡ some i → IsLaterItem (some i) × (p.1.status_parsed ≡ true))
    → after_item u go head p ≡ ok head'
    → head'.status ≡ head.status
unfolding add_item
after_item-status u go head head' ih (none, it) k h = ground arith
after_item-status u go head head' ih (some (inl e), it) k h = cc
after_item-status u go head head' ih (some (inr (status c v r)), it) k h =
    absurd (k (inr (status c v r)) refl).0
after_item-status u go head head' ih (some (inr (header n v)), it) k h =
    ih it (add_item u head (header n v)) (k (inr (header n v)) refl).1 h

-- The status stays what the first item has set.
read_items-status :
    (u : Unicode) (build : Build) (fuel : ℕ) (it : HeaderIter) (head head' : Head)
    → it.status_parsed ≡ true
    → read_items u build fuel it head ≡ ok head'
    → head'.status ≡ head.status
unfolding read_items
read_items-status u build zero it head head' s h = cc
read_items-status u build (suc fuel) it head head' s h =
    let (p, e, after) = ok_parts (next build it) (after_item u (read_items u build fuel) head) h in
    after_item-status u (read_items u build fuel) head head'
      (λ it' h' s' r. read_items-status u build fuel it' h' head' s' r) p
      (λ i q.
        next-later {E = IoError} build it i p.1 s (e ∙ ap (λ (o : Option Item). ok (o, p.1)) q))
      after

after_first-status :
    (u : Unicode) (build : Build) (fuel : ℕ) (head head' : Head) (p : Option Item × HeaderIter)
    → IsFirstItem p.0
    → p.1.status_parsed ≡ true
    → after_item u (read_items u build fuel) head p ≡ ok head'
    → (100 ≤ head'.status) × (head'.status < 600)
after_first-status u build fuel head head' (none, it) f s h = absurd f
after_first-status u build fuel head head' (some (inl e), it) f s h = cc
after_first-status u build fuel head head' (some (inr (header n v)), it) f s h = absurd f
after_first-status u build fuel head head' (some (inr (status c v r)), it) f s h =
    rw (read_items-status u build fuel it (add_item u head (status c v r)) head' s h)
      (unfold add_item in f)

-- A head that is read from bytes with a CRLF in them has a status from 100 to 599.
pub read_head_status :
    (u : Unicode) (build : Build) (bytes : Bytes) {i : ℕ} (head : Head)
    → position crlf bytes ≡ some i
    → read_head u build bytes ≡ ok head
    → (100 ≤ head.status) × (head.status < 600)
unfolding read_head parse_headers read_items
read_head_status u build bytes head p h =
    let (q, e, after) =
      ok_parts (next build (at bytes false))
        (after_item u (read_items u build (length bytes)) no_head) h in
    let (f, s) = next-first {E = IoError} build bytes q.0 q.1 p e in
    after_first-status u build (length bytes) no_head head q f s after
