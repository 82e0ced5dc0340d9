-- ===== src/Client/Receiving/Heads.antt =====
-- The blank line of a head that a server sends, as src/lib.rs looks for it.
use simple_http.Base.{
  ℕ, ◌+◌, ◌≤◌, false, none, some, List, [], ◌∷◌, ◌++◌, ◌≡◌, ◌≢◌, refl, arith, length, length-append,
  map, Build,
}
use simple_http.Base.Bytes.{Bytes, crlf}
use simple_http.Base.Search.{position, starts_with}
use simple_http.Base.Text.{Unicode, from_utf8_lossy}
use simple_http.Httparse.Lines.{
  Field, field_line, from_colon, StatusLine, status_line, IsStatusLine, status_code, append-cons-ne,
}
use simple_http.Httparse.Fields.{spaces}
use simple_http.Client.{head_end}
use simple_http.Client.Parsing.{
  field_lines, sent_head, AllFields, nil, cons, decoded, read_head-sent_head,
}
use simple_http.Client.Receiving.Served.{IsHead}

-- A line that is not empty is no blank line.
starts_with-line :
    (line rest : Bytes)
    → line ≢ []
    → position crlf line ≡ none
    → starts_with crlf (line ++ (crlf ++ rest)) ≡ false
unfolding position starts_with
starts_with-line [] rest ne h = absurd (ne refl)
starts_with-line (x ∷ []) rest ne h = ground arith
starts_with-line (x ∷ y ∷ line) rest ne h = ground arith

-- The blank line behind one line.
position-last :
    (line : Bytes)
    → position crlf line ≡ none
    → position head_end (line ++ (crlf ++ crlf)) ≡ some (length line)
unfolding position starts_with
position-last [] h = refl
position-last (x ∷ []) h = ground arith
position-last (x ∷ y ∷ line) h = ground (arith, position-last (y ∷ line))

-- A line with more behind it.
position-more :
    (line rest : Bytes) (j : ℕ)
    → position crlf line ≡ none
    → starts_with crlf rest ≡ false
    → position head_end rest ≡ some j
    → position head_end (line ++ (crlf ++ rest)) ≡ some (length line + (2 + j))
unfolding position starts_with
position-more [] rest j h b p = ground arith
position-more (x ∷ []) rest j h b p = ground (arith, position-more [] rest j)
position-more (x ∷ y ∷ line) rest j h b p = ground (arith, position-more (y ∷ line) rest j)

-- Of the lines of a head, the blank line is the last.
lines-blank :
    (line : Bytes) {fs : List Field}
    → position crlf line ≡ none
    → AllFields fs
    → (end : ℕ) × (position head_end (line ++ (crlf ++ field_lines fs)) ≡ some end)
      × (length (line ++ (crlf ++ field_lines fs)) ≡ end + 4)
lines-blank line h nil =
    (length line, position-last line h, omega (arith, length-append line (crlf ++ crlf)))
lines-blank line h (cons {f} {fs} w ws) =
    let (j, p, whole) = lines-blank (field_line f) w.no_crlf ws in
    let ne = append-cons-ne f.name b':' ((spaces f.padding ++ f.value) ++ from_colon f.more) in
    (
      length line + (2 + j),
      position-more line (field_lines (f ∷ fs)) j h
          (starts_with-line (field_line f) (field_lines fs) ne w.no_crlf) p,
      omega (arith, whole, length-append line (crlf ++ field_lines (f ∷ fs))),
    )

-- A response head as a server sends it is a head, with the status and the headers that were sent.
pub sent_head-IsHead :
    (u : Unicode) (build : Build) {s : StatusLine} {fs : List Field}
    → IsStatusLine s
    → AllFields fs
    → length (sent_head s fs) ≤ 4096
    → IsHead u build (sent_head s fs) (record {
      status = status_code s;
      reason = from_utf8_lossy u s.version;
      headers = map (decoded u) fs;
    })
sent_head-IsHead u build {s} {fs} ws wf fits =
    let (end, blank, whole) = lines-blank (status_line s) ws.no_crlf wf in
    record {
      end = end;
      blank = blank;
      whole = whole;
      parsed = read_head-sent_head u build ws wf;
      fits = fits;
    }
