-- ===== src/Client/Rendering.antt =====
-- The request head that `build_req` of src/lib.rs makes, read back line by line.
use simple_http.Base.{
  ℕ, zero, suc, ◌+◌, ◌<◌, Bool, false, Option, none, some, List, [], ◌∷◌, ◌++◌, ◌≡◌, inl, inr, refl,
  ap, ◌∙◌, map, arith, if◌then◌else◌, length, take, drop, append_assoc, Bool-cases, ok, panic,
  take-append_length,
}
use simple_http.Base.Bytes.{Bytes, codes, crlf, bytes_eq}
use simple_http.Base.Search.{position, starts_with}
use simple_http.Base.Text.{Unicode, to_lowercase}
use simple_http.Uri.{HttpTypes}
use simple_http.Io.{IoError}
use simple_http.Request.{Headers}
use simple_http.Client.{header_line, push_headers, path_or_root, build_req}
use simple_http.Httparse.Lines.{position-line}
use mathlib.Core.Option

abbrev pub is_host : Unicode → Bytes × Bytes → Bool
is_host u (name, value) = bytes_eq (to_lowercase u name) (codes "host")

-- The headers that are sent: all but those named `host`, in any case.
abbrev pub kept : Unicode → Headers → Headers
kept u [] = []
kept u (nv ∷ hs) = let later = kept u hs in if is_host u nv then later else nv ∷ later

abbrev pub lines : List Bytes → Bytes
lines [] = crlf
lines (l ∷ ls) = l ++ (crlf ++ lines ls)

-- `name: value`
abbrev pub header_text : Bytes × Bytes → Bytes
header_text (name, value) = name ++ (codes ": " ++ value)

push_headers-lines :
    (u : Unicode) (out : Bytes) (hs : Headers)
    → push_headers u out hs ++ crlf ≡ out ++ lines (map header_text (kept u hs))
unfolding push_headers
push_headers-lines u out [] = refl
push_headers-lines u out ((name, value) ∷ hs) = elim (Bool-cases (is_host u (name, value))) [
  | inl host ↦ rw host (push_headers-lines u out hs)
  | inr sent ↦
      rw sent (push_headers-lines u (out ++ header_line (name, value)) hs ∙ simp append_assoc)
]

abbrev line_at :
    (Bytes → Option (List Bytes × Bytes)) → Bytes → Option ℕ → Option (List Bytes × Bytes)
line_at later input none = none
line_at later input (some zero) = some ([], drop 2 input)
line_at later input (some (suc i)) =
    Option.map (λ p. (take (suc i) input ∷ p.0, p.1)) (later (drop (suc i + 2) input))

-- A reader of lines: the lines up to the first blank one, and what follows it.
pub read_lines : ℕ → Bytes → Option (List Bytes × Bytes)
read_lines zero input = none
read_lines (suc fuel) input = line_at (read_lines fuel) input (position crlf input)

-- A line of at least one byte, with no CRLF in it.
pub record IsLine (l : Bytes) : Type 0 where
  pub first : ℕ
  pub others : Bytes
  pub splits : l ≡ first ∷ others
  pub no_crlf : position crlf l ≡ none

pub data AllLines : List Bytes → Type 0 where
  nil : AllLines []
  cons : {l : Bytes} {ls : List Bytes} → IsLine l → AllLines ls → AllLines (l ∷ ls)

drop-line : (l rest : Bytes) → drop (length l + 2) (l ++ (crlf ++ rest)) ≡ rest
drop-line [] rest = refl
drop-line (x ∷ l) rest =
    let e : suc (length l) + 2 ≡ suc (length l + 2) = omega arith in rw e (drop-line l rest)

line_at-line :
    (later : Bytes → Option (List Bytes × Bytes)) (l rest : Bytes) {ls : List Bytes} {end : Bytes}
    → IsLine l
    → later rest ≡ some (ls, end)
    → line_at later (l ++ (crlf ++ rest)) (position crlf (l ++ (crlf ++ rest))) ≡ some (l ∷ ls, end)
line_at-line later [] rest w e = absurd (ground (arith, w.splits))
line_at-line later (x ∷ l) rest w e =
    rw (position-line (x ∷ l) rest w.no_crlf)
      (rw (drop-line (x ∷ l) rest, e) (rw take-append_length))

read_lines-lines :
    (fuel : ℕ) {ls : List Bytes}
    → AllLines ls
    → length ls < fuel
    → read_lines fuel (lines ls) ≡ some (ls, [])
unfolding read_lines
read_lines-lines zero w h = absurd (omega arith)
read_lines-lines (suc fuel) nil h = unfold position starts_with in refl
read_lines-lines (suc fuel) (cons {l} {ls} x w) h =
    line_at-line (read_lines fuel) l (lines ls) x (read_lines-lines fuel w (omega arith))

module _ (h : HttpTypes) (u : Unicode) (method : h.Method) (url : h.Uri) where
  abbrev pub request_line : Bytes
  request_line =
      h.method_name method
      ++ (codes " " ++ (path_or_root (h.path_and_query url) ++ codes " HTTP/1.0"))

  abbrev pub request_lines : Bytes → Headers → List Bytes
  request_lines host hs =
      request_line
      ∷ (codes "Host: " ++ host)
      ∷ codes "Connection: close"
      ∷ map header_text (kept u hs)

  build_req-lines :
      (host : Bytes) (hs : Headers)
      → h.host url ≡ some host
      → build_req h {E = IoError} u method url hs ≡ ok (lines (request_lines host hs))
  unfolding build_req
  build_req-lines host hs e = rw e (ap ok (push_headers-lines u _ hs ∙ simp append_assoc))

  -- The head that `build_req` makes reads back, line by line, as the request line, the `Host` and
  -- the `Connection` line, and the headers in order but for those named `host`; then it ends.
  pub build_req-read_lines :
      (host : Bytes) (hs : Headers) {out : Bytes}
      → h.host url ≡ some host
      → AllLines (request_lines host hs)
      → build_req h {E = IoError} u method url hs ≡ ok out
      → read_lines (suc (length (request_lines host hs))) out ≡ some (request_lines host hs, [])
  build_req-read_lines host hs {out} e w b =
      let same : out ≡ lines (request_lines host hs) = cc (build_req-lines host hs e) in
      rw same (read_lines-lines (suc (length (request_lines host hs))) w (omega arith))

  -- A URL with no host panics.
  pub build_req_no_host :
      (hs : Headers) → h.host url ≡ none → build_req h {E = IoError} u method url hs ≡ panic
  unfolding build_req
  build_req_no_host hs e = rw e

  -- A header value is not checked: a value with a CRLF in it puts a further header on the wire,
  -- of any name, also of the name `host`, which is left out where it is given as a header.
  pub build_req_injection :
      (host n₁ v₁ n₂ v₂ : Bytes) (hs : Headers)
      → h.host url ≡ some host
      → is_host u (n₁, v₁) ≡ false
      → build_req h {E = IoError} u method url ((n₁, v₁ ++ (crlf ++ header_text (n₂, v₂))) ∷ hs)
        ≡ ok (
            lines (
              request_line
              ∷ (codes "Host: " ++ host)
              ∷ codes "Connection: close"
              ∷ header_text (n₁, v₁)
              ∷ header_text (n₂, v₂)
              ∷ map header_text (kept u hs)))
  build_req_injection host n₁ v₁ n₂ v₂ hs e p =
      build_req-lines host ((n₁, v₁ ++ (crlf ++ header_text (n₂, v₂))) ∷ hs) e
      ∙ (rw p (simp append_assoc))
