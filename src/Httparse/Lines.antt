-- ===== src/Httparse/Lines.antt =====
-- The iterator of src/httparse.rs, line by line.
use simple_http.Base.{
  ℕ, suc, ◌+◌, append-nil, Option, Bool, true, false, none, some, List, [], ◌∷◌, ◌++◌, ◌≡◌, ◌≢◌,
  inr, refl, ◌∙◌, arith, length, length-append, drop, slice_from, slice_to-append, ok, ◌>>=◌, Build,
}
use simple_http.Base.Bytes.{Bytes, codes, crlf}
use simple_http.Base.Search.{position, split, starts_with}
use simple_http.Httparse.{
  HeaderIter, first_piece, status, header, parse_line, parse_header, next, code_value,
  is_status_code,
}
use simple_http.Base.Search.{contains}
use simple_http.Httparse.Fields.{
  IsTrimmed, spaces, contains-spaces, parse_header-line, parse_header-colon,
}
use simple_http.Httparse.Status.{parse_status-line}

-- The first CRLF behind a text that holds none stands at the end of the text.
pub position-line :
    (line rest : Bytes)
    → position crlf line ≡ none
    → position crlf (line ++ (crlf ++ rest)) ≡ some (length line)
unfolding position starts_with
position-line [] rest h = refl
position-line (x ∷ []) rest h = ground arith
position-line (x ∷ y ∷ line) rest h = ground (arith, position-line (y ∷ line) rest)

abbrev pub at : Bytes → Bool → HeaderIter
at input parsed = record { input = input; status_parsed = parsed }

drop-line : (line rest : Bytes) → drop (suc (suc (length line))) (line ++ (crlf ++ rest)) ≡ rest
drop-line [] rest = refl
drop-line (x ∷ line) rest = drop-line line rest

slice_rest {ℓ} :
    {E : Type ℓ} (line rest : Bytes)
    → slice_from {E = E} (line ++ (crlf ++ rest)) (length line + 2) ≡ ok rest
slice_rest line rest = ground (arith, drop-line line rest, length-append line (crlf ++ rest))

-- One call takes one line off the input.
pub next-line {ℓ} :
    {E : Type ℓ} (build : Build) (parsed : Bool) (line rest : Bytes)
    → position crlf line ≡ none
    → next {E = E} build (at (line ++ (crlf ++ rest)) parsed)
      ≡ (parse_line build parsed line >>= λ item. ok (item, at rest true))
unfolding next
next-line {E} build parsed line rest h =
    rw (position-line line rest h)
      (rw (slice_to-append {E = E} line (crlf ++ rest)) (rw (slice_rest line rest)))

parse_line-cons {ℓ} :
    {E : Type ℓ} (build : Build) (line : Bytes) {name value : Bytes}
    → line ≢ []
    → parse_header build line ≡ ok (name, value)
    → parse_line {E = E} build true line ≡ ok (some (inr (header name value)))
unfolding parse_line
parse_line-cons build [] ne h = absurd (ne refl)
parse_line-cons build (c ∷ cs) ne h = rw h

-- A header as it is sent: the spaces behind the colon are counted, and its text is a value with no
-- colon and, if the text has a colon, what stands behind the first.
pub record Field : Type 0 where
  pub name : Bytes
  pub padding : ℕ
  pub value : Bytes
  pub more : Option Bytes

abbrev pub from_colon : Option Bytes → Bytes
from_colon none = []
from_colon (some more) = b':' ∷ more

abbrev pub field_line : Field → Bytes
field_line f = f.name ++ b':' ∷ ((spaces f.padding ++ f.value) ++ from_colon f.more)

-- Name and value are trimmed, not empty and hold no colon, and the line holds no CRLF.
pub record IsField (f : Field) : Type 0 where
  pub name_trimmed : IsTrimmed f.name
  pub value_trimmed : IsTrimmed f.value
  pub name_colon : contains b':' f.name ≡ false
  pub value_colon : contains b':' f.value ≡ false
  pub no_crlf : position crlf (field_line f) ≡ none

parse_header-more :
    (build : Build) (n : ℕ) {name value : Bytes} (more : Option Bytes)
    → IsTrimmed name
    → IsTrimmed value
    → contains b':' name ≡ false
    → contains b':' value ≡ false
    → parse_header build (name ++ b':' ∷ ((spaces n ++ value) ++ from_colon more))
      ≡ ok (name, value)
parse_header-more build n none tn tv cn cv = rw append-nil (parse_header-line build n tn tv cn cv)
parse_header-more build n {name} {value} (some more) tn tv cn cv =
    parse_header-colon build name (spaces n ++ value) more cn (contains-spaces n value ∙ cv)
    ∙ parse_header-line build n tn tv cn cv

pub append-cons-ne {ℓ} : {A : Type ℓ} (xs : List A) (y : A) (ys : List A) → xs ++ y ∷ ys ≢ []
append-cons-ne [] y ys h = cc
append-cons-ne (x ∷ xs) y ys h = cc

pub next-field {ℓ} :
    {E : Type ℓ} (build : Build) (rest : Bytes) {f : Field}
    → IsField f
    → next {E = E} build (at (field_line f ++ (crlf ++ rest)) true)
      ≡ ok (some (inr (header f.name f.value)), at rest true)
next-field {E} build rest {f} w =
    next-line build true (field_line f) rest w.no_crlf
    ∙ (rw (
        parse_line-cons {E = E} build (field_line f) (append-cons-ne f.name b':' _) (
          parse_header-more build f.padding f.more w.name_trimmed w.value_trimmed w.name_colon
            w.value_colon)))

pub next-blank {ℓ} :
    {E : Type ℓ} (build : Build) (rest : Bytes)
    → next {E = E} build (at (crlf ++ rest) true) ≡ ok (none, at rest true)
next-blank build rest =
    next-line build true [] rest (unfold position in refl) ∙ (unfold parse_line in refl)

-- A status line as it is sent; `tail` is all behind the code and its space, and `reason` its
-- first word.
pub record StatusLine : Type 0 where
  pub version : Bytes
  pub reason : Bytes
  pub hundreds : ℕ
  pub tens : ℕ
  pub units : ℕ
  pub tail : Bytes

abbrev pub status_line : StatusLine → Bytes
status_line s = codes "HTTP/" ++ s.version ++ b' ' ∷ s.hundreds ∷ s.tens ∷ s.units ∷ b' ' ∷ s.tail

-- The three bytes are digits of a status from 100 to 599.
pub record IsStatusLine (s : StatusLine) : Type 0 where
  pub version_word : contains b' ' s.version ≡ false
  pub reason_word : first_piece (split b' ' s.tail) ≡ some s.reason
  pub digits : is_status_code s.hundreds s.tens s.units ≡ true
  pub no_crlf : position crlf (status_line s) ≡ none

abbrev pub status_code : StatusLine → ℕ
status_code s = code_value s.hundreds s.tens s.units

pub next-status {ℓ} :
    {E : Type ℓ} (build : Build) (rest : Bytes) {s : StatusLine}
    → IsStatusLine s
    → next {E = E} build (at (status_line s ++ (crlf ++ rest)) false)
      ≡ ok (some (inr (status (status_code s) s.version s.reason)), at rest true)
next-status {E} build rest {s} w =
    next-line build false (status_line s) rest w.no_crlf
    ∙ (unfold parse_line in
        rw (
          parse_status-line s.version s.tail s.reason s.hundreds s.tens s.units w.version_word
            w.reason_word w.digits))
