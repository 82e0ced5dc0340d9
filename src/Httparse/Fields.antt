-- ===== src/Httparse/Fields.antt =====
-- `parse_header` and `parse_status` of src/httparse.rs on lines that are written out.
use simple_http.Base.{
  ℕ, zero, suc, false, [], ◌∷◌, ◌++◌, ◌≡◌, ◌≢◌, refl, ◌∙◌, append_assoc, ok, err, panic, Build,
}
use simple_http.Base.Bytes.{Bytes}
use simple_http.Base.Search.{contains, split-no_sep, split-append}
use simple_http.Httparse.{ParseError, wrong_header, ltrim, rtrim, parse_header}
use simple_http.Httparse.Trim.{rtrim_no_space, rtrim-trim_back}

-- A text with neither a space in front nor one behind, and not empty.
pub record IsTrimmed (v : Bytes) : Type 0 where
  pub front : Bytes
  pub last : ℕ
  pub splits : v ≡ front ++ last ∷ []
  pub last_ne : last ≢ b' '
  pub kept : ltrim v ≡ v

pub rtrim-IsTrimmed {ℓ} :
    {E : Type ℓ} (build : Build) {v : Bytes} → IsTrimmed v → rtrim {E = E} build v ≡ ok v
rtrim-IsTrimmed build t = rw t.splits (rtrim_no_space build t.front t.last t.last_ne)

-- `n` spaces
abbrev pub spaces : ℕ → Bytes
spaces zero = []
spaces (suc n) = b' ' ∷ spaces n

ltrim-spaces : (n : ℕ) (v : Bytes) → ltrim (spaces n ++ v) ≡ ltrim v
unfolding ltrim
ltrim-spaces zero v = refl
ltrim-spaces (suc n) v = ltrim-spaces n v

pub contains-spaces : (n : ℕ) (v : Bytes) → contains b':' (spaces n ++ v) ≡ contains b':' v
contains-spaces zero v = refl
contains-spaces (suc n) v = contains-spaces n v

rtrim-spaces {ℓ} :
    {E : Type ℓ} (build : Build) (n : ℕ) {v : Bytes}
    → IsTrimmed v
    → rtrim {E = E} build (spaces n ++ v) ≡ ok (spaces n ++ v)
rtrim-spaces {E} build n t =
    rw (t.splits, ← append_assoc)
      (rtrim_no_space {E = E} build (spaces n ++ t.front) t.last t.last_ne)

-- A header line with trimmed texts on both sides of its only colon, and any number of spaces
-- after the colon, is read as the name and the value.
pub parse_header-line :
    (build : Build) (n : ℕ) {name value : Bytes}
    → IsTrimmed name
    → IsTrimmed value
    → contains b':' name ≡ false
    → contains b':' value ≡ false
    → parse_header build (name ++ b':' ∷ (spaces n ++ value)) ≡ ok (name, value)
unfolding parse_header
parse_header-line build n {name} {value} tn tv cn cv =
    rw (split-append b':' name (spaces n ++ value) cn) (
      rw (split-no_sep b':' (spaces n ++ value) (contains-spaces n value ∙ cv)) (
        rw (rtrim-IsTrimmed build tn)
          (rw (rtrim-spaces {E = ParseError} build n tv) (rw (ltrim-spaces, tn.kept, tv.kept)))))

-- All that stands after a second colon is lost: the value ends at it.
pub parse_header-colon :
    (build : Build) (name value more : Bytes)
    → contains b':' name ≡ false
    → contains b':' value ≡ false
    → parse_header build (name ++ b':' ∷ (value ++ b':' ∷ more))
      ≡ parse_header build (name ++ b':' ∷ value)
unfolding parse_header
parse_header-colon build name value more cn cv =
    rw (split-append b':' name (value ++ b':' ∷ more) cn) (
      rw (split-append b':' value more cv)
        (rw (split-append b':' name value cn) (rw (split-no_sep b':' value cv))))

-- A line with no colon is refused, with its trimmed text in the error.
parse_header_no_colon :
    (build : Build) {line : Bytes}
    → IsTrimmed line
    → contains b':' line ≡ false
    → parse_header build line ≡ err (wrong_header line)
unfolding parse_header
parse_header_no_colon build {line} t c =
    rw (split-no_sep b':' line c) (rw (rtrim-IsTrimmed build t) (rw t.kept))

-- A value of one space panics in every build.
parse_header_blank_value :
    (build : Build) {name : Bytes}
    → IsTrimmed name
    → contains b':' name ≡ false
    → parse_header build (name ++ b':' ∷ b' ' ∷ []) ≡ panic
unfolding parse_header
parse_header_blank_value build {name} t c =
    rw (split-append b':' name (b' ' ∷ []) c)
      (rw (rtrim-IsTrimmed build t) (rw (split-no_sep b':' (b' ' ∷ []) refl) (rw rtrim-trim_back)))
