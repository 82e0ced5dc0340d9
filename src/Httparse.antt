-- ===== src/Httparse.antt =====
-- src/httparse.rs: `ltrim`, `rtrim`, `parse_header`, `parse_status`, `parse_headers`.
-- Byte slices are values; a panic of an index or of a subtraction is an outcome.
pub mod Trim
pub mod Fields
pub mod Status
pub mod Lines
pub mod Progress
use simple_http.Base.{
  ℕ, zero, suc, ◌+◌, ◌-◌, ◌*◌, Bool, true, false, ◌&&◌, ◌||◌, not, Option, none, some, List, [],
  ◌∷◌, ◌⊎◌, inl, inr, ltb, ◌==◌, if◌then◌else◌, length, get_elem?, take, slice_to, slice_from,
  Outcome, ok, err, panic, out_of_fuel, ◌>>=◌, ok_or, unwrap, reify, Build, usize_sub,
}
use simple_http.Base.Bytes.{Bytes, codes, crlf, bytes_eq}
use simple_http.Base.Search.{position, split}

pub data Header : Type 0 where
  status : ℕ → Bytes → Bytes → Header
  header : Bytes → Bytes → Header

pub data ParseError : Type 0 where
  wrong_status_reason : ParseError
  wrong_status_header : Bytes → ParseError
  wrong_status_code : Bytes → ParseError
  wrong_header : Bytes → ParseError

-- Drops the spaces in front.
unfoldable pub ltrim : Bytes → Bytes
ltrim [] = []
ltrim (c ∷ cs) = let rest = ltrim cs in if c == b' ' then rest else c ∷ cs

abbrev is_space : Option ℕ → Bool
is_space none = false
is_space (some c) = c == b' '

-- `while let Some(&b' ') = val.get(val.len() - 1) { val = &val[..val.len() - 2] }`
pub rtrim_loop {ℓ} : {E : Type ℓ} → Build → ℕ → Bytes → Outcome E Bytes
rtrim_loop build zero val = out_of_fuel
rtrim_loop build (suc fuel) val = do
  last ← usize_sub build (length val) 1
  elim (is_space (get_elem? val last)) [
    | true ↦ do
      end ← usize_sub build (length val) 2
      shorter ← slice_to val end
      rtrim_loop build fuel shorter
    | false ↦ ok val
  ]

unfoldable pub rtrim {ℓ} : {E : Type ℓ} → Build → Bytes → Outcome E Bytes
unfolding rtrim_loop
rtrim build val = rtrim_loop build (suc (length val)) val

-- `iter.next()` on the pieces of a split
abbrev first_piece : List Bytes → Option Bytes
first_piece [] = none
first_piece (p ∷ ps) = some p

abbrev later_pieces : List Bytes → List Bytes
later_pieces [] = []
later_pieces (p ∷ ps) = ps

unfoldable pub parse_header : Build → Bytes → Outcome ParseError (Bytes × Bytes)
parse_header build input = do
  let pieces = split b':' input
  first ← unwrap (first_piece pieces)
  trimmed ← rtrim build first
  let name = ltrim trimmed
  value ← ok_or (wrong_header name) (first_piece (later_pieces pieces))
  trimmed_value ← rtrim build value
  ok (name, ltrim trimmed_value)

-- `*code.get_unchecked(i)`, after the test of the length; `0` is never read.
abbrev byte_at : Bytes → ℕ → ℕ
byte_at code i = elim (get_elem? code i) [ none ↦ 0 | some c ↦ c ]

-- The negation of the test of the digits. With `a = c - b'0'` on `i16`, `a < 1` is `c < b'0' + 1`.
abbrev is_status_code : ℕ → ℕ → ℕ → Bool
is_status_code a b c =
    not (ltb a (b'0' + 1) || ltb (b'0' + 5) a)
    && not (ltb b b'0' || ltb (b'0' + 9) b)
    && not (ltb c b'0' || ltb (b'0' + 9) c)

abbrev code_value : ℕ → ℕ → ℕ → ℕ
code_value a b c = (a - b'0') * 100 + (b - b'0') * 10 + (c - b'0')

unfoldable pub parse_status : Bytes → Outcome ParseError (ℕ × Bytes × Bytes)
parse_status input = do
  let pieces = split b' ' input
  x ← ok_or (wrong_status_header []) (first_piece pieces)
  magic ← slice_to x 4
  if not (bytes_eq magic (codes "HTTP"))
      then (do prefix ← slice_to input 4; err (wrong_status_header prefix))
      else (do
        http_version ← slice_from x 5
        code ← ok_or (wrong_status_code []) (first_piece (later_pieces pieces))
        if ltb (length code) 3 then err (wrong_status_code code) else (do
          let a = byte_at code 0
          let b = byte_at code 1
          let c = byte_at code 2
          if not (is_status_code a b c) then err (wrong_status_code code) else (do
            reason ← ok_or wrong_status_reason (first_piece (later_pieces (later_pieces pieces)))
            ok (code_value a b c, http_version, reason))))

-- What the closure of `parse_headers` captures.
pub record HeaderIter : Type 0 where
  pub input : Bytes
  pub status_parsed : Bool

abbrev pub Item : Type 0
Item = ParseError ⊎ Header

unfoldable pub parse_headers : Bytes → HeaderIter
parse_headers input = record { input = input; status_parsed = false }

abbrev to_status : ℕ × Bytes × Bytes → Header
to_status (code, version, reason) = status code version reason

abbrev to_header : Bytes × Bytes → Header
to_header (name, value) = header name value

-- The item for one line, `none` at the blank line.
unfoldable pub parse_line {ℓ} : {E : Type ℓ} → Build → Bool → Bytes → Outcome E (Option Item)
parse_line build false line = do
  item ← reify (parse_status line >>= λ s. ok (to_status s))
  ok (some item)
parse_line build true [] = ok none
parse_line build true (c ∷ cs) = do
  item ← reify (parse_header build (c ∷ cs) >>= λ h. ok (to_header h))
  ok (some item)

-- One call of the closure: the item, if any, and the captured variables after it; by the place
-- of the first CRLF.
unfoldable pub next_at {ℓ} :
    {E : Type ℓ} → Build → HeaderIter → Option ℕ → Outcome E (Option Item × HeaderIter)
next_at build it none = ok (none, it)
next_at build it (some idx) = do
  line ← slice_to it.input idx
  rest ← slice_from it.input (idx + 2)
  item ← parse_line build it.status_parsed line
  ok (item, record { input = rest; status_parsed = true })

unfoldable pub next {ℓ} : {E : Type ℓ} → Build → HeaderIter → Outcome E (Option Item × HeaderIter)
unfolding next_at
next build it = next_at build it (position crlf it.input)
