-- ===== src/Tests/Targets.antt =====
-- The laws of the URIs hold of the test URIs, and an instance of the theorem on proxy destinations.
use simple_http.Base.{
  ap, ltb, if◌then◌else◌, ℕ, ◌<◌, false, Option, none, some, List, [], ◌∷◌, ◌++◌, ◌≡◌, refl, arith,
  ◌==◌, inl, inr, Bool-cases, ok,
}
use simple_http.Base.Bytes.{Bytes, codes}
use simple_http.Base.Search.{split, onto_first, contains, split-no_sep}
use simple_http.Base.Text.{show_nat, parse_usize}
use simple_http.Base.Text.RoundTrip.{parse_usize-show_nat, contains-show_nat}
use simple_http.Tests.World
use simple_http.Tests.World.{
  TestUri, parse_pieces, parse_test_port, check_parts, parse_test_scheme, port_of, host_of,
}
use simple_http.Base.Search.{contains}
use simple_http.Uri.{HttpTypes}
use simple_http.Connect.{
  or_empty, Destination, host, port, set_scheme, set_host, set_port_opt, update_uri,
}
use simple_http.Proxy.Routing.{proxy_dst}
use simple_http.Proxy.Routing.Target.{PartsLaw, proxy_dst-port}

onto_first-append :
    (c : ℕ) (ps : List Bytes) (t : Bytes) {q : Bytes} {qs : List Bytes}
    → ps ≡ q ∷ qs
    → onto_first c (ps ++ t ∷ []) ≡ onto_first c ps ++ t ∷ []
onto_first-append c ps t e = rw e refl

split-cons : (s : Bytes) → (q : Bytes) × (qs : List Bytes) × (split b':' s ≡ q ∷ qs)
unfolding split
split-cons [] = ([], [], refl)
split-cons (c ∷ s) =
    let (q, qs, e) = split-cons s in
    elim (Bool-cases (c == b':')) [
      | inl colon ↦ rw colon ([], split b':' s, refl)
      | inr byte ↦ rw byte (rw e (c ∷ q, qs, refl))
    ]

-- A last piece with no colon is the last piece of the whole.
split-append_last :
    (s t : Bytes) → contains b':' t ≡ false → split b':' (s ++ b':' ∷ t) ≡ split b':' s ++ t ∷ []
unfolding split
split-append_last [] t h = rw (split-no_sep b':' t h) refl
split-append_last (c ∷ s) t h =
    let (q, qs, e) = split-cons s in
    elim (Bool-cases (c == b':')) [
      | inl colon ↦ rw colon (rw (split-append_last s t h) refl)
      | inr byte ↦ rw byte (rw (split-append_last s t h) (onto_first-append c (split b':' s) t e))
    ]

printed_port :
    (p : ℕ) (name : Bytes) (a : Bytes × Option ℕ)
    → p < 65536
    → parse_test_port name (parse_usize (show_nat p)) ≡ some a
    → a.1 ≡ some p
printed_port p name a h e = ground (arith, rw (parse_usize-show_nat p (omega arith)) at e)

printed_pieces :
    (p : ℕ) (q : Bytes) (qs : List Bytes) (a : Bytes × Option ℕ)
    → p < 65536
    → parse_pieces (q ∷ qs ++ show_nat p ∷ []) ≡ some a
    → a.1 ≡ some p
printed_pieces p [] qs a h e = absurd cc
printed_pieces p (c ∷ cs) [] a h e = printed_port p (c ∷ cs) a h e
printed_pieces p (c ∷ cs) (x ∷ []) a h e = absurd cc
printed_pieces p (c ∷ cs) (x ∷ y ∷ qs) a h e = absurd cc

printed-parse :
    (s : Bytes) (p : ℕ) (a : Bytes × Option ℕ)
    → p < 65536
    → parse_pieces (split b':' (s ++ b':' ∷ show_nat p)) ≡ some a
    → a.1 ≡ some p
printed-parse s p a h e =
    let (q, qs, d) = split-cons s in
    printed_pieces p q qs a h
      (rw d at rw (split-append_last s (show_nat p) (contains-show_nat p)) at e)

scheme_put :
    (u u' : TestUri) (text s : Bytes)
    → parse_test_scheme text ≡ some s
    → check_parts (record u { scheme = some s }) u.authority ≡ some u'
    → u'.scheme ≡ some text
scheme_put u u' [] s p e = absurd cc
scheme_put u u' (c ∷ text) s p e = ground arith

-- The test URIs, where a port is of 16 bits and a host has no colon.
abbrev small_port : Option ℕ → Option ℕ
small_port none = none
small_port (some p) = if ltb p 65536 then some p else none

abbrev plain_host : Option Bytes → Option Bytes
plain_host none = none
plain_host (some name) = if contains b':' name then none else some name

abbrev strict : HttpTypes
strict = record World.http {
  host = λ u. plain_host (host_of u.authority);
  port_u16 = λ u. small_port (port_of u.authority);
  authority_port = λ a. small_port a.1;
}

small_port-small : (o : Option ℕ) (p : ℕ) → small_port o ≡ some p → p < 65536
small_port-small none p e = absurd cc
small_port-small (some q) p e = ground arith

-- A text with no colon is one piece.
one_piece :
    (s : Bytes) (a : Bytes × Option ℕ)
    → contains b':' s ≡ false
    → parse_pieces (split b':' s) ≡ some a
    → a.1 ≡ none
one_piece [] a c e = absurd (ground (arith, rw (split-no_sep b':' [] c) at e))
one_piece (x ∷ s) a c e = ground (arith, rw (split-no_sep b':' (x ∷ s) c) at e)

host_piece :
    (o : Option Bytes) (a : Bytes × Option ℕ)
    → parse_pieces (split b':' (or_empty (plain_host o))) ≡ some a
    → small_port a.1 ≡ none
host_piece none a e = ap small_port (one_piece [] a refl e)
host_piece (some name) a e = elim (Bool-cases (contains b':' name)) [
  | inl colon ↦ ap small_port (one_piece [] a refl (rw colon at e))
  | inr free ↦ ap small_port (one_piece name a free (rw free at e))
]

bare_host :
    (d : Destination strict) (a : Bytes × Option ℕ)
    → parse_pieces (split b':' (host strict d)) ≡ some a
    → small_port a.1 ≡ none
unfolding host
bare_host d a e = host_piece (host_of d.uri.authority) a e

small_printed : (p : ℕ) (o : Option ℕ) → p < 65536 → o ≡ some p → small_port o ≡ some p
small_printed p o h e = ground arith

parts_law : PartsLaw strict
parts_law = record {
  small = λ u p e. small_port-small (port_of u.authority) p e;
  bare = bare_host;
  printed = λ s p a h e. small_printed p a.1 h (printed-parse s p a h e);
  put_authority = λ u u' a e. (ground arith, ground arith);
  put_scheme = λ v u u' text s f p e. scheme_put u u' text s p e;
}

abbrev place : Bytes → Bytes → Option ℕ → Destination strict
place s name p = record {
  uri = record { scheme = some s; authority = some (name, p); path = some (codes "/") };
}

abbrev proxy_uri : Option ℕ → TestUri
proxy_uri p = record {
  scheme = some (codes "http");
  authority = some (codes "p", p);
  path = some (codes "/");
}

run-proxy_dst_https :
    proxy_dst strict ℕ [] (place (codes "https") (codes "h") (some 99)) (proxy_uri (some 3128))
    ≡ ok (place (codes "http") (codes "p") (some 3128))
unfolding proxy_dst set_scheme set_host set_port_opt update_uri host port show_nat split parse_usize
run-proxy_dst_https = refl

run-proxy_dst_bare :
    proxy_dst strict ℕ [] (place (codes "https") (codes "h") (some 99)) (proxy_uri none)
    ≡ ok (place (codes "http") (codes "p") none)
unfolding proxy_dst set_scheme set_host set_port_opt update_uri host port show_nat split parse_usize
run-proxy_dst_bare = refl

proxy_dst-port_example :
    (port strict (place (codes "http") (codes "p") none) ≡ none)
    × (some (codes "http") ≡ some (codes "http"))
proxy_dst-port_example =
    proxy_dst-port strict parts_law ℕ [] (place (codes "https") (codes "h") (some 99))
      (place (codes "http") (codes "p") none) (proxy_uri none) run-proxy_dst_bare
