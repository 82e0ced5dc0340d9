-- ===== src/Tests/Destinations.antt =====
-- Runs of the model of src/connect.rs, and instances of its theorems.
use simple_http.Base.{ℕ, Option, none, some, ◌≡◌, refl, ok}
use simple_http.Base.Bytes.{Bytes, codes}
use simple_http.Base.Search.{split}
use simple_http.Base.Text.{parse_usize, show_nat}
use simple_http.Io.{IoError}
use simple_http.Tests.World.{http}
use simple_http.Connect.{
  Destination, set, parse_error, set_scheme, set_host, set_port_opt, port, host, update_uri,
}
use simple_http.Connect.Atomic.{Atomic, NamesScheme, NamesHost, set_host-Atomic}

abbrev place : Bytes → Option ℕ → Destination http
place name p = record {
  uri = record {
    scheme = some (codes "http");
    authority = some (name, p);
    path = some (codes "/index");
  };
}

run-set_host :
    set_host http (codes "a.proxy") (place (codes "h") (some 81))
    ≡ (set, place (codes "a.proxy") (some 81))
unfolding set_host update_uri port show_nat split parse_usize
run-set_host = refl

run-set_host_port :
    set_host http (codes "h:1") (place (codes "h") none) ≡ (parse_error, place (codes "h") none)
unfolding set_host update_uri port show_nat split parse_usize
run-set_host_port = refl

run-set_port :
    set_port_opt http {E = IoError} (some 4321) (place (codes "h") none)
    ≡ ok (place (codes "h") (some 4321))
unfolding set_port_opt update_uri host show_nat split parse_usize
run-set_port = refl

set_host-Atomic_example :
    Atomic http
      (place (codes "h") none)
      (NamesScheme http (codes "ws"))
      (set_scheme http (codes "ws") (place (codes "h") none))
    × Atomic http
        (place (codes "h") none)
        (NamesHost http (codes "ws") (port http (place (codes "h") none)))
        (set_host http (codes "ws") (place (codes "h") none))
set_host-Atomic_example = set_host-Atomic http (codes "ws") (place (codes "h") none)
