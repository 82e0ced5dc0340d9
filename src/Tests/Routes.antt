-- ===== src/Tests/Routes.antt =====
-- Runs of the model of src/proxy/mod.rs, and an instance of its theorem.
use simple_http.Base.{ℕ, Option, none, some, List, [], ◌∷◌, ◌≡◌, refl, ok}
use simple_http.Base.Bytes.{Bytes, codes}
use simple_http.Base.Search.{split}
use simple_http.Base.Text.{parse_usize, show_nat}
use simple_http.Tests.World
use simple_http.Tests.World.{TestUri}
use simple_http.Connect.{
  Destination, scheme, host, port, set_scheme, set_host, set_port_opt, update_uri,
}
use simple_http.Proxy.Routing.{
  Intercept, http, https, matches, Proxy, match_proxy, destination_dst, proxy_dst, http_headers,
}
use simple_http.Proxy.Routing.Choice.{Chosen, match_proxy-Chosen}

abbrev uri_of : Bytes → Bytes → Option ℕ → TestUri
uri_of s name p = record { scheme = some s; authority = some (name, p); path = some (codes "/") }

abbrev proxy_of : Intercept → ℕ → Proxy World.http ℕ
proxy_of filter n = record {
  intercept = filter;
  headers = n;
  uri = uri_of (codes "http") (codes "p") (some 3128);
}

abbrev two_proxies : List (Proxy World.http ℕ)
two_proxies = proxy_of https 1 ∷ proxy_of http 2 ∷ []

abbrev target : Destination World.http
target = record { uri = uri_of (codes "http") (codes "h") none }

run-match :
    match_proxy World.http ℕ two_proxies (destination_dst World.http ℕ target)
    ≡ some (proxy_of http 2)
unfolding match_proxy matches destination_dst scheme host port
run-match = refl

run-http_headers :
    http_headers World.http ℕ two_proxies (uri_of (codes "https") (codes "h") none) ≡ none
unfolding http_headers
run-http_headers = refl

run-proxy_dst :
    proxy_dst World.http ℕ [] target (uri_of (codes "http") (codes "p") (some 3128))
    ≡ ok (record { uri = uri_of (codes "http") (codes "p") (some 3128) })
unfolding proxy_dst set_scheme set_host set_port_opt update_uri host port show_nat split parse_usize
run-proxy_dst = refl

match_proxy-Chosen_example :
    Chosen World.http ℕ
      (destination_dst World.http ℕ target)
      two_proxies
      (match_proxy World.http ℕ two_proxies (destination_dst World.http ℕ target))
match_proxy-Chosen_example =
    match_proxy-Chosen World.http ℕ two_proxies (destination_dst World.http ℕ target)
