-- ===== src/Tests/Network.antt =====
-- A concrete `Net`: texts without a slash are addresses, and they are read back as they are.
use dashboard_site.Common.{String, ◌≡◌, Option, none, some, arith, ◌==◌, eq_iff, if◌then◌else◌}
use dashboard_site.Models.Address.{Net, strip_cidr}

unfoldable pub whole : String → Option String
whole s = if strip_cidr s == s then some s else none

pub whole_idempotent : (s ip : String) → whole s ≡ some ip → whole ip ≡ some ip
unfolding whole
whole_idempotent s ip h = ground (arith, eq_iff (strip_cidr s) s, eq_iff (strip_cidr ip) ip)

pub whole_strip : (s ip : String) → whole s ≡ some ip → strip_cidr ip ≡ ip
unfolding whole
whole_strip s ip h = ground (arith, eq_iff (strip_cidr s) s, eq_iff (strip_cidr ip) ip)

abbrev pub plain : Net
plain = record {
  parse_ip = whole;
  inet_in = whole;
  inet_text = λ ip. ip;
  parsed_inet = whole_idempotent;
  inet_round_trip = whole_idempotent;
  text_strip = whole_strip;
}
