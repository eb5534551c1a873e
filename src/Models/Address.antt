-- ===== src/Models/Address.antt =====
-- IP addresses as texts. `net.ParseIP(s).String()` and PostgreSQL's INET type are not part of the
-- program: they are a `Net`, with what the program relies on as its laws.
use Prim.Native.Char.{code}
use dashboard_site.Common.{String, Bool, true, false, ◌≡◌, Option, none, some, eqb, if◌then◌else◌}

-- The text before the first slash (stripCIDR of jobs/firewall_sync_job.go, the loop of UpdateAlias,
-- `strings.Split(ip, "/")[0]` of GetSelectedIPs).
unfoldable pub strip_cidr : String → String
strip_cidr String.[] = ""
strip_cidr (String.◌∷◌ c s) = if eqb (code c) b'/' then "" else String.◌∷◌ c (strip_cidr s)

-- a nullable parameter of an INET column: NULL, an address, or a text that is none
pub data InetArg : Type 0 where
  inet_null : InetArg
  inet_value : String → InetArg
  inet_refused : InetArg

abbrev pub is_refused : InetArg → Bool
is_refused inet_refused = true
is_refused _ = false

-- what the column holds
abbrev pub column : InetArg → Option String
column (inet_value ip) = some ip
column _ = none

pub record Net : Type 0 where
  -- net.ParseIP(s).String(), none where ParseIP returns nil
  pub parse_ip : String → Option String
  -- the address that a text stands for as an INET value, none where the statement fails
  pub inet_in : String → Option String
  -- ip_address::text
  pub inet_text : String → String
  -- a parsed address is stored as it is
  pub parsed_inet : (s ip : String) → parse_ip s ≡ some ip → inet_in ip ≡ some ip
  -- the text of a stored address reads back as that address
  pub inet_round_trip : (s ip : String) → inet_in s ≡ some ip → inet_in (inet_text ip) ≡ some ip
  -- the text of a parsed address is the address, perhaps with a mask behind it
  pub text_strip : (s ip : String) → parse_ip s ≡ some ip → strip_cidr (inet_text ip) ≡ ip

module _ (net : Net) where
  abbrev read_inet : Option String → InetArg
  read_inet none = inet_refused
  read_inet (some ip) = inet_value ip

  -- how PostgreSQL takes a `*string` for an INET column
  abbrev pub inet_arg : Option String → InetArg
  inet_arg none = inet_null
  inet_arg (some s) = read_inet (net.inet_in s)
