-- ===== src/Handlers/Scopes.antt =====
-- internal/authorization/const.go: the scopes that the modelled handlers ask for.
use dashboard_site.Common.{String}

abbrev pub firewall_read_own : String
firewall_read_own = "firewall:read:own"

abbrev pub firewall_request_own : String
firewall_request_own = "firewall:request:own"

abbrev pub firewall_revoke_own : String
firewall_revoke_own = "firewall:revoke:own"

abbrev pub firewall_read_all : String
firewall_read_all = "firewall:read:all"

abbrev pub firewall_revoke_all : String
firewall_revoke_all = "firewall:revoke:all"

abbrev pub firewall_blacklist : String
firewall_blacklist = "firewall:blacklist"

abbrev pub mtls_request_cert : String
mtls_request_cert = "mtls:request"

abbrev pub mtls_approve_cert : String
mtls_approve_cert = "mtls:approve"

abbrev pub mtls_read_all_certs : String
mtls_read_all_certs = "mtls:read_all"

abbrev pub mtls_auto_approve_cert : String
mtls_auto_approve_cert = "mtls:auto_approve"

abbrev pub mtls_self_approve_certs : String
mtls_self_approve_certs = "mtls:self_approve_certs"
