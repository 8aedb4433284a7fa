-- ===== src/Policy/Errors.antt =====
-- The errors of internal/policy: one constructor for each message, and one for each context that
-- `%w` puts around an error.
use airjail.Base.Bytes.{Bytes}

pub data HostnameError : Type 0 where
  not_utf8 hostname_empty idna_failed hostname_too_long : HostnameError
  empty_label label_too_long label_hyphen label_character : HostnameError

pub data ZoneError : Type 0 where
  zone_too_long zone_dots zone_character : ZoneError

pub data DestinationError : Type 0 where
  mapped_with_zone : DestinationError
  bad_zone : ZoneError → DestinationError
  bad_hostname : HostnameError → DestinationError

pub data RuleError : Type 0 where
  rule_empty missing_bracket bracket_empty bracket_needs_port : RuleError
  target_empty unbracketed_target port_empty port_range : RuleError
  address_with_zone brackets_need_ip bad_wildcard : RuleError
  rule_hostname : HostnameError → RuleError
  -- the raw rule that the error is about
  parse_rule : Bytes → RuleError → RuleError

pub data AllowsError : Type 0 where
  port_zero no_destination destination_zone : AllowsError
  destination_hostname : HostnameError → AllowsError

pub data ExpandError : Type 0 where
  -- the hostname whose lookup failed, or gave no address
  unresolved no_addresses : Bytes → ExpandError

pub data PolicyError : Type 0 where
  parse_allow parse_block : RuleError → PolicyError
  expand_allow expand_block : ExpandError → PolicyError
