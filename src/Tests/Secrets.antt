-- ===== src/Tests/Secrets.antt =====
-- References to secrets.
use confii_go.Base.{◌≡◌, refl, codes}
use confii_go.Secretref.{Reference, parsed, parse_reference, write_reference}
use confii_go.Secretref.RoundTrip.{parse_reference-write_reference}

abbrev vault_password : Reference
vault_password = record {
  provider = codes "vault";
  key = codes "db/main";
  field_name = codes "password";
  version = codes "2";
}

parse_reference-write_reference_example :
    parse_reference (write_reference vault_password) ≡ parsed vault_password
unfolding confii_go.Secretref.validate confii_go.Secretref.is_alias
parse_reference-write_reference_example = parse_reference-write_reference vault_password refl
