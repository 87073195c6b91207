-- ===== src/Tests/Panel.antt =====
-- A rule set and an account of the panel.
use smart_dns_proxy.Prelude.{
  ℕ, ◌≤◌, ◌≡◌, refl, ◌⊎◌, true, false, none, some, [], ◌∷◌, arith, nat_eq, length, All, Bytes,
  codes, bytes_beq, bytes_eq, ok, err,
}
use smart_dns_proxy.Tests.{plain}
use smart_dns_proxy.Domainset.{exact}
use smart_dns_proxy.Domainset.Parse.Laws.{IsRule}
use smart_dns_proxy.Pipeline.{
  active, RuleSource, RuleSetVersion, RuleSet, Thresholds, World, Database,
}
use smart_dns_proxy.Pipeline.Build.{BuildResult, effective_of, build}
use smart_dns_proxy.Pipeline.Approve.{approve_rule_set}
use smart_dns_proxy.Pipeline.Kept.{IsConsistent, collected, stored}
use smart_dns_proxy.Pipeline.Steps.{created, built, reviewed, Reachable-IsConsistent}
use smart_dns_proxy.Pipeline.Checked.{active_entries, IsQuiet, Spares, build-active, build-Spares}
use smart_dns_proxy.Pipeline.Valid.{build-IsRule}
use smart_dns_proxy.Auth.{
  Session, Account, Crypto, Draw, LoginRequest, account_locked, handle_login,
}
use smart_dns_proxy.Auth.Login.{IsAuthentic, handle_login-ok}
use smart_dns_proxy.Auth.Locked.{handle_login-locked}
use smart_dns_proxy.Auth.Roles.{SessionUser, require_auth, authenticate, handle_change_password}
use smart_dns_proxy.Auth.Access.{IsEntitled, require_auth-authenticate}
use smart_dns_proxy.Auth.Password.{handle_change_password-authenticate}

abbrev world : World
world = record { presets = λ name. none; fetch = λ req. none; sha256_hex = λ text. text }

abbrev db : Database
db = record {
  hash_unread = false;
  entries_unread = false;
  write_fails = false;
  new_id = codes "v1";
}

abbrev limits : Thresholds
limits = record { max_removed_percent = 30; max_added = 1000 }

abbrev source : RuleSource
source = record {
  id = codes "s1";
  type = codes "manual";
  url = codes "example.com";
  repo = [];
  ref = [];
  path = [];
  mode = codes "include";
  expected_sha256 = [];
  enabled = true;
  etag = [];
  last_modified = [];
}

abbrev rule_set : RuleSet
rule_set = record {
  update_mode = codes "manual";
  allow_regex = false;
  manual_include = [];
  manual_exclude = [];
  active_version_id = none;
  version = 1;
  sources = source ∷ [];
  versions = [];
}

abbrev first_build : RuleSet
first_build = (build plain world db limits rule_set).1

Reachable-IsConsistent_example :
    IsConsistent (approve_rule_set false (codes "v1") false first_build).1
Reachable-IsConsistent_example =
    Reachable-IsConsistent plain (approve_rule_set false (codes "v1") false first_build).1 (
      reviewed false (codes "v1") false first_build
        (built world db limits rule_set (created rule_set refl)))

abbrev no_result : BuildResult
no_result = record {
  status = none;
  version_id = [];
  sequence = 0;
  content_hash = [];
  counts = record { exact_count = 0; suffix_count = 0; regex_count = 0; total = 0 };
  added = 0;
  removed = 0;
}

-- The next build, of the same list, on a rule set that applies changes by itself.
abbrev grown : RuleSet
grown = record rule_set {
  update_mode = codes "auto_apply";
  active_version_id = some (codes "v0");
  versions =
      record {
        id = codes "v0";
        sequence = 1;
        content_hash = codes "x";
        status = active;
        entries = record { kind = exact; value = codes "example.com" } ∷ [];
      }
      ∷ [];
}

abbrev next_db : Database
next_db = record db { new_id = codes "v2" }

abbrev result : BuildResult
result = elim (build plain world next_db limits grown).0 [ ok r ↦ r | err e ↦ no_result ]

build-active_example :
    let c = collected plain world next_db limits grown in
    let effective = effective_of plain (stored plain world next_db limits grown) c in
    IsQuiet limits c.failed_sources (active_entries grown) effective
    × (((length (active_entries grown) ≡ 0) × (1 ≤ length effective))
        ⊎ (bytes_beq grown.update_mode (codes "auto_apply") ≡ true))
unfolding build smart_dns_proxy.Domainset.Parse.parse_lines
    smart_dns_proxy.Domainset.Parse.clean_line smart_dns_proxy.Strings.trim_space
    smart_dns_proxy.Domainset.Parse.parse_one smart_dns_proxy.Strings.to_lower
    smart_dns_proxy.Strings.fields smart_dns_proxy.Strings.lower_byte
    smart_dns_proxy.Domainset.Host.normalize_host smart_dns_proxy.Domainset.Host.validate_host
    smart_dns_proxy.Strings.contains smart_dns_proxy.Domainset.Host.check_labels
    smart_dns_proxy.Domainset.Host.check_label smart_dns_proxy.Domainset.Rules.merge
    smart_dns_proxy.Domainset.Rules.diff
build-active_example = build-active plain world next_db limits grown result refl refl refl

build-Spares_example : Spares plain world db limits rule_set (build plain world db limits rule_set)
build-Spares_example = build-Spares plain world db limits rule_set

build-IsRule_example :
    All
      (λ (v : RuleSetVersion). All (IsRule plain rule_set.allow_regex) v.entries)
      (build plain world db limits rule_set).1.versions
build-IsRule_example = build-IsRule plain world db limits rule_set tt

abbrev crypto : Crypto
crypto = record {
  verify_password = bytes_beq;
  verify_totp = bytes_beq;
  hash_token = λ token. token;
  hash_password = λ password. some password;
  encrypt_secret = λ secret. some secret;
  decrypt_secret = λ secret. secret;
  trim_space = λ text. text;
}

abbrev draw : Draw
draw = record {
  token = codes "t2";
  csrf = codes "c2";
  row_id = codes "s2";
  secret = codes "x";
  recovery_hashes = [];
  write_fails = false;
  count_lost = false;
  clear_lost = false;
  consume_fails = false;
  delete_lost = false;
}

abbrev session : Session
session = record {
  id = codes "s1";
  token_hash = codes "t1";
  csrf_token = codes "c1";
  expires_at = 900;
}

abbrev account : ℕ → Account
account failures = record {
  user = record {
    id = codes "u1";
    email = codes "a@example.com";
    role = codes "operator";
    password_hash = codes "secret";
    disabled = false;
    locked_until = none;
    failed_logins = failures;
    totp_enabled = true;
    totp_secret = some (codes "totp");
    recovery_codes_hash = codes "spare" ∷ [];
  };
  sessions = session ∷ [];
}

abbrev with_code : Bytes → LoginRequest
with_code code = record { password = codes "secret"; totp = code }

abbrev opened : Session
opened = record {
  id = codes "s2";
  token_hash = codes "t2";
  csrf_token = codes "c2";
  expires_at = 43210;
}

handle_login-ok_example :
    IsAuthentic crypto draw 0 10
      (with_code (codes "spare"))
      (account 3)
      opened
      (handle_login crypto draw 0 10 (with_code (codes "spare")) (account 3)).1
unfolding handle_login
handle_login-ok_example =
    handle_login-ok crypto draw 0 10 (with_code (codes "spare")) (account 3)
      (handle_login crypto draw 0 10 (with_code (codes "spare")) (account 3)).1 opened refl

handle_login-locked_example :
    handle_login crypto draw 0 100
      (with_code (codes "totp"))
      (handle_login crypto draw 0 10 (with_code (codes "guess")) (account 9)).1
    ≡ (
      err account_locked,
      (handle_login crypto draw 0 10 (with_code (codes "guess")) (account 9)).1,
    )
unfolding handle_login
handle_login-locked_example =
    handle_login-locked crypto 10 (account 9) draw draw 0 100 (with_code (codes "guess"))
      (with_code (codes "totp")) (omega arith) refl (omega arith)

abbrev principal : SessionUser
principal = record {
  id = codes "u1";
  role = codes "operator";
  session_id = codes "s1";
  csrf = codes "c1";
}

require_auth-authenticate_example :
    IsEntitled crypto 20
      (codes "viewer")
      (codes "POST")
      (codes "c1")
      (codes "t1")
      (account 0)
      principal
unfolding require_auth authenticate
require_auth-authenticate_example =
    require_auth-authenticate crypto 20 (codes "viewer") (codes "POST") (codes "c1") (codes "t1")
      (account 0) principal refl

abbrev changed : Account
changed =
    (handle_change_password crypto draw principal (codes "secret") (codes "new") (account 0)).1

handle_change_password-authenticate_example : codes "s1" ≡ principal.session_id
unfolding handle_change_password authenticate
handle_change_password-authenticate_example =
    handle_change_password-authenticate crypto draw principal principal (codes "secret")
      (codes "new") (codes "t1") 20 (account 0) changed refl refl refl
