-- ===== src/Pipeline.antt =====
-- panel/internal/rules/pipeline.go: from the sources of a rule set to a new version of it. The state is
-- one rule set with its versions, as the database holds them; times, warnings and the manifest of the
-- sources are left out. What a query or a download does is an argument.
pub mod Build
pub mod Approve
pub mod Kept
pub mod Steps
pub mod Checked
pub mod Valid
use smart_dns_proxy.Prelude.{
  ℕ, zero, suc, ◌+◌, ◌-◌, ◌*◌, ◌/◌, ◌%◌, ◌^◌, ◌≤◌, ◌<◌, ◌≡◌, refl, sym, ap, ◌∙◌, ◌≢◌, ◌↔◌, ◌⊎◌, inl,
  inr, Bool, true, false, not, ◌&&◌, ◌||◌, Option, none, some, List, [], ◌∷◌, ◌++◌, map, arith, ltb,
  leb, ◌==◌, if◌then◌else◌, ltb→lt, ltb→le, lt→ltb, leb→le, leb→lt, ==_iff, tests, Bool-cases,
  Option-cases, eq_of_iff, is_some, Eq, nat_eq, beq_refl, length, is_empty, get_or, take, drop,
  keep, any, all, length-append, take-append-drop, take-append, drop-append, length-take,
  length-drop, length-keep-le, All, All-append, All-keep, elem, nodup, elem-append, elem-keep,
  All-elem, elem-All, switch, switch-All, Bytes, codes, bytes_beq, bytes_beq_refl, bytes_beq_iff,
  bytes_eq, bytes_lt, bytes_lt_irrefl, bytes_lt_asymm, bytes_lt_trans, bytes_lt_total, Result, ok,
  err, ◌>>=◌, or_else, >>=-eq-ok, ok-inj, guard-ok,
}
use smart_dns_proxy.Platform.{Platform}
use smart_dns_proxy.Platform.{Platform}
use smart_dns_proxy.Strings.{trim_space, trim_prefix, contains}
use smart_dns_proxy.Domainset.{Entry, kind_text}

pub data Status : Type 0 where
  awaiting_approval active rejected superseded : Status

abbrev pub is_active : Status → Bool
is_active active = true
is_active _ = false

abbrev pub is_rejected : Status → Bool
is_rejected rejected = true
is_rejected _ = false

pub record RuleSource : Type 0 where
  pub id : Bytes
  pub type : Bytes
  pub url : Bytes
  pub repo : Bytes
  pub ref : Bytes
  pub path : Bytes
  pub mode : Bytes
  pub expected_sha256 : Bytes
  pub enabled : Bool
  pub etag : Bytes
  pub last_modified : Bytes

pub record RuleSetVersion : Type 0 where
  pub id : Bytes
  pub sequence : ℕ
  pub content_hash : Bytes
  pub status : Status
  pub entries : List Entry

pub record RuleSet : Type 0 where
  pub update_mode : Bytes
  pub allow_regex : Bool
  pub manual_include : List Bytes
  pub manual_exclude : List Bytes
  pub active_version_id : Option Bytes
  pub version : ℕ
  pub sources : List RuleSource
  pub versions : List RuleSetVersion

pub record Thresholds : Type 0 where
  pub max_removed_percent : ℕ
  pub max_added : ℕ

abbrev pub default_thresholds : Thresholds
default_thresholds = record { max_removed_percent = 30; max_added = 1000 }

-- `fetcher.Request`, less the switch that is the same for all, and `fetcher.Result`
pub record Request : Type 0 where
  pub url : Bytes
  pub etag : Bytes
  pub last_modified : Bytes
  pub expected_sha256 : Bytes

pub record Fetched : Type 0 where
  pub body : Bytes
  pub sha256 : Bytes
  pub etag : Bytes
  pub last_modified : Bytes
  pub not_modified : Bool

-- The lists shipped with the program, the download, and the hash; `none` is an error.
pub record World : Type 0 where
  pub presets : Bytes → Option Bytes
  pub fetch : Request → Option Fetched
  pub sha256_hex : Bytes → Bytes

-- Which of the reads of the active version fail, and whether the transaction does; the ID of a new
-- row.
pub record Database : Type 0 where
  pub hash_unread : Bool
  pub entries_unread : Bool
  pub write_fails : Bool
  pub new_id : Bytes

unfoldable pub hashed_text : List Entry → Bytes
hashed_text [] = []
hashed_text (e ∷ es) = kind_text e.kind ++ 0 ∷ e.value ++ 10 ∷ hashed_text es

-- `domainset.Hash`
unfoldable pub hash : World → List Entry → Bytes
unfolding hashed_text
hash w es = w.sha256_hex (hashed_text es)

-- `strings.Join(_, "\n")`
unfoldable pub join_lines : List Bytes → Bytes
join_lines [] = []
join_lines (a ∷ []) = a
join_lines (a ∷ b ∷ rest) = a ++ 10 ∷ join_lines (b ∷ rest)

unfoldable pub trim_slashes_left : Bytes → Bytes
trim_slashes_left [] = []
trim_slashes_left (c ∷ s) = if c == 47 then trim_slashes_left s else c ∷ s

unfoldable pub trim_slashes_right : Bytes → Bytes
trim_slashes_right [] = []
trim_slashes_right (c ∷ s) =
    let rest = trim_slashes_right s in if is_empty rest && c == 47 then [] else c ∷ rest

-- `fetcher.GitHubRawURL`; `none` is its error.
unfoldable pub github_raw_url : Platform → Bytes → Bytes → Bytes → Option Bytes
unfolding trim_slashes_left trim_slashes_right trim_space trim_prefix contains
github_raw_url pl repo ref path =
    let repo = trim_slashes_right (trim_slashes_left (trim_space pl repo)) in
    let path = trim_prefix (trim_space pl path) (codes "/") in
    if not (contains repo (codes "/")) || is_empty path || contains path (codes "..")
    then none
    else some (
        codes "https://raw.githubusercontent.com/"
        ++ repo
        ++ codes "/"
        ++ (if is_empty ref then codes "main" else ref)
        ++ codes "/"
        ++ path)

unfoldable pub download : World → RuleSource → Bytes → Option Fetched
download w src url =
    if is_empty url
    then none
    else elim (w.fetch (record {
      url = url;
      etag = src.etag;
      last_modified = src.last_modified;
      expected_sha256 = src.expected_sha256;
    })) [
      | none ↦ none
      | some res ↦
          if res.not_modified
          then w.fetch (record { url = url; etag = []; last_modified = []; expected_sha256 = [] })
          else some res
    ]

-- `load`: the body of a source, and the validators to store with it.
unfoldable pub load : Platform → World → RuleSource → Option (Bytes × RuleSource)
unfolding download github_raw_url
load pl w src =
    let stored : Option Fetched → Option (Bytes × RuleSource) = λ o. elim o [
      | none ↦ none
      | some f ↦ some (f.body, record src { etag = f.etag; last_modified = f.last_modified })
    ] in
    switch
      ((
        bytes_beq src.type (codes "preset"),
        elim (w.presets src.path) [ none ↦ none | some body ↦ some (body, src) ],
      )
        ∷ (bytes_beq src.type (codes "manual"), some (src.url, src))
        ∷ (
          bytes_beq src.type (codes "github_repo"),
          elim (github_raw_url pl src.repo src.ref src.path) [
            | none ↦ none
            | some url ↦ stored (download w src url)
          ],
        )
        ∷ [])
      (stored (download w src src.url))
