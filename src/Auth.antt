-- ===== src/Auth.antt =====
-- panel/internal/api/session.go: accounts and sessions of the panel. The state is one account, the row
-- of its user and those of its sessions: no handler writes another. Times are seconds. The audit log,
-- `last_seen_at`, cookies and what a page shows are left out.
pub mod Login
pub mod Locked
pub mod Roles
pub mod Access
pub mod Password
use smart_dns_proxy.Prelude.{
  ℕ, zero, suc, ◌+◌, ◌-◌, ◌*◌, ◌/◌, ◌%◌, ◌^◌, ◌≤◌, ◌<◌, ◌≡◌, refl, sym, ap, ◌∙◌, ◌≢◌, ◌↔◌, ◌⊎◌, inl,
  inr, Bool, true, false, not, ◌&&◌, ◌||◌, Option, none, some, List, [], ◌∷◌, ◌++◌, map, arith, ltb,
  leb, ◌==◌, if◌then◌else◌, ltb→lt, ltb→le, lt→ltb, leb→le, leb→lt, ==_iff, tests, Bool-cases,
  Option-cases, eq_of_iff, is_some, Eq, nat_eq, beq_refl, length, is_empty, get_or, take, drop,
  keep, any, all, length-append, take-append-drop, take-append, drop-append, length-take,
  length-drop, length-keep-le, All, All-append, All-keep, elem, nodup, elem-append, elem-keep,
  All-elem, elem-All, switch, switch-All, Bytes, codes, bytes_beq, bytes_beq_refl, bytes_beq_iff,
  bytes_eq, bytes_lt, bytes_lt_irrefl, bytes_lt_asymm, bytes_lt_trans, bytes_lt_total, Result, ok,
  err, ◌>>=◌, or_else, >>=-eq-ok, ok-inj, guard-ok,
}

pub record User : Type 0 where
  pub id : Bytes
  pub email : Bytes
  pub role : Bytes
  pub password_hash : Bytes
  pub disabled : Bool
  pub locked_until : Option ℕ
  pub failed_logins : ℕ
  pub totp_enabled : Bool
  pub totp_secret : Option Bytes
  pub recovery_codes_hash : List Bytes

pub record Session : Type 0 where
  pub id : Bytes
  pub token_hash : Bytes
  pub csrf_token : Bytes
  pub expires_at : ℕ

pub record Account : Type 0 where
  pub user : User
  pub sessions : List Session

-- panel/internal/auth and the key of the server: checks of a password against its hash and of a code
-- against a secret, the hashes of a token and of a password (`none` is its error), and the cipher of
-- the secrets.
pub record Crypto : Type 0 where
  pub verify_password : Bytes → Bytes → Bool
  pub verify_totp : Bytes → Bytes → Bool
  pub hash_token : Bytes → Bytes
  pub hash_password : Bytes → Option Bytes
  pub encrypt_secret : Bytes → Option Bytes
  pub decrypt_secret : Option Bytes → Option Bytes
  pub trim_space : Bytes → Bytes

-- What a request draws at random, and which of its statements the database fails to run: the write
-- whose error is returned; and, with errors that the handlers drop, the count of a failed login, the
-- clearing of the failures, the use of a recovery code, and the deletion of sessions.
pub record Draw : Type 0 where
  pub token : Bytes
  pub csrf : Bytes
  pub row_id : Bytes
  pub secret : Bytes
  pub recovery_hashes : List Bytes
  pub write_fails : Bool
  pub count_lost : Bool
  pub clear_lost : Bool
  pub consume_fails : Bool
  pub delete_lost : Bool

pub record LoginRequest : Type 0 where
  pub password : Bytes
  pub totp : Bytes

pub data ApiError : Type 0 where
  unauthenticated csrf_failed forbidden invalid_credentials account_disabled account_locked :
      ApiError
  totp_required invalid_totp internal_error bad_request not_found not_saved : ApiError

-- `registerFailedLogin`
unfoldable pub register_failed_login : Bool → ℕ → Account → Account
register_failed_login lost now a =
    let n = a.user.failed_logins + 1 in
    if lost then a else record a {
      user = record (a.user) {
        failed_logins = n;
        locked_until = if leb 10 n then some (now + 900) else a.user.locked_until;
      };
    }

-- array_remove
unfoldable pub array_remove : Bytes → List Bytes → List Bytes
array_remove h [] = []
array_remove h (c ∷ hashes) =
    if bytes_beq c h then array_remove h hashes else c ∷ array_remove h hashes

-- `consumeRecoveryCode`
unfoldable pub consume_recovery_code : Crypto → Bool → Bytes → Account → Bool × Account
unfolding array_remove
consume_recovery_code k fails code a =
    let h = k.hash_token (k.trim_space code) in
    if not fails && elem h a.user.recovery_codes_hash
    then (
      true,
      record a {
        user = record (a.user) { recovery_codes_hash = array_remove h a.user.recovery_codes_hash };
      },
    )
    else (false, a)

unfoldable pub is_locked : ℕ → User → Bool
is_locked now u = elim u.locked_until [ none ↦ false | some t ↦ ltb now t ]

-- the session that a login opens, and the account with it
unfoldable pub open_session : Crypto → Draw → ℕ → ℕ → Account → Result ApiError Session × Account
open_session k d session_ttl now a =
    let session : Session = record {
      id = d.row_id;
      token_hash = k.hash_token d.token;
      csrf_token = d.csrf;
      expires_at = now + (if session_ttl == 0 then 43200 else session_ttl);
    } in
    if d.write_fails then (err not_saved, a) else (
      ok session,
      record {
        user =
            if d.clear_lost
            then a.user
            else record (a.user) { failed_logins = 0; locked_until = none };
        sessions = session ∷ a.sessions;
      },
    )

-- the second factor, where the user has one
unfoldable pub check_totp : Crypto → Draw → ℕ → Bytes → Account → Result ApiError Unit × Account
unfolding consume_recovery_code register_failed_login
check_totp k d now totp a =
    if not a.user.totp_enabled
    then (ok tt, a)
    else if is_empty totp
    then (err totp_required, a)
    else elim (k.decrypt_secret a.user.totp_secret) [
      | none ↦ (err internal_error, a)
      | some secret ↦
          if k.verify_totp secret totp
          then (ok tt, a)
          else let (consumed, a') = consume_recovery_code k d.consume_fails totp a in
            if consumed
            then (ok tt, a')
            else (err invalid_totp, register_failed_login d.count_lost now a')
    ]

-- `handleLogin` for an email that has an account, at the time `now`.
unfoldable pub handle_login :
    Crypto → Draw → ℕ → ℕ → LoginRequest → Account → Result ApiError Session × Account
unfolding is_locked register_failed_login check_totp open_session
handle_login k d session_ttl now req a =
    if a.user.disabled
    then (err account_disabled, a)
    else if is_locked now a.user
    then (err account_locked, a)
    else if not (k.verify_password req.password a.user.password_hash)
    then (err invalid_credentials, register_failed_login d.count_lost now a)
    else let (checked, a') = check_totp k d now req.totp a in
      elim checked [ err e ↦ (err e, a') | ok _ ↦ open_session k d session_ttl now a' ]
