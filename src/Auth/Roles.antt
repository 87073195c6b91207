-- ===== src/Auth/Roles.antt =====
-- `authenticate`, `requireAuth` and the other handlers of panel/internal/api/session.go.
use smart_dns_proxy.Prelude.{
  ℕ, Bool, true, false, not, ◌&&◌, ◌||◌, Option, none, some, List, [], ◌∷◌, ltb, leb, ◌==◌,
  if◌then◌else◌, nat_eq, length, is_empty, elem, switch, Bytes, codes, bytes_beq, bytes_eq, Result,
  ok, err,
}
use smart_dns_proxy.Auth.{
  Session, Account, Crypto, Draw, ApiError, unauthenticated, csrf_failed, forbidden,
  invalid_credentials, invalid_totp, internal_error, bad_request, not_found, not_saved,
}

pub record SessionUser : Type 0 where
  pub id : Bytes
  pub role : Bytes
  pub session_id : Bytes
  pub csrf : Bytes

-- the session of the account with this token's hash that has not expired
unfoldable pub find_session : Bytes → ℕ → List Session → Option Session
find_session h now [] = none
find_session h now (s ∷ sessions) =
    if bytes_beq s.token_hash h && ltb now s.expires_at then some s else find_session h now sessions

-- `authenticate`: the principal of a request, if its cookie names one
unfoldable pub authenticate : Crypto → ℕ → Bytes → Account → Option SessionUser
unfolding find_session
authenticate k now cookie a =
    if is_empty cookie || a.user.disabled
    then none
    else elim (find_session (k.hash_token cookie) now a.sessions) [
      | none ↦ none
      | some s ↦
          some
            (record { id = a.user.id; role = a.user.role; session_id = s.id; csrf = s.csrf_token })
    ]

unfoldable pub role_rank : Bytes → ℕ
role_rank role =
    switch
      ((bytes_beq role (codes "viewer"), 1)
        ∷ (bytes_beq role (codes "operator"), 2)
        ∷ (bytes_beq role (codes "owner"), 3)
        ∷ [])
      0

unfoldable pub role_at_least : Bytes → Bytes → Bool
unfolding role_rank
role_at_least have need = leb (role_rank need) (role_rank have)

abbrev pub is_safe_method : Bytes → Bool
is_safe_method m = elem m (codes "GET" ∷ codes "HEAD" ∷ codes "OPTIONS" ∷ [])

-- `requireAuth`: the refusal, or the principal for the handler
unfoldable pub require_auth :
    Bytes → Bytes → Bytes → Option SessionUser → Result ApiError SessionUser
unfolding role_at_least
require_auth min_role method csrf_header principal = elim principal [
  | none ↦ err unauthenticated
  | some u ↦
      if not (is_safe_method method) && not (bytes_beq csrf_header u.csrf)
      then err csrf_failed
      else if not (role_at_least u.role min_role)
      then err forbidden
      else ok u
]

-- DELETE FROM sessions
unfoldable pub delete_session : Bytes → List Session → List Session
delete_session id [] = []
delete_session id (s ∷ sessions) =
    if bytes_beq s.id id then delete_session id sessions else s ∷ delete_session id sessions

unfoldable pub keep_session : Bytes → List Session → List Session
keep_session id [] = []
keep_session id (s ∷ sessions) =
    if bytes_beq s.id id then s ∷ keep_session id sessions else keep_session id sessions

unfoldable pub handle_logout : Draw → SessionUser → Account → Account
unfolding delete_session
handle_logout d u a =
    if d.delete_lost then a else record a { sessions = delete_session u.session_id a.sessions }

unfoldable pub handle_revoke_session : Draw → Bytes → Account → Result ApiError Unit × Account
unfolding delete_session
handle_revoke_session d id a =
    if d.write_fails
    then (err not_saved, a)
    else if length (delete_session id a.sessions) == length a.sessions
    then (err not_found, a)
    else (ok tt, record a { sessions = delete_session id a.sessions })

unfoldable pub handle_change_password :
    Crypto → Draw → SessionUser → Bytes → Bytes → Account → Result ApiError Unit × Account
unfolding keep_session
handle_change_password k d u current new a =
    if not (k.verify_password current a.user.password_hash)
    then (err invalid_credentials, a)
    else elim (k.hash_password new) [
      | none ↦ (err bad_request, a)
      | some h ↦ if d.write_fails then (err not_saved, a) else (
        ok tt,
        record {
          user = record (a.user) { password_hash = h };
          sessions = if d.delete_lost then a.sessions else keep_session u.session_id a.sessions;
        },
      )
    ]

unfoldable pub handle_totp_setup : Crypto → Draw → Account → Result ApiError Bytes × Account
handle_totp_setup k d a = elim (k.encrypt_secret d.secret) [
  | none ↦ (err internal_error, a)
  | some enc ↦ if d.write_fails then (err not_saved, a) else (
    ok d.secret,
    record a { user = record (a.user) { totp_secret = some enc; totp_enabled = false } },
  )
]

unfoldable pub handle_totp_enable : Crypto → Draw → Bytes → Account → Result ApiError Unit × Account
handle_totp_enable k d code a =
    if is_empty (elim a.user.totp_secret [ none ↦ [] | some s ↦ s ])
    then (err bad_request, a)
    else elim (k.decrypt_secret a.user.totp_secret) [
      | none ↦ (err internal_error, a)
      | some secret ↦
          if not (k.verify_totp secret code)
          then (err invalid_totp, a)
          else if d.write_fails
          then (err not_saved, a)
          else (
            ok tt,
            record a {
              user = record (a.user) {
                totp_enabled = true;
                recovery_codes_hash = d.recovery_hashes;
              };
            },
          )
    ]

unfoldable pub handle_totp_disable :
    Crypto → Draw → Bytes → Account → Result ApiError Unit × Account
handle_totp_disable k d password a =
    if not (k.verify_password password a.user.password_hash)
    then (err invalid_credentials, a)
    else if d.write_fails
    then (err not_saved, a)
    else (
      ok tt,
      record a {
        user = record (a.user) {
          totp_enabled = false;
          totp_secret = none;
          recovery_codes_hash = [];
        };
      },
    )
