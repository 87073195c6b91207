-- ===== src/Auth/Password.antt =====
-- The sessions after `handleChangePassword` of panel/internal/api/session.go.
use smart_dns_proxy.Prelude.{
  ℕ, ◌≡◌, refl, sym, ap, ◌∙◌, inl, inr, Bool, true, false, not, ◌&&◌, ◌||◌, Option, none, some,
  List, [], ◌∷◌, ltb, if◌then◌else◌, Bool-cases, nat_eq, is_empty, All, Bytes, bytes_beq,
  bytes_beq_iff, bytes_eq, Result, ok, err,
}
use mathlib.Core.Path.{subst}
use smart_dns_proxy.Auth.{
  Session, Account, Crypto, Draw, ApiError, invalid_credentials, bad_request, not_saved,
}
use smart_dns_proxy.Auth.Roles.{
  SessionUser, find_session, authenticate, keep_session, handle_change_password,
}
use smart_dns_proxy.Auth.Access.{some_inj}

keep_session-All :
    (id : Bytes) (sessions : List Session)
    → All (λ (s : Session). s.id ≡ id) (keep_session id sessions)
unfolding keep_session
keep_session-All id [] = tt
keep_session-All id (s ∷ sessions) = elim (Bool-cases (bytes_beq s.id id)) [
  | inl same ↦ rw same ((bytes_beq_iff s.id id).0 same, keep_session-All id sessions)
  | inr other ↦ rw other (keep_session-All id sessions)
]

find_session-All :
    (P : Session → Type 0) (h : Bytes) (now : ℕ) (sessions : List Session) (s : Session)
    → All P sessions
    → find_session h now sessions ≡ some s
    → P s
unfolding find_session
find_session-All P h now [] s of_all q = cc
find_session-All P h now (t ∷ sessions) s of_all q =
    by_test (bytes_beq t.token_hash h && ltb now t.expires_at)
      (find_session-All P h now sessions s of_all.1) q
  where
    by_test :
        (b : Bool)
        → (find_session h now sessions ≡ some s → P s)
        → (if b then some t else find_session h now sessions) ≡ some s
        → P s
    by_test true later q = subst P (some_inj q) (of_all.0)
    by_test false later q = later q

-- After a successful change of the password, no cookie is good for any session of the account but the
-- one that changed it, if the database runs the deletion of the sessions, whose error is dropped.
pub handle_change_password-authenticate :
    (k : Crypto) (d : Draw) (u v : SessionUser) (current new cookie : Bytes) (now : ℕ)
    (a a' : Account)
    → d.delete_lost ≡ false
    → handle_change_password k d u current new a ≡ (ok tt, a')
    → authenticate k now cookie a' ≡ some v
    → v.session_id ≡ u.session_id
unfolding handle_change_password authenticate
handle_change_password-authenticate k d u v current new cookie now a a' deleted changed entered =
    by_cookie (is_empty cookie || a'.user.disabled)
      (find_session (k.hash_token cookie) now a'.sessions) refl entered
  where
    remaining :
        (lost : Bool)
        → lost ≡ false
        → (if lost then a.sessions else keep_session u.session_id a.sessions)
          ≡ keep_session u.session_id a.sessions
    remaining true e = cc
    remaining false e = refl

    by_hash :
        (o : Option Bytes) (broken : Bool)
        → (let r : Result ApiError Unit × Account =
              elim o as (λ _. Result ApiError Unit × Account) [
                | none ↦ (err bad_request, a)
                | some h ↦ if broken then (err not_saved, a) else (
                  ok tt,
                  record {
                    user = record (a.user) { password_hash = h };
                    sessions =
                        if d.delete_lost then a.sessions else keep_session u.session_id a.sessions;
                  },
                )
              ] in
            r)
          ≡ (ok tt, a')
        → a'.sessions ≡ keep_session u.session_id a.sessions
    by_hash none broken q = cc
    by_hash (some h) true q = cc
    by_hash (some h) false q =
        ap (λ (r : Result ApiError Unit × Account). (r.1).sessions) (sym q)
        ∙ remaining d.delete_lost deleted

    by_password :
        (b : Bool)
        → (let r : Result ApiError Unit × Account =
              if b
              then (err invalid_credentials, a)
              else elim (k.hash_password new) as (λ _. Result ApiError Unit × Account) [
                | none ↦ (err bad_request, a)
                | some h ↦ if d.write_fails then (err not_saved, a) else (
                  ok tt,
                  record {
                    user = record (a.user) { password_hash = h };
                    sessions =
                        if d.delete_lost then a.sessions else keep_session u.session_id a.sessions;
                  },
                )
              ] in
            r)
          ≡ (ok tt, a')
        → a'.sessions ≡ keep_session u.session_id a.sessions
    by_password true q = cc
    by_password false q = by_hash (k.hash_password new) d.write_fails q

    only : All (λ (s : Session). s.id ≡ u.session_id) a'.sessions
    only =
        rw (by_password (not (k.verify_password current a.user.password_hash)) changed)
          (keep_session-All u.session_id a.sessions)

    by_cookie :
        (b : Bool) (o : Option Session)
        → find_session (k.hash_token cookie) now a'.sessions ≡ o
        → (if b then none else elim o as (λ _. Option SessionUser) [
          | none ↦ none
          | some s ↦ some (record {
            id = a'.user.id;
            role = a'.user.role;
            session_id = s.id;
            csrf = s.csrf_token;
          })
        ])
          ≡ some v
        → v.session_id ≡ u.session_id
    by_cookie true o e q = cc
    by_cookie false none e q = cc
    by_cookie false (some s) e q =
        ap (λ (w : SessionUser). w.session_id) (sym (some_inj q))
        ∙ find_session-All (λ (s : Session). s.id ≡ u.session_id) (k.hash_token cookie) now
            a'.sessions s only e
