-- ===== src/Auth/Locked.antt =====
-- The lock of an account after ten failures, in `handleLogin` of panel/internal/api/session.go.
use smart_dns_proxy.Prelude.{
  ℕ, ◌+◌, ◌≤◌, ◌<◌, ◌≡◌, refl, sym, ap, ◌∙◌, ◌⊎◌, inl, inr, Bool, true, false, not, ◌&&◌, Option,
  none, some, ◌∷◌, arith, ltb, if◌then◌else◌, nat_eq, is_empty, elem, Bytes, bytes_eq, Result, ok,
  err,
}
use mathlib.Core.Path.{subst}
use smart_dns_proxy.Auth.{
  Session, Account, Crypto, Draw, LoginRequest, ApiError, invalid_credentials, account_disabled,
  account_locked, totp_required, invalid_totp, internal_error, not_saved, register_failed_login,
  array_remove, consume_recovery_code, is_locked, open_session, check_totp, handle_login,
}

register_failed_login_lem :
    (lost : Bool) (now : ℕ) (a : Account)
    → 9 ≤ a.user.failed_logins
    → a.user.disabled ≡ false
    → (register_failed_login lost now a).user.failed_logins ≡ a.user.failed_logins + 1
    → ((register_failed_login lost now a).user.disabled ≡ false)
      × ((register_failed_login lost now a).user.locked_until ≡ some (now + 900))
unfolding register_failed_login
register_failed_login_lem true now a many enabled counted = absurd (omega arith)
register_failed_login_lem false now a many enabled counted = (enabled, ground arith)

handle_login-refused :
    (k : Crypto) (d : Draw) (session_ttl now until : ℕ) (req : LoginRequest) (a : Account)
    → a.user.disabled ≡ false
    → a.user.locked_until ≡ some until
    → now < until
    → handle_login k d session_ttl now req a ≡ (err account_locked, a)
unfolding handle_login is_locked
handle_login-refused k d session_ttl now until req a enabled held soon =
    by_tests a.user.disabled (is_locked now a.user) enabled (by_lock a.user.locked_until held)
  where
    by_lock :
        (o : Option ℕ)
        → o ≡ some until
        → (elim o as (λ _. Bool) [ none ↦ false | some t ↦ ltb now t ]) ≡ true
    by_lock none e = cc
    by_lock (some t) e = let same : t ≡ until = cc in ground arith

    by_tests :
        (disabled locked : Bool)
        → disabled ≡ false
        → locked ≡ true
        → (let r : Result ApiError Session × Account =
              if disabled
              then (err account_disabled, a)
              else if locked
              then (err account_locked, a)
              else if not (k.verify_password req.password a.user.password_hash)
              then (err invalid_credentials, register_failed_login d.count_lost now a)
              else let o = check_totp k d now req.totp a in
                elim (o.0) as (λ _. Result ApiError Session × Account) [
                  | err e ↦ (err e, o.1)
                  | ok _ ↦ open_session k d session_ttl now (o.1)
                ] in
            r)
          ≡ (err account_locked, a)
    by_tests true locked x y = cc
    by_tests false false x y = cc
    by_tests false true x y = refl

module _ (k : Crypto) (now : ℕ) (a : Account) (d : Draw) where
  -- With the same failures, or after an error with one more.
  abbrev After : Result ApiError Unit × Account → Type 0
  After (ok u, b) = b.user.failed_logins ≡ a.user.failed_logins
  After (err e, b) =
      (b.user.failed_logins ≡ a.user.failed_logins) ⊎ (b ≡ register_failed_login d.count_lost now a)

  check_totp-After : (totp : Bytes) → After (check_totp k d now totp a)
  unfolding check_totp consume_recovery_code
  check_totp-After totp = by_tests (not a.user.totp_enabled) (is_empty totp)
    where
      h : Bytes
      h = k.hash_token (k.trim_space totp)

      used : Account
      used = record a {
        user = record (a.user) { recovery_codes_hash = array_remove h a.user.recovery_codes_hash };
      }

      by_code :
          (fits listed : Bool)
          → After (
              let c : Bool × Account = if listed then (true, used) else (false, a) in
              let r : Result ApiError Unit × Account =
                if fits
                then (ok tt, a)
                else if c.0
                then (ok tt, c.1)
                else (err invalid_totp, register_failed_login d.count_lost now (c.1)) in
              r)
      by_code true listed = refl
      by_code false true = refl
      by_code false false = inr refl

      by_secret :
          (o : Option Bytes)
          → After (elim o as (λ _. Result ApiError Unit × Account) [
            | none ↦ (err internal_error, a)
            | some secret ↦
                if k.verify_totp secret totp
                then (ok tt, a)
                else let c : Bool × Account =
                    if not d.consume_fails && elem h a.user.recovery_codes_hash
                    then (true, used)
                    else (false, a) in
                  if c.0
                  then (ok tt, c.1)
                  else (err invalid_totp, register_failed_login d.count_lost now (c.1))
          ])
      by_secret none = inl refl
      by_secret (some secret) =
          by_code (k.verify_totp secret totp)
            (not d.consume_fails && elem h a.user.recovery_codes_hash)

      by_tests :
          (off blank : Bool)
          → After (
              let r : Result ApiError Unit × Account =
                if off
                then (ok tt, a)
                else if blank
                then (err totp_required, a)
                else elim (k.decrypt_secret a.user.totp_secret)
                    as (λ _. Result ApiError Unit × Account) [
                      | none ↦ (err internal_error, a)
                      | some secret ↦
                          if k.verify_totp secret totp
                          then (ok tt, a)
                          else let c : Bool × Account =
                              if not d.consume_fails && elem h a.user.recovery_codes_hash
                              then (true, used)
                              else (false, a) in
                            if c.0
                            then (ok tt, c.1)
                            else (err invalid_totp, register_failed_login d.count_lost now (c.1))
                    ] in
              r)
      by_tests true blank = refl
      by_tests false true = inl refl
      by_tests false false = by_secret (k.decrypt_secret a.user.totp_secret)

  -- A failure that is counted is just that.
  handle_login-counted :
      (session_ttl : ℕ) (req : LoginRequest)
      → (handle_login k d session_ttl now req a).1.user.failed_logins ≡ a.user.failed_logins + 1
      → (a.user.disabled ≡ false)
        × ((handle_login k d session_ttl now req a).1 ≡ register_failed_login d.count_lost now a)
  unfolding handle_login open_session
  handle_login-counted session_ttl req =
      by_tests a.user.disabled (is_locked now a.user)
        (k.verify_password req.password a.user.password_hash) refl
    where
      Counted : Account → Type 0
      Counted b =
          b.user.failed_logins ≡ a.user.failed_logins + 1
          → (a.user.disabled ≡ false) × (b ≡ register_failed_login d.count_lost now a)

      by_save :
          (b : Account) (broken lost : Bool) (t : Session)
          → b.user.failed_logins ≡ a.user.failed_logins
          → Counted (
              let r : Result ApiError Session × Account = if broken then (err not_saved, b) else (
                ok t,
                record {
                  user =
                      if lost
                      then b.user
                      else record (b.user) { failed_logins = 0; locked_until = none };
                  sessions = t ∷ b.sessions;
                },
              ) in
              r.1)
      by_save b true lost t same e = absurd (omega arith)
      by_save b false true t same e = absurd (omega arith)
      by_save b false false t same e = absurd (omega arith)

      by_totp :
          (o : Result ApiError Unit × Account)
          → a.user.disabled ≡ false
          → After o
          → Counted
              (elim (o.0) as (λ _. Result ApiError Session × Account) [
                | err e ↦ (err e, o.1)
                | ok _ ↦ open_session k d session_ttl now (o.1)
              ]).1
      by_totp (err e, b) x (inl same) f = absurd (omega arith)
      by_totp (err e, b) x (inr same) f = (x, same)
      by_totp (ok u, b) x h f = by_save b d.write_fails d.clear_lost _ h f

      by_tests :
          (disabled locked fits : Bool)
          → a.user.disabled ≡ disabled
          → Counted (
              let r : Result ApiError Session × Account =
                if disabled
                then (err account_disabled, a)
                else if locked
                then (err account_locked, a)
                else if not fits
                then (err invalid_credentials, register_failed_login d.count_lost now a)
                else let o = check_totp k d now req.totp a in
                  elim (o.0) as (λ _. Result ApiError Session × Account) [
                    | err e ↦ (err e, o.1)
                    | ok _ ↦ open_session k d session_ttl now (o.1)
                  ] in
              r.1)
      by_tests true locked fits x e = absurd (omega arith)
      by_tests false true fits x e = absurd (omega arith)
      by_tests false false false x e = (x, refl)
      by_tests false false true x e =
          by_totp (check_totp k d now req.totp a) x (check_totp-After req.totp) e

  -- From the tenth failure on, one guess in a quarter of an hour. Let a login on an account with nine
  -- failures or more be counted as a failure. Then every login in the 900 seconds from then is refused with
  -- "account locked" and changes nothing, whatever its password and code.
  pub handle_login-locked :
      (d' : Draw) (session_ttl later : ℕ) (req req' : LoginRequest)
      → 9 ≤ a.user.failed_logins
      → (handle_login k d session_ttl now req a).1.user.failed_logins ≡ a.user.failed_logins + 1
      → later < now + 900
      → handle_login k d' session_ttl later req' (handle_login k d session_ttl now req a).1
        ≡ (err account_locked, (handle_login k d session_ttl now req a).1)
  handle_login-locked d' session_ttl later req req' many counted soon =
      let (enabled, same) = handle_login-counted session_ttl req counted in
      subst (λ (b : Account). handle_login k d' session_ttl later req' b ≡ (err account_locked, b))
        (sym same)
        (locked (
          register_failed_login_lem d.count_lost now a many enabled
            (sym (ap (λ (b : Account). b.user.failed_logins) same) ∙ counted)))
    where
      b : Account
      b = register_failed_login d.count_lost now a

      locked :
          (b.user.disabled ≡ false) × (b.user.locked_until ≡ some (now + 900))
          → handle_login k d' session_ttl later req' b ≡ (err account_locked, b)
      locked (still, until) =
          handle_login-refused k d' session_ttl later (now + 900) req' b still until soon
