-- ===== src/Auth/Login.antt =====
-- When `handleLogin` of panel/internal/api/session.go opens a session.
use smart_dns_proxy.Prelude.{
  ℕ, ◌+◌, ◌≡◌, refl, sym, ap, ◌∙◌, ◌⊎◌, inl, inr, Bool, true, false, not, ◌&&◌, Option, none, some,
  List, [], ◌∷◌, arith, ◌==◌, if◌then◌else◌, Bool-cases, nat_eq, is_empty, elem, Bytes, bytes_beq,
  bytes_beq_refl, bytes_beq_iff, bytes_eq, Result, ok, err, ok-inj,
}
use mathlib.Core.Path.{subst}
use smart_dns_proxy.Auth.{
  User, Session, Account, Crypto, Draw, LoginRequest, ApiError, invalid_credentials,
  account_disabled, account_locked, totp_required, invalid_totp, internal_error, not_saved,
  register_failed_login, array_remove, consume_recovery_code, is_locked, open_session, check_totp,
  handle_login,
}

bytes_apart : (a b : Bytes) → bytes_beq a b ≡ false → bytes_beq b a ≡ false
bytes_apart a b h = elim (Bool-cases (bytes_beq b a)) [
  | inr other ↦ other
  | inl same ↦
      let q : b ≡ a = (bytes_beq_iff b a).0 same in
      absurd
        (let e : true ≡ false = sym (bytes_beq_refl a) ∙ ap (λ c. bytes_beq a c) (sym q) ∙ h in cc)
]

array_remove-elem : (h : Bytes) (hashes : List Bytes) → elem h (array_remove h hashes) ≡ false
unfolding array_remove
array_remove-elem h [] = refl
array_remove-elem h (c ∷ hashes) = elim (Bool-cases (bytes_beq c h)) [
  | inl same ↦ rw same (array_remove-elem h hashes)
  | inr other ↦
      let apart : bytes_beq h c ≡ false = bytes_apart c h other in
      rw other (rw (apart, array_remove-elem h hashes) refl)
]

-- How the second factor was given: there is none, the code fits the secret, or it is a recovery code,
-- which is not among the account's codes any more.
abbrev pub IsSecondFactor : Crypto → Bytes → Account → Account → Type 0
IsSecondFactor k totp a a' =
    (a.user.totp_enabled ≡ false)
    ⊎ ((secret : Bytes) × (k.decrypt_secret a.user.totp_secret ≡ some secret)
        × (k.verify_totp secret totp ≡ true))
    ⊎ ((elem (k.hash_token (k.trim_space totp)) a.user.recovery_codes_hash ≡ true)
        × (elem (k.hash_token (k.trim_space totp)) a'.user.recovery_codes_hash ≡ false))

check_totp-ok :
    (k : Crypto) (d : Draw) (now : ℕ) (totp : Bytes) (a a' : Account)
    → check_totp k d now totp a ≡ (ok tt, a')
    → IsSecondFactor k totp a a' × (a'.sessions ≡ a.sessions)
unfolding check_totp consume_recovery_code
check_totp-ok k d now totp a a' q = by_tests (not a.user.totp_enabled) (is_empty totp) refl q
  where
    h : Bytes
    h = k.hash_token (k.trim_space totp)

    used : Account
    used = record a {
      user = record (a.user) { recovery_codes_hash = array_remove h a.user.recovery_codes_hash };
    }

    kept :
        {b : Account}
        → ◌≡◌ {A = Result ApiError Unit × Account} (ok tt, b) (ok tt, a')
        → a'.sessions ≡ b.sessions
    kept q = ap (λ (r : Result ApiError Unit × Account). (r.1).sessions) (sym q)

    by_recovery :
        (listed : Bool)
        → (not d.consume_fails && elem h a.user.recovery_codes_hash) ≡ listed
        → (let c : Bool × Account = if listed then (true, used) else (false, a) in
            let r : Result ApiError Unit × Account =
              if c.0
              then (ok tt, c.1)
              else (err invalid_totp, register_failed_login d.count_lost now (c.1)) in
            r)
          ≡ (ok tt, a')
        → IsSecondFactor k totp a a' × (a'.sessions ≡ a.sessions)
    by_recovery true e q =
        let same : used ≡ a' = cc in
        (
          inr (
              inr (
                ground arith,
                subst (λ (b : Account). elem h b.user.recovery_codes_hash ≡ false) same
                    (array_remove-elem h a.user.recovery_codes_hash),
              )),
          kept q,
        )
    by_recovery false e q = cc

    by_code :
        (secret : Bytes) (fits : Bool)
        → k.decrypt_secret a.user.totp_secret ≡ some secret
        → k.verify_totp secret totp ≡ fits
        → (let r : Result ApiError Unit × Account =
              if fits
              then (ok tt, a)
              else let c : Bool × Account =
                  if not d.consume_fails && elem h a.user.recovery_codes_hash
                  then (true, used)
                  else (false, a) in
                if c.0
                then (ok tt, c.1)
                else (err invalid_totp, register_failed_login d.count_lost now (c.1)) in
            r)
          ≡ (ok tt, a')
        → IsSecondFactor k totp a a' × (a'.sessions ≡ a.sessions)
    by_code secret true x e q = (inr (inl (secret, x, e)), kept q)
    by_code secret false x e q =
        by_recovery (not d.consume_fails && elem h a.user.recovery_codes_hash) refl q

    by_secret :
        (o : Option Bytes)
        → k.decrypt_secret a.user.totp_secret ≡ o
        → (elim o as (λ _. Result ApiError Unit × Account) [
          | none ↦ (err internal_error, a)
          | some secret ↦
              if k.verify_totp secret totp
              then (ok tt, a)
              else let c : Bool × Account =
                  if not d.consume_fails && elem h a.user.recovery_codes_hash
                  then (true, used)
                  else (false, a) in
                if c.0
                then (ok tt, c.1)
                else (err invalid_totp, register_failed_login d.count_lost now (c.1))
        ])
          ≡ (ok tt, a')
        → IsSecondFactor k totp a a' × (a'.sessions ≡ a.sessions)
    by_secret none x q = cc
    by_secret (some secret) x q = by_code secret (k.verify_totp secret totp) x refl q

    by_tests :
        (off blank : Bool)
        → (not a.user.totp_enabled) ≡ off
        → (let r : Result ApiError Unit × Account =
              if off
              then (ok tt, a)
              else if blank
              then (err totp_required, a)
              else elim (k.decrypt_secret a.user.totp_secret)
                  as (λ _. Result ApiError Unit × Account) [
                    | none ↦ (err internal_error, a)
                    | some secret ↦
                        if k.verify_totp secret totp
                        then (ok tt, a)
                        else let c : Bool × Account =
                            if not d.consume_fails && elem h a.user.recovery_codes_hash
                            then (true, used)
                            else (false, a) in
                          if c.0
                          then (ok tt, c.1)
                          else (err invalid_totp, register_failed_login d.count_lost now (c.1))
                  ] in
            r)
          ≡ (ok tt, a')
        → IsSecondFactor k totp a a' × (a'.sessions ≡ a.sessions)
    by_tests true blank e q = (inl (ground arith), kept q)
    by_tests false true e q = cc
    by_tests false false e q = by_secret (k.decrypt_secret a.user.totp_secret) refl q

-- What a login has shown of an account, and what it leaves.
abbrev pub IsAuthentic : Crypto → Draw → ℕ → ℕ → LoginRequest → Account → Session → Account → Type 0
IsAuthentic k d session_ttl now req a s a' =
    (a.user.disabled ≡ false)
    × (is_locked now a.user ≡ false)
    × (k.verify_password req.password a.user.password_hash ≡ true)
    × ((d.clear_lost ≡ true) ⊎ ((a'.user.failed_logins ≡ 0) × (a'.user.locked_until ≡ none)))
    × (s.expires_at ≡ now + (if session_ttl == 0 then 43200 else session_ttl))
    × (a'.sessions ≡ s ∷ a.sessions)
    × IsSecondFactor k req.totp a a'

-- A login opens a session only for an account that is neither disabled nor locked, with its password
-- and its second factor. It adds the session, which expires after the configured time, or 12 hours if
-- that is zero; a recovery code that was used is used up; and the failures and the lock are cleared,
-- unless the database loses that update, whose error the handler drops.
pub handle_login-ok :
    (k : Crypto) (d : Draw) (session_ttl now : ℕ) (req : LoginRequest) (a a' : Account)
    (s : Session)
    → handle_login k d session_ttl now req a ≡ (ok s, a')
    → IsAuthentic k d session_ttl now req a s a'
unfolding handle_login open_session
handle_login-ok k d session_ttl now req a a' s q =
    by_tests a.user.disabled (is_locked now a.user)
      (k.verify_password req.password a.user.password_hash) refl refl refl q
  where
    Goal : Type 0
    Goal = IsAuthentic k d session_ttl now req a s a'

    by_save :
        (b : Account) (broken : Bool) (t : Session)
        → a.user.disabled ≡ false
        → is_locked now a.user ≡ false
        → k.verify_password req.password a.user.password_hash ≡ true
        → IsSecondFactor k req.totp a b
        → b.sessions ≡ a.sessions
        → t.expires_at ≡ now + (if session_ttl == 0 then 43200 else session_ttl)
        → (let r : Result ApiError Session × Account = if broken then (err not_saved, b) else (
          ok t,
          record {
            user =
                if d.clear_lost
                then b.user
                else record (b.user) { failed_logins = 0; locked_until = none };
            sessions = t ∷ b.sessions;
          },
        ) in
            r)
          ≡ (ok s, a')
        → Goal
    by_save b true t x y z f g e q = cc
    by_save b false t x y z f g e q =
        let same_s : t ≡ s = ok-inj (ap (λ (r : Result ApiError Session × Account). r.0) q) in
        let same_a = ap (λ (r : Result ApiError Session × Account). r.1) q in
        rw (sym same_s, sym same_a)
          (x, y, z, cleared d.clear_lost refl, e, ap (λ ss. t ∷ ss) g, factor f)
      where
        cleared :
            (lost : Bool)
            → d.clear_lost ≡ lost
            → let u : User =
                if lost
                then b.user
                else record (b.user) { failed_logins = 0; locked_until = none } in
              (d.clear_lost ≡ true) ⊎ ((u.failed_logins ≡ 0) × (u.locked_until ≡ none))
        cleared true w = inl w
        cleared false w = inr (refl, refl)

        same_codes :
            (lost : Bool)
            → let u : User =
                if lost
                then b.user
                else record (b.user) { failed_logins = 0; locked_until = none } in
              elem (k.hash_token (k.trim_space req.totp)) u.recovery_codes_hash
              ≡ elem (k.hash_token (k.trim_space req.totp)) b.user.recovery_codes_hash
        same_codes true = refl
        same_codes false = refl

        factor :
            IsSecondFactor k req.totp a b
            → IsSecondFactor k req.totp a (record {
              user =
                  if d.clear_lost
                  then b.user
                  else record (b.user) { failed_logins = 0; locked_until = none };
              sessions = t ∷ b.sessions;
            })
        factor (inl h) = inl h
        factor (inr (inl h)) = inr (inl h)
        factor (inr (inr (listed, gone))) = inr (inr (listed, same_codes d.clear_lost ∙ gone))

    by_totp :
        (o : Result ApiError Unit × Account)
        → check_totp k d now req.totp a ≡ o
        → a.user.disabled ≡ false
        → is_locked now a.user ≡ false
        → k.verify_password req.password a.user.password_hash ≡ true
        → (elim (o.0) as (λ _. Result ApiError Session × Account) [
          | err e ↦ (err e, o.1)
          | ok _ ↦ open_session k d session_ttl now (o.1)
        ])
          ≡ (ok s, a')
        → Goal
    by_totp (err e, b) c x y z q = cc
    by_totp (ok u, b) c x y z q =
        by_save b d.write_fails _ x y z (check_totp-ok k d now req.totp a b c).0
          (check_totp-ok k d now req.totp a b c).1 refl q

    by_tests :
        (disabled locked fits : Bool)
        → a.user.disabled ≡ disabled
        → is_locked now a.user ≡ locked
        → k.verify_password req.password a.user.password_hash ≡ fits
        → (let r : Result ApiError Session × Account =
              if disabled
              then (err account_disabled, a)
              else if locked
              then (err account_locked, a)
              else if not fits
              then (err invalid_credentials, register_failed_login d.count_lost now a)
              else let o = check_totp k d now req.totp a in
                elim (o.0) as (λ _. Result ApiError Session × Account) [
                  | err e ↦ (err e, o.1)
                  | ok _ ↦ open_session k d session_ttl now (o.1)
                ] in
            r)
          ≡ (ok s, a')
        → Goal
    by_tests true locked fits x y z q = cc
    by_tests false true fits x y z q = cc
    by_tests false false false x y z q = cc
    by_tests false false true x y z q = by_totp (check_totp k d now req.totp a) refl x y z q
