-- ===== src/Auth/Access.antt =====
-- Who gets past `authenticate` and `requireAuth` of panel/internal/api/session.go.
use smart_dns_proxy.Prelude.{
  ℕ, ◌≤◌, ◌<◌, ◌≡◌, refl, sym, ap, ◌∙◌, ◌↔◌, ◌⊎◌, inl, inr, Bool, true, false, not, ◌&&◌, ◌||◌,
  Option, none, some, List, [], ◌∷◌, arith, ltb, leb, if◌then◌else◌, leb→le, nat_eq, is_empty,
  Bytes, bytes_beq, bytes_beq_iff, bytes_eq, ok, err, ok-inj,
}
use mathlib.Core.Path.{subst}
use smart_dns_proxy.Router.Owner.{Member}
use smart_dns_proxy.Auth.{Session, Account, Crypto, unauthenticated, csrf_failed, forbidden}
use smart_dns_proxy.Auth.Roles.{
  SessionUser, find_session, authenticate, role_rank, role_at_least, is_safe_method, require_auth,
}

pub some_inj : {A : Type 0} {x y : A} → some x ≡ some y → x ≡ y
some_inj q = cc

-- A request reaches its handler, as the user of its session, exactly if it has a session, reads only
-- or carries the session's CSRF token, and the role of the user ranks no lower than the one required.
require_auth_iff :
    (min_role method csrf_header : Bytes) (principal : Option SessionUser) (u : SessionUser)
    → (require_auth min_role method csrf_header principal ≡ ok u) ↔ (
        (principal ≡ some u)
        × ((is_safe_method method || bytes_beq csrf_header u.csrf) ≡ true)
        × (role_rank min_role ≤ role_rank u.role))
unfolding require_auth role_at_least
require_auth_iff min_role method csrf_header none u = (
  λ h. absurd (let e : err unauthenticated ≡ ok u = h in cc),
  λ h. absurd (let e : none ≡ some u = h.0 in cc),
)
require_auth_iff min_role method csrf_header (some v) u = (
  λ h.
      forth (not (is_safe_method method) && not (bytes_beq csrf_header v.csrf))
        (leb (role_rank min_role) (role_rank v.role)) refl refl h,
  λ (principal, safe, ranked).
      let same : v ≡ u = some_inj principal in
      back (not (is_safe_method method) && not (bytes_beq csrf_header v.csrf))
        (leb (role_rank min_role) (role_rank v.role)) same refl refl safe ranked,
)
  where
    forth :
        (forged ranked : Bool)
        → (not (is_safe_method method) && not (bytes_beq csrf_header v.csrf)) ≡ forged
        → leb (role_rank min_role) (role_rank v.role) ≡ ranked
        → (if forged then err csrf_failed else if not ranked then err forbidden else ok v) ≡ ok u
        → (some v ≡ some u)
          × ((is_safe_method method || bytes_beq csrf_header u.csrf) ≡ true)
          × (role_rank min_role ≤ role_rank u.role)
    forth true ranked f r h = absurd (let e : err csrf_failed ≡ ok u = h in cc)
    forth false false f r h = absurd (let e : err forbidden ≡ ok u = h in cc)
    forth false true f r h =
        let same : v ≡ u = ok-inj h in
        subst
          (λ (w : SessionUser).
            (some v ≡ some w)
            × ((is_safe_method method || bytes_beq csrf_header w.csrf) ≡ true)
            × (role_rank min_role ≤ role_rank w.role))
          same (refl, ground arith, leb→le _ _ r)

    back :
        (forged ranked : Bool)
        → v ≡ u
        → (not (is_safe_method method) && not (bytes_beq csrf_header v.csrf)) ≡ forged
        → leb (role_rank min_role) (role_rank v.role) ≡ ranked
        → (is_safe_method method || bytes_beq csrf_header u.csrf) ≡ true
        → role_rank min_role ≤ role_rank u.role
        → (if forged then err csrf_failed else if not ranked then err forbidden else ok v) ≡ ok u
    back forged ranked same f r safe rank_ok =
        let safe' : (is_safe_method method || bytes_beq csrf_header v.csrf) ≡ true =
          subst
            (λ (w : SessionUser). (is_safe_method method || bytes_beq csrf_header w.csrf) ≡ true)
            (sym same) safe in
        let rank_ok' : role_rank min_role ≤ role_rank v.role =
          subst (λ (w : SessionUser). role_rank min_role ≤ role_rank w.role) (sym same) rank_ok in
        let f' : forged ≡ false = sym f ∙ (ground arith) in
        let r' : ranked ≡ true = sym r ∙ (ground arith) in rw (f', r') (ap ok same)

find_session-Member :
    (h : Bytes) (now : ℕ) (sessions : List Session) (s : Session)
    → find_session h now sessions ≡ some s
    → Member s sessions × (s.token_hash ≡ h) × (now < s.expires_at)
unfolding find_session
find_session-Member h now [] s q = cc
find_session-Member h now (t ∷ sessions) s q =
    by_test (bytes_beq t.token_hash h && ltb now t.expires_at) refl
      (find_session-Member h now sessions s) q
  where
    by_test :
        (b : Bool)
        → (bytes_beq t.token_hash h && ltb now t.expires_at) ≡ b
        → (find_session h now sessions ≡ some s
            → Member s sessions × (s.token_hash ≡ h) × (now < s.expires_at))
        → (if b then some t else find_session h now sessions) ≡ some s
        → Member s (t ∷ sessions) × (s.token_hash ≡ h) × (now < s.expires_at)
    by_test true e later q =
        subst (λ (r : Session). Member r (t ∷ sessions) × (r.token_hash ≡ h) × (now < r.expires_at))
          (some_inj q) (inl refl, (bytes_beq_iff t.token_hash h).0 (ground arith), ground arith)
    by_test false e later q = let (m, hashed, fresh) = later q in (inr m, hashed, fresh)

-- The user of a request: the user of the account, by a session of the account that has the cookie's
-- hash and has not expired; a request that may write carries that session's CSRF token.
abbrev pub IsEntitled : Crypto → ℕ → Bytes → Bytes → Bytes → Bytes → Account → SessionUser → Type 0
IsEntitled k now min_role method csrf_header cookie a u =
    (a.user.disabled ≡ false)
    × (u.id ≡ a.user.id)
    × (role_rank min_role ≤ role_rank a.user.role)
    × ((s : Session) × Member s a.sessions
        × (s.token_hash ≡ k.hash_token cookie)
        × (now < s.expires_at)
        × (s.id ≡ u.session_id)
        × ((is_safe_method method ≡ true) ⊎ (csrf_header ≡ s.csrf_token)))

-- Through `authenticate` and `requireAuth` a request reaches its handler only as the user of an account
-- that is not disabled, by a session of that account whose token has the hash of the cookie's and which
-- has not expired; the user's role ranks at least as high as the one required; and a request that is
-- not GET, HEAD or OPTIONS carries the CSRF token of that session.
pub require_auth-authenticate :
    (k : Crypto) (now : ℕ) (min_role method csrf_header cookie : Bytes) (a : Account)
    (u : SessionUser)
    → require_auth min_role method csrf_header (authenticate k now cookie a) ≡ ok u
    → IsEntitled k now min_role method csrf_header cookie a u
unfolding authenticate
require_auth-authenticate k now min_role method csrf_header cookie a u q =
    let (principal, safe, ranked) =
      (require_auth_iff min_role method csrf_header (authenticate k now cookie a) u).0 q in
    by_cookie (is_empty cookie || a.user.disabled)
      (find_session (k.hash_token cookie) now a.sessions) refl refl principal safe ranked
  where
    by_cookie :
        (b : Bool) (o : Option Session)
        → (is_empty cookie || a.user.disabled) ≡ b
        → find_session (k.hash_token cookie) now a.sessions ≡ o
        → (if b then none else elim o as (λ _. Option SessionUser) [
          | none ↦ none
          | some s ↦ some (record {
            id = a.user.id;
            role = a.user.role;
            session_id = s.id;
            csrf = s.csrf_token;
          })
        ])
          ≡ some u
        → (is_safe_method method || bytes_beq csrf_header u.csrf) ≡ true
        → role_rank min_role ≤ role_rank u.role
        → IsEntitled k now min_role method csrf_header cookie a u
    by_cookie true o e f q safe ranked = cc
    by_cookie false none e f q safe ranked = cc
    by_cookie false (some s) e f q safe ranked =
        let same = some_inj q in
        let (m, hashed, fresh) = find_session-Member (k.hash_token cookie) now a.sessions s f in
        let rank' : role_rank min_role ≤ role_rank a.user.role =
          subst (λ r. role_rank min_role ≤ role_rank r)
            (ap (λ (w : SessionUser). w.role) (sym same)) ranked in
        let token : (is_safe_method method || bytes_beq csrf_header s.csrf_token) ≡ true =
          subst (λ c. (is_safe_method method || bytes_beq csrf_header c) ≡ true)
            (ap (λ (w : SessionUser). w.csrf) (sym same)) safe in
        (
          ground arith,
          ap (λ (w : SessionUser). w.id) (sym same),
          rank',
          (
            s,
            m,
            hashed,
            fresh,
            ap (λ (w : SessionUser). w.session_id) same,
            by_method (is_safe_method method) refl token,
          ),
        )
      where
        by_method :
            (safe : Bool)
            → is_safe_method method ≡ safe
            → (safe || bytes_beq csrf_header s.csrf_token) ≡ true
            → (is_safe_method method ≡ true) ⊎ (csrf_header ≡ s.csrf_token)
        by_method true g t = inl g
        by_method false g t = inr ((bytes_beq_iff csrf_header s.csrf_token).0 t)
