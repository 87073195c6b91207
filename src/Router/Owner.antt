-- ===== src/Router/Owner.antt =====
-- `Lookup` of node/dnsfe/router.go: the service that is returned.
use mathlib.Core.Path.{subst₂}
use smart_dns_proxy.Prelude.{
  ◌≡◌, refl, sym, ap, ◌∙◌, ◌⊎◌, inl, inr, true, false, ◌&&◌, none, some, List, [], ◌∷◌, arith,
  Bool-cases, nat_eq, all, All, Bytes, bytes_eq,
}
use smart_dns_proxy.Prelude.Int.{ℤ, pos, negsuc, ltz, eqz, ltz_irrefl}
use smart_dns_proxy.Platform.{Platform}
use smart_dns_proxy.Model.{Service}
use smart_dns_proxy.Domainset.Matcher.{specificity}
use smart_dns_proxy.Router.{Route, Router, Best, no_best, consider, lookup_loop, lookup}

abbrev spec_of : Platform → Bytes → Route → ℤ
spec_of pl host r = specificity pl (some r.matcher) host

-- A route that matches is no better than this specificity and priority.
abbrev pub NoBetter : ℤ → ℤ → ℤ → ℤ → Type 0
NoBetter spec prio s p = (ltz spec s ≡ false) × (eqz s spec ≡ true → ltz prio p ≡ false)

not_ltz_trans : (a b c : ℤ) → ltz b a ≡ false → ltz c b ≡ false → ltz c a ≡ false
not_ltz_trans (pos a) (pos b) (pos c) h k = ground arith
not_ltz_trans (pos a) (pos b) (negsuc c) h k = cc
not_ltz_trans (pos a) (negsuc b) c h k = cc
not_ltz_trans (negsuc a) b (pos c) h k = refl
not_ltz_trans (negsuc a) (pos b) (negsuc c) h k = cc
not_ltz_trans (negsuc a) (negsuc b) (negsuc c) h k = ground arith

eqz→eq : (a b : ℤ) → eqz a b ≡ true → a ≡ b
eqz→eq (pos a) (pos b) h = ground arith
eqz→eq (negsuc a) (negsuc b) h = ground arith
eqz→eq (pos a) (negsuc b) h = cc
eqz→eq (negsuc a) (pos b) h = cc

eqz_refl : (a : ℤ) → eqz a a ≡ true
eqz_refl (pos a) = ground arith
eqz_refl (negsuc a) = ground arith

ltz→not_ltz : (a b : ℤ) → ltz a b ≡ true → ltz b a ≡ false
ltz→not_ltz (pos a) (pos b) h = ground arith
ltz→not_ltz (pos a) (negsuc b) h = cc
ltz→not_ltz (negsuc a) (pos b) h = refl
ltz→not_ltz (negsuc a) (negsuc b) h = ground arith

ltz-eqz : (a b : ℤ) → ltz a b ≡ true → eqz b a ≡ false
ltz-eqz (pos a) (pos b) h = ground arith
ltz-eqz (pos a) (negsuc b) h = cc
ltz-eqz (negsuc a) (pos b) h = refl
ltz-eqz (negsuc a) (negsuc b) h = ground arith

ltz_total : (a b : ℤ) → ltz a b ≡ false → ltz b a ≡ false → eqz a b ≡ true
ltz_total (pos a) (pos b) h k = ground arith
ltz_total (negsuc a) (negsuc b) h k = ground arith
ltz_total (pos a) (negsuc b) h k = cc
ltz_total (negsuc a) (pos b) h k = cc

-- The order of pairs passes on.
NoBetter-trans : (s p t q u r : ℤ) → NoBetter s p t q → NoBetter t q u r → NoBetter s p u r
NoBetter-trans s p t q u r (h, h') (k, k') = (
  not_ltz_trans u t s k h,
  λ e.
      let q₁ : u ≡ s = eqz→eq u s e in
      let q₂ : ltz t s ≡ false = rw q₁ at k in
      let q₃ : eqz t s ≡ true = ltz_total t s q₂ h in
      let q₄ : eqz u t ≡ true = rw (q₁ ∙ sym (eqz→eq t s q₃)) (eqz_refl t) in
      not_ltz_trans r q p (k' q₄) (h' q₃),
)

NoBetter-refl : (s p : ℤ) → NoBetter s p s p
NoBetter-refl s p = (ltz_irrefl s, λ _. ltz_irrefl p)

-- What one round makes of the best so far.
consider_lem :
    (svc : Service) (spec : ℤ) (b : Best)
    → let c = consider svc spec b in
      NoBetter c.spec c.prio b.spec b.prio
      × ((ltz spec (pos 0) ≡ true) ⊎ NoBetter c.spec c.prio spec svc.priority)
      × ((c ≡ b)
          ⊎ ((c ≡ record { best = some svc; spec = spec; prio = svc.priority })
              × (ltz spec (pos 0) ≡ false)))
unfolding consider
consider_lem svc spec b = elim (Bool-cases (ltz spec (pos 0))) [
  | inl negative ↦ rw negative (NoBetter-refl b.spec b.prio, inl refl, inl refl)
  | inr matched ↦ rw matched (elim (Bool-cases (ltz b.spec spec)) [
    | inl more ↦ rw more (
      (ltz→not_ltz b.spec spec more, λ e. cc (e, ltz-eqz b.spec spec more, eqz_comm b.spec spec)),
      inr (NoBetter-refl spec svc.priority),
      inr (refl, refl),
    )
    | inr no_more ↦ rw no_more (elim (Bool-cases (eqz spec b.spec && ltz b.prio svc.priority)) [
      | inl tie ↦
          let same : eqz spec b.spec ≡ true = ground arith in
          let higher : ltz b.prio svc.priority ≡ true = ground arith in
          rw tie (
            (
              rw (eqz→eq spec b.spec same) (ltz_irrefl b.spec),
              λ e. ltz→not_ltz b.prio svc.priority higher,
            ),
            inr (NoBetter-refl spec svc.priority),
            inr (refl, refl),
          )
      | inr stays ↦
          rw stays (NoBetter-refl b.spec b.prio, inr (no_more, λ e. ground arith), inl refl)
    ])
  ])
]
  where
    eqz_comm : (a b : ℤ) → eqz a b ≡ eqz b a
    eqz_comm (pos a) (pos b) = ground arith
    eqz_comm (negsuc a) (negsuc b) = ground arith
    eqz_comm (pos a) (negsuc b) = refl
    eqz_comm (negsuc a) (pos b) = refl

abbrev pub Member : {A : Type 0} → A → List A → Type 0
Member x [] = ⊥
Member x (y ∷ ys) = (x ≡ y) ⊎ Member x ys

module _ (pl : Platform) (host : Bytes) where
  -- No route that matches the host is better than this specificity and priority.
  abbrev pub Dominates : ℤ → ℤ → List Route → Type 0
  Dominates s p = All (λ r.
      (ltz (spec_of pl host r) (pos 0) ≡ true) ⊎ NoBetter s p (spec_of pl host r) r.svc.priority)

  abbrev chosen : Route → Best
  chosen r = record { best = some r.svc; spec = spec_of pl host r; prio = r.svc.priority }

  abbrev From : List Route → Best → Best → Type 0
  From routes b c =
      (c ≡ b)
      ⊎ ((r : Route) × Member r routes × (c ≡ chosen r) × (ltz (spec_of pl host r) (pos 0) ≡ false))

  lookup_loop_lem :
      (routes : List Route) (b : Best)
      → let c = lookup_loop pl host routes b in
        NoBetter c.spec c.prio b.spec b.prio × Dominates c.spec c.prio routes × From routes b c
  unfolding lookup_loop
  lookup_loop_lem [] b = (NoBetter-refl b.spec b.prio, tt, inl refl)
  lookup_loop_lem (r ∷ routes) b =
      let spec = spec_of pl host r in
      let b' = consider r.svc spec b in
      let c = lookup_loop pl host routes b' in
      let (kept, covered, source) = consider_lem r.svc spec b in
      let (better, rest, from) = lookup_loop_lem routes b' in
      (
        NoBetter-trans c.spec c.prio b'.spec b'.prio b.spec b.prio better kept,
        (first c b' spec better covered, rest),
        origin b' c source from,
      )
    where
      first :
          (c b' : Best) (spec : ℤ)
          → NoBetter c.spec c.prio b'.spec b'.prio
          → (ltz spec (pos 0) ≡ true) ⊎ NoBetter b'.spec b'.prio spec r.svc.priority
          → (ltz spec (pos 0) ≡ true) ⊎ NoBetter c.spec c.prio spec r.svc.priority
      first c b' spec better (inl negative) = inl negative
      first c b' spec better (inr n) =
          inr (NoBetter-trans c.spec c.prio b'.spec b'.prio spec r.svc.priority better n)

      origin :
          (b' c : Best)
          → (b' ≡ b) ⊎ ((b' ≡ chosen r) × (ltz (spec_of pl host r) (pos 0) ≡ false))
          → From routes b' c
          → From (r ∷ routes) b c
      origin b' c source (inr (r', m, q, n)) = inr (r', inr m, q, n)
      origin b' c (inl old) (inl q) = inl (q ∙ old)
      origin b' c (inr (new, n)) (inl q) = inr (r, inl refl, q ∙ new, n)

-- If a service is returned, it is that of a route that matches, and no matching route is more
-- specific, nor as specific with a higher priority.
pub lookup-some :
    (pl : Platform) (r : Router) (host : Bytes) (s : Service)
    → lookup pl r host ≡ some s
    → (route : Route) × Member route r.routes
      × (route.svc ≡ s)
      × (ltz (specificity pl (some route.matcher) host) (pos 0) ≡ false)
      × Dominates pl host (specificity pl (some route.matcher) host) s.priority r.routes
unfolding lookup
lookup-some pl r host s e =
    let (better, all, from) = lookup_loop_lem pl host r.routes no_best in
    by_source (lookup_loop pl host r.routes no_best) e all from
  where
    by_source :
        (c : Best)
        → c.best ≡ some s
        → Dominates pl host c.spec c.prio r.routes
        → From pl host r.routes no_best c
        → (route : Route) × Member route r.routes
          × (route.svc ≡ s)
          × (ltz (specificity pl (some route.matcher) host) (pos 0) ≡ false)
          × Dominates pl host (specificity pl (some route.matcher) host) s.priority r.routes
    by_source c q every (inl none_found) =
        absurd (no_service (ap (λ (b : Best). b.best) none_found) q)
      where
        no_service : c.best ≡ none → c.best ≡ some s → ⊥
        no_service u v = cc
    by_source c q every (inr (route, m, same, n)) =
        let svc : route.svc ≡ s = some_injective (sym (ap (λ (b : Best). b.best) same) ∙ q) in
        let spec : c.spec ≡ specificity pl (some route.matcher) host =
          ap (λ (b : Best). b.spec) same in
        let prio : c.prio ≡ s.priority =
          ap (λ (b : Best). b.prio) same ∙ ap (λ (t : Service). t.priority) svc in
        (route, m, svc, n, subst₂ (λ u v. Dominates pl host u v r.routes) spec prio every)
      where
        some_injective : {x y : Service} → some x ≡ some y → x ≡ y
        some_injective u = cc

-- If none is returned, no route has a specificity of zero or more.
pub lookup-none :
    (pl : Platform) (r : Router) (host : Bytes)
    → lookup pl r host ≡ none
    → All (λ route. ltz (specificity pl (some route.matcher) host) (pos 0) ≡ true) r.routes
unfolding lookup
lookup-none pl r host e =
    let (better, all, from) = lookup_loop_lem pl host r.routes no_best in
    by_source (lookup_loop pl host r.routes no_best) e all from
  where
    negatives :
        (routes : List Route)
        → Dominates pl host (negsuc 0) (negsuc 0) routes
        → All (λ route. ltz (specificity pl (some route.matcher) host) (pos 0) ≡ true) routes
    negatives [] d = tt
    negatives (x ∷ routes) (d, ds) =
        (negative (specificity pl (some x.matcher) host) d, negatives routes ds)
      where
        negative :
            (spec : ℤ)
            → (ltz spec (pos 0) ≡ true) ⊎ NoBetter (negsuc 0) (negsuc 0) spec x.svc.priority
            → ltz spec (pos 0) ≡ true
        negative spec (inl n) = n
        negative (pos n) (inr (h, k)) = cc
        negative (negsuc n) (inr (h, k)) = refl

    by_source :
        (c : Best)
        → c.best ≡ none
        → Dominates pl host c.spec c.prio r.routes
        → From pl host r.routes no_best c
        → All (λ route. ltz (specificity pl (some route.matcher) host) (pos 0) ≡ true) r.routes
    by_source c q every (inl same) = negatives r.routes (
        subst₂ (λ u v. Dominates pl host u v r.routes) (ap (λ (b : Best). b.spec) same)
          (ap (λ (b : Best). b.prio) same) every)
    by_source c q every (inr (route, m, same, n)) =
        absurd (no_service (sym q ∙ ap (λ (b : Best). b.best) same))
      where
        no_service : none ≡ some (route.svc) → ⊥
        no_service u = cc
