-- ===== src/Compiler/Cover.antt =====
-- The rules and ports that the loop over the services gives to each egress node.
use smart_dns_proxy.Prelude.{
  ℕ, ◌≡◌, refl, ap, ◌∙◌, inl, inr, Bool, true, false, not, none, some, List, [], ◌∷◌, ◌++◌, arith,
  if◌then◌else◌, Bool-cases, Option-cases, nat_eq, is_empty, All, All-append, elem, elem-append,
  Bytes, bytes_beq, bytes_beq_refl, bytes_eq,
}
use smart_dns_proxy.Domainset.{Entry, entry_eq}
use smart_dns_proxy.Model.{EgressTarget}
use smart_dns_proxy.Compiler.Types.{
  EgressMember, ServiceInput, NodeInput, ports_or_default, find_node, no_relay_endpoint,
}
use smart_dns_proxy.Compiler.Services.{
  Build, add_ports, endpoint, use_member, add_member, add_members,
}

add_ports-old : (p : ℕ) (ps set : List ℕ) → elem p set ≡ true → elem p (add_ports ps set) ≡ true
unfolding add_ports
add_ports-old p [] set h = h
add_ports-old p (q ∷ ps) set h =
    let set' = if elem q set then set else set ++ q ∷ [] in
    let kept : elem p set' ≡ true = ground (arith, elem-append p set (q ∷ [])) in
    add_ports-old p ps set' kept

add_ports-new : (p : ℕ) (ps set : List ℕ) → elem p ps ≡ true → elem p (add_ports ps set) ≡ true
unfolding add_ports
add_ports-new p [] set h = cc
add_ports-new p (q ∷ ps) set h =
    let set' = if elem q set then set else set ++ q ∷ [] in
    elim (Bool-cases (nat_eq.beq p q)) [
      | inl same ↦
          let q' : p ≡ q = (nat_eq.beq_iff p q).0 same in
          let kept : elem p set' ≡ true =
            ground (arith, elem-append p set (q ∷ []), ap (λ x. elem x set) q') in
          add_ports-old p ps set' kept
      | inr other ↦ add_ports-new p ps set' (ground arith)
    ]

-- The node lets through the rules and the ports.
abbrev pub Lets : Build → List Entry → List ℕ → Bytes → Type 0
Lets b es ports id =
    ((x : Entry) → elem x es ≡ true → elem x (b.allow id) ≡ true)
    × ((p : ℕ) → elem p ports ≡ true → elem p (b.ports id) ≡ true)

abbrev pub Grows : Build → Build → Type 0
Grows b c = (id : Bytes) → Lets c (b.allow id) (b.ports id) id

pub Lets-Grows :
    (b c : Build) (es : List Entry) (ports : List ℕ) (id : Bytes)
    → Grows b c
    → Lets b es ports id
    → Lets c es ports id
Lets-Grows b c es ports id g h = ((λ x m. (g id).0 x (h.0 x m)), (λ p m. (g id).1 p (h.1 p m)))

abbrev pub Served : Build → ServiceInput → EgressTarget → Type 0
Served b s t = Lets b s.entries (ports_or_default s.allowed_ports) t.node_id

pub Served-Grows :
    (b c : Build) (s : ServiceInput) (ts : List EgressTarget)
    → Grows b c
    → All (Served b s) ts
    → All (Served c s) ts
Served-Grows b c s [] g h = tt
Served-Grows b c s (t ∷ ts) g h = (
  Lets-Grows b c s.entries (ports_or_default s.allowed_ports) t.node_id g h.0,
  Served-Grows b c s ts g h.1,
)

use_member-Served :
    (s : ServiceInput) (m : EgressMember) (n : NodeInput) (ts : List EgressTarget) (b : Build)
    → All (Served b s) ts
    → let r = use_member s m n (ts, b) in All (Served (r.1) s) (r.0) × Grows b (r.1)
unfolding use_member
use_member-Served s m n ts b h =
    let ports = ports_or_default s.allowed_ports in
    let grows : Grows b ((use_member s m n (ts, b)).1) = grow in
    (
      All-append (Served ((use_member s m n (ts, b)).1) s) ts _
          (Served-Grows b ((use_member s m n (ts, b)).1) s ts grows h)
          ((
            (
              λ x k.
                  rw (bytes_beq_refl n.id)
                    (elem-append x (b.allow n.id) s.entries ∙ ground (arith, k)),
              λ p k. rw (bytes_beq_refl n.id) (add_ports-new p ports (b.ports n.id) k),
            ),
            tt,
          )),
      grows,
    )
  where
    grow : Grows b ((use_member s m n (ts, b)).1)
    grow id = elim (Bool-cases (bytes_beq id n.id)) [
      | inl e ↦ (
        λ x k. rw e (elem-append x (b.allow id) s.entries ∙ ground (arith, k)),
        λ p k. rw e (add_ports-old p (ports_or_default s.allowed_ports) (b.ports id) k),
      )
      | inr e ↦ (λ x k. rw e k, λ p k. rw e k)
    ]

add_member-Served :
    (nodes : List NodeInput) (s : ServiceInput) (m : EgressMember) (ts : List EgressTarget)
    (b : Build)
    → All (Served b s) ts
    → let r = add_member nodes s m (ts, b) in All (Served (r.1) s) (r.0) × Grows b (r.1)
unfolding add_member
add_member-Served nodes s m ts b h =
    elim (find_node m.node_id nodes)
      as (λ found.
        let r : List EgressTarget × Build = elim found [
          | none ↦ (ts, b)
          | some n ↦
              if not n.eligible
              then (ts, b)
              else if is_empty (endpoint n)
              then (ts, record b { warnings = b.warnings ++ no_relay_endpoint n.name ∷ [] })
              else use_member s m n (ts, b)
        ] in
        All (Served (r.1) s) (r.0) × Grows b (r.1)) [
          | none ↦ (h, λ id. (λ x k. k, λ p k. k))
          | some n ↦ guards n n.eligible (is_empty (endpoint n))
        ]
  where
    guards :
        (n : NodeInput) (eligible no_endpoint : Bool)
        → let r : List EgressTarget × Build =
            if not eligible
            then (ts, b)
            else if no_endpoint
            then (ts, record b { warnings = b.warnings ++ no_relay_endpoint n.name ∷ [] })
            else use_member s m n (ts, b) in
          All (Served (r.1) s) (r.0) × Grows b (r.1)
    guards n false no_endpoint = (h, λ id. (λ x k. k, λ p k. k))
    guards n true true = (h, λ id. (λ x k. k, λ p k. k))
    guards n true false = use_member-Served s m n ts b h

pub add_members-Served :
    (nodes : List NodeInput) (s : ServiceInput) (ms : List EgressMember) (ts : List EgressTarget)
    (b : Build)
    → All (Served b s) ts
    → let r = add_members nodes s ms (ts, b) in All (Served (r.1) s) (r.0) × Grows b (r.1)
unfolding add_members
add_members-Served nodes s [] ts b h = (h, λ id. (λ x k. k, λ p k. k))
add_members-Served nodes s (m ∷ ms) ts b h =
    let r = add_member nodes s m (ts, b) in
    let (served, grows) = add_member-Served nodes s m ts b h in
    let (served', grows') = add_members-Served nodes s ms (r.0) (r.1) served in
    (
      served',
      λ id. (λ x k. (grows' id).0 x ((grows id).0 x k), λ p k. (grows' id).1 p ((grows id).1 p k)),
    )

add_member-compiled :
    (nodes : List NodeInput) (s : ServiceInput) (m : EgressMember) (ts : List EgressTarget)
    (b : Build)
    → ((add_member nodes s m (ts, b)).1).compiled ≡ b.compiled
unfolding add_member use_member
add_member-compiled nodes s m ts b = elim (Option-cases (find_node m.node_id nodes)) [
  | inl none_found ↦ rw (none_found, add_member) refl
  | inr (n, found) ↦ rw (found, add_member) (guards n n.eligible (is_empty (endpoint n)))
]
  where
    guards :
        (n : NodeInput) (eligible no_endpoint : Bool)
        → let r : List EgressTarget × Build =
            if not eligible
            then (ts, b)
            else if no_endpoint
            then (ts, record b { warnings = b.warnings ++ no_relay_endpoint n.name ∷ [] })
            else use_member s m n (ts, b) in
          (r.1).compiled ≡ b.compiled
    guards n false no_endpoint = refl
    guards n true true = refl
    guards n true false = refl

pub add_members-compiled :
    (nodes : List NodeInput) (s : ServiceInput) (ms : List EgressMember) (ts : List EgressTarget)
    (b : Build)
    → ((add_members nodes s ms (ts, b)).1).compiled ≡ b.compiled
unfolding add_members
add_members-compiled nodes s [] ts b = refl
add_members-compiled nodes s (m ∷ ms) ts b =
    let r = add_member nodes s m (ts, b) in
    add_members-compiled nodes s ms (r.0) (r.1) ∙ add_member-compiled nodes s m ts b
