-- ===== src/Compiler/Conflicts.antt =====
-- `detectConflicts`: a rule that two services claim at the highest priority.
-- The code collects the claims in a map and sorts what it finds by value; conflicts of one value and
-- two kinds stand here in the order of their first claims.
use smart_dns_proxy.Prelude.{
  not, List, [], ◌∷◌, ◌++◌, map, ltb, if◌then◌else◌, nat_eq, length, keep, Bytes, bytes_eq,
  bytes_lt,
}
use smart_dns_proxy.Prelude.Int.{ℤ, ltz, eqz}
use smart_dns_proxy.Prelude.Sort
use smart_dns_proxy.Domainset.{Entry, entry_beq, entry_eq, kind_text}
use smart_dns_proxy.Compiler.Types.{ServiceInput, Conflict}

pub record Owner : Type 0 where
  pub slug : Bytes
  pub priority : ℤ

-- one claim for each rule of each service
unfoldable pub service_claims : Owner → List Entry → List (Entry × Owner)
service_claims o [] = []
service_claims o (e ∷ es) = (e, o) ∷ service_claims o es

unfoldable pub claims : List ServiceInput → List (Entry × Owner)
unfolding service_claims
claims [] = []
claims (s ∷ services) =
    service_claims (record { slug = s.slug; priority = s.priority }) s.entries ++ claims services

-- `claims[e]`
unfoldable pub owners_of : Entry → List (Entry × Owner) → List Owner
owners_of e [] = []
owners_of e ((x, o) ∷ cs) = if entry_beq x e then o ∷ owners_of e cs else owners_of e cs

-- the keys of the map
unfoldable pub claimed : List (Entry × Owner) → List Entry
claimed [] = []
claimed ((x, o) ∷ cs) = x ∷ keep (λ y. not (entry_beq y x)) (claimed cs)

unfoldable pub top_priority : ℤ → List Owner → ℤ
top_priority top [] = top
top_priority top (o ∷ os) = top_priority (if ltz top o.priority then o.priority else top) os

abbrev pub first_priority : List Owner → ℤ
first_priority [] = ℤ.pos 0
first_priority (o ∷ os) = o.priority

-- the slugs of the owners with the highest priority
unfoldable pub tied : List Owner → List Bytes
unfolding top_priority
tied os =
    let top = top_priority (first_priority os) os in
    map (λ o. o.slug) (keep (λ o. eqz o.priority top) os)

unfoldable pub conflict_of : Entry → List Owner → List Conflict
unfolding tied
conflict_of e os =
    if ltb (length os) 2
    then []
    else if ltb 1 (length (tied os))
    then record {
      value = e.value;
      kind = kind_text e.kind;
      services = Sort.sort bytes_lt (tied os);
      priority = top_priority (first_priority os) os;
    }
      ∷ []
    else []

unfoldable pub conflicts_of : List Entry → List (Entry × Owner) → List Conflict
unfolding conflict_of owners_of
conflicts_of [] cs = []
conflicts_of (e ∷ es) cs = conflict_of e (owners_of e cs) ++ conflicts_of es cs

-- The conflicts, by value; none is no error.
unfoldable pub detect_conflicts : List ServiceInput → List Conflict
unfolding conflicts_of claims claimed
detect_conflicts services =
    let cs = claims services in
    Sort.sort (λ a b. bytes_lt a.value b.value) (conflicts_of (claimed cs) cs)
