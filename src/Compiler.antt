-- ===== src/Compiler.antt =====
-- panel/internal/compiler/compile.go: from the desired state to one artifact for each node.
pub mod Types
pub mod Conflicts
pub mod Services
pub mod Nodes
pub mod Cover
pub mod Backed
pub mod Routes
pub mod Shape
use smart_dns_proxy.Prelude.{
  ℕ, zero, suc, ◌+◌, ◌-◌, ◌*◌, ◌/◌, ◌%◌, ◌^◌, ◌≤◌, ◌<◌, ◌≡◌, refl, sym, ap, ◌∙◌, ◌≢◌, ◌↔◌, ◌⊎◌, inl,
  inr, Bool, true, false, not, ◌&&◌, ◌||◌, Option, none, some, List, [], ◌∷◌, ◌++◌, map, arith, ltb,
  leb, ◌==◌, if◌then◌else◌, ltb→lt, ltb→le, lt→ltb, leb→le, leb→lt, ==_iff, tests, Bool-cases,
  Option-cases, eq_of_iff, is_some, Eq, nat_eq, beq_refl, length, is_empty, get_or, take, drop,
  keep, any, all, length-append, take-append-drop, take-append, drop-append, length-take,
  length-drop, length-keep-le, All, All-append, All-keep, elem, nodup, elem-append, elem-keep,
  All-elem, elem-All, switch, switch-All, Bytes, codes, bytes_beq, bytes_beq_refl, bytes_beq_iff,
  bytes_eq, bytes_lt, bytes_lt_irrefl, bytes_lt_asymm, bytes_lt_trans, bytes_lt_total, Result, ok,
  err, ◌>>=◌, or_else, >>=-eq-ok,
}
use smart_dns_proxy.Compiler.Types.{Input, Output, CompileError, no_revision_id, rule_conflicts}
use smart_dns_proxy.Compiler.Conflicts.{detect_conflicts}
use smart_dns_proxy.Compiler.Services.{Build, new_build, compile_services}
use smart_dns_proxy.Compiler.Nodes.{Codec, finish}

unfoldable pub compile : Codec → Input → Result CompileError Output
unfolding detect_conflicts compile_services finish
compile codec inp =
    if is_empty inp.revision_id
    then err no_revision_id
    else if not (is_empty (detect_conflicts inp.services))
    then err (rule_conflicts (detect_conflicts inp.services))
    else do b ← compile_services inp.nodes inp.services new_build; finish codec inp b
