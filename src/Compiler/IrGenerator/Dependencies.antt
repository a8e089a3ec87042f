-- ===== src/Compiler/IrGenerator/Dependencies.antt =====
-- What dead code elimination keeps, in
-- eyeflow-server/src/compiler/ir-generator/services/ir-optimizer.service.ts.
use mathlib.Core.Path.{subst}
use eyeflow.Common.{
  ◌≡◌, refl, sym, inl, inr, String, true, List, [], ◌∷◌, ◌++◌, keep, In, In-keep, any-In, In-any,
  In-append_left, In-append_right, Bool-cases,
}
use eyeflow.Common.Eq.{◌==◌, eq_same, string_equality}
use eyeflow.Compiler.IrGenerator.{IrInstruction}
use eyeflow.Compiler.IrGenerator.Optimizer.{
  contains, add, add_all, used_by_dependent, is_used, unless_empty, perform_dce,
}

pub contains-In : (id : String) (ids : List String) → In id ids → contains id ids ≡ true
contains-In id ids m = any-In (λ i. i == id) id ids m (eq_same id)

pub In-add_keeps : (id new : String) (ids : List String) → In id ids → In id (add new ids)
unfolding add
In-add_keeps id new ids m = elim (Bool-cases (contains new ids)) [
  | inl known ↦ rw known m
  | inr fresh ↦ rw fresh (In-append_left id ids (new ∷ []) m)
]

pub In-add : (id : String) (ids : List String) → contains id (add id ids) ≡ true
unfolding add
In-add id ids = elim (Bool-cases (contains id ids)) [
  | inl known ↦ rw (known, add) known
  | inr fresh ↦
      rw (fresh, add)
        (contains-In id (ids ++ id ∷ []) (In-append_right id ids (id ∷ []) (inl refl)))
]

pub In-contains : (id : String) (ids : List String) → contains id ids ≡ true → In id ids
In-contains id ids h =
    let (found, m, same) = In-any (λ i. i == id) ids h in
    subst (λ e. In e ids) ((string_equality.test_iff found id).0 same) m

In-add_all_keeps : (id : String) (new ids : List String) → In id ids → In id (add_all new ids)
unfolding add_all
In-add_all_keeps id [] ids m = m
In-add_all_keeps id (n ∷ new) ids m = In-add_all_keeps id new (add n ids) (In-add_keeps id n ids m)

In-add_all : (id : String) (new ids : List String) → In id new → In id (add_all new ids)
unfolding add_all
In-add_all id [] ids m = elim m [ ]
In-add_all id (n ∷ new) ids (inl same) =
    In-add_all_keeps id new (add n ids)
      (subst (λ e. In e (add n ids)) (sym same) (In-contains n (add n ids) (In-add n ids)))
In-add_all id (n ∷ new) ids (inr later) = In-add_all id new (add n ids) later

used_keeps :
    (id : String) (is : List IrInstruction) (ids : List String)
    → In id ids
    → In id (used_by_dependent is ids)
unfolding used_by_dependent
used_keeps id [] ids m = m
used_keeps id (i ∷ is) ids m =
    used_keeps id is (add_all i.dependencies ids) (In-add_all_keeps id i.dependencies ids m)

In-used :
    (id : String) (i : IrInstruction) (is : List IrInstruction) (ids : List String)
    → In i is
    → In id i.dependencies
    → In id (used_by_dependent is ids)
unfolding used_by_dependent
In-used id i [] ids m d = elim m [ ]
In-used id i (j ∷ js) ids (inl same) d =
    used_keeps id js (add_all j.dependencies ids) (In-add_all id j.dependencies ids (rw same at d))
In-used id i (j ∷ js) ids (inr later) d = In-used id i js (add_all j.dependencies ids) later d

unless_empty-In :
    (i j : IrInstruction) (kept is : List IrInstruction)
    → ((k : IrInstruction) → In k kept → In k is)
    → (In i is → In j kept)
    → In j is
    → In i (unless_empty kept is)
    → In j (unless_empty kept is)
unless_empty-In i j [] is within keeps m h = m
unless_empty-In i j (k ∷ ks) is within keeps m h = keeps (within i h)

-- Dead code elimination removes no instruction that a remaining one depends on: what it keeps finds
-- its dependencies among what it keeps, as far as the program had them.
pub perform_dce-closed :
    (is : List IrInstruction) (i j : IrInstruction)
    → In i (perform_dce is).instructions
    → In j is
    → In j.id i.dependencies
    → In j (perform_dce is).instructions
unfolding perform_dce
perform_dce-closed is i j kept m d =
    let used = used_by_dependent is [] in
    let test = is_used used in
    unless_empty-In i j (keep test is) is (λ k h. ((In-keep test k is).0 h).0)
      (λ h.
        let hit = contains-In j.id used (In-used j.id i is [] h d) in
        (In-keep test j is).1 (m, rw hit refl))
      m kept
