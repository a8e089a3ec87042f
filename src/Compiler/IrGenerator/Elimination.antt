-- ===== src/Compiler/IrGenerator/Elimination.antt =====
-- What common subexpression elimination keeps, in
-- eyeflow-server/src/compiler/ir-generator/services/ir-optimizer.service.ts, also of the folded
-- constants of eyeflow-server/src/compiler/ir-generator/services/constant-folding.service.ts.
use mathlib.Core.Path.{subst}
use eyeflow.Common.{
  ◌≡◌, refl, ap, ◌∙◌, inl, inr, String, List, [], ◌∷◌, map, keep, In, In-append, ◌⊎◌, is_some,
  Bool-cases, if◌then◌else◌,
}
use eyeflow.Common.Eq.{string_equality}
use eyeflow.Common.JsMap.{lookup, insert}
use eyeflow.Compiler.IrGenerator.{Operand, IrInstruction}
use eyeflow.Compiler.IrGenerator.Dependencies.{In-add_keeps, In-add, In-contains, contains-In}
use eyeflow.Compiler.IrGenerator.Optimizer.{
  contains, add, operand_key, collect_removed, survives, perform_cse,
}

abbrev ids_of : List IrInstruction → List String
ids_of is = map (λ i. i.id) is

-- No id occurs twice.
abbrev pub IsUnique : List IrInstruction → Type 0
IsUnique [] = Unit
IsUnique (i ∷ is) = (¬ (In i.id (ids_of is))) × IsUnique is

module _ (stringify : List Operand → String) where
  -- The first instruction of each operand key, for keys that are not among those of `seen`.
  abbrev pub first_of_each : List IrInstruction → List (String × String) → List IrInstruction
  first_of_each [] seen = []
  first_of_each (i ∷ is) seen =
      let skip = first_of_each is seen in
      let take = i ∷ first_of_each is (insert (operand_key stringify i) i.id seen) in
      if is_some (lookup (operand_key stringify i) seen) then skip else take

  collect_keeps :
      (id : String) (is : List IrInstruction) (seen : List (String × String))
      (removed : List String)
      → In id removed
      → In id (collect_removed stringify is seen removed)
  unfolding collect_removed
  collect_keeps id [] seen removed m = m
  collect_keeps id (i ∷ is) seen removed m =
      elim (Bool-cases (is_some (lookup (operand_key stringify i) seen))) [
        | inl again ↦
            rw (again, collect_removed)
              (collect_keeps id is seen (add i.id removed) (In-add_keeps id i.id removed m))
        | inr first ↦
            rw (first, collect_removed)
              (collect_keeps id is (insert (operand_key stringify i) i.id seen) removed m)
      ]

  add-In : (id new : String) (ids : List String) → In id (add new ids) → (id ≡ new) ⊎ In id ids
  unfolding add
  add-In id new ids m = elim (Bool-cases (contains new ids)) [
    | inl known ↦ inr (rw (known, add) at m)
    | inr fresh ↦ elim (In-append id ids (new ∷ []) (rw (fresh, add) at m)) [
      | inl old ↦ inr old
      | inr last ↦ elim last [ inl same ↦ inl same | inr none_left ↦ elim none_left [ ] ]
    ]
  ]

  collect_adds :
      (id : String) (is : List IrInstruction) (seen : List (String × String))
      (removed : List String)
      → In id (collect_removed stringify is seen removed)
      → In id removed ⊎ In id (ids_of is)
  unfolding collect_removed
  collect_adds id [] seen removed m = inl m
  collect_adds id (i ∷ is) seen removed m =
      elim (Bool-cases (is_some (lookup (operand_key stringify i) seen))) [
        | inl again ↦
            elim (collect_adds id is seen (add i.id removed) (rw (again, collect_removed) at m)) [
              | inl there ↦ elim (add-In id i.id removed there) [
                | inl same ↦ inr (inl same)
                | inr old ↦ inl old
              ]
              | inr later ↦ inr (inr later)
            ]
        | inr first ↦ elim (collect_adds id is _ removed (rw (first, collect_removed) at m)) [
          | inl old ↦ inl old
          | inr later ↦ inr (inr later)
        ]
      ]

  drop_head :
      (removed : List String) (i : IrInstruction) (is : List IrInstruction)
      → In i.id removed
      → keep (survives stringify removed) (i ∷ is) ≡ keep (survives stringify removed) is
  drop_head removed i is m = let hit = contains-In i.id removed m in rw (hit, keep) refl

  keep_head :
      (removed : List String) (i : IrInstruction) (is : List IrInstruction)
      → ¬ (In i.id removed)
      → keep (survives stringify removed) (i ∷ is) ≡ i ∷ keep (survives stringify removed) is
  keep_head removed i is out = elim (Bool-cases (contains i.id removed)) [
    | inl hit ↦ absurd (out (In-contains i.id removed hit))
    | inr miss ↦ rw (miss, keep) refl
  ]

  cse_from :
      (is : List IrInstruction) (seen : List (String × String)) (removed : List String)
      → IsUnique is
      → ((id : String) → In id (ids_of is) → ¬ (In id removed))
      → keep (survives stringify (collect_removed stringify is seen removed)) is
        ≡ first_of_each is seen
  unfolding collect_removed
  cse_from [] seen removed unique fresh = refl
  cse_from (i ∷ is) seen removed unique fresh =
      elim (Bool-cases (is_some (lookup (operand_key stringify i) seen))) [
        | inl again ↦
            let r = collect_removed stringify is seen (add i.id removed) in
            let out =
              collect_keeps i.id is seen (add i.id removed)
                (In-contains i.id (add i.id removed) (In-add i.id removed)) in
            rw again (
              drop_head r i is out
              ∙ cse_from is seen (add i.id removed) unique.1 (λ id m found.
                elim (add-In id i.id removed found) [
                  | inl same ↦ unique.0 (subst (λ e. In e (ids_of is)) same m)
                  | inr old ↦ fresh id (inr m) old
                ]))
        | inr first ↦
            let seen' = insert (operand_key stringify i) i.id seen in
            let r = collect_removed stringify is seen' removed in
            rw first (
              keep_head r i is (λ found. elim (collect_adds i.id is seen' removed found) [
                | inl old ↦ fresh i.id (inl refl) old
                | inr later ↦ unique.0 later
              ])
              ∙ ap (λ rest. i ∷ rest)
                  (cse_from is seen' removed unique.1 (λ id m. fresh id (inr m))))
      ]

  -- With distinct ids, common subexpression elimination keeps exactly the first instruction of each
  -- operand key, in order; opcodes play no part.
  pub perform_cse-first_of_each :
      (is : List IrInstruction)
      → IsUnique is
      → (perform_cse stringify is).instructions ≡ first_of_each is []
  unfolding perform_cse
  perform_cse-first_of_each is unique = cse_from is [] [] unique (λ id m found. elim found [ ])
