-- ===== src/Compiler/Verifier/Termination/Order.antt =====
-- What a search without an issue finds in a program without LOOP: an order in which every node
-- comes after those it leads to (eyeflow-server/src/compiler/stages/stage-5-formal-verifier.service.ts,
-- `checkTermination`).
use mathlib.Core.Path.{subst}
use eyeflow.Common.{
  ℕ, zero, suc, ◌≡◌, ◌≢◌, ◌↔◌, refl, sym, inl, inr, false, none, some, List, [], ◌∷◌, ◌++◌, arith,
  In, any, Bool-cases, Option-cases,
}
use eyeflow.Common.Eq.{◌==◌, nat_equality}
use eyeflow.Common.JsMap.{lookup, lookup-insert}
use eyeflow.Compiler.Verifier.{VerificationError, issue_at, error}
use eyeflow.Compiler.Verifier.Termination.{
  gray, black, Search, Graph, successors, paint, is_covered, visit_successor, visit_successors, dfs,
  search_all,
}

-- No issue, and the fuel did not run out.
abbrev pub IsClean : Search → Type 0
IsClean s = (s.errors ≡ []) × (s.exhausted ≡ false)

-- Every node leads only to nodes further down the list.
abbrev pub IsClosed : Graph → List ℕ → Type 0
IsClosed g [] = Unit
IsClosed g (n ∷ ns) = ((m : ℕ) → In m (successors g n) → In m ns) × IsClosed g ns

-- The black nodes in the order in which they were finished, the last first.
pub record IsFinished (g : Graph) (s : Search) (order : List ℕ) : Type 0 where
  pub listed : (n : ℕ) → lookup n s.color ≡ some black → In n order
  pub finished : (n : ℕ) → In n order → lookup n s.color ≡ some black
  pub closed : IsClosed g order

-- After a call the finished nodes have grown, and the gray ones are what they were.
pub record Progress (g : Graph) (s t : Search) (order : List ℕ) : Type 0 where
  pub order' : List ℕ
  pub valid : IsFinished g t order'
  pub grown : (n : ℕ) → In n order → In n order'
  pub grays : (n : ℕ) → (lookup n t.color ≡ some gray) ↔ (lookup n s.color ≡ some gray)

any-false {ℓ} : {A : Type ℓ} (xs : List A) → any (λ _. false) xs ≡ false
any-false [] = refl
any-false (x ∷ xs) = any-false xs

not-nil-append : (es : List VerificationError) (e : VerificationError) → es ++ e ∷ [] ≢ []
not-nil-append [] e h = cc
not-nil-append (x ∷ es) e h = cc

abbrev Orders : Graph → (ℕ → List ℕ → Search → Search) → Type 0
Orders g visit =
    (node : ℕ) (path : List ℕ) (s : Search) (order : List ℕ)
    → IsClean (visit node path s)
    → IsClean s
      × (lookup node s.color ≡ none
          → IsFinished g s order
          → (p : Progress g s (visit node path s) order) × In node p.order')

abbrev unchanged :
    (g : Graph) (s : Search) (order : List ℕ) → IsFinished g s order → Progress g s s order
unchanged g s order v = record {
  order' = order;
  valid = v;
  grown = λ n m. m;
  grays = λ n. (λ h. h, λ h. h);
}

abbrev followed_by :
    (g : Graph) (s t u : Search) (order : List ℕ) (p : Progress g s t order)
    → Progress g t u p.order'
    → Progress g s u order
followed_by g s t u order p q = record {
  order' = q.order';
  valid = q.valid;
  grown = λ n m. q.grown n (p.grown n m);
  grays = λ n. (λ h. (p.grays n).0 ((q.grays n).0 h), λ h. (q.grays n).1 ((p.grays n).1 h));
}

visit_successor_order :
    (g : Graph) (visit : ℕ → List ℕ → Search → Search) (path : List ℕ) (succ : ℕ) (s : Search)
    (order : List ℕ)
    → Orders g visit
    → IsClean (visit_successor visit [] path succ s)
    → IsClean s
      × (IsFinished g s order
          → (p : Progress g s (visit_successor visit [] path succ s) order) × In succ p.order')
unfolding visit_successor is_covered
visit_successor_order g visit path succ s order orders clean =
    elim (Option-cases (lookup succ s.color)) [
      | inl fresh ↦
          let (was, rest) =
            orders succ (path ++ succ ∷ []) s order (rw (fresh, visit_successor) at clean) in
          (was, λ v. rw (fresh, visit_successor) (rest fresh v))
      | inr (gray, e) ↦
          let bad = rw (e, visit_successor, any-false) at clean.0 in
          absurd (not-nil-append s.errors (issue_at "TERM-001" error succ) bad)
      | inr (black, e) ↦ (
        rw (e, visit_successor) at clean,
        λ v. rw (e, visit_successor) (unchanged g s order v, v.listed succ e),
      )
    ]

visit_successors_order :
    (g : Graph) (visit : ℕ → List ℕ → Search → Search) (path succs : List ℕ) (s : Search)
    (order : List ℕ)
    → Orders g visit
    → IsClean (visit_successors visit [] path succs s)
    → IsClean s
      × (IsFinished g s order
          → (p : Progress g s (visit_successors visit [] path succs s) order) × ((n : ℕ)
              → In n succs
              → In n p.order'))
unfolding visit_successors
visit_successors_order g visit path [] s order orders clean =
    (clean, λ v. (unchanged g s order v, λ n m. elim m [ ]))
visit_successors_order g visit path (succ ∷ rest) s order orders clean =
    let t = visit_successor visit [] path succ s in
    let later = λ (o : List ℕ). visit_successors_order g visit path rest t o orders clean in
    let (was, here) = visit_successor_order g visit path succ s order orders (later order).0 in
    (
      was,
      λ v.
          let (p, m) = here v in
          let (q, ms) = (later p.order').1 p.valid in
          (
            followed_by g s t _ order p q,
            λ n k. elim k [
              | inl same ↦ q.grown n (subst (λ x. In x p.order') (sym same) m)
              | inr old ↦ ms n old
            ],
          ),
    )

-- A node is finished once all that it leads to is.
finish :
    (g : Graph) (node : ℕ) (s t : Search) (order : List ℕ)
    → lookup node s.color ≡ none
    → IsFinished g s order
    → (p : Progress g (paint node gray s) t order)
    → ((n : ℕ) → In n (successors g node) → In n p.order')
    → (q : Progress g s (paint node black t) order) × In node q.order'
unfolding paint
finish g node s t order fresh v p below = (
  record {
    order' = node ∷ p.order';
    valid = record {
      listed = λ n h. elim (Bool-cases (node == n)) [
        | inl here ↦ inl (sym ((nat_equality.test_iff node n).0 here))
        | inr other ↦ inr (p.valid.listed n (ground (arith, lookup-insert node n black t.color)))
      ];
      finished = λ n m. elim m [
        | inl here ↦
            ground (arith, lookup-insert node n black t.color, nat_equality.test_iff node n)
        | inr old ↦
            let done = p.valid.finished n old in ground (arith, lookup-insert node n black t.color)
      ];
      closed = (below, p.valid.closed);
    };
    grown = λ n m. inr (p.grown n m);
    grays = λ n.
        let g' = p.grays n in
        let e = nat_equality.test_iff node n in
        let b = lookup-insert node n black t.color in
        let a = lookup-insert node n gray s.color in (λ h. ground arith, λ h. ground arith);
  },
  inl refl,
)

gray-IsFinished :
    (g : Graph) (node : ℕ) (s : Search) (order : List ℕ)
    → lookup node s.color ≡ none
    → IsFinished g s order
    → IsFinished g (paint node gray s) order
unfolding paint
gray-IsFinished g node s order fresh v = record {
  listed = λ n h. v.listed n (ground (arith, lookup-insert node n gray s.color));
  finished = λ n m.
      let done = v.finished n m in
      ground (arith, lookup-insert node n gray s.color, nat_equality.test_iff node n);
  closed = v.closed;
}

dfs_order : (fuel : ℕ) (g : Graph) → Orders g (dfs fuel g [])
unfolding dfs
dfs_order zero g node path s order clean = cc
dfs_order (suc fuel) g node path s order clean =
    let s' = paint node gray s in
    let visits =
      visit_successors_order g (dfs fuel g []) path (successors g node) s' order (dfs_order fuel g)
        (unfold paint in clean) in
    (
      unfold paint in visits.0,
      λ fresh v.
          let (p, below) = visits.1 (gray-IsFinished g node s order fresh v) in
          finish g node s _ order fresh v p below,
    )

pub search_all_order :
    (fuel : ℕ) (g : Graph) (nodes : List ℕ) (s : Search) (order : List ℕ)
    → IsClean (search_all fuel g [] nodes s)
    → IsClean s
      × (IsFinished g s order
          → ((n : ℕ) → ¬ (lookup n s.color ≡ some gray))
          → (p : Progress g s (search_all fuel g [] nodes s) order) × ((n : ℕ)
              → In n nodes
              → In n p.order'))
unfolding search_all
search_all_order fuel g [] s order clean =
    (clean, λ v none_gray. (unchanged g s order v, λ n m. elim m [ ]))
search_all_order fuel g (node ∷ nodes) s order clean = elim (Option-cases (lookup node s.color)) [
  | inl fresh ↦
      let t = dfs fuel g [] node (node ∷ []) s in
      let clean' : IsClean (search_all fuel g [] nodes t) = rw (fresh, search_all) at clean in
      let (was, here) =
        dfs_order fuel g node (node ∷ []) s order
          (search_all_order fuel g nodes t order clean').0 in
      (
        was,
        λ v none_gray.
            let (p, m) = here fresh v in
            let (q, ms) =
              (search_all_order fuel g nodes t p.order' clean').1 p.valid
                (λ n h. none_gray n ((p.grays n).0 h)) in
            rw (search_all, fresh)
              (
                followed_by g s t _ order p q,
                λ n k. elim k [
                  | inl same ↦ q.grown n (subst (λ x. In x p.order') (sym same) m)
                  | inr old ↦ ms n old
                ],
              ),
      )
  | inr (c, e) ↦
      let clean' : IsClean (search_all fuel g [] nodes s) = rw (e, search_all) at clean in
      let (was, rest) = search_all_order fuel g nodes s order clean' in
      (
        was,
        λ v none_gray.
            let (p, ms) = rest v none_gray in
            let black_node : lookup node s.color ≡ some black = ground (arith, none_gray node) in
            rw (search_all, e)
              (
                p,
                λ n k. elim k [
                  | inl same ↦
                      p.grown n (subst (λ x. In x order) (sym same) (v.listed node black_node))
                  | inr old ↦ ms n old
                ],
              ),
      )
]
