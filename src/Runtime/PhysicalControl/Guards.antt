-- ===== src/Runtime/PhysicalControl/Guards.antt =====
-- When a time window lets a physical action pass, in
-- eyeflow-server/src/runtime/physical-control.service.ts.
use mathlib.Core.Path.{subst}
use eyeflow.Common.{
  ℕ, ◌+◌, ◌*◌, ◌≤◌, ◌≡◌, ◌≢◌, ◌↔◌, refl, sym, ap, ◌∙◌, ◌⊎◌, inl, inr, String, Bool, true, false,
  not, ◌&&◌, Option, none, some, arith, Bool-cases, Option-cases, if◌then◌else◌, List, [], ◌∷◌, In,
  In-any, any-In, any, nat_eq_iff, or_else,
}
use eyeflow.Common.Eq.{◌==◌, nat_equality, string_equality}
use eyeflow.Runtime.PhysicalControl.{
  TimeWindow, Calendar, minutes_of, is_before, is_after, is_empty, bound_of, assert_time_window,
}

-- The weekday at `now` is one of the window's; a window without days has all of them.
abbrev IsOnDay : Calendar → ℕ → TimeWindow → Type 0
IsOnDay calendar now tw =
    (tw.days ≡ []) ⊎ In (calendar.day_in (or_else tw.timezone "UTC") now) tw.days

-- The text is there, is not empty and starts with an hour and a minute, which together make the
-- minute `bound` of the day.
pub record Reads (calendar : Calendar) (text : Option String) (bound : ℕ) : Type 0 where
  pub written : String
  pub hour : ℕ
  pub minute : ℕ
  pub rest : List (Option ℕ)
  pub given : text ≡ some written
  pub filled : written ≢ ""
  pub parts : calendar.split_numbers written ≡ some hour ∷ some minute ∷ rest
  pub total : hour * 60 + minute ≡ bound

-- The time of day is not before the start time, and not after the end time, if the text reads as one.
pub IsFrom : Calendar → Option String → ℕ → Type 0
IsFrom calendar text current = (bound : ℕ) → Reads calendar text bound → bound ≤ current

pub IsUntil : Calendar → Option String → ℕ → Type 0
IsUntil calendar text current = (bound : ℕ) → Reads calendar text bound → current ≤ bound

minutes_of-parts :
    (parts : List (Option ℕ)) (bound : ℕ)
    → minutes_of parts ≡ some bound
    → (h : ℕ) × (m : ℕ) × (rest : List (Option ℕ)) × (parts ≡ some h ∷ some m ∷ rest)
      × (h * 60 + m ≡ bound)
minutes_of-parts [] bound e = absurd (cc)
minutes_of-parts (none ∷ ps) bound e = absurd (cc)
minutes_of-parts (some h ∷ []) bound e = absurd (cc)
minutes_of-parts (some h ∷ none ∷ ps) bound e = absurd (cc)
minutes_of-parts (some h ∷ some m ∷ rest) bound e = (h, m, rest, refl, cc)

bound_of-Reads :
    (calendar : Calendar) (text : Option String) (bound : ℕ)
    → bound_of calendar text ≡ some bound
    → Reads calendar text bound
unfolding bound_of
bound_of-Reads calendar none bound e = absurd (cc)
bound_of-Reads calendar (some t) bound e = elim (Bool-cases (t == "")) [
  | inl empty ↦ let clash = rw (empty, bound_of) at e in absurd (cc)
  | inr filled ↦
      let found = minutes_of-parts (calendar.split_numbers t) bound (rw (filled, bound_of) at e) in
      record {
        written = t;
        hour = found.0;
        minute = found.1;
        rest = found.2;
        given = refl;
        filled = λ same. let hit = (string_equality.test_iff t "").1 same in cc;
        parts = found.3;
        total = found.4;
      }
]

Reads-bound_of :
    (calendar : Calendar) (text : Option String) (bound : ℕ)
    → Reads calendar text bound
    → bound_of calendar text ≡ some bound
unfolding bound_of
Reads-bound_of calendar none bound r = let clash = r.given in absurd (cc)
Reads-bound_of calendar (some t) bound r = elim (Bool-cases (t == "")) [
  | inl empty ↦
      let blank = (string_equality.test_iff t "").0 empty in
      let same : t ≡ r.written = let g = r.given in cc in absurd (r.filled (sym same ∙ blank))
  | inr filled ↦
      let same : t ≡ r.written = let g = r.given in cc in
      let parts = ap calendar.split_numbers same ∙ r.parts in
      rw (filled, bound_of) (ap minutes_of parts ∙ ap some r.total)
]

IsFrom-iff :
    (calendar : Calendar) (text : Option String) (c : ℕ)
    → (is_before c (bound_of calendar text) ≡ false) ↔ IsFrom calendar text c
unfolding IsFrom
IsFrom-iff calendar text c = (
  λ h bound r. let found = Reads-bound_of calendar text bound r in ground arith,
  λ h. elim (Option-cases (bound_of calendar text)) [
    | inl absent ↦ rw absent refl
    | inr (bound, found) ↦
        let low = h bound (bound_of-Reads calendar text bound found) in rw found (ground arith)
  ],
)

IsUntil-iff :
    (calendar : Calendar) (text : Option String) (c : ℕ)
    → (is_after c (bound_of calendar text) ≡ false) ↔ IsUntil calendar text c
unfolding IsUntil
IsUntil-iff calendar text c = (
  λ h bound r. let found = Reads-bound_of calendar text bound r in ground arith,
  λ h. elim (Option-cases (bound_of calendar text)) [
    | inl absent ↦ rw absent refl
    | inr (bound, found) ↦
        let high = h bound (bound_of-Reads calendar text bound found) in rw found (ground arith)
  ],
)

days_iff :
    (days : List ℕ) (day : ℕ)
    → (not (is_empty days) && not (any (λ d. d == day) days) ≡ false) ↔ ((days ≡ []) ⊎ In day days)
days_iff [] day = (λ h. inl refl, λ h. refl)
days_iff (d ∷ ds) day = (
  λ h.
      let (found, m, same) = In-any (λ e. e == day) (d ∷ ds) (ground arith) in
      inr (subst (λ e. In e (d ∷ ds)) ((nat_eq_iff found day).0 same) m),
  λ h. elim h [
    | inl empty ↦ cc
    | inr m ↦
        let hit = any-In (λ e. e == day) day (d ∷ ds) m ((nat_eq_iff day day).1 refl) in
        ground arith
  ],
)

-- A time window lets an action pass exactly if the weekday in its time zone is one of its days, or
-- it has none, and the time of day there is not before the start time and not after the end time, as
-- far as these are given as an hour and a minute.
pub assert_time_window_iff :
    (calendar : Calendar) (now : ℕ) (tw : TimeWindow)
    → (assert_time_window calendar now tw ≡ true) ↔ (
        IsOnDay calendar now tw
        × IsFrom calendar tw.start_time (calendar.minutes_in (or_else tw.timezone "UTC") now)
        × IsUntil calendar tw.end_time (calendar.minutes_in (or_else tw.timezone "UTC") now))
unfolding assert_time_window
assert_time_window_iff calendar now tw =
    let day = calendar.day_in (or_else tw.timezone "UTC") now in
    let current = calendar.minutes_in (or_else tw.timezone "UTC") now in
    go (not (is_empty tw.days) && not (any (λ e. e == day) tw.days))
      (is_before current (bound_of calendar tw.start_time))
      (is_after current (bound_of calendar tw.end_time)) (days_iff tw.days day)
      (IsFrom-iff calendar tw.start_time current) (IsUntil-iff calendar tw.end_time current)
  where
    go :
        (a b c : Bool) {P Q R : Type 0}
        → (a ≡ false) ↔ P
        → (b ≡ false) ↔ Q
        → (c ≡ false) ↔ R
        → ((if a then false else if b then false else not c) ≡ true) ↔ (P × Q × R)
    go true b c p q r = (λ h. cc, λ h. let e = p.1 h.0 in cc)
    go false true c p q r = (λ h. cc, λ h. let e = q.1 h.1 in cc)
    go false false true p q r = (λ h. cc, λ h. let e = r.1 h.2 in cc)
    go false false false p q r = (λ h. (p.0 refl, q.0 refl, r.0 refl), λ h. refl)
