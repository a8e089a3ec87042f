-- ===== src/Runtime/SemanticVm/Outcomes.antt =====
-- What is true of an outcome of eyeflow-server/src/runtime/semantic-vm.service.ts, with or without an
-- exception.
use eyeflow.Runtime.SemanticVm.{Fault, missing_loop_operands, Outcome, ok, thrown, and_then}

-- `P` of the value, `F` of the exception.
abbrev pub Meets {ℓ κ} : {A : Type ℓ} → (A → Type κ) → (Fault → Type κ) → Outcome A → Type κ
Meets P F (ok a) = P a
Meets P F (thrown e) = F e

pub and_then-Meets {ℓ ℓ' κ} :
    {A : Type ℓ} {B : Type ℓ'} (P : A → Type κ) (Q : B → Type κ) (F : Fault → Type κ)
    (o : Outcome A) (f : A → Outcome B)
    → Meets P F o
    → ((a : A) → P a → Meets Q F (f a))
    → Meets Q F (and_then o f)
unfolding and_then
and_then-Meets P Q F (ok a) f h k = k a h
and_then-Meets P Q F (thrown e) f h k = h

pub Meets-weaken {ℓ κ} :
    {A : Type ℓ} (P Q : A → Type κ) (F : Fault → Type κ) (o : Outcome A)
    → ((a : A) → P a → Q a)
    → Meets P F o
    → Meets Q F o
Meets-weaken P Q F (ok a) k h = k a h
Meets-weaken P Q F (thrown e) k h = h

-- Any exception but the one about missing operands of a LOOP.
abbrev pub IsOperational : Fault → Type 0
IsOperational missing_loop_operands = ⊥
IsOperational _ = Unit

pub Meets-relax {ℓ κ} :
    {A : Type ℓ} (P : A → Type κ) (F G : Fault → Type κ) (o : Outcome A)
    → ((e : Fault) → F e → G e)
    → Meets P F o
    → Meets P G o
Meets-relax P F G (ok a) k h = h
Meets-relax P F G (thrown e) k h = k e h
