-- ===== src/Common/Always.antt =====
-- What holds of every result of a computation that may fault.
use mathlib.Core.Path.{◌≡◌, refl, subst}
use mathlib.Core.Bool.{Bool, true, false}
use mathlib.Core.Option.{Option, none, some}
use mathlib.Core.Logic.{◌⊎◌, inl, inr}
use rust_nethuns.Common.Tests.{◌>>=◌, Result, ok, err, if◌then◌else◌}

pub record Always {A : Type 0} (P : A → Type 0) (m : Option A) : Type 0 where
  pub holds : (a : A) → m ≡ some a → P a

pub Always-some : {A : Type 0} {P : A → Type 0} {a : A} → P a → Always P (some a)
Always-some {A} {P} {a} h = record { holds = λ b e. subst P (some-injective a b e) h }
  where
    some-injective : (a b : A) → some a ≡ some b → a ≡ b
    some-injective a b e = cc

pub Always-none : {A : Type 0} {P : A → Type 0} → Always P none
Always-none {A} {P} = record { holds = λ a e. cc }

pub Always-bind :
    {A B : Type 0} {P : B → Type 0} (m : Option A) (f : A → Option B)
    → ((a : A) → Always P (f a))
    → Always P (m >>= f)
Always-bind none f h = Always-none
Always-bind (some a) f h = h a

-- The same, with what always holds of the first computation.
pub Always-then :
    {A B : Type 0} {Q : A → Type 0} {P : B → Type 0} (m : Option A) (f : A → Option B)
    → Always Q m
    → ((a : A) → Q a → Always P (f a))
    → Always P (m >>= f)
Always-then none f q h = Always-none
Always-then (some a) f q h = h a (q.holds a refl)

pub Always-if :
    {A : Type 0} {P : A → Type 0} (b : Bool) {m n : Option A}
    → Always P m
    → Always P n
    → Always P (if b then m else n)
Always-if true h k = h
Always-if false h k = k

pub Always-weaken :
    {A : Type 0} {P Q : A → Type 0} {m : Option A} → ((a : A) → P a → Q a) → Always P m → Always Q m
Always-weaken f h = record { holds = λ a e. f a (h.holds a e) }

pub Result-cases :
    {A E : Type 0} (r : Result A E) → ((a : A) × (r ≡ ok a)) ⊎ ((e : E) × (r ≡ err e))
Result-cases (ok a) = inl (a, refl)
Result-cases (err e) = inr (e, refl)
