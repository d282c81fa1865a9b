-- ===== src/Base.antt =====
-- The names that the other modules share: the libraries', passed on, and those of the children.
mod Tests
mod Lists
pub use Tests.*
pub use Lists.*
pub use Prim.Native.Nat.{ℕ, zero, suc, ◌+◌, ◌-◌, ◌*◌, ◌/◌, ◌%◌, ◌^◌, ◌≤◌, ◌<◌, min, max}
pub use Prim.Native.Nat.{bit_and, bit_or, bit_xor}
pub use mathlib.Core.Path.{◌≡◌, refl, sym, ap, ap₂, ◌∙◌, subst}
pub use mathlib.Core.Logic.{◌≢◌, ◌↔◌, ◌⊎◌, inl, inr}
pub use mathlib.Core.Bool.{Bool, true, false, false≢true, not, ◌&&◌, ◌||◌}
pub use mathlib.Core.Option.{Option, none, some}
pub use mathlib.Core.List.{List, [], ◌∷◌, ◌++◌, map, append-nil, append_assoc}
pub use native.Mathlib.Omega.{arith}

-- A C computation that may reach an access out of bounds or an overflow of an `int`, which C leaves
-- undefined.
pub data Outcome {ℓ} (A : Type ℓ) : Type ℓ where
  done : A → Outcome A
  fault : Outcome A

abbrev pub bind {ℓ} : {A B : Type ℓ} → Outcome A → (A → Outcome B) → Outcome B
bind (done a) k = k a
bind fault k = fault

-- `for (int i = from; i < from + n; i++)`, whose rounds change a state.
unfoldable pub for_range {ℓ} : {A : Type ℓ} → ℕ → ℕ → (ℕ → A → Outcome A) → A → Outcome A
for_range zero i body a = done a
for_range (suc n) i body a = bind (body i a) (for_range n (i + 1) body)

-- What holds before the first round, and after each round when it held before it, holds at the end,
-- and the loop comes to it.
pub for_range-invariant {ℓ} :
    {A : Type ℓ} (P : ℕ → A → Type ℓ) (n i : ℕ) (body : ℕ → A → Outcome A) (a : A)
    → P i a
    → ((k : ℕ) (b : A) → i ≤ k → k < i + n → P k b → (b' : A) × (body k b ≡ done b') × P (k + 1) b')
    → (a' : A) × (for_range n i body a ≡ done a') × P (i + n) a'
unfolding for_range
for_range-invariant P zero i body a h each = (a, refl, subst (λ m. P m a) (omega arith) h)
for_range-invariant P (suc n) i body a h each =
    let (b, first, hb) = each i a (omega arith) (omega arith) h in
    let (a', rest, ha) =
      for_range-invariant P n (i + 1) body b hb
        (λ k c l u hc. each k c (omega arith) (omega arith) hc) in
    (
      a',
      ap (λ r. bind r (for_range n (i + 1) body)) first ∙ rest,
      subst (λ m. P m a') (omega arith) ha,
    )

-- If the computation stays defined, its result has the property.
abbrev pub IfDone {ℓ} : {A : Type ℓ} → (A → Type ℓ) → Outcome A → Type ℓ
IfDone P (done a) = P a
IfDone P fault = Unit

pub bind-IfDone {ℓ} :
    {A B : Type ℓ} (P : A → Type ℓ) (Q : B → Type ℓ) (m : Outcome A) (next : A → Outcome B)
    → IfDone P m
    → ((a : A) → P a → IfDone Q (next a))
    → IfDone Q (bind m next)
bind-IfDone P Q (done a) next h k = k a h
bind-IfDone P Q fault next h k = tt

pub for_range-IfDone {ℓ} :
    {A : Type ℓ} (P : A → Type ℓ) (n i : ℕ) (body : ℕ → A → Outcome A) (a : A)
    → P a
    → ((k : ℕ) (b : A) → P b → IfDone P (body k b))
    → IfDone P (for_range n i body a)
unfolding for_range
for_range-IfDone P zero i body a h each = h
for_range-IfDone P (suc n) i body a h each =
    bind-IfDone P P (body i a) (for_range n (i + 1) body) (each i a h)
      (λ b hb. for_range-IfDone P n (i + 1) body b hb each)

-- A loop whose rounds do nothing.
pub for_range-idle {ℓ} :
    {A : Type ℓ} (n i : ℕ) (body : ℕ → A → Outcome A) (a : A)
    → ((k : ℕ) (b : A) → i ≤ k → body k b ≡ done b)
    → for_range n i body a ≡ done a
unfolding for_range
for_range-idle zero i body a idle = refl
for_range-idle (suc n) i body a idle =
    ap (λ r. bind r (for_range n (i + 1) body)) (idle i a (omega arith))
    ∙ for_range-idle n (i + 1) body a (λ k b l. idle k b (omega (arith, l)))

-- A loop in which only round `j` does something.
pub for_range-only {ℓ} :
    {A : Type ℓ} (n i j : ℕ) (body : ℕ → A → Outcome A) (a b : A)
    → i ≤ j
    → j < i + n
    → ((k : ℕ) (c : A) → k ≢ j → body k c ≡ done c)
    → body j a ≡ done b
    → for_range n i body a ≡ done b
unfolding for_range
for_range-only zero i j body a b l u idle works = absurd (omega arith)
for_range-only (suc n) i j body a b l u idle works = elim (at_or_before i j l) [
  | inl e ↦
      ap (λ r. bind r (for_range n (i + 1) body)) (subst (λ k. body k a ≡ done b) (sym e) works)
      ∙ for_range-idle n (i + 1) body b (λ k c low. idle k c (omega (arith, e, low)))
  | inr before ↦
      ap (λ r. bind r (for_range n (i + 1) body)) (idle i a (omega (arith, before)))
      ∙ for_range-only n (i + 1) j body a b (omega (arith, before)) (omega arith) idle works
]
  where
    at_or_before : (i j : ℕ) → i ≤ j → (i ≡ j) ⊎ (i < j)
    at_or_before i j h = omega arith
