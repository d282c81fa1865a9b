-- ===== src/Drivers/Timer/Members.antt =====
-- Lists of subscribers: which are in them, and what taking one out and putting one in does.
use mathlib.Core.Option.{some-injective, none-ne-some}
use qemu_devices_and_drivers.Base.{
  ◌||◌, ◌<◌, none, some, length, ap, ◌∙◌, ℕ, ◌≤◌, ltb, ◌==◌, Bool, true, false, List, [], ◌∷◌, ◌≡◌,
  ◌≢◌, ◌⊎◌, refl, sym, subst, Bool-cases, inl, inr, arith,
}
use qemu_devices_and_drivers.Drivers.Timer.{In, remove, first}
use qemu_devices_and_drivers.Drivers.Timer.Order.{All, All-imp, Descending, insert_descending}

pub All-const : (P : ℕ → Type 0) (js : List ℕ) → ((j : ℕ) → P j) → All P js
All-const P [] h = tt
All-const P (j ∷ js) h = (h j, All-const P js h)

pub All-In : (P : ℕ → Type 0) (js : List ℕ) → ((j : ℕ) → In j js → P j) → All P js
All-In P [] h = tt
All-In P (j ∷ js) h = (h j (inl refl), All-In P js (λ i m. h i (inr m)))

pub In-All : (P : ℕ → Type 0) (j : ℕ) (js : List ℕ) → All P js → In j js → P j
In-All P j [] a m = absurd m
In-All P j (i ∷ js) a (inl e) = subst P e a.0
In-All P j (i ∷ js) a (inr m) = In-All P j js a.1 m

pub All-both : (P Q : ℕ → Type 0) (js : List ℕ) → All P js → All Q js → All (λ j. P j × Q j) js
All-both P Q [] a b = tt
All-both P Q (j ∷ js) a b = ((a.0, b.0), All-both P Q js a.1 b.1)

-- Only the keys of the list matter.
pub Descending-keys :
    (key key' : ℕ → ℕ) (js : List ℕ)
    → All (λ j. key' j ≡ key j) js
    → Descending key js
    → Descending key' js
Descending-keys key key' [] a d = tt
Descending-keys key key' (j ∷ js) a d = (
  All-imp (λ i. (key' i ≡ key i) × (key i ≤ key j)) _ js (λ i h. omega (arith, h, a.0))
      (All-both _ _ js a.1 d.0),
  Descending-keys key key' js a.1 d.1,
)

module _ (P : ℕ → Type 0) (id : ℕ) where
  pub All-remove : (js : List ℕ) → All P js → All P (remove id js)
  All-remove [] a = tt
  All-remove (j ∷ js) a = ground (arith, All-remove js a.1)

  pub remove-All : (js : List ℕ) → ((j : ℕ) → j ≢ id → P j) → All P (remove id js)
  remove-All [] h = tt
  remove-All (j ∷ js) h = elim (Bool-cases (j == id)) [
    | inl e ↦ rw e (remove-All js h)
    | inr e ↦ rw e (h j (ground arith), remove-All js h)
  ]

pub Descending-remove :
    (key : ℕ → ℕ) (id : ℕ) (js : List ℕ) → Descending key js → Descending key (remove id js)
Descending-remove key id [] d = tt
Descending-remove key id (j ∷ js) d = elim (Bool-cases (j == id)) [
  | inl e ↦ rw e (Descending-remove key id js d.1)
  | inr e ↦ rw e (All-remove (λ i. key i ≤ key j) id js d.0, Descending-remove key id js d.1)
]

pub In-remove : (id j : ℕ) (js : List ℕ) → (j == id) ≡ false → In j js → In j (remove id js)
In-remove id j [] n m = absurd m
In-remove id j (i ∷ js) n (inl e) = rw (subst (λ k. (k == id) ≡ false) (sym e) n) (inl e)
In-remove id j (i ∷ js) n (inr m) = elim (Bool-cases (i == id)) [
  | inl e ↦ rw e (In-remove id j js n m)
  | inr e ↦ rw e (inr (In-remove id j js n m))
]

pub In-insert :
    (key : ℕ → ℕ) (id : ℕ) (js : List ℕ) (j : ℕ)
    → (j ≡ id) ⊎ In j js
    → In j (insert_descending key id js)
unfolding insert_descending
In-insert key id [] j (inl e) = inl (sym e)
In-insert key id [] j (inr m) = absurd m
In-insert key id (i ∷ js) j m = elim (Bool-cases (ltb (key i) (key id))) [
  | inl e ↦ rw e (front m)
  | inr e ↦ rw e (behind (In-insert key id js j) m)
]
  where
    front : (j ≡ id) ⊎ In j (i ∷ js) → In j (id ∷ i ∷ js)
    front (inl e) = inl (sym e)
    front (inr m) = inr m

    behind :
        ((j ≡ id) ⊎ In j js → In j (insert_descending key id js))
        → (j ≡ id) ⊎ In j (i ∷ js)
        → In j (i ∷ insert_descending key id js)
    behind deeper (inl e) = inr (deeper (inl e))
    behind deeper (inr (inl e)) = inl e
    behind deeper (inr (inr m)) = inr (deeper (inr m))

abbrev pub mem : ℕ → List ℕ → Bool
mem j [] = false
mem j (i ∷ is) = (j == i) || mem j is

-- No queued key is larger than that of the first.
pub first-largest :
    (key : ℕ → ℕ) (js : List ℕ) (j : ℕ)
    → Descending key js
    → In j js
    → (id : ℕ) × (first js ≡ some id) × (key j ≤ key id)
first-largest key [] j d m = absurd m
first-largest key (i ∷ js) j d (inl e) = (i, refl, subst (λ k. key k ≤ key i) e (omega arith))
first-largest key (i ∷ js) j d (inr m) = (i, refl, below js d.0 m)
  where
    below : (js : List ℕ) → All (λ k. key k ≤ key i) js → In j js → key j ≤ key i
    below [] a m = absurd m
    below (k ∷ ks) a (inl e) = subst (λ k. key k ≤ key i) e a.0
    below (k ∷ ks) a (inr m) = below ks a.1 m

pub mem-remove : (j id : ℕ) (js : List ℕ) → j ≢ id → mem j (remove id js) ≡ mem j js
mem-remove j id [] n = refl
mem-remove j id (i ∷ js) n = elim (Bool-cases (i == id)) [
  | inl e ↦ rw e (mem-remove j id js n ∙ sym (ap (λ b. b || mem j js) (differ e)))
  | inr e ↦ rw e (ap (λ b. (j == i) || b) (mem-remove j id js n))
]
  where
    differ : (i == id) ≡ true → (j == i) ≡ false
    differ e = ground arith

pub mem-removed : (id : ℕ) (js : List ℕ) → mem id (remove id js) ≡ false
mem-removed id [] = refl
mem-removed id (i ∷ js) = ground (arith, mem-removed id js)

pub first-In : (js : List ℕ) (id : ℕ) → first js ≡ some id → In id js
first-In [] id h = absurd (none-ne-some id h)
first-In (j ∷ js) id h = inl (some-injective j id h)

pub first-none : (js : List ℕ) → first js ≡ none → js ≡ []
first-none [] h = refl
first-none (j ∷ js) h = absurd (none-ne-some j (sym h))

pub length-remove : (id : ℕ) (js : List ℕ) → length (remove id js) ≤ length js
length-remove id [] = omega arith
length-remove id (j ∷ js) = ground (arith, length-remove id js)

pub length-remove-first :
    (id : ℕ) (js : List ℕ) → first js ≡ some id → length (remove id js) < length js
length-remove-first id [] h = absurd (none-ne-some id h)
length-remove-first id (j ∷ js) h = ground (arith, some-injective j id h, length-remove id js)

pub In-mem : (j : ℕ) (js : List ℕ) → In j js → mem j js ≡ true
In-mem j [] m = absurd m
In-mem j (i ∷ js) (inl e) = ground arith
In-mem j (i ∷ js) (inr m) = ground (arith, In-mem j js m)
