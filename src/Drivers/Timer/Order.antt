-- ===== src/Drivers/Timer/Order.antt =====
-- The queue of deadlines as a list: `lux_timer_enqueue` inserts into a descending list.
use qemu_devices_and_drivers.Base.{
  ℕ, ◌≤◌, ◌<◌, ltb, Bool, true, false, if◌then◌else◌, some, List, [], ◌∷◌, ◌++◌, ◌≡◌, refl, sym,
  ◌∙◌, ap, ltb→lt, Bool-cases, inl, inr, arith,
}
use qemu_devices_and_drivers.Drivers.Timer.{RbTree, leaf, node, inorder, first}
use qemu_devices_and_drivers.Drivers.Timer.Queue.{link}

abbrev pub All : (ℕ → Type 0) → List ℕ → Type 0
All P [] = Unit
All P (j ∷ js) = P j × All P js

-- The keys do not rise from left to right.
abbrev pub Descending : (ℕ → ℕ) → List ℕ → Type 0
Descending key [] = Unit
Descending key (j ∷ js) = All (λ i. key i ≤ key j) js × Descending key js

-- In a descending list, the new one goes before the first whose key is smaller.
unfoldable pub insert_descending : (ℕ → ℕ) → ℕ → List ℕ → List ℕ
insert_descending key id [] = id ∷ []
insert_descending key id (j ∷ js) =
    if ltb (key j) (key id) then id ∷ j ∷ js else j ∷ insert_descending key id js

-- Whether the new one goes to the front.
abbrev pub heads : (ℕ → ℕ) → ℕ → List ℕ → Bool
heads key id [] = true
heads key id (j ∷ js) = ltb (key j) (key id)

pub All-imp : (P Q : ℕ → Type 0) (js : List ℕ) → ((j : ℕ) → P j → Q j) → All P js → All Q js
All-imp P Q [] h a = tt
All-imp P Q (j ∷ js) h a = (h j a.0, All-imp P Q js h a.1)

module _ (P : ℕ → Type 0) where
  All-append : (xs ys : List ℕ) → All P (xs ++ ys) → All P xs × All P ys
  All-append [] ys a = (tt, a)
  All-append (x ∷ xs) ys a = let (l, r) = All-append xs ys a.1 in ((a.0, l), r)

  pub All-insert_descending :
      (key : ℕ → ℕ) (id : ℕ) (js : List ℕ) → P id → All P js → All P (insert_descending key id js)
  unfolding insert_descending
  All-insert_descending key id [] p a = (p, tt)
  All-insert_descending key id (j ∷ js) p a = ground (arith, All-insert_descending key id js p)

module _ (key : ℕ → ℕ) where
  Descending-append :
      (xs : List ℕ) (p : ℕ) (ys : List ℕ)
      → Descending key (xs ++ (p ∷ ys))
      → Descending key xs × All (λ x. key p ≤ key x) xs × Descending key (p ∷ ys)
  Descending-append [] p ys d = (tt, tt, d)
  Descending-append (x ∷ xs) p ys d =
      let (before, above, after) = Descending-append xs p ys d.1 in
      let (low, at_p) = All-append (λ i. key i ≤ key x) xs (p ∷ ys) d.0 in
      ((low, before), (at_p.0, above), after)

  insert_left :
      (id : ℕ) (xs : List ℕ) (p : ℕ) (ys : List ℕ)
      → key p < key id
      → insert_descending key id (xs ++ (p ∷ ys)) ≡ insert_descending key id xs ++ (p ∷ ys)
  unfolding insert_descending
  insert_left id [] p ys h = ground arith
  insert_left id (x ∷ xs) p ys h = ground (arith, insert_left id xs p ys h)

  insert_right :
      (id : ℕ) (xs : List ℕ) (p : ℕ) (ys : List ℕ)
      → key id ≤ key p
      → All (λ x. key p ≤ key x) xs
      → insert_descending key id (xs ++ (p ∷ ys)) ≡ xs ++ (p ∷ insert_descending key id ys)
  unfolding insert_descending
  insert_right id [] p ys h a = ground arith
  insert_right id (x ∷ xs) p ys h a = ground (arith, insert_right id xs p ys h a.1)

  pub first-insert_descending :
      (id : ℕ) (js : List ℕ)
      → first (insert_descending key id js) ≡ (if heads key id js then some id else first js)
  unfolding insert_descending
  first-insert_descending id [] = refl
  first-insert_descending id (j ∷ js) = ground arith

  pub insert_descending-Descending :
      (id : ℕ) (js : List ℕ) → Descending key js → Descending key (insert_descending key id js)
  unfolding insert_descending
  insert_descending-Descending id [] d = (tt, tt)
  insert_descending-Descending id (j ∷ js) d = elim (Bool-cases (ltb (key j) (key id))) [
    | inl e ↦
        rw e
          ((below e, All-imp (λ i. key i ≤ key j) _ js (λ i h. omega (arith, h, below e)) d.0), d)
    | inr e ↦ rw e (
      All-insert_descending (λ i. key i ≤ key j) key id js (not_below e) d.0,
      insert_descending-Descending id js d.1,
    )
  ]
    where
      below : ltb (key j) (key id) ≡ true → key j ≤ key id
      below e = ground arith

      not_below : ltb (key j) (key id) ≡ false → key id ≤ key j
      not_below e = ground arith

  heads_left :
      (id : ℕ) (xs : List ℕ) (p : ℕ) (ys : List ℕ)
      → key p < key id
      → heads key id (xs ++ (p ∷ ys)) ≡ heads key id xs
  heads_left id [] p ys h = ground arith
  heads_left id (x ∷ xs) p ys h = refl

  heads_right :
      (id : ℕ) (xs : List ℕ) (p : ℕ) (ys : List ℕ)
      → key id ≤ key p
      → All (λ x. key p ≤ key x) xs
      → heads key id (xs ++ (p ∷ ys)) ≡ false
  heads_right id [] p ys h a = ground arith
  heads_right id (x ∷ xs) p ys h a = ground arith

  -- The walk through a tree in descending order.
  pub link_lem :
      (id : ℕ) (t : RbTree)
      → Descending key (inorder t)
      → (inorder (link key id t).0 ≡ insert_descending key id (inorder t))
        × ((link key id t).1 ≡ heads key id (inorder t))
  unfolding link insert_descending
  link_lem id leaf d = (refl, refl)
  link_lem id (node l p r) d =
      let (before, above, after) = Descending-append (inorder l) p (inorder r) d in
      elim (Bool-cases (ltb (key p) (key id))) [
        | inl e ↦
            let h = ltb→lt (key p) (key id) e in
            rw e (
              ap (λ js. js ++ (p ∷ inorder r)) (link_lem id l before).0
                  ∙ sym (insert_left id (inorder l) p (inorder r) h),
              (link_lem id l before).1 ∙ sym (heads_left id (inorder l) p (inorder r) h),
            )
        | inr e ↦
            let h : key id ≤ key p = ground arith in
            rw e (
              ap (λ js. inorder l ++ (p ∷ js)) (link_lem id r after.1).0
                  ∙ sym (insert_right id (inorder l) p (inorder r) h above),
              sym (heads_right id (inorder l) p (inorder r) h above),
            )
      ]
