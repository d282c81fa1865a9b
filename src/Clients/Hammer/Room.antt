-- ===== src/Clients/Hammer/Room.antt =====
-- user-clients/concurrency-hammer.c: the array of operations and the room in it.
use qemu_devices_and_drivers.Base.{
  ℕ, ◌+◌, ◌-◌, ◌*◌, ◌<◌, Bool, true, false, leb, Option, none, some, List, [], ◌∷◌, length, get_or,
  set, replicate, length-set, length-append, length-replicate, get_or-set_self, get_or-set_ne,
  get_or-append, Outcome, done, fault, bind, ◌≡◌, refl, ap, ◌∙◌, arith, lt→ltb, Bool-cases, inl,
  inr, ◌^◌, ltb,
}
use qemu_devices_and_drivers.Words.Int.{ℤ}
use qemu_devices_and_drivers.Clients.Hammer.{
  ReqRes, blank, parse_line, preallocate_nr, Operations, calloc_operations, extended, count_line,
  add_line, then_lines, add_lines, parse_operations_file,
}

-- The array has room for the next operation.
pub record HasRoom (s : Operations) : Type 0 where
  pub room : Operations.num_op_parsed s < length (Operations.entries s)

-- The array with one operation more.
pub record IsAdded (s : Operations) (op : ReqRes) (s' : Operations) : Type 0 where
  pub counted : Operations.num_op_parsed s' ≡ Operations.num_op_parsed s + 1
  pub has_room : HasRoom s'
  pub last : get_or (Operations.entries s') (Operations.num_op_parsed s) blank ≡ op
  pub kept :
      (i : ℕ)
      → i < Operations.num_op_parsed s
      → get_or (Operations.entries s') i blank ≡ get_or (Operations.entries s) i blank

-- The array after a line is longer by one operation, or the allocation failed.
abbrev IsAddedOrEnd :
    (allocates : Bool) → Operations → ReqRes → Outcome (Option Operations) → Type 0
IsAddedOrEnd allocates s op fault = ⊥
IsAddedOrEnd allocates s op (done none) = allocates ≡ false
IsAddedOrEnd allocates s op (done (some s')) = IsAdded s op s'

length-extended : (xs : List ReqRes) (g : ReqRes) (n : ℕ) → length (extended xs g n) ≡ length xs + n
length-extended xs g n =
    length-append xs (replicate n g) ∙ ap (λ k. length xs + k) (length-replicate n g)

-- The array `zs` agrees with the one that has the new operation.
stored-IsAdded :
    (s : Operations) (op : ReqRes) (zs : List ReqRes)
    → HasRoom s
    → s.num_op_parsed + 1 < length zs
    → ((i : ℕ)
        → i < length s.entries
        → get_or zs i blank ≡ get_or (set s.entries s.num_op_parsed op) i blank)
    → IsAdded s op record { entries = zs; num_op_parsed = s.num_op_parsed + 1 }
stored-IsAdded s op zs h longer agree = record {
  counted = refl;
  has_room = record { room = longer };
  last = agree s.num_op_parsed h.room ∙ get_or-set_self s.entries s.num_op_parsed op blank h.room;
  kept = λ i l.
      agree i (omega (arith, l, h.room))
      ∙ get_or-set_ne s.entries s.num_op_parsed i op blank (λ e. absurd (omega arith));
}

count_line-IsAdded :
    (garbage : ReqRes) (allocates : Bool) (s : Operations) (op : ReqRes)
    → HasRoom s
    → s.num_op_parsed + 1 < 2 ^ 30
    → IsAddedOrEnd allocates s op (count_line garbage allocates s (some op))
unfolding count_line
count_line-IsAdded garbage allocates s op h few =
    let entries = set s.entries s.num_op_parsed op in
    let num = s.num_op_parsed + 1 in
    let fits : ltb (num * 2) (2 ^ 31) ≡ true = lt→ltb (num * 2) (2 ^ 31) (omega (arith, few)) in
    let long : length entries ≡ length s.entries = length-set s.entries s.num_op_parsed op in
    elim (Bool-cases (leb (length entries) num)) [
      | inr e ↦ rw e (stored-IsAdded s op entries h (ground arith) (λ i l. refl))
      | inl e ↦ elim (Bool-cases allocates) [
        | inr f ↦ rw (e, fits, f) refl
        | inl t ↦
            rw (e, fits, t)
              (stored-IsAdded s op (extended entries garbage (num * 2 - length entries)) h
                (rw (length-extended entries garbage (num * 2 - length entries), long) ground arith)
                (λ i l.
                  get_or-append entries (replicate (num * 2 - length entries) garbage) i blank
                    (rw long l)))
      ]
    ]

pub count_line-adds :
    (garbage : ReqRes) (s : Operations) (op : ReqRes)
    → HasRoom s
    → s.num_op_parsed + 1 < 2 ^ 30
    → (s' : Operations) × (count_line garbage true s (some op) ≡ done (some s')) × IsAdded s op s'
count_line-adds garbage s op h few =
    by-result (count_line garbage true s (some op)) (count_line-IsAdded garbage true s op h few)
  where
    by-result :
        (o : Outcome (Option Operations))
        → IsAddedOrEnd true s op o
        → (s' : Operations) × (o ≡ done (some s')) × IsAdded s op s'
    by-result fault a = absurd a
    by-result (done none) a = ground arith
    by-result (done (some s')) a = (s', refl, a)

-- The result of the parser: the end of the program, or an array that has room for the next operation
-- and as many operations as there were lines.
abbrev pub EndsOrHasRoom : ℕ → Outcome (Option Operations) → Type 0
EndsOrHasRoom n fault = ⊥
EndsOrHasRoom n (done none) = Unit
EndsOrHasRoom n (done (some s)) = HasRoom s × (s.num_op_parsed ≡ n)

count_line-HasRoom :
    (garbage : ReqRes) (allocates : Bool) (s : Operations) (op : Option ReqRes)
    → HasRoom s
    → s.num_op_parsed + 1 < 2 ^ 30
    → EndsOrHasRoom (s.num_op_parsed + 1) (count_line garbage allocates s op)
unfolding count_line
count_line-HasRoom garbage allocates s none h few = tt
count_line-HasRoom garbage allocates s (some op) h few =
    by-result (count_line garbage allocates s (some op))
      (count_line-IsAdded garbage allocates s op h few)
  where
    by-result :
        (o : Outcome (Option Operations))
        → IsAddedOrEnd allocates s op o
        → EndsOrHasRoom (s.num_op_parsed + 1) o
    by-result fault a = a
    by-result (done none) a = tt
    by-result (done (some s')) a = (a.has_room, a.counted)

module _ (atoi : List ℕ → ℤ) where
  add_line-HasRoom :
      (garbage : ReqRes) (allocates : Bool) (line : List (List ℕ)) (s : Operations)
      → HasRoom s
      → s.num_op_parsed + 1 < 2 ^ 30
      → EndsOrHasRoom (s.num_op_parsed + 1) (add_line atoi garbage allocates line s)
  unfolding add_line
  add_line-HasRoom garbage allocates line s h few =
      rw (lt→ltb s.num_op_parsed (length s.entries) h.room) (
        count_line-HasRoom garbage allocates s
          (parse_line atoi line (get_or s.entries s.num_op_parsed blank)) h few)

  then-HasRoom :
      (n k : ℕ) (m : Outcome (Option Operations)) (next : Operations → Outcome (Option Operations))
      → EndsOrHasRoom n m
      → ((s : Operations) → HasRoom s → s.num_op_parsed ≡ n → EndsOrHasRoom k (next s))
      → EndsOrHasRoom k (bind m (then_lines next))
  then-HasRoom n k (done none) next h each = tt
  then-HasRoom n k (done (some s)) next h each = each s h.0 h.1
  then-HasRoom n k fault next h each = h

  add_lines-HasRoom :
      (garbage : ReqRes) (allocates : ℕ → Bool) (lines : List (List (List ℕ))) (s : Operations)
      (total : ℕ)
      → HasRoom s
      → s.num_op_parsed + length lines ≡ total
      → total < 2 ^ 30
      → EndsOrHasRoom total (add_lines atoi garbage allocates lines s)
  unfolding add_lines
  add_lines-HasRoom garbage allocates [] s total h sum few = (h, omega (arith, sum))
  add_lines-HasRoom garbage allocates (line ∷ lines) s total h sum few =
      then-HasRoom (s.num_op_parsed + 1) total
        (add_line atoi garbage (allocates s.num_op_parsed) line s)
        (add_lines atoi garbage allocates lines)
        (add_line-HasRoom garbage (allocates s.num_op_parsed) line s h (omega (arith, sum, few)))
        (λ s' h' counted.
          add_lines-HasRoom garbage allocates lines s' total h' (omega (arith, sum, counted)) few)

  -- For a file of fewer than 2^30 lines, whatever they are, however `atoi` converts them, and wherever
  -- an allocation fails, the parser writes no entry beyond its array and its `int`s do not overflow:
  -- it ends the program, or it counts the lines and gives an array with room for one operation more.
  pub parse_operations_file-HasRoom :
      (garbage : ReqRes) (opens callocs : Bool) (allocates : ℕ → Bool)
      (lines : List (List (List ℕ)))
      → length lines < 2 ^ 30
      → EndsOrHasRoom
          (length lines)
          (parse_operations_file atoi garbage opens callocs allocates lines)
  unfolding parse_operations_file
  parse_operations_file-HasRoom garbage opens false allocates lines few = tt
  parse_operations_file-HasRoom garbage false true allocates lines few = tt
  parse_operations_file-HasRoom garbage true true allocates lines few =
      add_lines-HasRoom garbage allocates lines calloc_operations (length lines)
        record { room = rw (length-replicate preallocate_nr blank) omega arith } (omega arith) few
