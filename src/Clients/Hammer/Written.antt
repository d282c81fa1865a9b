-- ===== src/Clients/Hammer/Written.antt =====
-- user-clients/concurrency-hammer.c: a file of operations that was written is read back.
use qemu_devices_and_drivers.Base.{
  ℕ, ◌^◌, subst, ◌+◌, ◌<◌, true, some, List, [], ◌∷◌, map, length, get_or, length-replicate, done,
  ◌≡◌, refl, ◌∙◌, arith, lt→ltb,
}
use qemu_devices_and_drivers.Words.Int.{ℤ}
use qemu_devices_and_drivers.Clients.Hammer.{
  ReqRes, blank, preallocate_nr, Operations, calloc_operations, add_line, add_lines,
  parse_operations_file,
}
use qemu_devices_and_drivers.Clients.Hammer.Parsed.{
  IsSameOperation, IsWritable, IsDecimal, line_of, read_into, parse_line-line_of,
}
use qemu_devices_and_drivers.Clients.Hammer.Room.{HasRoom, IsAdded, count_line-adds}

abbrev pub AllWritable : List ReqRes → Type 0
AllWritable [] = Unit
AllWritable (op ∷ ops) = IsWritable op × AllWritable ops

-- The entries from `n` on hold these operations.
abbrev pub Holds : List ReqRes → ℕ → List ReqRes → Type 0
Holds entries n [] = Unit
Holds entries n (op ∷ ops) = IsSameOperation (get_or entries n blank) op × Holds entries (n + 1) ops

record IsReadBack (s : Operations) (ops : List ReqRes) (r : Operations) : Type 0 where
  pub counted : r.num_op_parsed ≡ s.num_op_parsed + length ops
  pub holds : Holds r.entries s.num_op_parsed ops
  pub kept : (i : ℕ) → i < s.num_op_parsed → get_or r.entries i blank ≡ get_or s.entries i blank

IsReadBack-step :
    (s s' r : Operations) (e op : ReqRes) (ops : List ReqRes)
    → IsAdded s e s'
    → IsSameOperation e op
    → IsReadBack s' ops r
    → IsReadBack s (op ∷ ops) r
IsReadBack-step s s' r e op ops added same back =
    let here : get_or r.entries s.num_op_parsed blank ≡ e =
      back.kept s.num_op_parsed (omega (arith, added.counted)) ∙ added.last in
    record {
      counted = omega (arith, back.counted, added.counted);
      holds = (rw here same, subst (λ n. Holds r.entries n ops) added.counted back.holds);
      kept = λ i l. back.kept i (omega (arith, l, added.counted)) ∙ added.kept i l;
    }

module _ (atoi : List ℕ → ℤ) (decimal : ℤ → List ℕ) (d : IsDecimal atoi decimal)
    (garbage : ReqRes) where
  add_line-line_of :
      (s : Operations) (op : ReqRes)
      → HasRoom s
      → s.num_op_parsed + 1 < 2 ^ 30
      → IsWritable op
      → (s' : Operations) × (add_line atoi garbage true (line_of decimal op) s ≡ done (some s'))
        × IsAdded s (read_into (get_or s.entries s.num_op_parsed blank) op) s'
  unfolding add_line
  add_line-line_of s op h few w =
      let old = get_or s.entries s.num_op_parsed blank in
      let (s', stored, added) = count_line-adds garbage s (read_into old op) h few in
      (
        s',
        rw
            (
              lt→ltb s.num_op_parsed (length s.entries) h.room,
              parse_line-line_of atoi decimal op old d w,
              stored,
            )
            refl,
        added,
      )

  add_lines-line_of :
      (s : Operations) (ops : List ReqRes)
      → HasRoom s
      → s.num_op_parsed + length ops < 2 ^ 30
      → AllWritable ops
      → (r : Operations) × (add_lines atoi garbage (λ n. true) (map (line_of decimal) ops) s
          ≡ done (some r))
        × IsReadBack s ops r
  unfolding add_lines
  add_lines-line_of s [] h few w =
      (s, refl, record { counted = omega arith; holds = tt; kept = λ i l. refl })
  add_lines-line_of s (op ∷ ops) h few w =
      let (s', step, added) = add_line-line_of s op h (omega (arith, few)) w.0 in
      let (r, rest, back) =
        add_lines-line_of s' ops added.has_room (omega (arith, few, added.counted)) w.1 in
      (
        r,
        rw step rest,
        IsReadBack-step s s' r (read_into (get_or s.entries s.num_op_parsed blank) op) op ops added
            record { same_opcode = refl; same_a = refl; same_b = refl; same_expected = refl } back,
      )

  -- For an `atoi` that reads back a way to write numbers, whatever new memory holds, and memory
  -- that does not run out: of a file with a line for each operation, fewer than 2^30, whose opcodes
  -- are below 4 and whose numbers have 32 bits, the parser gives an array with as many operations as
  -- the file has lines, and entry `i` has the opcode, the two arguments and the expected result of
  -- operation `i`. Each line ends with a newline, which stays in its last token.
  pub parse_operations_file-line_of :
      (ops : List ReqRes)
      → length ops < 2 ^ 30
      → AllWritable ops
      → (r : Operations) × (parse_operations_file atoi garbage true true
            (λ n. true)
            (map (line_of decimal) ops)
          ≡ done (some r))
        × (r.num_op_parsed ≡ length ops)
        × Holds r.entries 0 ops
  unfolding parse_operations_file
  parse_operations_file-line_of ops few w =
      let few' : 0 + length ops < 2 ^ 30 = omega (arith, few) in
      let (r, read, back) =
        add_lines-line_of calloc_operations ops
          record { room = rw (length-replicate preallocate_nr blank) omega arith } few' w in
      (r, read, omega (arith, back.counted), back.holds)
