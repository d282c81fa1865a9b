-- ===== src/Tests/Hammer.antt =====
-- The theorems of the concurrency hammer at concrete inputs: numbers are written in decimal digits
-- with a sign.
use qemu_devices_and_drivers.Base.{
  ℕ, zero, suc, ◌+◌, ◌-◌, ◌*◌, ◌/◌, ◌%◌, ◌^◌, ◌<◌, true, false, ◌==◌, ltb, leb, ◌&&◌, ◌++◌,
  if◌then◌else◌, some, none, List, [], ◌∷◌, map, get_or, done, ◌≡◌, refl, ◌∙◌, ap, arith,
  Bool-cases, inl, inr,
}
use native.Mathlib.Nat.{pow-suc}
use qemu_devices_and_drivers.Words.Int.{ℤ, pos, negsuc, fits32, ◌+ℤ◌, ◌-ℤ◌, ◌*ℤ◌, ◌/ℤ◌}
use qemu_devices_and_drivers.Words.{u64}
use qemu_devices_and_drivers.Clients.Hammer.{
  ReqRes, blank, is_zero, Operations, parse_operations_file, Timespec, calculate_latency_us,
  thread_fn,
}
use qemu_devices_and_drivers.Clients.Hammer.Measured.{
  Measured, clocked, right, wrong, total_of, latencies, sum, least, greatest,
}
use qemu_devices_and_drivers.Clients.Hammer.Counted.{thread_fn-latencies}
use qemu_devices_and_drivers.Clients.Hammer.Parsed.{IsDecimal, line_of, line_end}
use qemu_devices_and_drivers.Clients.Hammer.Room.{EndsOrHasRoom, parse_operations_file-HasRoom}
use qemu_devices_and_drivers.Clients.Hammer.Written.{Holds, parse_operations_file-line_of}

digits : ℕ → ℕ → List ℕ → List ℕ
digits zero n after = after
digits (suc fuel) n after =
    let rest = digits fuel (n / 10) ((48 + n % 10) ∷ after) in
    if ltb n 10 then (48 + n) ∷ after else rest

abbrev value : ℕ → List ℕ → ℕ
value n [] = n
value n (c ∷ cs) =
    let rest = value (n * 10 + (c - 48)) cs in if leb 48 c && leb c 57 then rest else n

is_digit : (d : ℕ) → d < 10 → (leb 48 (48 + d) && leb (48 + d) 57) ≡ true
is_digit d l = ground arith

value-digits :
    (fuel n : ℕ) (after : List ℕ) → n < 10 ^ fuel → value 0 (digits fuel n after) ≡ value n after
unfolding digits
value-digits zero n after l = ap (λ k. value k after) (omega arith)
value-digits (suc fuel) n after l = elim (Bool-cases (ltb n 10)) [
  | inl e ↦ rw (e, is_digit n (ground arith)) (ap (λ k. value k after) (omega arith))
  | inr e ↦ rw e (
      value-digits fuel (n / 10) ((48 + n % 10) ∷ after) (omega (arith, l, pow-suc 10 fuel))
      ∙ rw (is_digit (n % 10) (omega arith)) (ap (λ k. value k after) (omega arith)))
]

digits-append :
    (fuel n : ℕ) (after more : List ℕ) → digits fuel n after ++ more ≡ digits fuel n (after ++ more)
unfolding digits
digits-append zero n after more = refl
digits-append (suc fuel) n after more = elim (Bool-cases (ltb n 10)) [
  | inl e ↦ rw e refl
  | inr e ↦ rw e (digits-append fuel (n / 10) ((48 + n % 10) ∷ after) more)
]

abbrev decimal : ℤ → List ℕ
decimal (pos zero) = b'0' ∷ []
decimal (pos (suc n)) = b'+' ∷ digits 10 (suc n) []
decimal (negsuc n) = b'-' ∷ digits 10 (suc n) []

abbrev minus : ℕ → ℤ
minus zero = pos 0
minus (suc n) = negsuc n

abbrev atoi : List ℕ → ℤ
atoi [] = pos 0
atoi (c ∷ cs) =
    if c == b'+'
    then pos (value 0 cs)
    else if c == b'-'
    then minus (value 0 cs)
    else pos (value 0 (c ∷ cs))

atoi-decimal : (z : ℤ) → fits32 z ≡ true → atoi (decimal z) ≡ z
atoi-decimal (pos zero) h = refl
atoi-decimal (pos (suc n)) h = ap pos (value-digits 10 (suc n) [] (ground arith))
atoi-decimal (negsuc n) h = ap minus (value-digits 10 (suc n) [] (ground arith))

atoi-decimal_last : (z : ℤ) → fits32 z ≡ true → atoi (decimal z ++ line_end) ≡ z
atoi-decimal_last (pos zero) h = refl
atoi-decimal_last (pos (suc n)) h =
    ap (λ cs. pos (value 0 cs)) (digits-append 10 (suc n) [] line_end)
    ∙ ap pos (value-digits 10 (suc n) line_end (ground arith))
atoi-decimal_last (negsuc n) h =
    ap (λ cs. minus (value 0 cs)) (digits-append 10 (suc n) [] line_end)
    ∙ ap minus (value-digits 10 (suc n) line_end (ground arith))

decimal_zero : (z : ℤ) → is_zero z ≡ true → get_or (decimal z) 0 0 ≡ b'0'
decimal_zero (pos zero) h = refl
decimal_zero (pos (suc n)) h = ground arith
decimal_zero (negsuc n) h = ground arith

decimal-IsDecimal : IsDecimal atoi decimal
decimal-IsDecimal = record {
  reads_back = atoi-decimal;
  reads_last = atoi-decimal_last;
  zero_first = decimal_zero;
}

abbrev division : ReqRes
division = record blank {
  request = record blank.request { opcode = 3; arg_a = negsuc 8; arg_b = pos 2 };
  expected_result = negsuc 3;
}

abbrev two_operations : List ReqRes
two_operations = division ∷ blank ∷ []

written_example :
    (r : Operations) × (parse_operations_file atoi division true true
        (λ n. true)
        (map (line_of decimal) two_operations)
      ≡ done (some r))
    × (r.num_op_parsed ≡ 2)
    × Holds r.entries 0 two_operations
written_example =
    parse_operations_file-line_of atoi decimal decimal-IsDecimal division two_operations
      (omega arith)
      (
        record { known = omega arith; a_fits = refl; b_fits = refl; expected_fits = refl },
        (record { known = omega arith; a_fits = refl; b_fits = refl; expected_fits = refl }, tt),
      )

room_example : EndsOrHasRoom 2 (
    parse_operations_file atoi division true true
      (λ n. false)
      (map (line_of decimal) two_operations))
room_example =
    parse_operations_file-HasRoom atoi division true true (λ n. false)
      (map (line_of decimal) two_operations) (omega arith)

abbrev tick : ℕ → Timespec
tick us = record { tv_sec = pos 1; tv_nsec = pos (us * 1000) }

abbrev three_iterations : List Measured
three_iterations =
    record { operation = division; start = tick 1; answer = some (negsuc 3); end = tick 8 }
    ∷ record { operation = division; start = tick 9; answer = none; end = tick 10 }
    ∷ record { operation = blank; start = tick 11; answer = some (pos 1); end = tick 16 }
    ∷ []

measured : latencies three_iterations ≡ 7 ∷ 5 ∷ []
unfolding calculate_latency_us ◌+ℤ◌ ◌-ℤ◌ ◌*ℤ◌ ◌/ℤ◌
measured = refl

latencies_example : thread_fn true (map clocked three_iterations) ≡ record {
  min_latency = least (latencies three_iterations);
  max_latency = greatest (latencies three_iterations);
  total_latency = u64 (sum (latencies three_iterations));
  success_count = total_of (λ m. right m.operation m.answer) three_iterations;
  error_count = total_of (λ m. wrong m.operation m.answer) three_iterations;
}
latencies_example = thread_fn-latencies three_iterations
