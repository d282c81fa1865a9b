-- ===== src/Clients/Hammer.antt =====
-- user-clients/concurrency-hammer.c: the file of operations that it parses, and what a thread counts.
-- A line is the list of its tokens, which `strtok` gives, and a token the list of its characters;
-- `atoi` is the library's. A call of `errx` ends the program and is `none`. `garbage` is what
-- `reallocarray` leaves in new entries. The mean and the deviation are floating point and left out.
pub mod Counted
pub mod Measured
pub mod Parsed
pub mod Room
pub mod Written
use qemu_devices_and_drivers.Base.{
  ℕ, zero, suc, ◌+◌, ◌-◌, ◌*◌, ◌%◌, ◌^◌, Bool, true, false, not, ◌&&◌, ◌==◌, ltb, leb,
  if◌then◌else◌, Option, none, some, List, [], ◌∷◌, ◌++◌, length, get_or, set, replicate, Outcome,
  done, fault, bind,
}
use qemu_devices_and_drivers.Words.{u64}
use qemu_devices_and_drivers.Words.Int.{
  ℤ, pos, negsuc, ◌+ℤ◌, ◌-ℤ◌, ◌*ℤ◌, ◌/ℤ◌, pos_part, neg_part, checked_ℕ,
}
use qemu_devices_and_drivers.Mathaccel.Hw.{math_op_add, math_op_sub, math_op_mul, math_op_div}
use qemu_devices_and_drivers.Drivers.Mathaccel.{Req}

abbrev pub preallocate_nr : ℕ
preallocate_nr = 50

pub record ReqRes : Type 0 where
  pub request : Req
  pub expected_result : ℤ

-- An entry that `calloc` has cleared.
abbrev pub blank : ReqRes
blank = record {
  request = record {
    opcode = 0;
    cmd_id = 0;
    arg_a = pos 0;
    arg_b = pos 0;
    result = pos 0;
    status = 0;
  };
  expected_result = pos 0;
}

pub data ParseState : Type 0 where
  state_init : ParseState
  state_parsed_arg1 : ParseState
  state_parsed_op : ParseState
  state_parsed_arg2 : ParseState

-- The operator of a character.
unfoldable pub operator : ℕ → Option ℕ
operator c =
    if c == b'+'
    then some math_op_add
    else if c == b'-'
    then some math_op_sub
    else if c == b'*'
    then some math_op_mul
    else if c == b'/'
    then some math_op_div
    else none

abbrev pub is_zero : ℤ → Bool
is_zero z = pos_part z == 0 && neg_part z == 0

-- The first call of `errx` ends the program.
unfoldable pub and_then : {A B : Type 0} → Option A → (A → Option B) → Option B
and_then none next = none
and_then (some x) next = next x

-- The characters of `print_operations`.
unfoldable pub opcode_to_operator : ℕ → ℕ
opcode_to_operator opcode =
    if opcode == math_op_add
    then b'+'
    else if opcode == math_op_sub
    then b'-'
    else if opcode == math_op_mul
    then b'*'
    else b'/'

-- The array of operations, whose length is its capacity, and how many were parsed.
pub record Operations : Type 0 where
  pub entries : List ReqRes
  pub num_op_parsed : ℕ

abbrev pub calloc_operations : Operations
calloc_operations = record { entries = replicate preallocate_nr blank; num_op_parsed = 0 }

-- A longer array.
abbrev pub extended : List ReqRes → ReqRes → ℕ → List ReqRes
extended entries garbage capacity = entries ++ replicate capacity garbage

-- What follows the parsing of a line. The capacity is an `int`.
unfoldable pub count_line :
    ReqRes → (allocates : Bool) → Operations → Option ReqRes → Outcome (Option Operations)
count_line garbage allocates ops none = done none
count_line garbage allocates ops (some op) =
    let entries = set ops.entries ops.num_op_parsed op in
    let num = ops.num_op_parsed + 1 in
    if leb (length entries) num
    then bind (checked_ℕ (num * 2)) (λ capacity.
      if allocates
      then done (
          some (record {
            entries = extended entries garbage (capacity - length entries);
            num_op_parsed = num;
          }))
      else done none)
    else done (some (record { entries = entries; num_op_parsed = num }))

abbrev pub then_lines :
    (Operations → Outcome (Option Operations)) → Option Operations → Outcome (Option Operations)
then_lines next none = done none
then_lines next (some ops) = next ops

module _ (atoi : List ℕ → ℤ) where
  -- A number: the conversion of anything that does not begin with 0 must not give 0.
  unfoldable pub number : List ℕ → Option ℤ
  number token =
      if is_zero (atoi token) && not (get_or token 0 0 == b'0') then none else some (atoi token)

  -- The body of the loop over the tokens.
  unfoldable pub parse_token : ParseState → List ℕ → ReqRes → Option (ParseState × ReqRes)
  parse_token state_init token op =
      and_then (number token)
        (λ z. some (state_parsed_arg1, record op { request = record op.request { arg_a = z } }))
  parse_token state_parsed_arg1 token op =
      and_then (operator (get_or token 0 0)) (λ code.
        some (state_parsed_op, record op { request = record op.request { opcode = code } }))
  parse_token state_parsed_op token op =
      and_then (number token)
        (λ z. some (state_parsed_arg2, record op { request = record op.request { arg_b = z } }))
  parse_token state_parsed_arg2 token op =
      and_then (number token) (λ z. some (state_init, record op { expected_result = z }))

  pub parse_tokens : ParseState → List (List ℕ) → ReqRes → Option ReqRes
  parse_tokens state [] op = some op
  parse_tokens state (token ∷ tokens) op =
      and_then (parse_token state token op) (λ step. parse_tokens step.0 tokens step.1)

  unfoldable pub parse_line : List (List ℕ) → ReqRes → Option ReqRes
  parse_line = parse_tokens state_init

  -- One line. The write to an entry beyond the array is undefined; `none` is the end of the program.
  unfoldable pub add_line :
      ReqRes → (allocates : Bool) → List (List ℕ) → Operations → Outcome (Option Operations)
  add_line garbage allocates line ops =
      if ltb ops.num_op_parsed (length ops.entries)
      then count_line garbage allocates ops
          (parse_line line (get_or ops.entries ops.num_op_parsed blank))
      else fault

  pub add_lines :
      ReqRes → (ℕ → Bool) → List (List (List ℕ)) → Operations → Outcome (Option Operations)
  add_lines garbage allocates [] ops = done (some ops)
  add_lines garbage allocates (line ∷ lines) ops =
      bind (add_line garbage (allocates ops.num_op_parsed) line ops)
        (then_lines (add_lines garbage allocates lines))

  -- `allocates` is whether `calloc` gives the array, and whether `reallocarray` does at a count.
  unfoldable pub parse_operations_file :
      ReqRes
      → (opens callocs : Bool) → (ℕ → Bool)
      → List (List (List ℕ))
      → Outcome (Option Operations)
  parse_operations_file garbage opens callocs allocates lines =
      if callocs && opens then add_lines garbage allocates lines calloc_operations else done none

-- `struct timespec`.
pub record Timespec : Type 0 where
  pub tv_sec : ℤ
  pub tv_nsec : ℤ

-- Exact, as long as no value leaves a `long long`.
unfoldable pub calculate_latency_us : Timespec → Timespec → ℤ
calculate_latency_us start end =
    (end.tv_sec -ℤ start.tv_sec) *ℤ pos 1000000 +ℤ (end.tv_nsec -ℤ start.tv_nsec) /ℤ pos 1000

-- The metrics of a thread.
pub record ThreadContext : Type 0 where
  pub min_latency : ℕ
  pub max_latency : ℕ
  pub total_latency : ℕ
  pub success_count : ℕ
  pub error_count : ℕ

-- A `long long` as an `unsigned long long`.
abbrev pub unsigned64 : ℤ → ℕ
unsigned64 z = (pos_part z % 2 ^ 64 + 2 ^ 64 - neg_part z % 2 ^ 64) % 2 ^ 64

unfoldable pub calculate_iteration_stats : ThreadContext → Timespec → Timespec → ThreadContext
calculate_iteration_stats ctx start end =
    let current_latency = unsigned64 (calculate_latency_us start end) in
    record ctx {
      total_latency = u64 (ctx.total_latency + current_latency);
      min_latency =
          if ltb current_latency ctx.min_latency then current_latency else ctx.min_latency;
      max_latency =
          if ltb ctx.max_latency current_latency then current_latency else ctx.max_latency;
    }

-- What an iteration meets: the clock before, what the ioctl gives, and the clock after. A clock that
-- fails is `none`.
pub record Iteration : Type 0 where
  pub start : Option Timespec
  pub answer : Option ℤ
  pub end : Option Timespec

abbrev pub same_ℤ : ℤ → ℤ → Bool
same_ℤ a b = pos_part a == pos_part b && neg_part a == neg_part b

abbrev pub count_answer : ThreadContext → ℤ → ℤ → ThreadContext
count_answer ctx expected result =
    if same_ℤ expected result
    then record ctx { success_count = ctx.success_count + 1 }
    else record ctx { error_count = ctx.error_count + 1 }

-- The loop of `thread_fn` over the operations. It ends early when a clock fails.
pub thread_loop : ThreadContext → List (ReqRes × Iteration) → ThreadContext
thread_loop ctx [] = ctx
thread_loop ctx ((op, it) ∷ rest) = elim it.start [
  | none ↦ ctx
  | some start ↦ elim it.answer [
    | none ↦ thread_loop ctx rest
    | some result ↦
        let counted = count_answer ctx op.expected_result result in
        elim it.end [
          | none ↦ counted
          | some end ↦ thread_loop (calculate_iteration_stats counted start end) rest
        ]
  ]
]

-- A thread, from the opening of its device file on.
unfoldable pub thread_fn : (opens : Bool) → List (ReqRes × Iteration) → ThreadContext
thread_fn opens ops =
    let ctx : ThreadContext = record {
      min_latency = 2 ^ 64 - 1;
      max_latency = 0;
      total_latency = 0;
      success_count = 0;
      error_count = 0;
    } in
    if opens then thread_loop ctx ops else ctx
