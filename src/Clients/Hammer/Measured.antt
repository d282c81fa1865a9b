-- ===== src/Clients/Hammer/Measured.antt =====
-- user-clients/concurrency-hammer.c: what the iterations of a thread amount to, read off their list.
use qemu_devices_and_drivers.Base.{
  ℕ, ◌+◌, ◌-◌, ◌^◌, ltb, if◌then◌else◌, Option, none, some, List, [], ◌∷◌,
}
use qemu_devices_and_drivers.Words.Int.{ℤ}
use qemu_devices_and_drivers.Clients.Hammer.{
  ReqRes, Timespec, calculate_latency_us, unsigned64, Iteration, same_ℤ,
}

-- An iteration in which both clocks give a time.
pub record Measured : Type 0 where
  pub operation : ReqRes
  pub start : Timespec
  pub answer : Option ℤ
  pub end : Timespec

abbrev pub clocked : Measured → ReqRes × Iteration
clocked m = (m.operation, record { start = some m.start; answer = m.answer; end = some m.end })

-- 1 if the answer is the one that was expected, or another one.
abbrev pub right : ReqRes → Option ℤ → ℕ
right op none = 0
right op (some z) = if same_ℤ op.expected_result z then 1 else 0

abbrev pub wrong : ReqRes → Option ℤ → ℕ
wrong op none = 0
wrong op (some z) = if same_ℤ op.expected_result z then 0 else 1

abbrev pub total_of : (Measured → ℕ) → List Measured → ℕ
total_of f [] = 0
total_of f (m ∷ ms) = f m + total_of f ms

-- The latencies of the iterations that the device answered.
abbrev pub add_latency : ℕ → Option ℤ → List ℕ → List ℕ
add_latency latency none ls = ls
add_latency latency (some z) ls = latency ∷ ls

abbrev pub latency_of : Measured → ℕ
latency_of m = unsigned64 (calculate_latency_us m.start m.end)

abbrev pub latencies : List Measured → List ℕ
latencies [] = []
latencies (m ∷ ms) = add_latency (latency_of m) m.answer (latencies ms)

abbrev pub sum : List ℕ → ℕ
sum [] = 0
sum (l ∷ ls) = l + sum ls

abbrev pub smaller : ℕ → ℕ → ℕ
smaller a b = if ltb b a then b else a

abbrev pub larger : ℕ → ℕ → ℕ
larger a b = if ltb a b then b else a

-- The least of the numbers, and 2^64 - 1 for none.
abbrev pub least : List ℕ → ℕ
least [] = 2 ^ 64 - 1
least (l ∷ ls) = smaller l (least ls)

abbrev pub greatest : List ℕ → ℕ
greatest [] = 0
greatest (l ∷ ls) = larger l (greatest ls)
