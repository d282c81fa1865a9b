-- ===== src/Clients/Hammer/Counted.antt =====
-- user-clients/concurrency-hammer.c: what a thread counts and measures when no clock fails.
use qemu_devices_and_drivers.Base.{
  ℕ, ◌+◌, ◌-◌, ◌^◌, ◌<◌, true, Option, none, some, List, [], ◌∷◌, map, ◌≡◌, refl, ◌∙◌, arith,
  Bool-cases, inl, inr,
}
use qemu_devices_and_drivers.Words.{u64}
use qemu_devices_and_drivers.Words.Int.{ℤ}
use qemu_devices_and_drivers.Clients.Hammer.{
  ThreadContext, calculate_iteration_stats, same_ℤ, count_answer, thread_loop, thread_fn,
}
use qemu_devices_and_drivers.Clients.Hammer.Measured.{
  Measured, clocked, right, wrong, total_of, latency_of, latencies, sum, smaller, larger, least,
  greatest,
}

-- What the loop adds to the metrics.
record IsSummary (ctx : ThreadContext) (ms : List Measured) (ctx' : ThreadContext) : Type 0 where
  pub successes :
      ctx'.success_count ≡ ctx.success_count + total_of (λ m. right m.operation m.answer) ms
  pub errors : ctx'.error_count ≡ ctx.error_count + total_of (λ m. wrong m.operation m.answer) ms
  pub total : ctx'.total_latency ≡ u64 (ctx.total_latency + sum (latencies ms))
  pub minimum : ctx'.min_latency ≡ smaller ctx.min_latency (least (latencies ms))
  pub maximum : ctx'.max_latency ≡ larger ctx.max_latency (greatest (latencies ms))

record IsMetrics (ctx : ThreadContext) : Type 0 where
  pub total_fits : ctx.total_latency < 2 ^ 64
  pub minimum_fits : ctx.min_latency < 2 ^ 64

-- The metrics after an answer.
abbrev answered : ThreadContext → Measured → ℤ → ThreadContext
answered ctx m z =
    calculate_iteration_stats (count_answer ctx m.operation.expected_result z) m.start m.end

u64_add : (t l s : ℕ) → u64 (u64 (t + l) + s) ≡ u64 (t + (l + s))
u64_add t l s = omega arith

smaller_assoc : (a b c : ℕ) → smaller (smaller a b) c ≡ smaller a (smaller b c)
smaller_assoc a b c = ground arith

larger_assoc : (a b c : ℕ) → larger (larger a b) c ≡ larger a (larger b c)
larger_assoc a b c = ground arith

-- The metrics as a thread begins.
abbrev begun : ThreadContext
begun = record {
  min_latency = 2 ^ 64 - 1;
  max_latency = 0;
  total_latency = 0;
  success_count = 0;
  error_count = 0;
}

-- What one answer adds.
record IsAnswered (ctx : ThreadContext) (m : Measured) (z : ℤ) (ctx' : ThreadContext) : Type 0 where
  pub success : ctx'.success_count ≡ ctx.success_count + right m.operation (some z)
  pub error : ctx'.error_count ≡ ctx.error_count + wrong m.operation (some z)
  pub total : ctx'.total_latency ≡ u64 (ctx.total_latency + latency_of m)
  pub minimum : ctx'.min_latency ≡ smaller ctx.min_latency (latency_of m)
  pub maximum : ctx'.max_latency ≡ larger ctx.max_latency (latency_of m)

answered-IsAnswered :
    (ctx : ThreadContext) (m : Measured) (z : ℤ) → IsAnswered ctx m z (answered ctx m z)
unfolding calculate_iteration_stats
answered-IsAnswered ctx m z = elim (Bool-cases (same_ℤ m.operation.expected_result z)) [
  | inl e ↦ record {
    success = rw e refl;
    error = rw e omega arith;
    total = rw e refl;
    minimum = rw e refl;
    maximum = rw e refl;
  }
  | inr e ↦ record {
    success = rw e omega arith;
    error = rw e refl;
    total = rw e refl;
    minimum = rw e refl;
    maximum = rw e refl;
  }
]

IsSummary-none :
    (ctx : ThreadContext) (m : Measured) (ms : List Measured) (ctx' : ThreadContext)
    → m.answer ≡ none
    → IsSummary ctx ms ctx'
    → IsSummary ctx (m ∷ ms) ctx'
IsSummary-none ctx m ms ctx' e s = record {
  successes = rw e omega (arith, s.successes);
  errors = rw e omega (arith, s.errors);
  total = rw e s.total;
  minimum = rw e s.minimum;
  maximum = rw e s.maximum;
}

IsSummary-some :
    (ctx : ThreadContext) (m : Measured) (ms : List Measured) (z : ℤ) (next ctx' : ThreadContext)
    → m.answer ≡ some z
    → IsAnswered ctx m z next
    → IsSummary next ms ctx'
    → IsSummary ctx (m ∷ ms) ctx'
IsSummary-some ctx m ms z next ctx' e n s = record {
  successes = s.successes ∙ rw (e, n.success) omega arith;
  errors = s.errors ∙ rw (e, n.error) omega arith;
  total = s.total ∙ rw (e, n.total) (u64_add ctx.total_latency (latency_of m) (sum (latencies ms)));
  minimum =
      s.minimum
      ∙ rw (e, n.minimum) (smaller_assoc ctx.min_latency (latency_of m) (least (latencies ms)));
  maximum =
      s.maximum
      ∙ rw (e, n.maximum) (larger_assoc ctx.max_latency (latency_of m) (greatest (latencies ms)));
}

IsAnswered-IsMetrics :
    (ctx : ThreadContext) (m : Measured) (z : ℤ) (next : ThreadContext)
    → IsMetrics ctx
    → IsAnswered ctx m z next
    → IsMetrics next
IsAnswered-IsMetrics ctx m z next h n = record {
  total_fits = rw n.total omega arith;
  minimum_fits = rw n.minimum ground arith;
}

least_fits : (ls : List ℕ) → least ls < 2 ^ 64
least_fits [] = omega arith
least_fits (l ∷ ls) = let rest : least ls < 2 ^ 64 = least_fits ls in ground arith

same_metrics :
    (a b : ThreadContext)
    → a.min_latency ≡ b.min_latency
    → a.max_latency ≡ b.max_latency
    → a.total_latency ≡ b.total_latency
    → a.success_count ≡ b.success_count
    → a.error_count ≡ b.error_count
    → a ≡ b
same_metrics a b min max total success error = λ i. record {
  min_latency = min i;
  max_latency = max i;
  total_latency = total i;
  success_count = success i;
  error_count = error i;
}

thread_loop-none :
    (ctx : ThreadContext) (m : Measured) (ms : List Measured)
    → m.answer ≡ none
    → thread_loop ctx (map clocked (m ∷ ms)) ≡ thread_loop ctx (map clocked ms)
unfolding thread_loop
thread_loop-none ctx m ms e = rw e refl

thread_loop-some :
    (ctx : ThreadContext) (m : Measured) (ms : List Measured) (z : ℤ)
    → m.answer ≡ some z
    → thread_loop ctx (map clocked (m ∷ ms)) ≡ thread_loop (answered ctx m z) (map clocked ms)
unfolding thread_loop
thread_loop-some ctx m ms z e = rw e refl

thread_loop-IsSummary :
    (ms : List Measured) (ctx : ThreadContext)
    → IsMetrics ctx
    → IsSummary ctx ms (thread_loop ctx (map clocked ms))
unfolding thread_loop
thread_loop-IsSummary [] ctx h = record {
  successes = omega arith;
  errors = omega arith;
  total = omega (arith, h.total_fits);
  minimum = ground arith;
  maximum = ground arith;
}
thread_loop-IsSummary (m ∷ ms) ctx h = by-answer m.answer refl (thread_loop-IsSummary ms)
  where
    by-answer :
        (answer : Option ℤ)
        → m.answer ≡ answer
        → ((c : ThreadContext) → IsMetrics c → IsSummary c ms (thread_loop c (map clocked ms)))
        → IsSummary ctx (m ∷ ms) (thread_loop ctx (map clocked (m ∷ ms)))
    by-answer none e rest =
        rw (thread_loop-none ctx m ms e)
          (IsSummary-none ctx m ms (thread_loop ctx (map clocked ms)) e (rest ctx h))
    by-answer (some z) e rest =
        let n : IsAnswered ctx m z (answered ctx m z) = answered-IsAnswered ctx m z in
        rw (thread_loop-some ctx m ms z e) (
          IsSummary-some ctx m ms z (answered ctx m z)
            (thread_loop (answered ctx m z) (map clocked ms)) e n
            (rest (answered ctx m z) (IsAnswered-IsMetrics ctx m z (answered ctx m z) h n)))

-- When the device file is opened and no clock fails, a thread counts as successes the answers that
-- are the expected results and as errors the other answers. Of the answered operations, it has the
-- sum of the latencies, as a word of 64 bits, the least latency and the greatest, which are 2^64 - 1
-- and 0 when there is none.
pub thread_fn-latencies :
    (ms : List Measured)
    → thread_fn true (map clocked ms) ≡ record {
      min_latency = least (latencies ms);
      max_latency = greatest (latencies ms);
      total_latency = u64 (sum (latencies ms));
      success_count = total_of (λ m. right m.operation m.answer) ms;
      error_count = total_of (λ m. wrong m.operation m.answer) ms;
    }
unfolding thread_fn
thread_fn-latencies ms =
    let s =
      thread_loop-IsSummary ms begun
        (record { total_fits = omega arith; minimum_fits = omega arith }) in
    let fits : least (latencies ms) < 2 ^ 64 = least_fits (latencies ms) in
    same_metrics (thread_loop begun (map clocked ms)) _ (s.minimum ∙ ground arith)
      (s.maximum ∙ ground arith) (s.total ∙ omega arith) (s.successes ∙ omega arith)
      (s.errors ∙ omega arith)
