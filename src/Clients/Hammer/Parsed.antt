-- ===== src/Clients/Hammer/Parsed.antt =====
-- user-clients/concurrency-hammer.c: what the parser makes of a line.
use qemu_devices_and_drivers.Base.{
  ℕ, ◌<◌, true, some, List, [], ◌∷◌, ◌++◌, get_or, ◌≡◌, refl, arith, Bool-cases, inl, inr,
}
use qemu_devices_and_drivers.Words.Int.{ℤ, fits32}
use qemu_devices_and_drivers.Clients.Hammer.{
  ReqRes, is_zero, operator, and_then, opcode_to_operator, number, parse_token, parse_tokens,
  parse_line,
}

-- The fields that a line gives.
pub record IsSameOperation (a b : ReqRes) : Type 0 where
  pub same_opcode : (ReqRes.request a).opcode ≡ (ReqRes.request b).opcode
  pub same_a : (ReqRes.request a).arg_a ≡ (ReqRes.request b).arg_a
  pub same_b : (ReqRes.request a).arg_b ≡ (ReqRes.request b).arg_b
  pub same_expected : ReqRes.expected_result a ≡ ReqRes.expected_result b

-- An operation that can be written in a line.
pub record IsWritable (op : ReqRes) : Type 0 where
  pub known : (ReqRes.request op).opcode < 4
  pub a_fits : fits32 (ReqRes.request op).arg_a ≡ true
  pub b_fits : fits32 (ReqRes.request op).arg_b ≡ true
  pub expected_fits : fits32 (ReqRes.expected_result op) ≡ true

-- The end of a line, which `fgets` keeps and `strtok` leaves in the last token.
abbrev pub line_end : List ℕ
line_end = 10 ∷ []

-- A way to write numbers that `atoi` reads back, also before the end of a line, in which 0 begins with
-- the digit 0.
pub record IsDecimal (atoi : List ℕ → ℤ) (decimal : ℤ → List ℕ) : Type 0 where
  pub reads_back : (z : ℤ) → fits32 z ≡ true → atoi (decimal z) ≡ z
  pub reads_last : (z : ℤ) → fits32 z ≡ true → atoi (decimal z ++ line_end) ≡ z
  pub zero_first : (z : ℤ) → is_zero z ≡ true → get_or (decimal z) 0 0 ≡ b'0'

-- The tokens of the line of an operation.
abbrev pub line_of : (ℤ → List ℕ) → ReqRes → List (List ℕ)
line_of decimal op =
    decimal op.request.arg_a
    ∷ (opcode_to_operator op.request.opcode ∷ [])
    ∷ decimal op.request.arg_b
    ∷ (decimal op.expected_result ++ line_end)
    ∷ []

operator-opcode_to_operator :
    (opcode : ℕ) → opcode < 4 → operator (opcode_to_operator opcode) ≡ some opcode
unfolding operator opcode_to_operator
operator-opcode_to_operator opcode l = ground arith

-- The entry after the line of an operation was parsed into it.
abbrev pub read_into : ReqRes → ReqRes → ReqRes
read_into old op = record {
  request = record old.request {
    opcode = op.request.opcode;
    arg_a = op.request.arg_a;
    arg_b = op.request.arg_b;
  };
  expected_result = op.expected_result;
}

module _ (atoi : List ℕ → ℤ) where
  number-decimal :
      (decimal : ℤ → List ℕ) (z : ℤ)
      → IsDecimal atoi decimal
      → fits32 z ≡ true
      → number atoi (decimal z) ≡ some z
  unfolding number
  number-decimal decimal z d fits = elim (Bool-cases (is_zero z)) [
    | inl e ↦ rw (d.reads_back z fits, e, d.zero_first z e) refl
    | inr e ↦ rw (d.reads_back z fits, e) refl
  ]

  number-last :
      (decimal : ℤ → List ℕ) (z : ℤ)
      → IsDecimal atoi decimal
      → fits32 z ≡ true
      → number atoi (decimal z ++ line_end) ≡ some z
  unfolding number
  number-last decimal z d fits = elim (Bool-cases (is_zero z)) [
    | inl e ↦ rw (d.reads_last z fits, e, first-append (decimal z) (d.zero_first z e)) refl
    | inr e ↦ rw (d.reads_last z fits, e) refl
  ]
    where
      first-append : (cs : List ℕ) → get_or cs 0 0 ≡ b'0' → get_or (cs ++ line_end) 0 0 ≡ b'0'
      first-append [] e = ground arith
      first-append (c ∷ cs) e = e

  pub parse_line-line_of :
      (decimal : ℤ → List ℕ) (op old : ReqRes)
      → IsDecimal atoi decimal
      → IsWritable op
      → parse_line atoi (line_of decimal op) old ≡ some (read_into old op)
  unfolding parse_line parse_tokens parse_token and_then
  parse_line-line_of decimal op old d w =
      rw
        (
          number-decimal decimal op.request.arg_a d w.a_fits,
          operator-opcode_to_operator op.request.opcode w.known,
          number-decimal decimal op.request.arg_b d w.b_fits,
          number-last decimal op.expected_result d w.expected_fits,
        )
        refl
