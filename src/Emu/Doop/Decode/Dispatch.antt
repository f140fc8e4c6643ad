-- ===== src/Emu/Doop/Decode/Dispatch.antt =====
-- The seven switches of src/gen/doop.gen.c against the decoder by fields.
use cmips_cen.Base.{
  ℕ, ◌+◌, ◌*◌, ◌/◌, ◌%◌, ◌^◌, ◌≡◌, ◌≢◌, refl, ap, ap₂, ◌∙◌, arith, false, ◌&&◌, inl, inr, ◌==◌,
  if◌then◌else◌, leb, Bool-cases, none, some,
}
use cmips_cen.Machine.{M}
use cmips_cen.Emu.Alu.{op_movz, op_movn, op_mul}
use cmips_cen.Emu.Branch.{op_bgtzl}
use cmips_cen.Emu.Regs.{rs_of, rt_of}
use cmips_cen.Emu.Doop.{
  Handler, lift, still, major_key, major_cases, special_key, special_cases, regimm_key,
  regimm_cases, cop0_word_key, cop0_word_cases, special2_key, special2_cases, cop0_move_key,
  cop0_move_cases, wait_word_key, wait_word_cases, find_case, choose, op_reserved, doop,
}
use cmips_cen.Emu.Doop.Decode.{
  opcodes, functions, decode, decode_moves, decode_special, decode_regimm, decode_cop0,
}
use cmips_cen.Emu.Doop.Decode.Tables.{
  pick, choose-pick, no_special, no_regimm, no_cop0_word, no_special2, no_cop0_move, no_wait,
  no_major, no_case, find_case-opcodes, special-functions,
}

-- The switches that are left after each one
abbrev after6 : ℕ → Handler
after6 op = choose (wait_word_key op) wait_word_cases (still op_reserved)

abbrev after5 : ℕ → Handler
after5 op = choose (cop0_move_key op) cop0_move_cases (after6 op)

abbrev after4 : ℕ → Handler
after4 op = choose (special2_key op) special2_cases (after5 op)

abbrev after3 : ℕ → Handler
after3 op = choose (cop0_word_key op) cop0_word_cases (after4 op)

abbrev after2 : ℕ → Handler
after2 op = choose (regimm_key op) regimm_cases (after3 op)

abbrev after1 : ℕ → Handler
after1 op = choose (special_key op) special_cases (after2 op)

-- No switch below the fourth has a case for an opcode other than COP0 and SPECIAL2.
end_of_switches :
    (op : ℕ)
    → op / 2 ^ 26 ≢ 0
    → op / 2 ^ 26 ≢ 16
    → op / 2 ^ 26 ≢ 28
    → after3 op op ≡ still op_reserved op
end_of_switches op z c s =
    no_case op cop0_word_cases (after4 op) op (no_cop0_word op c)
    ∙ no_case (special2_key op) special2_cases (after5 op) op (no_special2 op z s)
    ∙ no_case (cop0_move_key op) cop0_move_cases (after6 op) op (no_cop0_move op c)
    ∙ no_case (wait_word_key op) wait_word_cases (still op_reserved) op (no_wait op c)

-- From the second switch on, for an opcode that is not SPECIAL
to_regimm :
    (op : ℕ)
    → find_case (major_key op) major_cases ≡ none
    → op / 2 ^ 26 ≢ 0
    → doop op ≡ after2 op op
unfolding doop
to_regimm op major z =
    no_case (major_key op) major_cases (after1 op) op major
    ∙ no_case (special_key op) special_cases (after2 op) op (no_special op z)

special_moves : (op : ℕ) → op / 2 ^ 26 ≡ 0 → after2 op op ≡ decode_moves op
unfolding pick special2_cases decode_moves
special_moves op h =
    let key : special2_key op ≡ op % 2 ^ 11 = omega arith in
    let not_mul : op % 2 ^ 11 == 0x70000002 ≡ false = ground arith in
    let test = λ (x : M (Unit {0})).
      (if op % 2 ^ 11 == 10
        then lift op_movz op
        else if op % 2 ^ 11 == 11
        then lift op_movn op
        else x) in
    no_case (regimm_key op) regimm_cases (after3 op) op (no_regimm op (omega arith) (omega arith))
    ∙ no_case op cop0_word_cases (after4 op) op (no_cop0_word op (omega arith))
    ∙ ap (λ k. choose k special2_cases (after5 op) op) key
    ∙ choose-pick (op % 2 ^ 11) special2_cases (after5 op) op
    ∙ ap (λ b. test (if b then lift op_mul op else after5 op op)) not_mul
    ∙ ap test (
        no_case (cop0_move_key op) cop0_move_cases (after6 op) op (no_cop0_move op (omega arith))
        ∙ no_case (wait_word_key op) wait_word_cases (still op_reserved) op
            (no_wait op (omega arith)))

decode_special_lem : (op : ℕ) → op / 2 ^ 26 ≡ 0 → doop op ≡ decode_special op
unfolding doop decode_special
decode_special_lem op h =
    let key : special_key op ≡ op % 2 ^ 6 = omega arith in
    no_case (major_key op) major_cases (after1 op) op (no_major op (ground arith))
    ∙ ap₂ (λ k t. choose k t (after2 op) op) key special-functions
    ∙ ap (λ x. elim (find_case (op % 2 ^ 6) functions) [ none ↦ x | some h ↦ h op ])
        (special_moves op h)

decode_regimm_lem : (op : ℕ) → op / 2 ^ 26 ≡ 1 → doop op ≡ decode_regimm op
unfolding decode_regimm pick regimm_cases
decode_regimm_lem op h =
    let k = 2 ^ 26 + rt_of op * 2 ^ 16 in
    let key : regimm_key op ≡ k = omega arith in
    let b0 : k == 0x4000000 ≡ (rt_of op == 0) = ground arith in
    let b1 : k == 0x4010000 ≡ (rt_of op == 1) = ground arith in
    let b2 : k == 0x4020000 ≡ (rt_of op == 2) = ground arith in
    let b3 : k == 0x4030000 ≡ (rt_of op == 3) = ground arith in
    let b16 : k == 0x4100000 ≡ (rt_of op == 16) = ground arith in
    let b17 : k == 0x4110000 ≡ (rt_of op == 17) = ground arith in
    let b23 : k == 0x5c000000 ≡ false = ground arith in
    to_regimm op (no_major op (ground arith)) (omega arith)
    ∙ ap (λ k. choose k regimm_cases (after3 op) op) key
    ∙ choose-pick k regimm_cases (after3 op) op
    ∙ rw
        (
          b0,
          b1,
          b2,
          b3,
          b16,
          b17,
          b23,
          end_of_switches op (omega arith) (omega arith) (omega arith),
        )
        refl

decode_bgtzl_lem :
    (op : ℕ)
    → op / 2 ^ 26 ≡ 23
    → doop op ≡ (if rt_of op == 0 then lift op_bgtzl op else still op_reserved op)
unfolding pick regimm_cases
decode_bgtzl_lem op h =
    let k = regimm_key op in
    let b0 : k == 0x4000000 ≡ false = ground arith in
    let b1 : k == 0x4010000 ≡ false = ground arith in
    let b2 : k == 0x4020000 ≡ false = ground arith in
    let b3 : k == 0x4030000 ≡ false = ground arith in
    let b16 : k == 0x4100000 ≡ false = ground arith in
    let b17 : k == 0x4110000 ≡ false = ground arith in
    let b23 : k == 0x5c000000 ≡ (rt_of op == 0) = ground arith in
    to_regimm op (no_major op (ground arith)) (omega arith)
    ∙ choose-pick k regimm_cases (after3 op) op
    ∙ rw
        (
          b0,
          b1,
          b2,
          b3,
          b16,
          b17,
          b23,
          end_of_switches op (omega arith) (omega arith) (omega arith),
        )
        refl

decode_cop0_lem : (op : ℕ) → op / 2 ^ 26 ≡ 16 → doop op ≡ decode_cop0 op
unfolding decode_cop0 pick cop0_word_cases cop0_move_cases wait_word_cases
decode_cop0_lem op h =
    let move = cop0_move_key op in
    let wait = wait_word_key op in
    let b0 : move == 0x40000000 ≡ (rs_of op == 0) = ground arith in
    let b4 : move == 0x40800000 ≡ (rs_of op == 4) = ground arith in
    let bw : wait == 0x42000020 ≡ leb 16 (rs_of op) && op % 2 ^ 6 == 0x20 = ground arith in
    to_regimm op (no_major op (ground arith)) (omega arith)
    ∙ no_case (regimm_key op) regimm_cases (after3 op) op (no_regimm op (omega arith) (omega arith))
    ∙ choose-pick op cop0_word_cases (after4 op) op
    ∙ ap (λ x. pick op cop0_word_cases (λ _. x) op)
        (no_case (special2_key op) special2_cases (after5 op) op
            (no_special2 op (omega arith) (omega arith))
          ∙ choose-pick move cop0_move_cases (after6 op) op
          ∙ ap (λ x. pick move cop0_move_cases (λ _. x) op)
              (choose-pick wait wait_word_cases (still op_reserved) op)
          ∙ rw (b0, b4, bw) refl)

decode_mul_lem :
    (op : ℕ)
    → op / 2 ^ 26 ≡ 28
    → doop op ≡ (if op % 2 ^ 11 == 2 then lift op_mul op else still op_reserved op)
unfolding pick special2_cases
decode_mul_lem op h =
    let k = special2_key op in
    let a : k == 10 ≡ false = ground arith in
    let b : k == 11 ≡ false = ground arith in
    let c : k == 0x70000002 ≡ (op % 2 ^ 11 == 2) = ground arith in
    let tail : after5 op op ≡ still op_reserved op =
      no_case (cop0_move_key op) cop0_move_cases (after6 op) op (no_cop0_move op (omega arith))
      ∙ no_case (wait_word_key op) wait_word_cases (still op_reserved) op
          (no_wait op (omega arith)) in
    to_regimm op (no_major op (ground arith)) (omega arith)
    ∙ no_case (regimm_key op) regimm_cases (after3 op) op (no_regimm op (omega arith) (omega arith))
    ∙ no_case op cop0_word_cases (after4 op) op (no_cop0_word op (omega arith))
    ∙ choose-pick k special2_cases (after5 op) op
    ∙ rw (a, b, c, tail) refl

-- Every other opcode is a case of the first switch or a reserved instruction.
decode_other_lem :
    (op : ℕ)
    → op / 2 ^ 26 ≢ 0
    → op / 2 ^ 26 ≢ 1
    → op / 2 ^ 26 ≢ 16
    → op / 2 ^ 26 ≢ 23
    → op / 2 ^ 26 ≢ 28
    → doop op ≡ choose (op / 2 ^ 26) opcodes (still op_reserved) op
unfolding doop
decode_other_lem op n0 n1 n16 n23 n28 =
    ap (λ x. elim (find_case (major_key op) major_cases) [ none ↦ x | some h ↦ h op ])
      (no_case (special_key op) special_cases (after2 op) op (no_special op n0)
        ∙ no_case (regimm_key op) regimm_cases (after3 op) op (no_regimm op n1 n23)
        ∙ end_of_switches op n0 n16 n28)
    ∙ ap (λ r. elim r [ none ↦ still op_reserved op | some h ↦ h op ]) (find_case-opcodes op)

-- For every word, the generated dispatch runs the operation that the fields of the instruction
-- name: the opcode first, then the function, the register fields or the whole word; and any word
-- that names none is a reserved instruction.
pub doop-decode : (op : ℕ) → doop op ≡ decode op
unfolding decode
doop-decode op = elim (Bool-cases (op / 2 ^ 26 == 0)) [
  | inl e ↦ rw e (decode_special_lem op (ground arith))
  | inr n0 ↦ elim (Bool-cases (op / 2 ^ 26 == 1)) [
    | inl e ↦ rw (n0, e) (decode_regimm_lem op (ground arith))
    | inr n1 ↦ elim (Bool-cases (op / 2 ^ 26 == 16)) [
      | inl e ↦ rw (n0, n1, e) (decode_cop0_lem op (ground arith))
      | inr n16 ↦ elim (Bool-cases (op / 2 ^ 26 == 23)) [
        | inl e ↦ rw (n0, n1, n16, e) (decode_bgtzl_lem op (ground arith))
        | inr n23 ↦ elim (Bool-cases (op / 2 ^ 26 == 28)) [
          | inl e ↦ rw (n0, n1, n16, n23, e) (decode_mul_lem op (ground arith))
          | inr n28 ↦
              rw (n0, n1, n16, n23, n28)
                (decode_other_lem op (ground arith) (ground arith) (ground arith) (ground arith)
                  (ground arith))
        ]
      ]
    ]
  ]
]
