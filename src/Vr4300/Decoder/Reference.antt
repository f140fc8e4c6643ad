-- ===== src/Vr4300/Decoder/Reference.antt =====
-- vr4300/decoder.c: the decoder against the format of an instruction word.
use cmips_cen.Base.{
  ℕ, zero, suc, ◌+◌, ◌-◌, ◌/◌, ◌%◌, ◌^◌, ◌<◌, ◌≡◌, ◌≢◌, refl, ap, ◌∙◌, arith, some, List, [], ◌∷◌,
  ◌==◌, if◌then◌else◌, length, get_elem?, bit, bit_and,
}
use cmips_cen.Base.Bits.{bit_and-mask}
use cmips_cen.Vr4300.Decoder.{of_entry, decode_instruction}
use cmips_cen.Vr4300.Decoder.Opcodes.{OpcodeId, opcode_of}
use cmips_cen.Vr4300.Decoder.Tables.{
  special_table, regimm_table, cop0_table, cop0_word_table, cop1_table, cop1_word_table, cop2_table,
  major_table, escape_table, opcode_table,
}
use cmips_cen.Vr4300.Decoder.Groups.{
  get_append_left, special-length, regimm-length, cop0-length, cop0_word-length, cop1-length,
  cop1_word-length, cop2-length, from_cop2, from_cop1_word, from_cop1, from_cop0_word, from_cop0,
  from_regimm, at_special, at_regimm, at_cop0, at_cop0_word, at_cop1, at_cop1_word, at_cop2,
  at_major,
}

-- The table and the index by the fields of the word: the primary opcode in bits 26 to 31, the
-- function in the low six bits, the format in bits 21 to 24 or 25, the branch in bits 16 to 20
pub fields_of : ℕ → List OpcodeId × ℕ
fields_of iw =
    let primary = iw / 2 ^ 26 in
    if primary == 0
    then (special_table, iw % 2 ^ 6)
    else if primary == 1
    then (regimm_table, iw / 2 ^ 16 % 2 ^ 5)
    else if primary == 16
    then if bit 25 iw then (cop0_word_table, iw % 2 ^ 6) else (cop0_table, iw / 2 ^ 21 % 2 ^ 4)
    else if primary == 17
    then if bit 25 iw then (cop1_word_table, iw % 2 ^ 6) else (cop1_table, iw / 2 ^ 21 % 2 ^ 4)
    else if primary == 18
    then (cop2_table, iw / 2 ^ 21 % 2 ^ 5)
    else (major_table, primary)

decode_at :
    (iw offset shift k : ℕ)
    → escape_table (iw / 2 ^ 25) ≡ record { offset = offset; shift = shift; mask = 2 ^ k - 1 }
    → decode_instruction iw ≡ of_entry (get_elem? opcode_table (offset + iw / 2 ^ shift % 2 ^ k))
unfolding decode_instruction
decode_at iw offset shift k e =
    ap (λ x. of_entry (get_elem? opcode_table (x.offset + bit_and (iw / 2 ^ x.shift) x.mask))) e
    ∙ ap (λ n. of_entry (get_elem? opcode_table (offset + n))) (bit_and-mask k (iw / 2 ^ shift))

-- Each escape leads to the table of its format.
decode_special :
    (iw : ℕ)
    → iw / 2 ^ 26 ≡ 0
    → decode_instruction iw ≡ of_entry (get_elem? special_table (iw % 2 ^ 6))
unfolding escape_table
decode_special iw h =
    let i : ℕ = iw / 2 ^ 0 % 2 ^ 6 in
    let here : i ≡ iw % 2 ^ 6 = omega arith in
    decode_at iw 0 0 6 (ground arith)
    ∙ ap of_entry
        (at_special i ∙ get_append_left special_table from_regimm i (omega (arith, special-length)))
    ∙ ap (λ n. of_entry (get_elem? special_table n)) here

decode_regimm :
    (iw : ℕ)
    → iw / 2 ^ 26 ≡ 1
    → decode_instruction iw ≡ of_entry (get_elem? regimm_table (iw / 2 ^ 16 % 2 ^ 5))
unfolding escape_table
decode_regimm iw h =
    let i : ℕ = iw / 2 ^ 16 % 2 ^ 5 in
    let here : i ≡ iw / 2 ^ 16 % 2 ^ 5 = omega arith in
    decode_at iw 64 16 5 (ground arith)
    ∙ ap of_entry
        (at_regimm i ∙ get_append_left regimm_table from_cop0 i (omega (arith, regimm-length)))
    ∙ ap (λ n. of_entry (get_elem? regimm_table n)) here

decode_cop0 :
    (iw : ℕ)
    → iw / 2 ^ 25 ≡ 32
    → decode_instruction iw ≡ of_entry (get_elem? cop0_table (iw / 2 ^ 21 % 2 ^ 4))
unfolding escape_table
decode_cop0 iw h =
    let i : ℕ = iw / 2 ^ 21 % 2 ^ 4 in
    let here : i ≡ iw / 2 ^ 21 % 2 ^ 4 = omega arith in
    decode_at iw 96 21 4 (ground arith)
    ∙ ap of_entry
        (at_cop0 i ∙ get_append_left cop0_table from_cop0_word i (omega (arith, cop0-length)))
    ∙ ap (λ n. of_entry (get_elem? cop0_table n)) here

decode_cop0_word :
    (iw : ℕ)
    → iw / 2 ^ 25 ≡ 33
    → decode_instruction iw ≡ of_entry (get_elem? cop0_word_table (iw % 2 ^ 6))
unfolding escape_table
decode_cop0_word iw h =
    let i : ℕ = iw / 2 ^ 0 % 2 ^ 6 in
    let here : i ≡ iw % 2 ^ 6 = omega arith in
    decode_at iw 112 0 6 (ground arith)
    ∙ ap of_entry (
        at_cop0_word i
        ∙ get_append_left cop0_word_table from_cop1 i (omega (arith, cop0_word-length)))
    ∙ ap (λ n. of_entry (get_elem? cop0_word_table n)) here

decode_cop1 :
    (iw : ℕ)
    → iw / 2 ^ 25 ≡ 34
    → decode_instruction iw ≡ of_entry (get_elem? cop1_table (iw / 2 ^ 21 % 2 ^ 4))
unfolding escape_table
decode_cop1 iw h =
    let i : ℕ = iw / 2 ^ 21 % 2 ^ 4 in
    let here : i ≡ iw / 2 ^ 21 % 2 ^ 4 = omega arith in
    decode_at iw 176 21 4 (ground arith)
    ∙ ap of_entry
        (at_cop1 i ∙ get_append_left cop1_table from_cop1_word i (omega (arith, cop1-length)))
    ∙ ap (λ n. of_entry (get_elem? cop1_table n)) here

decode_cop1_word :
    (iw : ℕ)
    → iw / 2 ^ 25 ≡ 35
    → decode_instruction iw ≡ of_entry (get_elem? cop1_word_table (iw % 2 ^ 6))
unfolding escape_table
decode_cop1_word iw h =
    let i : ℕ = iw / 2 ^ 0 % 2 ^ 6 in
    let here : i ≡ iw % 2 ^ 6 = omega arith in
    decode_at iw 192 0 6 (ground arith)
    ∙ ap of_entry (
        at_cop1_word i
        ∙ get_append_left cop1_word_table from_cop2 i (omega (arith, cop1_word-length)))
    ∙ ap (λ n. of_entry (get_elem? cop1_word_table n)) here

decode_cop2 :
    (iw : ℕ)
    → iw / 2 ^ 26 ≡ 18
    → decode_instruction iw ≡ of_entry (get_elem? cop2_table (iw / 2 ^ 21 % 2 ^ 5))
unfolding escape_table
decode_cop2 iw h =
    let i : ℕ = iw / 2 ^ 21 % 2 ^ 5 in
    let here : i ≡ iw / 2 ^ 21 % 2 ^ 5 = omega arith in
    decode_at iw 256 21 5 (ground arith)
    ∙ ap of_entry
        (at_cop2 i ∙ get_append_left cop2_table major_table i (omega (arith, cop2-length)))
    ∙ ap (λ n. of_entry (get_elem? cop2_table n)) here

decode_major :
    (iw : ℕ)
    → iw < 2 ^ 32
    → iw / 2 ^ 26 ≢ 0
    → iw / 2 ^ 26 ≢ 1
    → iw / 2 ^ 26 ≢ 16
    → iw / 2 ^ 26 ≢ 17
    → iw / 2 ^ 26 ≢ 18
    → decode_instruction iw ≡ of_entry (get_elem? major_table (iw / 2 ^ 26))
unfolding escape_table
decode_major iw h a b c d e =
    let i : ℕ = iw / 2 ^ 26 % 2 ^ 6 in
    let here : i ≡ iw / 2 ^ 26 = omega arith in
    decode_at iw 288 26 6 (ground arith)
    ∙ ap of_entry (at_major i)
    ∙ ap (λ n. of_entry (get_elem? major_table n)) here

decode_fields :
    (iw : ℕ)
    → iw < 2 ^ 32
    → decode_instruction iw ≡ of_entry (get_elem? (fields_of iw).0 (fields_of iw).1)
unfolding fields_of bit
decode_fields iw h = ground (
  arith,
  decode_special iw,
  decode_regimm iw,
  decode_cop0 iw,
  decode_cop0_word iw,
  decode_cop1 iw,
  decode_cop1_word iw,
  decode_cop2 iw,
  decode_major iw,
)

get_some : (xs : List OpcodeId) (i : ℕ) → i < length xs → (o : OpcodeId) × (get_elem? xs i ≡ some o)
get_some [] i h = absurd (omega arith)
get_some (x ∷ xs) zero h = (x, refl)
get_some (x ∷ xs) (suc i) h = get_some xs i (omega arith)

major-length : length major_table ≡ 64
unfolding major_table
major-length = refl

fields_in_range : (iw : ℕ) → iw < 2 ^ 32 → (fields_of iw).1 < length (fields_of iw).0
unfolding fields_of
fields_in_range iw h = ground (
  arith, special-length, regimm-length, cop0-length, cop0_word-length, cop1-length,
  cop1_word-length, cop2-length, major-length,
)

-- Every instruction word is decoded: the index is in the opcode table, and the opcode there is the
-- one that the table of the word's format has for its fields.
pub decode_instruction-reference :
    (iw : ℕ)
    → iw < 2 ^ 32
    → (o : OpcodeId) × (get_elem? (fields_of iw).0 (fields_of iw).1 ≡ some o)
      × (decode_instruction iw ≡ some (opcode_of o))
decode_instruction-reference iw h =
    let (o, found) = get_some (fields_of iw).0 (fields_of iw).1 (fields_in_range iw h) in
    (o, found, decode_fields iw h ∙ ap of_entry found)
