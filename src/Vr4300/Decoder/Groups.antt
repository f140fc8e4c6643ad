-- ===== src/Vr4300/Decoder/Groups.antt =====
-- vr4300/decoder.c: where the groups of the opcode table lie.
use cmips_cen.Base.{
  ℕ, zero, suc, ◌+◌, ◌<◌, ◌≡◌, refl, ap, ◌∙◌, arith, List, [], ◌∷◌, ◌++◌, length, get_elem?,
}
use cmips_cen.Vr4300.Decoder.Opcodes.{OpcodeId}
use cmips_cen.Vr4300.Decoder.Tables.{
  special_table, regimm_table, cop0_table, cop0_word_table, cop1_table, cop1_word_table, cop2_table,
  major_table, opcode_table,
}

pub get_append_left :
    (xs ys : List OpcodeId) (i : ℕ) → i < length xs → get_elem? (xs ++ ys) i ≡ get_elem? xs i
get_append_left [] ys i h = absurd (omega arith)
get_append_left (x ∷ xs) ys zero h = refl
get_append_left (x ∷ xs) ys (suc i) h = get_append_left xs ys i (omega arith)

pub skip :
    (n : ℕ) (xs ys : List OpcodeId) (i j : ℕ)
    → length xs ≡ n
    → j ≡ n + i
    → get_elem? (xs ++ ys) j ≡ get_elem? ys i
skip n [] ys i j l e = let same : j ≡ i = omega (arith, l, e) in ap (get_elem? ys) same
skip n (x ∷ xs) ys i zero l e = absurd (omega (arith, l, e))
skip n (x ∷ xs) ys i (suc j) l e = skip (length xs) xs ys i j refl (omega (arith, l, e))

pub special-length : length special_table ≡ 64
unfolding special_table
special-length = refl

pub regimm-length : length regimm_table ≡ 32
unfolding regimm_table
regimm-length = refl

pub cop0-length : length cop0_table ≡ 16
unfolding cop0_table
cop0-length = refl

pub cop0_word-length : length cop0_word_table ≡ 64
unfolding cop0_word_table
cop0_word-length = refl

pub cop1-length : length cop1_table ≡ 16
unfolding cop1_table
cop1-length = refl

pub cop1_word-length : length cop1_word_table ≡ 64
unfolding cop1_word_table
cop1_word-length = refl

pub cop2-length : length cop2_table ≡ 32
unfolding cop2_table
cop2-length = refl

-- The tables from the second, the third, ... on
abbrev pub from_cop2 : List OpcodeId
from_cop2 = cop2_table ++ major_table

abbrev pub from_cop1_word : List OpcodeId
from_cop1_word = cop1_word_table ++ from_cop2

abbrev pub from_cop1 : List OpcodeId
from_cop1 = cop1_table ++ from_cop1_word

abbrev pub from_cop0_word : List OpcodeId
from_cop0_word = cop0_word_table ++ from_cop1

abbrev pub from_cop0 : List OpcodeId
from_cop0 = cop0_table ++ from_cop0_word

abbrev pub from_regimm : List OpcodeId
from_regimm = regimm_table ++ from_cop0

-- The groups of the opcode table stand at the offsets of the escapes.
pub at_special :
    (i : ℕ) → get_elem? opcode_table (0 + i) ≡ get_elem? (special_table ++ from_regimm) i
unfolding opcode_table
at_special i = let e : 0 + i ≡ i = omega arith in ap (get_elem? opcode_table) e

pub at_regimm : (i : ℕ) → get_elem? opcode_table (64 + i) ≡ get_elem? from_regimm i
unfolding opcode_table
at_regimm i = skip 64 special_table from_regimm i (64 + i) special-length refl

pub at_cop0 : (i : ℕ) → get_elem? opcode_table (96 + i) ≡ get_elem? from_cop0 i
at_cop0 i =
    let e : 96 + i ≡ 64 + (32 + i) = omega arith in
    ap (get_elem? opcode_table) e
    ∙ at_regimm (32 + i)
    ∙ skip 32 regimm_table from_cop0 i (32 + i) regimm-length refl

pub at_cop0_word : (i : ℕ) → get_elem? opcode_table (112 + i) ≡ get_elem? from_cop0_word i
at_cop0_word i =
    let e : 112 + i ≡ 96 + (16 + i) = omega arith in
    ap (get_elem? opcode_table) e
    ∙ at_cop0 (16 + i)
    ∙ skip 16 cop0_table from_cop0_word i (16 + i) cop0-length refl

pub at_cop1 : (i : ℕ) → get_elem? opcode_table (176 + i) ≡ get_elem? from_cop1 i
at_cop1 i =
    let e : 176 + i ≡ 112 + (64 + i) = omega arith in
    ap (get_elem? opcode_table) e
    ∙ at_cop0_word (64 + i)
    ∙ skip 64 cop0_word_table from_cop1 i (64 + i) cop0_word-length refl

pub at_cop1_word : (i : ℕ) → get_elem? opcode_table (192 + i) ≡ get_elem? from_cop1_word i
at_cop1_word i =
    let e : 192 + i ≡ 176 + (16 + i) = omega arith in
    ap (get_elem? opcode_table) e
    ∙ at_cop1 (16 + i)
    ∙ skip 16 cop1_table from_cop1_word i (16 + i) cop1-length refl

pub at_cop2 : (i : ℕ) → get_elem? opcode_table (256 + i) ≡ get_elem? from_cop2 i
at_cop2 i =
    let e : 256 + i ≡ 192 + (64 + i) = omega arith in
    ap (get_elem? opcode_table) e
    ∙ at_cop1_word (64 + i)
    ∙ skip 64 cop1_word_table from_cop2 i (64 + i) cop1_word-length refl

pub at_major : (i : ℕ) → get_elem? opcode_table (288 + i) ≡ get_elem? major_table i
at_major i =
    let e : 288 + i ≡ 256 + (32 + i) = omega arith in
    ap (get_elem? opcode_table) e
    ∙ at_cop2 (32 + i)
    ∙ skip 32 cop2_table major_table i (32 + i) cop2-length refl
