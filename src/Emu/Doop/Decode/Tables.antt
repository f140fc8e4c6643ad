-- ===== src/Emu/Doop/Decode/Tables.antt =====
-- The tables of src/gen/doop.gen.c: a switch as a chain of tests, and the words that fit no case.
use cmips_cen.Base.{
  ℕ, ◌*◌, ◌/◌, ◌^◌, ◌≡◌, ◌≢◌, refl, ap, ap₂, ◌∙◌, arith, Bool, true, false, ◌||◌, ◌==◌,
  if◌then◌else◌, [], ◌∷◌, Option, none, some,
}
use cmips_cen.Emu.Doop.Decode.{opcodes, functions}
use cmips_cen.Emu.Doop.{
  Handler, Cases, major_key, major_cases, special_key, special_cases, regimm_key, regimm_cases,
  cop0_word_cases, special2_key, special2_cases, cop0_move_key, cop0_move_cases, wait_word_key,
  wait_word_cases, find_case, choose,
}

-- A switch as a chain of tests
unfoldable pub pick : ℕ → Cases → Handler → Handler
pick key [] next op = next op
pick key ((value, handler) ∷ cases) next op =
    let rest = pick key cases next op in if key == value then handler op else rest

choose_cons :
    (b : Bool) (handler : Handler) (r : Option Handler) (next : Handler) (op : ℕ)
    → elim (if b then some handler else r) [ none ↦ next op | some h ↦ h op ]
      ≡ (if b then handler op else elim r [ none ↦ next op | some h ↦ h op ])
choose_cons true handler r next op = refl
choose_cons false handler r next op = refl

pub choose-pick :
    (key : ℕ) (cases : Cases) (next : Handler) (op : ℕ)
    → choose key cases next op ≡ pick key cases next op
unfolding find_case pick
choose-pick key [] next op = refl
choose-pick key ((value, handler) ∷ cases) next op =
    choose_cons (key == value) handler (find_case key cases) next op
    ∙ ap (λ x. if key == value then handler op else x) (choose-pick key cases next op)

pub no_special : (op : ℕ) → op / 2 ^ 26 ≢ 0 → find_case (special_key op) special_cases ≡ none
unfolding find_case special_cases
no_special op h = ground arith

pub no_regimm :
    (op : ℕ) → op / 2 ^ 26 ≢ 1 → op / 2 ^ 26 ≢ 23 → find_case (regimm_key op) regimm_cases ≡ none
unfolding find_case regimm_cases
no_regimm op h h' = ground arith

pub no_cop0_word : (op : ℕ) → op / 2 ^ 26 ≢ 16 → find_case op cop0_word_cases ≡ none
unfolding find_case cop0_word_cases
no_cop0_word op h = ground arith

pub no_special2 :
    (op : ℕ)
    → op / 2 ^ 26 ≢ 0
    → op / 2 ^ 26 ≢ 28
    → find_case (special2_key op) special2_cases ≡ none
unfolding find_case special2_cases
no_special2 op h h' = ground arith

pub no_cop0_move : (op : ℕ) → op / 2 ^ 26 ≢ 16 → find_case (cop0_move_key op) cop0_move_cases ≡ none
unfolding find_case cop0_move_cases
no_cop0_move op h = ground arith

pub no_wait : (op : ℕ) → op / 2 ^ 26 ≢ 16 → find_case (wait_word_key op) wait_word_cases ≡ none
unfolding find_case wait_word_cases
no_wait op h = ground arith

pub no_major :
    (op : ℕ)
    → (op / 2 ^ 26 == 0 || op / 2 ^ 26 == 1)
        || (op / 2 ^ 26 == 16 || op / 2 ^ 26 == 23)
        || op / 2 ^ 26 == 28
      ≡ true
    → find_case (major_key op) major_cases ≡ none
unfolding find_case major_cases
no_major op h = ground arith

pub no_case :
    (key : ℕ) (cases : Cases) (next : Handler) (op : ℕ)
    → find_case key cases ≡ none
    → choose key cases next op ≡ next op
no_case key cases next op h = ap (λ r. elim r [ none ↦ next op | some handler ↦ handler op ]) h

-- A table with its values moved to the top six bits
scaled : Cases → Cases
scaled [] = []
scaled ((value, handler) ∷ cases) = (value * 2 ^ 26, handler) ∷ scaled cases

find_case-scaled :
    (key : ℕ) (cases : Cases) → find_case (key * 2 ^ 26) (scaled cases) ≡ find_case key cases
unfolding find_case scaled
find_case-scaled key [] = refl
find_case-scaled key ((value, handler) ∷ cases) =
    let same : key * 2 ^ 26 == value * 2 ^ 26 ≡ (key == value) = ground arith in
    ap₂ (λ b r. if b then some handler else r) same (find_case-scaled key cases)

pub find_case-opcodes :
    (op : ℕ) → find_case (major_key op) major_cases ≡ find_case (op / 2 ^ 26) opcodes
unfolding major_cases opcodes scaled
find_case-opcodes op = find_case-scaled (op / 2 ^ 26) opcodes

pub special-functions : special_cases ≡ functions
unfolding special_cases functions
special-functions = refl
