-- ===== src/Tests/Text.antt =====
-- Runs of the functions of text.c.
use tele_bezel.Base.{
  ℕ, ◌≡◌, ◌≤◌, ◌<◌, refl, true, false, some, none, List, [], ◌∷◌, arith, take, get_or,
}
use tele_bezel.Base.Int.{ℤ, negate}
use tele_bezel.Codec.{Span}
use tele_bezel.Text.{
  Budget, is_continuation, back_up, utf8_fit, is_digit, parse_digits, parse_id, copy_id,
  copy_id_from, budget_copy, budget_free,
}
use tele_bezel.Text.Utf8.{Char, text, utf8_fit-text, utf8_fit_longest}
use tele_bezel.Text.Ids.{read_id, IsCanonical, parse_id_lem, copy_id_accepts}
use tele_bezel.Text.Budgets.{
  Accounts, cost, budget_copy-Accounts, budget_copy_limit, budget_free-Accounts, budget_free_zero,
}

-- The euro sign and a letter.
abbrev euro : List Char
euro = record { lead = 0xE2; tail = 0x82 ∷ 0xAC ∷ [] } ∷ record { lead = 65; tail = [] } ∷ []

abbrev minus_five : List ℕ
minus_five = b'-' ∷ b'5' ∷ []

abbrev word : Span
word = record { bytes = 65 ∷ 66 ∷ 67 ∷ []; length = 3 }

abbrev small_budget : Budget
small_budget = record { used = 2; limit = 8 }

least_id :
    parse_id (
      45 ∷ 57 ∷ 50 ∷ 50 ∷ 51 ∷ 51 ∷ 55 ∷ 50 ∷ 48 ∷ 51 ∷ 54 ∷ 56 ∷ 53 ∷ 52 ∷ 55 ∷ 55 ∷ 53 ∷ 56 ∷ 48
      ∷ 56 ∷ [])
    ≡ some (negate 9223372036854775808)
unfolding parse_id parse_digits is_digit
least_id = refl

too_great_id :
    parse_id (
      57 ∷ 50 ∷ 50 ∷ 51 ∷ 51 ∷ 55 ∷ 50 ∷ 48 ∷ 51 ∷ 54 ∷ 56 ∷ 53 ∷ 52 ∷ 55 ∷ 55 ∷ 53 ∷ 56 ∷ 48 ∷ 56
      ∷ [])
    ≡ none
unfolding parse_id parse_digits is_digit
too_great_id = refl

utf8_fit-text_example :
    (k : ℕ) × (take (utf8_fit (some (text euro)) 4 3) (text euro) ≡ text (take k euro))
unfolding is_continuation
utf8_fit-text_example = utf8_fit-text euro 3 ((refl, refl), ((refl, refl), tt)) (omega arith)

utf8_fit_longest_example : (3 ≤ 4) × (is_continuation (get_or (text euro) 2 0) ≡ true)
unfolding is_continuation utf8_fit back_up
utf8_fit_longest_example =
    utf8_fit_longest (text euro) 4 3 2 (omega arith) (omega arith) (omega arith) (omega arith)

parse_id_lem_example : parse_id minus_five ≡ read_id minus_five
parse_id_lem_example = parse_id_lem minus_five

copy_id_accepts_example :
    (minus_five ≡ minus_five)
    × (2 < 21)
    × IsCanonical true minus_five
    × ((key : ℤ) × (read_id minus_five ≡ some key))
unfolding copy_id copy_id_from parse_id parse_digits is_digit
copy_id_accepts_example = copy_id_accepts 21 minus_five true minus_five refl

budget_copy-Accounts_example :
    let (copy, b) = budget_copy true small_budget word 2 true in
    Accounts b (copy ∷ some (65 ∷ []) ∷ []) × (cost copy ≤ 3)
budget_copy-Accounts_example =
    budget_copy-Accounts true small_budget word 2 true (some (65 ∷ []) ∷ []) (omega arith) refl

budget_copy_limit_example :
    let b = (budget_copy true small_budget word 5 false).1 in (b.used ≤ b.limit) × (b.limit ≡ 8)
budget_copy_limit_example = budget_copy_limit true small_budget word 5 (omega arith)

budget_free-Accounts_example : Accounts (budget_free small_budget (some (65 ∷ []))) []
budget_free-Accounts_example = budget_free-Accounts small_budget (some (65 ∷ [])) [] refl refl

budget_free_zero_example :
    0 < (budget_free (record { used = 4; limit = 8 }) (some (65 ∷ 0 ∷ 66 ∷ []))).used
budget_free_zero_example =
    budget_free_zero (record { used = 4; limit = 8 }) (65 ∷ 0 ∷ 66 ∷ []) [] refl refl
