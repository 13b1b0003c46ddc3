-- ===== src/Text/Budgets.antt =====
-- The budget of copied strings: `tb_budget_copy` and `tb_budget_free`.
use tele_bezel.Base.{
  ℕ, ◌+◌, ◌≤◌, ◌<◌, ◌≡◌, refl, Bool, true, false, Option, none, some, List, [], ◌∷◌, arith, length,
  length-take, ◌==◌, not, all,
}
use tele_bezel.Codec.{Span}
use tele_bezel.Text.{Budget, strlen, budget_copy, budget_free, utf8_fit}
use tele_bezel.Text.Utf8.{utf8_fit_bounds}

-- What a pointer that `tb_budget_copy` returned takes of the budget.
abbrev pub cost : Option (List ℕ) → ℕ
cost none = 0
cost (some block) = length block + 1

abbrev pub costs : List (Option (List ℕ)) → ℕ
costs [] = 0
costs (p ∷ ps) = cost p + costs ps

-- No zero byte.
abbrev pub is_nonzero : ℕ → Bool
is_nonzero c = not (c == 0)

abbrev pub IsPlain : Option (List ℕ) → Type 0
IsPlain none = Unit
IsPlain (some block) = all is_nonzero block ≡ true

strlen_plain : (block : List ℕ) → all is_nonzero block ≡ true → strlen block ≡ length block
unfolding strlen
strlen_plain [] h = refl
strlen_plain (c ∷ cs) h = ground (arith, strlen_plain cs)

pub strlen-le : (block : List ℕ) → strlen block ≤ length block
unfolding strlen
strlen-le [] = omega arith
strlen-le (c ∷ cs) = ground (arith, strlen-le cs)

strlen_zero : (block : List ℕ) → all is_nonzero block ≡ false → strlen block < length block
unfolding strlen
strlen_zero [] h = absurd (ground arith)
strlen_zero (c ∷ cs) h = ground (arith, strlen_zero cs)

-- `used` is what the live strings cost.
abbrev pub Accounts : Budget → List (Option (List ℕ)) → Type 0
Accounts budget live = budget.used ≡ costs live

-- `tb_budget_copy` keeps the account: the copy that it returns, if any, has joined the live strings,
-- and it is at most `max_length` bytes long.
pub budget_copy-Accounts :
    (memory : Bool) (budget : Budget) (value : Span) (max_length : ℕ) (force : Bool)
    (live : List (Option (List ℕ)))
    → value.length ≤ length value.bytes
    → Accounts budget live
    → let (copy, budget') = budget_copy memory budget value max_length force in
      Accounts budget' (copy ∷ live) × (cost copy ≤ max_length + 1)
unfolding budget_copy
budget_copy-Accounts memory budget value max_length force live v h = ground (
  arith,
  utf8_fit_bounds value.bytes value.length (max_length + 1),
  length-take (utf8_fit (some value.bytes) value.length (max_length + 1)) value.bytes,
)

-- A copy that is not forced keeps the budget within its limit, where it was before.
pub budget_copy_limit :
    (memory : Bool) (budget : Budget) (value : Span) (max_length : ℕ)
    → budget.used ≤ budget.limit
    → let budget' = (budget_copy memory budget value max_length false).1 in
      (budget'.used ≤ budget'.limit) × (budget'.limit ≡ budget.limit)
unfolding budget_copy
budget_copy_limit memory budget value max_length h = ground arith

-- `tb_budget_free` of a live string with no zero byte takes exactly its cost off the account.
pub budget_free-Accounts :
    (budget : Budget) (p : Option (List ℕ)) (live : List (Option (List ℕ)))
    → IsPlain p
    → Accounts budget (p ∷ live)
    → Accounts (budget_free budget p) live
unfolding budget_free
budget_free-Accounts budget none live plain h = omega arith
budget_free-Accounts budget (some block) live plain h = ground (arith, strlen_plain block plain)

-- Freeing a string that holds a zero byte takes too little off: `tb_budget_copy` charges the bytes
-- that it copies, and `tb_budget_free` gives back those before the first zero byte.
pub budget_free_zero :
    (budget : Budget) (block : List ℕ) (live : List (Option (List ℕ)))
    → all is_nonzero block ≡ false
    → Accounts budget (some block ∷ live)
    → costs live < (budget_free budget (some block)).used
unfolding budget_free
budget_free_zero budget block live cut h = ground (arith, strlen_zero block cut)
