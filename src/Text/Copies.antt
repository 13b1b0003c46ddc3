-- ===== src/Text/Copies.antt =====
-- Copies of strings and the budget that pays for them.
use tele_bezel.Base.{
  ℕ, ◌+◌, ◌≤◌, ◌≡◌, refl, ◌∙◌, Bool, Option, none, some, List, [], ◌∷◌, arith, length-take,
}
use tele_bezel.Codec.{Span}
use tele_bezel.Text.{Budget, budget_free, budget_copy, utf8_fit}
use tele_bezel.Text.Budgets.{cost, costs, strlen-le}

-- `tb_budget_free` of the strings of a struct, one after the other.
unfoldable pub free_strings : Budget → List (Option (List ℕ)) → Budget
free_strings budget [] = budget
free_strings budget (p ∷ ps) = free_strings (budget_free budget p) ps

-- A budget that pays for `w` pays for it still when a string of it is freed.
pub budget_free-paid :
    (b : Budget) (p : Option (List ℕ)) (w : ℕ) → cost p + w ≤ b.used → w ≤ (budget_free b p).used
unfolding budget_free
budget_free-paid b none w h = omega arith
budget_free-paid b (some bytes) w h = ground (arith, strlen-le bytes)

budget_free-limit : (b : Budget) (p : Option (List ℕ)) → (budget_free b p).limit ≡ b.limit
unfolding budget_free
budget_free-limit b none = refl
budget_free-limit b (some bytes) = refl

budget_free-le : (b : Budget) (p : Option (List ℕ)) → (budget_free b p).used ≤ b.used
unfolding budget_free
budget_free-le b none = omega arith
budget_free-le b (some bytes) = ground arith

pub free_strings-paid :
    (b : Budget) (ps : List (Option (List ℕ))) (w : ℕ)
    → costs ps + w ≤ b.used
    → w ≤ (free_strings b ps).used
unfolding free_strings
free_strings-paid b [] w h = omega arith
free_strings-paid b (p ∷ ps) w h =
    free_strings-paid (budget_free b p) ps w (budget_free-paid b p (costs ps + w) (omega arith))

-- Freeing takes nothing on.
abbrev pub Freed : Budget → Budget → Type 0
Freed b b' = (b'.used ≤ b.used) × (b'.limit ≡ b.limit)

pub free_strings-Freed : (b : Budget) (ps : List (Option (List ℕ))) → Freed b (free_strings b ps)
unfolding free_strings
free_strings-Freed b [] = (omega arith, refl)
free_strings-Freed b (p ∷ ps) =
    let (le, same) = free_strings-Freed (budget_free b p) ps in
    (omega (arith, le, budget_free-le b p), same ∙ budget_free-limit b p)

-- A copy is paid for.
pub budget_copy-paid :
    (memory : Bool) (b : Budget) (v : Span) (n : ℕ) (force : Bool)
    → b.used + cost (budget_copy memory b v n force).0 ≤ (budget_copy memory b v n force).1.used
unfolding budget_copy
budget_copy-paid memory b v n force =
    ground (arith, length-take (utf8_fit (some v.bytes) v.length (n + 1)) v.bytes)
