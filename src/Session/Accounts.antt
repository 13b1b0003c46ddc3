-- ===== src/Session/Accounts.antt =====
-- The account that the session starts with.
use tele_bezel.Base.{
  ℕ, ◌+◌, ◌<◌, ◌≡◌, refl, subst, inl, inr, Bool, true, false, not, ◌&&◌, Option, none, some, List,
  [], ◌∷◌, ◌==◌, arith, if◌then◌else◌, length, get_or, Bool-cases,
}
use tele_bezel.Session.{Codes, Session, Account}
use tele_bezel.Session.Calls.{find_from}

abbrev pub no_account : Account
no_account = record { id = []; name = []; state = 0; flags = 0 }

abbrev pub is_set : List ℕ → Bool
is_set [] = false
is_set (b ∷ bs) = not (b == 0)

module _ {L : Type 0} (k : Codes) where
  -- The account at the index is ready.
  abbrev pub is_ready : Session L → ℕ → Bool
  is_ready s i = (get_or s.accounts i no_account).state == k.state_ready

  -- The only account, where it is ready.
  unfoldable pub only_account : Session L → Option ℕ
  only_account s = if length s.accounts == 1 && is_ready s 0 then some 0 else none

  unfoldable pub default_or_only : Option ℕ → Session L → Option ℕ
  default_or_only none s = only_account s
  default_or_only (some i) s = if is_ready s i then some i else only_account s

  -- `tb_session_initial_account`
  unfoldable pub initial_account : Session L → Option ℕ
  initial_account s =
      default_or_only
        (if is_set s.default_account then find_from s.accounts s.default_account 0 else none) s

find_from-below :
    (as' : List Account) (id : List ℕ) (i j : ℕ) → find_from as' id i ≡ some j → j < i + length as'
unfolding find_from
find_from-below [] id i j e = absurd (ground arith)
find_from-below (a ∷ as') id i j e = ground (arith, find_from-below as' id (i + 1) j)

module _ {L : Type 0} (k : Codes) where
  -- An index of an account that is ready.
  abbrev pub IsReady : Session L → ℕ → Type 0
  IsReady s i = (i < length s.accounts) × (is_ready k s i ≡ true)

  only_account-IsReady : (s : Session L) (i : ℕ) → only_account k s ≡ some i → IsReady s i
  unfolding only_account
  only_account-IsReady s i e = elim (Bool-cases (length s.accounts == 1 && is_ready k s 0)) [
    | inl t ↦
        let zero_is : 0 ≡ i = ground arith in subst (IsReady s) zero_is (ground arith, ground arith)
    | inr f ↦ absurd (ground arith)
  ]

  default_or_only-IsReady :
      (o : Option ℕ) (s : Session L) (i : ℕ)
      → ((j : ℕ) → o ≡ some j → j < length s.accounts)
      → default_or_only k o s ≡ some i
      → IsReady s i
  unfolding default_or_only
  default_or_only-IsReady none s i h e = only_account-IsReady s i e
  default_or_only-IsReady (some j) s i h e = elim (Bool-cases (is_ready k s j)) [
    | inl t ↦ let j_is : j ≡ i = ground arith in subst (IsReady s) j_is (h j refl, t)
    | inr f ↦ only_account-IsReady s i (ground arith)
  ]

  -- Where `tb_session_initial_account` gives an index, an account that is ready stands there.
  pub initial_account-IsReady : (s : Session L) (i : ℕ) → initial_account k s ≡ some i → IsReady s i
  unfolding initial_account
  initial_account-IsReady s i e =
      default_or_only-IsReady
        (if is_set s.default_account then find_from s.accounts s.default_account 0 else none) s i
        (λ j h.
          let lt : j < 0 + length s.accounts =
            find_from-below s.accounts s.default_account 0 j (ground arith) in
          omega arith)
        e
