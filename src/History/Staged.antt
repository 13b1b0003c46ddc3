-- ===== src/History/Staged.antt =====
-- What merging leaves of the staged messages.
use tele_bezel.Base.{
  ℕ, zero, suc, ◌≡◌, refl, ◌∙◌, inl, inr, ◌||◌, List, [], ◌∷◌, ◌+◌, ◌%◌, ◌^◌, ◌-◌, arith, length,
  Bool-cases,
}
use tele_bezel.Text.{Budget}
use tele_bezel.History.{Config, Message, Store}
use tele_bezel.History.Staging.{clear_staging}
use tele_bezel.History.Merging.{
  append_one, append_loop, append_staging, accept_loop, prepend_staging, prepend_accepted,
  shrink_loop, drop_newest, evict_loop, evict_newest, remove_from, merge_page, is_apart,
  over_limits, kept, oldest_key, is_empty,
}

pub staging-append_loop :
    (c : Config) (ms : List Message) (s : Store) → (append_loop c ms s).staging ≡ s.staging
unfolding append_loop append_one
staging-append_loop c [] s = refl
staging-append_loop c (m ∷ ms) s = staging-append_loop c ms (append_one c m s) ∙ ground arith

pub staging-evict_loop : (n : ℕ) (c : Config) (s : Store) → (evict_loop n c s).staging ≡ s.staging
unfolding evict_loop drop_newest
staging-evict_loop zero c s = refl
staging-evict_loop (suc n) c s = ground (arith, staging-evict_loop n c (drop_newest n s))

pub staging-shrink_loop : (n room : ℕ) (s : Store) → (shrink_loop n room s).staging ≡ s.staging
unfolding shrink_loop drop_newest
staging-shrink_loop zero room s = refl
staging-shrink_loop (suc n) room s = ground (arith, staging-shrink_loop n room (drop_newest n s))

pub staging-append_staging : (c : Config) (s : Store) → (append_staging c s).staging ≡ []
unfolding append_staging
staging-append_staging c s = staging-append_loop c s.staging (record s { staging = [] })

pub staging-merge_page : (c : Config) (s : Store) → (merge_page c s).staging ≡ []
unfolding merge_page clear_staging
staging-merge_page c s =
    elim (Bool-cases (is_apart c s || over_limits c s ((kept s + length s.staging) % 2 ^ 16))) [
      | inl e ↦ rw e refl
      | inr e ↦ rw e (staging-append_staging c (remove_from (kept s) s))
    ]

pub staging-evict_newest : (c : Config) (s : Store) → (evict_newest c s).staging ≡ s.staging
unfolding evict_newest
staging-evict_newest c s = staging-evict_loop (length s.items) c s

pub staging-prepend_staging : (c : Config) (s : Store) → (prepend_staging c s).staging ≡ []
unfolding prepend_staging prepend_accepted
staging-prepend_staging c s =
    let st : List Message × Budget = accept_loop c (oldest_key s.items) s.staging ([], s.budget) in
    elim (Bool-cases (is_empty st.0)) [
      | inl e ↦ rw e refl
      | inr e ↦ rw e (
          staging-shrink_loop (length s.items) (c.capacity - length st.0)
            (record s { staging = []; budget = st.1 }))
    ]
