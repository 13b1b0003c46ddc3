-- ===== src/Chats/Sound.antt =====
-- The invariant of the chats that are held: no more than the capacity, no id twice, and a budget that
-- pays for every string and is within its limit.
use tele_bezel.Base.{
  ℕ, ◌+◌, ◌≤◌, ◌<◌, ◌≡◌, refl, sym, ap, subst, ◌∙◌, inl, inr, Bool, true, false, not, ◌||◌, some,
  List, [], ◌∷◌, ◌++◌, leb, ◌==◌, arith, if◌then◌else◌, length, length-append, Bool-cases,
}
use tele_bezel.Codec.{Span, Cursor, Frame, cursor_init, decode}
use tele_bezel.Codec.Layouts.{ChatRecord, layout_chat, layout_summary}
use tele_bezel.Codec.Frames.{
  Walk, finished, bad_frame, stopped, out_of_fuel, for_records, for_records-keeps, left, loop_fuel,
}
use tele_bezel.Text.{Budget, copy_id, or_empty}
use tele_bezel.Text.Budgets.{costs, budget_copy_limit}
use tele_bezel.Text.Copies.{
  free_strings, free_strings-paid, Freed, free_strings-Freed, budget_copy-paid,
}
use tele_bezel.Sending.{same_bytes}
use tele_bezel.Chats.{Codes, Config, Chat, Store, is_full}
use tele_bezel.Chats.Items.{
  strings, free_item, free_items, clear_items, holds, is_lost, copy, chat_of, admit, append,
  no_summary, no_chat, take_frame, parsed, parse,
}

-- What the strings of chats cost.
abbrev pub weight : List Chat → ℕ
weight [] = 0
weight (item ∷ items) = costs (strings item) + weight items

-- No id is held twice.
abbrev pub IsDistinct : List Chat → Type 0
IsDistinct [] = Unit
IsDistinct (item ∷ items) = (holds items item.id ≡ false) × IsDistinct items

pub record IsStored (c : Config) (s : Store) : Type 0 where
  pub fits : length s.items ≤ c.capacity
  pub distinct : IsDistinct s.items
  pub paid : weight s.items ≤ s.budget.used
  pub within : s.budget.used ≤ s.budget.limit

weight-append :
    (xs : List Chat) (item : Chat) → weight (xs ++ (item ∷ [])) ≡ weight xs + costs (strings item)
weight-append [] item = omega arith
weight-append (x ∷ xs) item = omega (arith, weight-append xs item)

same_bytes_comm : (xs ys : List ℕ) → same_bytes xs ys ≡ same_bytes ys xs
same_bytes_comm [] [] = refl
same_bytes_comm [] (y ∷ ys) = refl
same_bytes_comm (x ∷ xs) [] = refl
same_bytes_comm (x ∷ xs) (y ∷ ys) = ground (arith, same_bytes_comm xs ys)

holds-append :
    (xs : List Chat) (item : Chat) (id : List ℕ)
    → holds (xs ++ (item ∷ [])) id ≡ (holds xs id || same_bytes item.id id)
unfolding holds
holds-append [] item id = ground arith
holds-append (x ∷ xs) item id = ground (arith, holds-append xs item id)

append-IsDistinct :
    (xs : List Chat) (item : Chat)
    → IsDistinct xs
    → holds xs item.id ≡ false
    → IsDistinct (xs ++ (item ∷ []))
unfolding holds
append-IsDistinct [] item d h = (refl, tt)
append-IsDistinct (x ∷ xs) item (n, d) h = (
  holds-append xs item x.id ∙ ground (arith, same_bytes_comm x.id item.id),
  append-IsDistinct xs item d (ground arith),
)

free_items-Freed : (b : Budget) (items : List Chat) → Freed b (free_items b items)
unfolding free_items free_item
free_items-Freed b [] = (omega arith, refl)
free_items-Freed b (item ∷ items) =
    let (le, same) = free_strings-Freed b (strings item) in
    let (le', same') = free_items-Freed (free_strings b (strings item)) items in
    (omega (arith, le, le'), same' ∙ same)

pub clear_items-IsStored : (c : Config) (s : Store) → IsStored c s → IsStored c (clear_items s)
unfolding clear_items
clear_items-IsStored c s v =
    let (le, same) = free_items-Freed s.budget s.items in
    record {
      fits = omega arith;
      distinct = tt;
      paid = omega arith;
      within = omega (arith, le, same, v.within);
    }

module _ (k : Codes) (c : Config) (heap : Budget → Span → Bool) where
  Stored-if :
      (b : Bool) (x y : Bool × Store)
      → IsStored c x.1
      → IsStored c y.1
      → IsStored c (if b then x else y).1
  Stored-if true x y v w = v
  Stored-if false x y v w = w

  pub IsStored-if :
      (b : Bool) (x y : Store) → IsStored c x → IsStored c y → IsStored c (if b then x else y)
  IsStored-if true x y v w = v
  IsStored-if false x y v w = w

  pub with_fields :
      (s t : Store) → t.items ≡ s.items → t.budget ≡ s.budget → IsStored c s → IsStored c t
  with_fields s t i b v = record {
    fits = subst (λ l. length l ≤ c.capacity) (sym i) v.fits;
    distinct = subst IsDistinct (sym i) v.distinct;
    paid =
        subst (λ l. weight l ≤ t.budget.used) (sym i)
          (subst (λ x. weight s.items ≤ x.used) (sym b) v.paid);
    within = subst (λ x. x.used ≤ x.limit) (sym b) v.within;
  }

  id-chat_of : (r : ChatRecord) (id : List ℕ) (b : Budget) → (chat_of k c heap r id b).0.id ≡ id
  unfolding chat_of
  id-chat_of r id b = refl

  -- The strings of a chat are paid for, and the budget stays within its limit.
  chat_of-paid :
      (r : ChatRecord) (id : List ℕ) (b : Budget) (w : ℕ)
      → w ≤ b.used
      → b.used ≤ b.limit
      → (w + costs (strings (chat_of k c heap r id b).0) ≤ (chat_of k c heap r id b).1.used)
        × ((chat_of k c heap r id b).1.used ≤ (chat_of k c heap r id b).1.limit)
  unfolding chat_of
  chat_of-paid r id b w h l =
      let b1 : Budget = (copy k c heap b r.title 64).1 in
      let b2 : Budget = (copy k c heap b1 r.preview_sender 32).1 in
      let b3 : Budget = (copy k c heap b2 r.preview_extra 48).1 in
      let l1 = budget_copy_limit (heap b r.title) b r.title 64 l in
      let l2 = budget_copy_limit (heap b1 r.preview_sender) b1 r.preview_sender 32 l1.0 in
      let l3 = budget_copy_limit (heap b2 r.preview_extra) b2 r.preview_extra 48 l2.0 in
      let l4 = budget_copy_limit (heap b3 r.preview_text) b3 r.preview_text c.text_limit l3.0 in
      (
        omega (
          arith,
          budget_copy-paid (heap b r.title) b r.title 64 false,
          budget_copy-paid (heap b1 r.preview_sender) b1 r.preview_sender 32 false,
          budget_copy-paid (heap b2 r.preview_extra) b2 r.preview_extra 48 false,
          budget_copy-paid (heap b3 r.preview_text) b3 r.preview_text c.text_limit false,
        ),
        l4.0,
      )

  admit-IsStored :
      (r : ChatRecord) (item : Chat) (b : Budget) (s : Store)
      → length s.items < c.capacity
      → holds s.items item.id ≡ false
      → weight s.items + costs (strings item) ≤ b.used
      → b.used ≤ b.limit
      → IsStored c s
      → IsStored c (admit k c heap r (item, b) s)
  unfolding admit free_item
  admit-IsStored r item b s lt new p l v =
      elim (Bool-cases (is_lost r.title item.title || is_lost r.preview_text item.preview)) [
        | inl e ↦
            let (le, same) = free_strings-Freed b (strings item) in
            rw e (record {
              fits = v.fits;
              distinct = v.distinct;
              paid = free_strings-paid b (strings item) (weight s.items) (omega arith);
              within = omega (arith, le, same);
            })
        | inr e ↦ rw e (record {
          fits = omega (arith, length-append s.items (item ∷ []));
          distinct = append-IsDistinct s.items item v.distinct new;
          paid = omega (arith, weight-append s.items item);
          within = l;
        })
      ]

  append-IsStored : (r : ChatRecord) (s : Store) → IsStored c s → IsStored c (append k c heap r s).1
  unfolding append
  append-IsStored r s v =
      let id : List ℕ = or_empty (copy_id 21 r.id true).1 in
      let (paid, within) = chat_of-paid r id s.budget (weight s.items) v.paid v.within in
      elim (Bool-cases (leb c.capacity (length s.items))) [
        | inl e ↦ rw e (with_fields s _ refl refl v)
        | inr e ↦ rw e (
            Stored-if (not (copy_id 21 r.id true).0) (false, s) _ v
              (elim (Bool-cases (holds s.items id)) [
                | inl h ↦ rw h v
                | inr h ↦ rw h (
                    admit-IsStored r (chat_of k c heap r id s.budget).0
                      (chat_of k c heap r id s.budget).1 s (ground arith)
                      (ap (holds s.items) (id-chat_of r id s.budget) ∙ h) paid within v)
              ]))
      ]

  take_frame-IsStored :
      (f : Frame) (s : Store) → IsStored c s → IsStored c (take_frame k c heap f s).1
  unfolding take_frame
  take_frame-IsStored f s v =
      let (summary_ok, summary, summary_body) =
        decode f.body layout_summary (no_summary k c heap) in
      let (chat_ok, chat, chat_body) = decode f.body layout_chat (no_chat k c heap) in
      Stored-if (f.type == k.record_summary) _ _
        (Stored-if summary_ok _ (false, s) (with_fields s _ refl refl v) v)
        (Stored-if (not (f.type == k.record_chat) || not chat_ok) (false, s) _ v
          (Stored-if (is_full s.tail) (true, s) _ v (append-IsStored chat s v)))

  parsed-left : (w : Walk Store) → (parsed k c heap w).1 ≡ left w
  parsed-left (finished s) = refl
  parsed-left (bad_frame s) = refl
  parsed-left (stopped s) = refl
  parsed-left (out_of_fuel s) = refl

  -- Whatever a chunk has in it, `parse` keeps the invariant.
  pub parse-IsStored :
      (payload : List ℕ) (s : Store) → IsStored c s → IsStored c (parse k c heap payload s).1
  unfolding parse
  parse-IsStored payload s v =
      let fuel : ℕ = loop_fuel (length payload) in
      let from : Cursor = cursor_init (some payload) (length payload) in
      subst (IsStored c) (sym (parsed-left (for_records (take_frame k c heap) fuel from s)))
        (for_records-keeps (IsStored c) (take_frame k c heap) take_frame-IsStored fuel from s v)
