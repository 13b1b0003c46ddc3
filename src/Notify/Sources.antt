-- ===== src/Notify/Sources.antt =====
-- At most one notification of each source waits, so that there is room for every post.
use tele_bezel.Base.{
  ℕ, zero, suc, ◌+◌, ◌≤◌, ◌<◌, ◌≡◌, refl, ap, subst, sym, ◌∙◌, ◌⊎◌, inl, inr, Bool, true, false,
  Option, none, some, List, [], ◌∷◌, ◌++◌, arith, ltb, ◌==◌, if◌then◌else◌, Bool-cases,
  Option-cases, length, set, get_or,
}
use tele_bezel.Notify.{
  Notification, Notify, Source, Post, connection, chats, send, source_number, slot_from, post,
  clear, dismiss, focus, timer, reset, init, remove_at, remove_down, any_down, repost, write,
  announce, arm, item_of, capacity, top_index, blank, is_same, expired,
}

-- How many of the items are of a source.
abbrev pub posted : ℕ → List Notification → ℕ
posted s [] = 0
posted s (item ∷ items) = (if source_number item.source == s then 1 else 0) + posted s items

-- At most one item of each source.
abbrev pub IsSound : Notify → Type 0
IsSound n = (s : ℕ) → posted s n.items ≤ 1

one_source :
    (s : Source)
    → (if source_number s == 0 then 1 else 0)
        + (if source_number s == 1 then 1 else 0)
        + (if source_number s == 2 then 1 else 0)
      ≡ 1
one_source connection = refl
one_source chats = refl
one_source send = refl

length-posted :
    (items : List Notification) → length items ≡ posted 0 items + posted 1 items + posted 2 items
length-posted [] = refl
length-posted (item ∷ items) = omega (arith, length-posted items, one_source item.source)

posted-append :
    (s : ℕ) (items : List Notification) (item : Notification)
    → posted s (items ++ (item ∷ []))
      ≡ posted s items + (if source_number item.source == s then 1 else 0)
posted-append s [] item = omega arith
posted-append s (x ∷ items) item = omega (arith, posted-append s items item)

posted-set :
    (s : ℕ) (items : List Notification) (i : ℕ) (item : Notification)
    → source_number item.source ≡ source_number (get_or items i blank).source
    → posted s (set items i item) ≡ posted s items
posted-set s [] i item e = refl
posted-set s (x ∷ items) zero item e = ap (λ (n : ℕ). (if n == s then 1 else 0) + posted s items) e
posted-set s (x ∷ items) (suc i) item e = omega (arith, posted-set s items i item e)

posted-remove_at :
    (s : ℕ) (items : List Notification) (i : ℕ) → posted s (remove_at items i) ≤ posted s items
unfolding remove_at
posted-remove_at s [] i = omega arith
posted-remove_at s (x ∷ items) zero = omega arith
posted-remove_at s (x ∷ items) (suc i) = omega (arith, posted-remove_at s items i)

posted-remove_down :
    (s : ℕ) (test : Notification → Bool) (i : ℕ) (items : List Notification)
    → posted s (remove_down test i items) ≤ posted s items
unfolding remove_down
posted-remove_down s test zero items = omega arith
posted-remove_down s test (suc i) items = elim (Bool-cases (test (get_or items i blank))) [
  | inl e ↦
      rw e
        (omega (arith, posted-remove_down s test i (remove_at items i), posted-remove_at s items i))
  | inr e ↦ rw e (posted-remove_down s test i items)
]

-- The loop finds nothing only where there is nothing.
slot_from-none :
    (s : Source) (items : List Notification) (i : ℕ) (found : Option ℕ)
    → slot_from s items i found ≡ none
    → (posted (source_number s) items ≡ 0) × (found ≡ none)
unfolding slot_from
slot_from-none s [] i found e = (refl, e)
slot_from-none s (item ∷ items) i found e =
    elim (Bool-cases (source_number item.source == source_number s)) [
      | inl h ↦ let (p, q) = slot_from-none s items (i + 1) _ e in absurd (ground arith)
      | inr h ↦ let (p, q) = slot_from-none s items (i + 1) _ e in ground arith
    ]

slot_from-some :
    (s : Source) (items : List Notification) (i k : ℕ) (found : Option ℕ)
    → slot_from s items i found ≡ some k
    → (found ≡ some k)
      ⊎ ((j : ℕ) × (k ≡ i + j)
          × (j < length items)
          × (source_number (get_or items j blank).source ≡ source_number s))
unfolding slot_from
slot_from-some s [] i k found e = inl e
slot_from-some s (item ∷ items) i k found e = elim (slot_from-some s items (i + 1) k _ e) [
  | inr (j, p, q, r) ↦ inr (suc j, omega arith, omega arith, r)
  | inl h ↦ elim (Bool-cases (source_number item.source == source_number s)) [
    | inl g ↦ inr (0, ground arith, omega arith, ground arith)
    | inr g ↦ inl (rw g at h)
  ]
]

posted_pos :
    (items : List Notification) (j : ℕ)
    → j < length items
    → 0 < posted (source_number (get_or items j blank).source) items
posted_pos [] j h = absurd (omega arith)
posted_pos (item ∷ items) zero h = ground arith
posted_pos (item ∷ items) (suc j) h = omega (arith, posted_pos items j (omega arith))

items-arm : (current : ℕ) (n : Notify) → (arm current n).items ≡ n.items
unfolding arm
items-arm current n = ground arith

items-announce : (current : ℕ) (n : Notify) → (announce current n).items ≡ n.items
unfolding announce
items-announce current n = items-arm current _

-- A post for an item that is there keeps the number of items of each source.
posted-repost :
    (s current i : ℕ) (p : Post) (n : Notify)
    → source_number (get_or n.items i blank).source ≡ source_number p.source
    → ((repost current p i n).0 ≡ true)
      × (posted s (repost current p i n).1.items ≡ posted s n.items)
unfolding repost write item_of
posted-repost s current i p n e = elim (Bool-cases (is_same (get_or n.items i blank) p)) [
  | inl h ↦ rw h (refl, ap (posted s) (items-arm current _) ∙ posted-set s n.items i _ refl)
  | inr h ↦ rw h (refl, ap (posted s) (items-announce current _) ∙ posted-set s n.items i _ (sym e))
]

-- A post for a source of which no item is there adds one.
posted-added :
    (s current : ℕ) (p : Post) (n : Notify)
    → posted s (write current p (λ item. n.items ++ (item ∷ [])) n).items
      ≡ posted s n.items + (if source_number p.source == s then 1 else 0)
unfolding write item_of
posted-added s current p n = ap (posted s) (items-announce current _) ∙ posted-append s n.items _

room :
    (n : Notify) (s : Source)
    → IsSound n
    → posted (source_number s) n.items ≡ 0
    → ltb (length n.items) capacity ≡ true
room n connection b z = ground (arith, length-posted n.items, b 1, b 2)
room n chats b z = ground (arith, length-posted n.items, b 0, b 2)
room n send b z = ground (arith, length-posted n.items, b 0, b 1)

-- What a post does to the numbers of items.
post-posted :
    (s current : ℕ) (p : Post) (n : Notify)
    → IsSound n
    → ((post current p n).0 ≡ true)
      × (posted s (post current p n).1.items ≤ 1)
      × (posted (source_number p.source) (post current p n).1.items ≡ 1)
unfolding post
post-posted s current p n b = elim (Option-cases (slot_from p.source n.items 0 none)) [
  | inl e ↦
      let (z, _) = slot_from-none p.source n.items 0 none e in
      rw (e, post)
        (rw (room n p.source b z, post)
          (
            refl,
            ground (arith, posted-added s current p n, b s, z),
            ground (arith, posted-added (source_number p.source) current p n, z),
          ))
  | inr (i, e) ↦ elim (slot_from-some p.source n.items 0 i none e) [
    | inl h ↦ absurd (ground arith)
    | inr (j, p', q, r) ↦
        let r' : source_number (get_or n.items i blank).source ≡ source_number p.source =
          rw (let i' : i ≡ j = omega arith in i') r in
        let (ok, kept) = posted-repost s current i p n r' in
        let (_, same) = posted-repost (source_number p.source) current i p n r' in
        let there : 0 < posted (source_number p.source) n.items =
          subst (λ k. 0 < posted k n.items) r (posted_pos n.items j q) in
        rw (e, post)
          (ok, omega (arith, kept, b s), omega (arith, same, there, b (source_number p.source)))
  ]
]

-- A post is never refused while at most one notification of each source waits: there is room for one
-- more or one of its source to replace. Then exactly one of its source waits, and still at most one of
-- each.
pub post_accepts :
    (current : ℕ) (p : Post) (n : Notify)
    → IsSound n
    → ((post current p n).0 ≡ true)
      × IsSound (post current p n).1
      × (posted (source_number p.source) (post current p n).1.items ≡ 1)
post_accepts current p n b =
    let (ok, _, one) = post-posted 0 current p n b in
    (ok, λ s. (post-posted s current p n b).1, one)

-- A call of the module at a time of the clock.
pub data Event : Type 0 where
  post_at : ℕ → Post → Event
  clear_at : ℕ → Source → Event
  dismiss_at timer_at : ℕ → Event
  focus_on : Bool → Event
  reset_all : Event

abbrev pub apply : Event → Notify → Notify
apply (post_at current p) n = (post current p n).1
apply (clear_at current source) n = clear current source n
apply (dismiss_at current) n = dismiss current n
apply (timer_at current) n = timer current n
apply (focus_on focused) n = focus focused n
apply reset_all n = reset n

-- The state after a list of calls, the last one first.
abbrev pub after : List Event → Notify
after [] = init
after (e ∷ es) = apply e (after es)

IsSound-if : (c : Bool) (n n' : Notify) → IsSound n → IsSound n' → IsSound (if c then n else n')
IsSound-if true n n' b b' = b
IsSound-if false n n' b b' = b'

removed-IsSound :
    (current : ℕ) (test : Notification → Bool) (n : Notify)
    → IsSound n
    → IsSound (announce current (record n { items = remove_down test (length n.items) n.items }))
removed-IsSound current test n b s =
    rw (items-announce current (record n { items = remove_down test (length n.items) n.items }))
      (omega (arith, b s, posted-remove_down s test (length n.items) n.items))

clear-IsSound :
    (current : ℕ) (source : Source) (n : Notify) → IsSound n → IsSound (clear current source n)
unfolding clear
clear-IsSound current source n b =
    let test : Notification → Bool = λ item. source_number item.source == source_number source in
    IsSound-if (any_down test (length n.items) n.items) _ _ (removed-IsSound current test n b) b

dismiss-IsSound : (current : ℕ) (n : Notify) → IsSound n → IsSound (dismiss current n)
unfolding dismiss
dismiss-IsSound current n b s = elim (Option-cases (top_index n.items)) [
  | inl e ↦ rw (e, dismiss) (b s)
  | inr (best, e) ↦
      rw (e, dismiss)
        (omega (
          arith,
          ap (posted s) (
              items-announce current
                (record n { items = remove_at n.items best.0; focused = false })),
          posted-remove_at s n.items best.0,
          b s,
        ))
]

timer-IsSound : (current : ℕ) (n : Notify) → IsSound n → IsSound (timer current n)
unfolding timer
timer-IsSound current n b =
    let test : Notification → Bool = λ item. expired current item.expires in
    IsSound-if (any_down test (length n.items) n.items) _ _ (removed-IsSound current test n b)
      (λ s. rw (items-arm current n) (b s))

focus-IsSound : (focused : Bool) (n : Notify) → IsSound n → IsSound (focus focused n)
unfolding focus
focus-IsSound focused n b s = ground (arith, b s)

apply-IsSound : (e : Event) (n : Notify) → IsSound n → IsSound (apply e n)
unfolding reset
apply-IsSound (post_at current p) n b = (post_accepts current p n b).1
apply-IsSound (clear_at current source) n b = clear-IsSound current source n b
apply-IsSound (dismiss_at current) n b = dismiss-IsSound current n b
apply-IsSound (timer_at current) n b = timer-IsSound current n b
apply-IsSound (focus_on focused) n b = focus-IsSound focused n b
apply-IsSound reset_all n b = λ s. omega arith

-- After any calls at most one notification of each source waits, so at most three do, and the array of
-- three is never overrun.
pub after-IsSound : (es : List Event) → IsSound (after es) × (length (after es).items ≤ capacity)
unfolding init
after-IsSound [] = (λ s. omega arith, omega arith)
after-IsSound (e ∷ es) =
    let b = apply-IsSound e (after es) (after-IsSound es).0 in
    (b, omega (arith, length-posted (after (e ∷ es)).items, b 0, b 1, b 2))
