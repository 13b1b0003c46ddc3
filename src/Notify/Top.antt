-- ===== src/Notify/Top.antt =====
-- The notification on top is the strongest one, the newest of those.
use tele_bezel.Base.{
  ℕ, ◌+◌, ◌≤◌, ◌<◌, ◌≡◌, refl, ◌∙◌, ◌⊎◌, inl, inr, true, false, some, List, [], ◌∷◌, arith,
  if◌then◌else◌, Bool-cases,
}
use tele_bezel.Notify.{Notification, Notify, outranks, top_from, top_index, top, level_number}

-- `a` is at least as strong as `b`, and at least as new where they are equally strong.
abbrev pub Leads : Notification → Notification → Type 0
Leads a b =
    (level_number b.level < level_number a.level)
    ⊎ ((level_number a.level ≡ level_number b.level) × (b.serial ≤ a.serial))

-- It is one of the items.
abbrev pub IsAmong : Notification → List Notification → Type 0
IsAmong a [] = ⊥
IsAmong a (item ∷ items) = (a ≡ item) ⊎ IsAmong a items

abbrev pub LeadsAll : Notification → List Notification → Type 0
LeadsAll a [] = Unit
LeadsAll a (item ∷ items) = Leads a item × LeadsAll a items

Leads-refl : (a : Notification) → Leads a a
Leads-refl a = inr (refl, omega arith)

Leads-trans : (a b c : Notification) → Leads a b → Leads b c → Leads a c
Leads-trans a b c (inl p) (inl q) = inl (omega arith)
Leads-trans a b c (inl p) (inr (e, q)) = inl (omega arith)
Leads-trans a b c (inr (e, p)) (inl q) = inl (omega arith)
Leads-trans a b c (inr (e, p)) (inr (e', q)) = inr (omega arith, omega arith)

Leads-outranks : (a b : Notification) → outranks a b ≡ true → Leads a b
Leads-outranks a b h = ground arith

outranks-Leads : (a b : Notification) → outranks a b ≡ false → Leads b a
outranks-Leads a b h = ground arith

LeadsAll-trans :
    (a b : Notification) (items : List Notification)
    → Leads a b
    → LeadsAll b items
    → LeadsAll a items
LeadsAll-trans a b [] p q = tt
LeadsAll-trans a b (item ∷ items) p (q, qs) =
    (Leads-trans a b item p q, LeadsAll-trans a b items p qs)

abbrev better : Notification → ℕ → ℕ × Notification → ℕ × Notification
better item i best = if outranks item best.1 then (i, item) else best

-- The better one of two leads both.
better-Leads :
    (item : Notification) (i : ℕ) (best : ℕ × Notification)
    → Leads (better item i best).1 best.1
      × Leads (better item i best).1 item
      × (((better item i best).1 ≡ best.1) ⊎ ((better item i best).1 ≡ item))
better-Leads item i (j, best) = elim (Bool-cases (outranks item best)) [
  | inl e ↦ rw e (Leads-outranks item best e, Leads-refl item, inr refl)
  | inr e ↦ rw e (Leads-refl best, outranks-Leads item best e, inl refl)
]

or_IsAmong :
    (a b c d : Notification) (items : List Notification)
    → (a ≡ b) ⊎ IsAmong a items
    → (b ≡ c) ⊎ (b ≡ d)
    → (a ≡ c) ⊎ IsAmong a (d ∷ items)
or_IsAmong a b c d items (inl e) (inl e') = inl (e ∙ e')
or_IsAmong a b c d items (inl e) (inr e') = inr (inl (e ∙ e'))
or_IsAmong a b c d items (inr m) h = inr (inr m)

-- The loop keeps the leader.
top_from-Leads :
    (items : List Notification) (i : ℕ) (best : ℕ × Notification)
    → (((top_from items i best).1 ≡ best.1) ⊎ IsAmong (top_from items i best).1 items)
      × Leads (top_from items i best).1 best.1
      × LeadsAll (top_from items i best).1 items
unfolding top_from
top_from-Leads [] i best = (inl refl, Leads-refl best.1, tt)
top_from-Leads (item ∷ items) i best =
    let next : ℕ × Notification = better item i best in
    let (among, first, all) = top_from-Leads items (i + 1) next in
    let found : Notification = (top_from items (i + 1) next).1 in
    let (over_best, over_item, one) = better-Leads item i best in
    (
      or_IsAmong found next.1 best.1 item items among one,
      Leads-trans found next.1 best.1 first over_best,
      (Leads-trans found next.1 item first over_item, all),
    )

-- `tb_notify_top` gives a null pointer only when no notification waits; else it gives one of those that
-- wait, and none of them is of a higher level, or of the same level and newer.
pub top-Leads :
    (n : Notify) (item : Notification) (items : List Notification)
    → n.items ≡ item ∷ items
    → (best : Notification) × (top n ≡ some best) × IsAmong best n.items × LeadsAll best n.items
unfolding top top_index
top-Leads n item items e =
    let (among, first, all) = top_from-Leads items 1 (0, item) in
    rw e ((top_from items 1 (0, item)).1, refl, among, (first, all))
