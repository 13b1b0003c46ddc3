-- ===== src/Notify.antt =====
-- app/src/c/notify.c and notify.h: the notifications that wait to be shown, at most one for each of
-- their three sources. The calls of the ports are kept in a log, the last one first; `current` is
-- what the clock port gives while an operation runs. A string is its bytes before the zero byte.
pub mod Sources
pub mod Top
use tele_bezel.Base.{
  ℕ, zero, suc, ◌+◌, ◌-◌, ◌%◌, ◌^◌, Bool, true, false, not, ◌&&◌, ◌||◌, Option, none, some, List,
  [], ◌∷◌, ◌++◌, ltb, leb, ◌==◌, if◌then◌else◌, add32, sub32, reached, get_or, set, take, drop,
  length,
}

abbrev pub capacity : ℕ
capacity = 3

-- `TbNotifyLevel`, `TbNotifyAction`, `TbNotifySource`, with the numbers of their constants
pub data Level : Type 0 where
  info warning error : Level

pub data Action : Type 0 where
  no_action refresh open_chat check wait : Action

pub data Source : Type 0 where
  connection chats send : Source

abbrev pub level_number : Level → ℕ
level_number info = 0
level_number warning = 1
level_number error = 2

abbrev pub action_number : Action → ℕ
action_number no_action = 0
action_number refresh = 1
action_number open_chat = 2
action_number check = 3
action_number wait = 4

abbrev pub source_number : Source → ℕ
source_number connection = 0
source_number chats = 1
source_number send = 2

-- `TbNotification`
pub record Notification : Type 0 where
  pub source : Source
  pub level : Level
  pub action : Action
  pub serial : ℕ
  pub expires : ℕ
  pub title : List ℕ
  pub body : List ℕ

-- A call of a port.
pub data Call : Type 0 where
  changed cancel : Call
  schedule : ℕ → Call

-- `TbNotify`; the list is the first `count` items.
pub record Notify : Type 0 where
  pub items : List Notification
  pub serial : ℕ
  pub focused : Bool
  pub log : List Call

abbrev pub called : Call → Notify → Notify
called c n = record n { log = c ∷ n.log }

-- `tb_notify_init`
unfoldable pub init : Notify
init = record { items = []; serial = 0; focused = false; log = [] }

-- `expired`
unfoldable pub expired : ℕ → ℕ → Bool
expired current at = not (at == 0) && reached current at

-- The first item goes before the second as the top one.
abbrev pub outranks : Notification → Notification → Bool
outranks a b =
    ltb (level_number b.level) (level_number a.level)
    || (level_number a.level == level_number b.level && ltb b.serial a.serial)

-- The loop of `top_index`, from the index `i` on, with the best item so far and its index.
unfoldable pub top_from : List Notification → ℕ → ℕ × Notification → ℕ × Notification
top_from [] i best = best
top_from (item ∷ items) i best =
    top_from items (i + 1) (if outranks item best.1 then (i, item) else best)

-- `top_index`, with the item
unfoldable pub top_index : List Notification → Option (ℕ × Notification)
top_index [] = none
top_index (item ∷ items) = some (top_from items 1 (0, item))

-- `tb_notify_top`
unfoldable pub top : Notify → Option Notification
top n = elim (top_index n.items) [ none ↦ none | some best ↦ some best.1 ]

-- `remove_at`
unfoldable pub remove_at : List Notification → ℕ → List Notification
remove_at [] i = []
remove_at (item ∷ items) zero = items
remove_at (item ∷ items) (suc i) = item ∷ remove_at items i

-- The loop of `arm`
unfoldable pub earliest : ℕ → List Notification → Option ℕ → Option ℕ
earliest current [] best = best
earliest current (item ∷ items) best =
    let remaining = if expired current item.expires then 0 else sub32 item.expires current in
    earliest current items (
      if item.expires == 0 then best else elim best [
        | none ↦ some remaining
        | some e ↦ if ltb remaining e then some remaining else some e
      ])

-- `arm`
unfoldable pub arm : ℕ → Notify → Notify
arm current n = elim (earliest current n.items none) [
  | none ↦ called cancel n
  | some e ↦ called (schedule (if e == 0 then 1 else e)) (called cancel n)
]

abbrev pub is_empty : List Notification → Bool
is_empty [] = true
is_empty (_ ∷ _) = false

-- `changed`
unfoldable pub announce : ℕ → Notify → Notify
announce current n =
    called changed
      (arm current (record n { focused = if is_empty n.items then false else n.focused }))

-- The loop that looks for an item of the source: the last one counts.
unfoldable pub slot_from : Source → List Notification → ℕ → Option ℕ → Option ℕ
slot_from source [] i found = found
slot_from source (item ∷ items) i found =
    slot_from source items (i + 1)
      (if source_number item.source == source_number source then some i else found)

-- The loop that looks for the weakest item.
unfoldable pub weakest_from : List Notification → ℕ → ℕ × Notification → ℕ × Notification
weakest_from [] i worst = worst
weakest_from (item ∷ items) i worst =
    weakest_from items (i + 1) (if outranks worst.1 item then (i, item) else worst)

abbrev pub same_bytes : List ℕ → List ℕ → Bool
same_bytes [] [] = true
same_bytes [] (_ ∷ _) = false
same_bytes (_ ∷ _) [] = false
same_bytes (x ∷ xs) (y ∷ ys) = x == y && same_bytes xs ys

-- What `tb_notify_post` is called with; a null string is the empty one.
pub record Post : Type 0 where
  pub source : Source
  pub level : Level
  pub action : Action
  pub title : List ℕ
  pub body : List ℕ

-- When a notification of a level expires: 0 is never.
unfoldable pub expiry : ℕ → Level → ℕ
expiry current info = let at = add32 current 5000 in if at == 0 then 1 else at
expiry current warning = 0
expiry current error = 0

abbrev pub is_same : Notification → Post → Bool
is_same item p =
    level_number item.level == level_number p.level
    && action_number item.action == action_number p.action
    && same_bytes item.title p.title
    && same_bytes item.body p.body

-- The new item of a post.
unfoldable pub item_of : ℕ → Post → ℕ → Notification
item_of current p serial = record {
  source = p.source;
  level = p.level;
  action = p.action;
  serial = serial;
  expires = expiry current p.level;
  title = take 32 p.title;
  body = take 96 p.body;
}

-- The end of `tb_notify_post`: the items with the new one at its slot.
unfoldable pub write : ℕ → Post → (Notification → List Notification) → Notify → Notify
write current p place n =
    let serial = add32 n.serial 1 in
    announce current (record n { items = place (item_of current p serial); serial = serial })

abbrev blank : Notification
blank = record {
  source = connection;
  level = info;
  action = no_action;
  serial = 0;
  expires = 0;
  title = [];
  body = [];
}

-- A post for the item at `i`, which has its source.
unfoldable pub repost : ℕ → Post → ℕ → Notify → Bool × Notify
repost current p i n =
    let item = get_or n.items i blank in
    if is_same item p
    then (
      true,
      arm current
          (record n { items = set n.items i (record item { expires = expiry current p.level }) }),
    )
    else (true, write current p (set n.items i) n)

-- A post when there is no room: it takes the place of the weakest item, if that is not stronger.
unfoldable pub displace : ℕ → Post → Notify → Bool × Notify
displace current p n =
    let (i, item) = weakest_from (drop 1 n.items) 1 (0, get_or n.items 0 blank) in
    if ltb (level_number p.level) (level_number item.level)
    then (false, n)
    else (true, write current p (set n.items i) n)

-- `tb_notify_post`
unfoldable pub post : ℕ → Post → Notify → Bool × Notify
post current p n = elim (slot_from p.source n.items 0 none) [
  | some i ↦ repost current p i n
  | none ↦
      if ltb (length n.items) capacity
      then (true, write current p (λ item. n.items ++ (item ∷ [])) n)
      else displace current p n
]

-- The loop of `tb_notify_clear` and of `tb_notify_timer`, from the last index down: the items that
-- pass the test go.
unfoldable pub remove_down : (Notification → Bool) → ℕ → List Notification → List Notification
remove_down test zero items = items
remove_down test (suc i) items =
    remove_down test i (if test (get_or items i blank) then remove_at items i else items)

-- The loop has removed an item.
unfoldable pub any_down : (Notification → Bool) → ℕ → List Notification → Bool
any_down test zero items = false
any_down test (suc i) items =
    test (get_or items i blank)
    || any_down test i (if test (get_or items i blank) then remove_at items i else items)

-- `tb_notify_clear`
unfoldable pub clear : ℕ → Source → Notify → Notify
clear current source n =
    let test = λ (item : Notification). source_number item.source == source_number source in
    if any_down test (length n.items) n.items
    then announce current (record n { items = remove_down test (length n.items) n.items })
    else n

-- `tb_notify_dismiss`
unfoldable pub dismiss : ℕ → Notify → Notify
dismiss current n = elim (top_index n.items) [
  | none ↦ n
  | some best ↦ announce current (record n { items = remove_at n.items best.0; focused = false })
]

-- `tb_notify_focus`
unfoldable pub focus : Bool → Notify → Notify
focus focused n =
    let value = focused && not (is_empty n.items) in
    let same = (value && n.focused) || (not value && not n.focused) in
    if same then n else called changed (record n { focused = value })

-- `tb_notify_timer`
unfoldable pub timer : ℕ → Notify → Notify
timer current n =
    let test = λ (item : Notification). expired current item.expires in
    if any_down test (length n.items) n.items
    then announce current (record n { items = remove_down test (length n.items) n.items })
    else arm current n

-- `tb_notify_reset`
unfoldable pub reset : Notify → Notify
reset n = record (called cancel n) { items = []; focused = false }
