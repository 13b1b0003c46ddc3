-- ===== src/History/Merging.antt =====
-- The merging of a page into the messages that are held: `sort_staging`, `append_staging`,
-- `prepend_staging`, `kept_before`, `remove_from`, `evict_newest` and `merge_albums` of history.c.
use tele_bezel.Base.{
  ℕ, zero, suc, ◌+◌, ◌-◌, ◌%◌, ◌^◌, Bool, true, false, not, ◌&&◌, ◌||◌, Option, none, some, List,
  [], ◌∷◌, ◌++◌, ltb, leb, ◌==◌, if◌then◌else◌, length, take, drop, get_or, bit_and, bit_or,
}
use tele_bezel.Base.Int.{negsuc}
use tele_bezel.Text.{Budget}
use tele_bezel.History.{Codes, Config, Message, Store, no_message}
use tele_bezel.History.Staging.{free_message, free_messages, clear_staging}

-- The inner loop of `sort_staging`. The messages before the slot are listed from the slot down: those
-- with a greater key move up by one.
unfoldable pub place : Message → List Message → List Message
place m [] = m ∷ []
place m (x ∷ before) = if ltb m.key x.key then x ∷ place m before else m ∷ x ∷ before

-- The outer loop, with the sorted messages listed from the last one down.
unfoldable pub sort_onto : List Message → List Message → List Message
sort_onto before [] = before
sort_onto before (m ∷ ms) = sort_onto (place m before) ms

abbrev pub reversed : List Message → List Message → List Message
reversed acc [] = acc
reversed acc (m ∷ ms) = reversed (m ∷ acc) ms

-- `sort_staging`
unfoldable pub sort : List Message → List Message
sort ms = reversed [] (sort_onto [] ms)

unfoldable pub sort_staging : Store → Store
sort_staging s = record s { staging = sort s.staging }

-- `over_limits`
unfoldable pub over_limits : Config → Store → ℕ → Bool
over_limits c s count = ltb c.capacity count || ltb s.budget.limit s.budget.used

-- The body of the two loops that drop the newest message, which is at `n`.
unfoldable pub drop_newest : ℕ → Store → Store
drop_newest n s = record s {
  budget = free_message s.budget (get_or s.items n no_message);
  items = take n s.items;
  truncated = true;
}

-- The loop of `evict_newest`, with the count of messages.
unfoldable pub evict_loop : ℕ → Config → Store → Store
evict_loop zero c s = s
evict_loop (suc n) c s = elim (over_limits c s (suc n)) [
  | true ↦ evict_loop n c (drop_newest n s)
  | false ↦ s
]

-- `evict_newest`
unfoldable pub evict_newest : Config → Store → Store
evict_newest c s = evict_loop (length s.items) c s

-- The loop of `kept_before`
unfoldable pub kept_loop : ℕ → List Message → ℕ → ℕ
kept_loop zero items key = 0
kept_loop (suc keep) items key =
    if leb key (get_or items keep no_message).key then kept_loop keep items key else suc keep

-- `kept_before`
unfoldable pub kept_before : List Message → ℕ → ℕ
kept_before items key = kept_loop (length items) items key

-- `remove_from`
unfoldable pub remove_from : ℕ → Store → Store
remove_from keep s = record s {
  budget = free_messages s.budget (drop keep s.items);
  items = take keep s.items;
}

-- The key of the last message.
abbrev pub newest_key : List Message → ℕ
newest_key items = (get_or items (length items - 1) no_message).key

abbrev pub is_empty : List Message → Bool
is_empty [] = true
is_empty (_ ∷ _) = false

-- A round of the loop of `append_staging`.
unfoldable pub append_one : Config → Message → Store → Store
append_one c m s =
    if (not (is_empty s.items) && leb m.key (newest_key s.items)) || leb c.capacity (length s.items)
    then record s { budget = free_message s.budget m }
    else record s { items = s.items ++ (m ∷ []) }

unfoldable pub append_loop : Config → List Message → Store → Store
append_loop c [] s = s
append_loop c (m ∷ ms) s = append_loop c ms (append_one c m s)

-- `append_staging`; the staged messages are read by the loop, so they leave `staging` first here.
unfoldable pub append_staging : Config → Store → Store
append_staging c s = append_loop c s.staging (record s { staging = [] })

-- A round of the first loop of `prepend_staging`, with the messages accepted so far.
unfoldable pub accept_one : Config → ℕ → Message → List Message × Budget → List Message × Budget
accept_one c oldest m (accepted, b) =
    if ltb m.key oldest && ltb (length accepted) c.capacity
    then (accepted ++ (m ∷ []), b)
    else (accepted, free_message b m)

unfoldable pub accept_loop :
    Config → ℕ → List Message → List Message × Budget → List Message × Budget
accept_loop c oldest [] st = st
accept_loop c oldest (m ∷ ms) st = accept_loop c oldest ms (accept_one c oldest m st)

-- The loop of `prepend_staging` that makes room, with the count of messages.
unfoldable pub shrink_loop : ℕ → ℕ → Store → Store
shrink_loop zero room s = s
shrink_loop (suc n) room s = elim (ltb room (suc n)) [
  | true ↦ shrink_loop n room (drop_newest n s)
  | false ↦ s
]

abbrev pub oldest_key : List Message → ℕ
oldest_key [] = 2 ^ 63 - 1
oldest_key (m ∷ ms) = m.key

-- The end of `prepend_staging`: the accepted messages go before those that are held.
unfoldable pub prepend_accepted : Config → List Message → Store → Store
prepend_accepted c accepted s =
    let s' = shrink_loop (length s.items) (c.capacity - length accepted) s in
    record s' { items = accepted ++ s'.items }

-- `prepend_staging`
unfoldable pub prepend_staging : Config → Store → Store
prepend_staging c s =
    let (accepted, b) = accept_loop c (oldest_key s.items) s.staging ([], s.budget) in
    let s' = record s { staging = []; budget = b } in
    if is_empty accepted then s' else prepend_accepted c accepted s'

-- How many of the held messages are older than the page, which is not empty.
abbrev pub kept : Store → ℕ
kept s =
    let smallest = (get_or s.staging 0 no_message).key in
    if leb smallest (newest_key s.items) then kept_before s.items smallest else length s.items

-- The page leaves a gap after the held messages, or may leave one.
abbrev pub is_apart : Config → Store → Bool
is_apart c s =
    not (leb (get_or s.staging 0 no_message).key (newest_key s.items))
    && leb c.page_limit (length s.staging)

-- The part of `merge_newest` for held messages and a page that is not empty.
unfoldable pub merge_page : Config → Store → Store
merge_page c s =
    if is_apart c s || over_limits c s ((kept s + length s.staging) % 2 ^ 16)
    then record (clear_staging s) { truncated = true }
    else append_staging c (remove_from (kept s) s)

-- The text is there and not empty.
abbrev pub has_text : Option (List ℕ) → Bool
has_text none = false
has_text (some []) = false
has_text (some (b ∷ bs)) = not (b == 0)

module _ (k : Codes) where
  -- `last` of `merge_albums` with the count and the marks of the message that joins it.
  unfoldable pub joined : Message → Message → Message
  joined last m = record last {
    media_count = if ltb last.media_count m.media_count then m.media_count else last.media_count;
    media = bit_or last.media (bit_and m.media (bit_or k.media_spoiler k.media_image));
  }

  -- The message joins the last one that is kept: what stays of the two, and what is freed.
  unfoldable pub join : Message → Message → Message × Message
  join last m =
      let l = joined last m in
      if not (has_text l.text) && has_text m.text
      then (record m { media_count = l.media_count; media = l.media; height = negsuc 0 }, l)
      else (record l { height = negsuc 0 }, m)

  abbrev pub same_album : Message → Message → Bool
  same_album last m = not (m.album == 0) && last.album == m.album

  -- A round of `merge_albums`, with the messages that are kept listed from the last one down.
  unfoldable pub album_step : Message → List Message × Budget → List Message × Budget
  album_step m ([], b) = (m ∷ [], b)
  album_step m (last ∷ kept, b) =
      let (stays, freed) = join last m in
      if same_album last m then (stays ∷ kept, free_message b freed) else (m ∷ last ∷ kept, b)

  unfoldable pub album_loop : List Message → List Message × Budget → List Message × Budget
  album_loop [] st = st
  album_loop (m ∷ ms) st = album_loop ms (album_step m st)

  -- `merge_albums`
  unfoldable pub merge_albums : Store → Store
  merge_albums s =
      let (kept, b) = album_loop s.items ([], s.budget) in
      record s { items = reversed [] kept; budget = b }
