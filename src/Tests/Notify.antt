-- ===== src/Tests/Notify.antt =====
-- Runs of the notification queue.
use tele_bezel.Base.{◌≡◌, ◌≤◌, refl, true, false, some, [], ◌∷◌, arith, length}
use tele_bezel.Notify.{
  Notify, Notification, Post, info, error, refresh, no_action, connection, chats, post, top,
  capacity,
}
use tele_bezel.Notify.Top.{IsAmong, LeadsAll, top-Leads}
use tele_bezel.Notify.Sources.{
  IsSound, posted, post_accepts, post_at, timer_at, after, after-IsSound,
}

abbrev offline : Post
offline = record {
  source = connection;
  level = error;
  action = refresh;
  title = 65 ∷ [];
  body = 66 ∷ [];
}

abbrev greeting : Post
greeting = record { source = chats; level = info; action = no_action; title = 67 ∷ []; body = [] }

abbrev first : Notification
first = record {
  source = chats;
  level = info;
  action = no_action;
  serial = 1;
  expires = 5010;
  title = 67 ∷ [];
  body = [];
}

abbrev second : Notification
second = record {
  source = connection;
  level = error;
  action = refresh;
  serial = 2;
  expires = 0;
  title = 65 ∷ [];
  body = 66 ∷ [];
}

abbrev two_items : Notify
two_items = record { items = first ∷ second ∷ []; serial = 2; focused = false; log = [] }

after-IsSound_example :
    IsSound (after (timer_at 9000 ∷ post_at 20 offline ∷ post_at 10 greeting ∷ []))
    × (length (after (timer_at 9000 ∷ post_at 20 offline ∷ post_at 10 greeting ∷ [])).items
        ≤ capacity)
after-IsSound_example =
    after-IsSound (timer_at 9000 ∷ post_at 20 offline ∷ post_at 10 greeting ∷ [])

two_items-IsSound : IsSound two_items
two_items-IsSound s = ground arith

post_accepts_example :
    ((post 30 greeting two_items).0 ≡ true)
    × IsSound (post 30 greeting two_items).1
    × (posted 1 (post 30 greeting two_items).1.items ≡ 1)
post_accepts_example = post_accepts 30 greeting two_items two_items-IsSound

top-Leads_example :
    (best : Notification) × (top two_items ≡ some best)
    × IsAmong best two_items.items
    × LeadsAll best two_items.items
top-Leads_example = top-Leads two_items first (second ∷ []) refl
