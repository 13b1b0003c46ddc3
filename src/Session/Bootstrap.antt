-- ===== src/Session/Bootstrap.antt =====
-- `parse` of session.c: the chunks of the bootstrap.
use tele_bezel.Base.{
  Bool, true, false, not, ◌&&◌, some, [], ◌∷◌, ◌++◌, leb, ◌==◌, if◌then◌else◌, length,
}
use tele_bezel.Codec.{Span, Frame, cursor_init, decode}
use tele_bezel.Codec.Layouts.{AccountRecord, PrefsRecord, layout_account, layout_prefs}
use tele_bezel.Codec.Frames.{
  Walk, finished, bad_frame, stopped, out_of_fuel, for_records, loop_fuel,
}
use tele_bezel.Text.{copy_span, copy_uuid, or_empty}
use tele_bezel.Requests.Layer.{Response}
use tele_bezel.Session.{Codes, Session, extra, max_accounts}

-- What an uninitialised record holds does not matter (Codec/Complete).
abbrev pub no_span : Span
no_span = record { bytes = []; length = 0 }

abbrev pub no_prefs : PrefsRecord
no_prefs = record {
  default_account = no_span;
  chat_list = 0;
  host = no_span;
  show_archive = 0;
  unread_mode = 0;
  photo_mode = 0;
}

abbrev pub no_account : AccountRecord
no_account = record { id = no_span; name = no_span; state = 0; flags = 0 }

module _ {L : Type 0} (k : Codes) where
  -- The first chunk starts with the defaults.
  unfoldable pub cleared : Session L → Session L
  cleared s = record s {
    accounts = [];
    default_account = [];
    host = [];
    chat_list = k.list_main;
    show_archive = true;
    unread_mode = k.unread_chats;
    photo_mode = k.photo_auto;
  }

  -- The part of the loop for the preferences.
  unfoldable pub with_prefs : PrefsRecord → Session L → Session L
  with_prefs prefs s =
      let (ok, id) = copy_uuid 37 prefs.default_account in
      let shows = not (prefs.show_archive == 0) in
      record s {
        default_account = if ok then or_empty id else [];
        show_archive = shows;
        chat_list =
            if shows && prefs.chat_list == k.list_archive then k.list_archive else k.list_main;
        unread_mode =
            if prefs.unread_mode == k.unread_messages then k.unread_messages else k.unread_chats;
        photo_mode = if prefs.photo_mode == k.photo_manual then k.photo_manual else k.photo_auto;
        host = or_empty (copy_span 65 prefs.host);
      }

  -- The part of the loop for an account.
  unfoldable pub with_account : AccountRecord → Session L → Bool × Session L
  with_account r s =
      let (ok, id) = copy_uuid 37 r.id in
      if leb max_accounts (length s.accounts) then (true, s) else if not ok then (false, s) else (
        true,
        record s {
          accounts =
              s.accounts
              ++ (record {
                id = or_empty id;
                name = or_empty (copy_span 49 r.name);
                state = r.state;
                flags = r.flags;
              }
                  ∷ []);
        },
      )

  -- The body of the loop of `parse`.
  unfoldable pub take_frame : Frame → Session L → Bool × Session L
  take_frame f s =
      let (prefs_ok, prefs, prefs_body) = decode f.body layout_prefs no_prefs in
      let (account_ok, account, account_body) = decode f.body layout_account no_account in
      if f.type == k.record_prefs
      then if prefs_ok then (true, with_prefs prefs s) else (false, s)
      else if f.type == k.record_account
      then if account_ok then with_account account s else (false, s)
      else if f.type == k.record_pending_send
      then (true, record s { log = extra f.type f.body.bytes ∷ s.log })
      else (false, s)

  abbrev pub parsed : Walk (Session L) → Bool × Session L
  parsed (finished s) = (true, s)
  parsed (bad_frame s) = (false, s)
  parsed (stopped s) = (false, s)
  parsed (out_of_fuel s) = (false, s)

  -- `parse`
  unfoldable pub parse : Response → Session L → Bool × Session L
  parse r s = parsed (
      for_records take_frame (loop_fuel (length r.payload))
        (cursor_init (some r.payload) (length r.payload)) (if r.index == 0 then cleared s else s))
