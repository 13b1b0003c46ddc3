-- ===== src/Codec/Layouts.antt =====
-- The record types of app/src/c/codec.h and the tables of codec.c that say how each one is read:
-- an entry names the field's kind and the write to the field at its offset.
use tele_bezel.Base.{ℕ, List, [], ◌∷◌}
use tele_bezel.Codec.{Span, Field, u8, u16, u32, str8, str16, rest}

-- `TbAccountRecord`
pub record AccountRecord : Type 0 where
  pub id : Span
  pub name : Span
  pub state : ℕ
  pub flags : ℕ

-- `tb_layout_account`
unfoldable pub layout_account : List (Field AccountRecord)
layout_account =
    str8 (λ v r. record r { id = v })
    ∷ str8 (λ v r. record r { name = v })
    ∷ u8 (λ v r. record r { state = v })
    ∷ u8 (λ v r. record r { flags = v })
    ∷ []

-- `TbPrefsRecord`
pub record PrefsRecord : Type 0 where
  pub default_account : Span
  pub chat_list : ℕ
  pub host : Span
  pub show_archive : ℕ
  pub unread_mode : ℕ
  pub photo_mode : ℕ

-- `tb_layout_prefs`
unfoldable pub layout_prefs : List (Field PrefsRecord)
layout_prefs =
    str8 (λ v r. record r { default_account = v })
    ∷ u8 (λ v r. record r { chat_list = v })
    ∷ str8 (λ v r. record r { host = v })
    ∷ u8 (λ v r. record r { show_archive = v })
    ∷ u8 (λ v r. record r { unread_mode = v })
    ∷ u8 (λ v r. record r { photo_mode = v })
    ∷ []

-- `TbSummaryRecord`
pub record SummaryRecord : Type 0 where
  pub connection : ℕ
  pub proxy : ℕ
  pub unread_chats : ℕ
  pub unread_messages : ℕ

-- `tb_layout_summary`
unfoldable pub layout_summary : List (Field SummaryRecord)
layout_summary =
    u8 (λ v r. record r { connection = v })
    ∷ u8 (λ v r. record r { proxy = v })
    ∷ u32 (λ v r. record r { unread_chats = v })
    ∷ u32 (λ v r. record r { unread_messages = v })
    ∷ []

-- `TbStatusRecord`
pub record StatusRecord : Type 0 where
  pub connection : ℕ
  pub proxy : ℕ

-- `tb_layout_status`
unfoldable pub layout_status : List (Field StatusRecord)
layout_status = u8 (λ v r. record r { connection = v }) ∷ u8 (λ v r. record r { proxy = v }) ∷ []

-- `TbChatRecord`
pub record ChatRecord : Type 0 where
  pub id : Span
  pub title : Span
  pub type : ℕ
  pub flags : ℕ
  pub unread : ℕ
  pub last_date : ℕ
  pub preview_kind : ℕ
  pub preview_action : ℕ
  pub preview_duration : ℕ
  pub preview_sender : Span
  pub preview_extra : Span
  pub preview_text : Span
  pub send : ℕ

-- `tb_layout_chat`
unfoldable pub layout_chat : List (Field ChatRecord)
layout_chat =
    str8 (λ v r. record r { id = v })
    ∷ str8 (λ v r. record r { title = v })
    ∷ u8 (λ v r. record r { type = v })
    ∷ u8 (λ v r. record r { flags = v })
    ∷ u16 (λ v r. record r { unread = v })
    ∷ u32 (λ v r. record r { last_date = v })
    ∷ u8 (λ v r. record r { preview_kind = v })
    ∷ u8 (λ v r. record r { preview_action = v })
    ∷ u16 (λ v r. record r { preview_duration = v })
    ∷ str8 (λ v r. record r { preview_sender = v })
    ∷ str8 (λ v r. record r { preview_extra = v })
    ∷ str16 (λ v r. record r { preview_text = v })
    ∷ u8 (λ v r. record r { send = v })
    ∷ []

-- `TbMessageRecord`
pub record MessageRecord : Type 0 where
  pub id : Span
  pub date : ℕ
  pub flags : ℕ
  pub kind : ℕ
  pub action : ℕ
  pub duration : ℕ
  pub sender : Span
  pub extra : Span
  pub text : Span
  pub reply_id : Span
  pub reply_sender : Span
  pub reply_text : Span
  pub forward : Span
  pub media : ℕ
  pub album : ℕ
  pub media_count : ℕ
  pub signature : Span

-- `tb_layout_message`
unfoldable pub layout_message : List (Field MessageRecord)
layout_message =
    str8 (λ v r. record r { id = v })
    ∷ u32 (λ v r. record r { date = v })
    ∷ u8 (λ v r. record r { flags = v })
    ∷ u8 (λ v r. record r { kind = v })
    ∷ u8 (λ v r. record r { action = v })
    ∷ u16 (λ v r. record r { duration = v })
    ∷ str8 (λ v r. record r { sender = v })
    ∷ str8 (λ v r. record r { extra = v })
    ∷ str16 (λ v r. record r { text = v })
    ∷ str8 (λ v r. record r { reply_id = v })
    ∷ str8 (λ v r. record r { reply_sender = v })
    ∷ str8 (λ v r. record r { reply_text = v })
    ∷ str8 (λ v r. record r { forward = v })
    ∷ u8 (λ v r. record r { media = v })
    ∷ u32 (λ v r. record r { album = v })
    ∷ u8 (λ v r. record r { media_count = v })
    ∷ str8 (λ v r. record r { signature = v })
    ∷ []

-- `TbTemplatesRecord`
pub record TemplatesRecord : Type 0 where
  pub revision : ℕ
  pub count : ℕ
  pub flags : ℕ

-- `tb_layout_templates`
unfoldable pub layout_templates : List (Field TemplatesRecord)
layout_templates =
    u32 (λ v r. record r { revision = v })
    ∷ u8 (λ v r. record r { count = v })
    ∷ u8 (λ v r. record r { flags = v })
    ∷ []

-- `TbTemplateRecord`
pub record TemplateRecord : Type 0 where
  pub index : ℕ
  pub length : ℕ
  pub preview : Span

-- `tb_layout_template`
unfoldable pub layout_template : List (Field TemplateRecord)
layout_template =
    u8 (λ v r. record r { index = v })
    ∷ u16 (λ v r. record r { length = v })
    ∷ str8 (λ v r. record r { preview = v })
    ∷ []

-- `TbDraftRecord`
pub record DraftRecord : Type 0 where
  pub id : ℕ
  pub bytes : ℕ
  pub units : ℕ
  pub flags : ℕ

-- `tb_layout_draft`
unfoldable pub layout_draft : List (Field DraftRecord)
layout_draft =
    u32 (λ v r. record r { id = v })
    ∷ u16 (λ v r. record r { bytes = v })
    ∷ u16 (λ v r. record r { units = v })
    ∷ u8 (λ v r. record r { flags = v })
    ∷ []

-- `TbSendStateRecord`
pub record SendStateRecord : Type 0 where
  pub draft_id : ℕ
  pub state : ℕ
  pub code : ℕ
  pub retry_after : ℕ
  pub flags : ℕ
  pub account : Span
  pub chat : Span
  pub message : Span
  pub title : Span
  pub preview : Span

-- `tb_layout_send_state`
unfoldable pub layout_send_state : List (Field SendStateRecord)
layout_send_state =
    u32 (λ v r. record r { draft_id = v })
    ∷ u8 (λ v r. record r { state = v })
    ∷ u8 (λ v r. record r { code = v })
    ∷ u16 (λ v r. record r { retry_after = v })
    ∷ u8 (λ v r. record r { flags = v })
    ∷ str8 (λ v r. record r { account = v })
    ∷ str8 (λ v r. record r { chat = v })
    ∷ str8 (λ v r. record r { message = v })
    ∷ str8 (λ v r. record r { title = v })
    ∷ str8 (λ v r. record r { preview = v })
    ∷ []

-- `TbMediaInfoRecord`
pub record MediaInfoRecord : Type 0 where
  pub state : ℕ
  pub index : ℕ
  pub count : ℕ
  pub flags : ℕ
  pub tag : ℕ
  pub total : ℕ
  pub retry_after : ℕ
  pub item : Span

-- `tb_layout_media_info`
unfoldable pub layout_media_info : List (Field MediaInfoRecord)
layout_media_info =
    u8 (λ v r. record r { state = v })
    ∷ u8 (λ v r. record r { index = v })
    ∷ u8 (λ v r. record r { count = v })
    ∷ u8 (λ v r. record r { flags = v })
    ∷ u32 (λ v r. record r { tag = v })
    ∷ u32 (λ v r. record r { total = v })
    ∷ u16 (λ v r. record r { retry_after = v })
    ∷ str8 (λ v r. record r { item = v })
    ∷ []

-- `TbMediaDataRecord`
pub record MediaDataRecord : Type 0 where
  pub offset : ℕ
  pub bytes : Span

-- `tb_layout_media_data`
unfoldable pub layout_media_data : List (Field MediaDataRecord)
layout_media_data = u32 (λ v r. record r { offset = v }) ∷ rest (λ v r. record r { bytes = v }) ∷ []

-- `tb_layout_text`: the record is the span itself.
unfoldable pub layout_text : List (Field Span)
layout_text = str16 (λ v r. v) ∷ []
