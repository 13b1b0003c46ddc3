-- ===== src/Session/Sound.antt =====
-- The invariant of the session. Its events are the calls of session.h and the answers, in any order.
use tele_bezel.Base.{
  ℕ, ◌≤◌, ◌<◌, ◌≡◌, refl, sym, subst, inl, inr, Bool, true, false, not, some, List, [], ◌∷◌, ◌++◌,
  leb, ◌==◌, arith, if◌then◌else◌, length, Bool-cases, length-append, length-take,
}
use tele_bezel.Codec.{Span, Cursor, Frame, cursor_init, decode}
use tele_bezel.Codec.Layouts.{AccountRecord, PrefsRecord, layout_account, layout_prefs}
use tele_bezel.Codec.Frames.{
  Walk, finished, bad_frame, stopped, out_of_fuel, for_records, for_records-keeps, left, loop_fuel,
}
use tele_bezel.Text.{copy_span, copy_uuid, or_empty, utf8_fit}
use tele_bezel.Text.Utf8.{utf8_fit_bounds}
use tele_bezel.Requests.Layer.{Response}
use tele_bezel.Session.{Codes, Session, Account, is_idle, max_accounts}
use tele_bezel.Session.Bootstrap.{
  cleared, with_prefs, with_account, take_frame, parsed, parse, no_prefs, no_account,
}

-- The strings of an account fit its arrays.
abbrev pub IsAccount : Account → Type 0
IsAccount a = (length a.id < 37) × (length a.name < 49)

abbrev pub AreAccounts : List Account → Type 0
AreAccounts [] = Unit
AreAccounts (a ∷ as') = IsAccount a × AreAccounts as'

-- Nothing outgrows its array.
pub record IsStored {L : Type 0} (s : Session L) : Type 0 where
  pub count : length s.accounts ≤ max_accounts
  pub accounts : AreAccounts s.accounts
  pub default_account : length s.default_account < 37
  pub host : length s.host < 65

-- The session is busy just when an answer is awaited.
pub record IsSound {L : Type 0} (s : Session L) : Type 0 where
  pub stored : IsStored s
  pub busy : is_idle s.phase ≡ (s.pending == 0)

length-copy_span : (n : ℕ) (v : Span) → 0 < n → length (or_empty (copy_span n v)) < n
unfolding copy_span or_empty
length-copy_span n v h = ground (
  arith,
  utf8_fit_bounds v.bytes v.length n h,
  length-take (utf8_fit (some v.bytes) v.length n) v.bytes,
)

length-copy_uuid : (v : Span) → length (or_empty (copy_uuid 37 v).1) < 37
unfolding copy_uuid or_empty
length-copy_uuid v = ground (arith, length-take 36 v.bytes)

AreAccounts-append :
    (xs ys : List Account) → AreAccounts xs → AreAccounts ys → AreAccounts (xs ++ ys)
AreAccounts-append [] ys v w = w
AreAccounts-append (x ∷ xs) ys (a, v) w = (a, AreAccounts-append xs ys v w)

module _ {L : Type 0} (k : Codes) where
  pub IsStored-if :
      (b : Bool) (x y : Session L) → IsStored x → IsStored y → IsStored (if b then x else y)
  IsStored-if true x y v w = v
  IsStored-if false x y v w = w

  Kept-if :
      (b : Bool) (x y : Bool × Session L)
      → IsStored x.1
      → IsStored y.1
      → IsStored (if b then x else y).1
  Kept-if true x y v w = v
  Kept-if false x y v w = w

  cleared-IsStored : (s : Session L) → IsStored (cleared k s)
  unfolding cleared
  cleared-IsStored s = record {
    count = omega arith;
    accounts = tt;
    default_account = omega arith;
    host = omega arith;
  }

  with_prefs-IsStored :
      (prefs : PrefsRecord) (s : Session L) → IsStored s → IsStored (with_prefs k prefs s)
  unfolding with_prefs
  with_prefs-IsStored prefs s v = record {
    count = v.count;
    accounts = v.accounts;
    default_account = elim (Bool-cases (copy_uuid 37 prefs.default_account).0) [
      | inl e ↦ rw e (length-copy_uuid prefs.default_account)
      | inr e ↦ rw e (omega arith)
    ];
    host = length-copy_span 65 prefs.host (omega arith);
  }

  with_account-IsStored :
      (r : AccountRecord) (s : Session L) → IsStored s → IsStored (with_account k r s).1
  unfolding with_account
  with_account-IsStored r s v = elim (Bool-cases (leb max_accounts (length s.accounts))) [
    | inl e ↦ rw e v
    | inr e ↦
        let a : Account = record {
          id = or_empty (copy_uuid 37 r.id).1;
          name = or_empty (copy_span 49 r.name);
          state = r.state;
          flags = r.flags;
        } in
        rw e (
          Kept-if (not (copy_uuid 37 r.id).0) (false, s) _ v
            (record {
              count = ground (arith, length-append s.accounts (a ∷ []));
              accounts =
                  AreAccounts-append s.accounts (a ∷ []) v.accounts
                    ((length-copy_uuid r.id, length-copy_span 49 r.name (omega arith)), tt);
              default_account = v.default_account;
              host = v.host;
            }))
  ]

  take_frame-IsStored : (f : Frame) (s : Session L) → IsStored s → IsStored (take_frame k f s).1
  unfolding take_frame
  take_frame-IsStored f s v =
      let (prefs_ok, prefs, prefs_body) = decode f.body layout_prefs no_prefs in
      let (account_ok, account, account_body) = decode f.body layout_account no_account in
      Kept-if (f.type == k.record_prefs) _ _
        (Kept-if prefs_ok _ (false, s) (with_prefs-IsStored prefs s v) v)
        (Kept-if (f.type == k.record_account) _ _
          (Kept-if account_ok _ (false, s) (with_account-IsStored account s v) v)
          (Kept-if (f.type == k.record_pending_send) _ (false, s)
            (record {
              count = v.count;
              accounts = v.accounts;
              default_account = v.default_account;
              host = v.host;
            })
            v))

  parsed-left : (w : Walk (Session L)) → (parsed k w).1 ≡ left w
  parsed-left (finished s) = refl
  parsed-left (bad_frame s) = refl
  parsed-left (stopped s) = refl
  parsed-left (out_of_fuel s) = refl

  -- The walk of `parse` over the records of a chunk, from the cleared session or the one at hand.
  pub parse-kept :
      (P : Session L → Type 0)
      → ((f : Frame) (s : Session L) → P s → P (take_frame k f s).1)
      → (r : Response) (s : Session L) → P (if r.index == 0 then cleared k s else s)
      → P (parse k r s).1
  unfolding parse
  parse-kept P step r s v =
      let fuel : ℕ = loop_fuel (length r.payload) in
      let from : Cursor = cursor_init (some r.payload) (length r.payload) in
      let s' : Session L = if r.index == 0 then cleared k s else s in
      subst P (sym (parsed-left (for_records (take_frame k) fuel from s')))
        (for_records-keeps P (take_frame k) step fuel from s' v)

  pub parse-IsStored : (r : Response) (s : Session L) → IsStored s → IsStored (parse k r s).1
  parse-IsStored r s v =
      parse-kept IsStored take_frame-IsStored r s
        (IsStored-if (r.index == 0) _ _ (cleared-IsStored s) v)
