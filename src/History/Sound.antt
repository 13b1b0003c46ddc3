-- ===== src/History/Sound.antt =====
-- The invariant of the messages of a chat, and that staging, sorting and merging keep it.
use tele_bezel.Base.{
  ℕ, ◌≤◌, ◌≡◌, refl, sym, ap, subst, inl, inr, Bool, List, [], some, ◌==◌, ◌&&◌, arith, length,
  Bool-cases,
}
use tele_bezel.Codec.{Span, Frame, Cursor, cursor_init, decode}
use tele_bezel.Codec.Layouts.{MessageRecord, layout_message}
use tele_bezel.Codec.Frames.{
  Walk, finished, bad_frame, stopped, out_of_fuel, for_records, for_records-keeps, left, loop_fuel,
}
use tele_bezel.Text.{Budget}
use tele_bezel.History.{Codes, Config, Store}
use tele_bezel.History.Staging.{
  clear_items, clear_staging, stage, stage_frame, parse, parsed, blank,
}
use tele_bezel.History.Merging.{
  sort_staging, append_staging, prepend_staging, merge_page, evict_newest, merge_albums,
}
use tele_bezel.History.Order.{IsSorted}
use tele_bezel.History.Merged.{
  append_staging-IsSorted, merge_page-IsSorted, evict_loop-IsSorted, prepend_staging-IsSorted,
}
use tele_bezel.History.Albums.{merge_albums-IsSorted}
use tele_bezel.History.Limits.{
  append_staging-fits, merge_page-fits, evict_loop-fits, prepend_staging-fits, length-sort,
  merge_albums-le, stage-staged, items-stage,
}
use tele_bezel.History.Memory.{IsPaid, clear_items-IsPaid, clear_staging-IsPaid, stage-IsPaid}
use tele_bezel.History.Paid.{
  weight-sort, append_staging-IsPaid, merge_page-IsPaid, evict_newest-IsPaid,
  prepend_staging-IsPaid, merge_albums-IsPaid,
}
use tele_bezel.History.Staged.{
  staging-append_staging, staging-merge_page, staging-evict_newest, staging-prepend_staging,
}

-- The held messages are in the order of their keys, the two arrays are not outgrown, and the budget
-- pays for every string.
pub record IsStored (c : Config) (s : Store) : Type 0 where
  pub sorted : IsSorted s.items
  pub fits : length s.items ≤ c.capacity
  pub staged : length s.staging ≤ c.page_limit
  pub paid : IsPaid s

module _ (c : Config) where
  -- An empty page, for the parts that leave one.
  emptied : (s : Store) → s.staging ≡ [] → length s.staging ≤ c.page_limit
  emptied s e = omega (arith, ap length e)

  pub clear_items-IsStored : (s : Store) → IsStored c s → IsStored c (clear_items s)
  unfolding clear_items
  clear_items-IsStored s v = record {
    sorted = tt;
    fits = omega arith;
    staged = v.staged;
    paid = clear_items-IsPaid s v.paid;
  }

  pub clear_staging-IsStored : (s : Store) → IsStored c s → IsStored c (clear_staging s)
  unfolding clear_staging
  clear_staging-IsStored s v = record {
    sorted = v.sorted;
    fits = v.fits;
    staged = omega arith;
    paid = clear_staging-IsPaid s v.paid;
  }

  pub sort_staging-IsStored : (s : Store) → IsStored c s → IsStored c (sort_staging s)
  unfolding sort_staging
  sort_staging-IsStored s v = record {
    sorted = v.sorted;
    fits = v.fits;
    staged = omega (arith, v.staged, length-sort s.staging);
    paid = omega (arith, v.paid, weight-sort s.staging);
  }

  pub append_staging-IsStored : (s : Store) → IsStored c s → IsStored c (append_staging c s)
  append_staging-IsStored s v = record {
    sorted = append_staging-IsSorted c s v.sorted;
    fits = append_staging-fits c s v.fits;
    staged = emptied (append_staging c s) (staging-append_staging c s);
    paid = append_staging-IsPaid c s v.paid;
  }

  pub merge_page-IsStored : (s : Store) → IsStored c s → IsStored c (merge_page c s)
  merge_page-IsStored s v = record {
    sorted = merge_page-IsSorted c s v.sorted;
    fits = merge_page-fits c s v.fits;
    staged = emptied (merge_page c s) (staging-merge_page c s);
    paid = merge_page-IsPaid c s v.paid;
  }

  pub prepend_staging-IsStored :
      (s : Store) → IsSorted s.staging → IsStored c s → IsStored c (prepend_staging c s)
  prepend_staging-IsStored s t v = record {
    sorted = prepend_staging-IsSorted c s t v.sorted;
    fits = prepend_staging-fits c s v.fits;
    staged = emptied (prepend_staging c s) (staging-prepend_staging c s);
    paid = prepend_staging-IsPaid c s v.paid;
  }

  pub evict_newest-IsStored : (s : Store) → IsStored c s → IsStored c (evict_newest c s)
  unfolding evict_newest
  evict_newest-IsStored s v = record {
    sorted = evict_loop-IsSorted (length s.items) c s v.sorted;
    fits = evict_loop-fits (length s.items) c s v.fits;
    staged = omega (arith, v.staged, ap length (staging-evict_newest c s));
    paid = evict_newest-IsPaid c s v.paid;
  }

  pub merge_albums-IsStored : (k : Codes) (s : Store) → IsStored c s → IsStored c (merge_albums k s)
  unfolding merge_albums
  merge_albums-IsStored k s v = record {
    sorted = merge_albums-IsSorted k s v.sorted;
    fits = omega (arith, merge_albums-le k s, v.fits);
    staged = v.staged;
    paid = merge_albums-IsPaid k s v.paid;
  }

module _ (k : Codes) (c : Config) (heap : Budget → Span → Bool) where
  stage-IsStored :
      (r : MessageRecord) (s : Store) → IsStored c s → IsStored c (stage k c heap r s).1
  stage-IsStored r s v = record {
    sorted = subst IsSorted (sym (items-stage k c heap r s)) v.sorted;
    fits = omega (arith, ap length (items-stage k c heap r s), v.fits);
    staged = stage-staged k c heap r s v.staged;
    paid = stage-IsPaid k c heap r s v.paid;
  }

  stage_frame-IsStored :
      (f : Frame) (s : Store) → IsStored c s → IsStored c (stage_frame k c heap f s).1
  unfolding stage_frame
  stage_frame-IsStored f s v =
      let (ok, r, body) = decode f.body layout_message (blank k c heap) in
      elim (Bool-cases (f.type == k.record_message && ok)) [
        | inl e ↦ rw e (stage-IsStored r s v)
        | inr e ↦ rw e v
      ]

  parsed-left : (w : Walk Store) → (parsed k c heap w).1 ≡ left w
  parsed-left (finished s) = refl
  parsed-left (bad_frame s) = refl
  parsed-left (stopped s) = refl
  parsed-left (out_of_fuel s) = refl

  -- Whatever a chunk has in it, `parse` keeps the invariant.
  pub parse-IsStored :
      (payload : List ℕ) (s : Store) → IsStored c s → IsStored c (parse k c heap payload s).1
  unfolding parse
  parse-IsStored payload s v =
      let fuel : ℕ = loop_fuel (length payload) in
      let start : Cursor = cursor_init (some payload) (length payload) in
      subst (IsStored c) (sym (parsed-left (for_records (stage_frame k c heap) fuel start s)))
        (for_records-keeps (IsStored c) (stage_frame k c heap) stage_frame-IsStored fuel start s v)
