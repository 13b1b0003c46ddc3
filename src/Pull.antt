-- ===== src/Pull.antt =====
-- app/src/c/pull.c and pull.h: the pull gesture, an animated level that a double press or a drag
-- brings to its top, which triggers a refresh. The calls of the ports are kept in a log, the last one
-- first; `current` is what the clock port gives while an operation runs.
pub mod Levels
pub mod Phases
use tele_bezel.Base.{
  ℕ, ◌+◌, ◌-◌, ◌*◌, ◌/◌, ◌%◌, ◌^◌, Bool, true, false, not, ◌&&◌, ◌||◌, List, [], ◌∷◌, ltb, leb,
  ◌==◌, if◌then◌else◌, add32, sub32,
}

abbrev pub full : ℕ
full = 1000

abbrev pub half : ℕ
half = 500

-- `TbPullPhase`
pub data Phase : Type 0 where
  idle rising_half waiting rising_full holding falling dragging : Phase

-- A call of a port.
pub data Call : Type 0 where
  changed trigger cancel : Call
  schedule : ℕ → Call

-- `TbPull`
pub record Pull : Type 0 where
  pub phase : Phase
  pub level : ℕ
  pub from : ℕ
  pub to : ℕ
  pub started : ℕ
  pub duration : ℕ
  pub armed_until : ℕ
  pub log : List Call

abbrev pub called : Call → Pull → Pull
called c p = record p { log = c ∷ p.log }

-- `tb_pull_init`
unfoldable pub init : Pull
init = record {
  phase = idle;
  level = 0;
  from = 0;
  to = 0;
  started = 0;
  duration = 0;
  armed_until = 0;
  log = [];
}

-- `animate`
unfoldable pub animate : ℕ → Phase → ℕ → ℕ → Pull → Pull
animate current phase to duration p =
    called (schedule 33)
      (record p { phase = phase; from = p.level; to = to; started = current; duration = duration })

-- `fire`
unfoldable pub fire : ℕ → Pull → Pull
fire current p =
    called trigger (animate current holding full 120 (record p { level = full; armed_until = 0 }))

-- `smooth` of `eased`; `progress` is at most 1000, so no `int32_t` product overflows.
unfoldable pub smooth : ℕ → ℕ
smooth progress = progress * progress * (3000 - 2 * progress) / 1000000

-- `eased`; C divides towards zero, in both directions of the span alike.
unfoldable pub eased : Pull → ℕ → ℕ
eased p elapsed =
    let progress = elapsed * 1000 % 2 ^ 32 / p.duration in
    if p.duration == 0 || leb p.duration elapsed
    then p.to
    else if leb p.from p.to
    then p.from + (p.to - p.from) * smooth progress / 1000
    else p.from - (p.from - p.to) * smooth progress / 1000

unfoldable pub settle_phase : Phase → ℕ → Pull → Pull
settle_phase rising_half current p =
    let left = if ltb current p.armed_until then p.armed_until - current else 0 in
    called (schedule (if ltb 0 left then left else 1)) (record p { phase = waiting })
settle_phase waiting current p = animate current falling 0 300 (record p { armed_until = 0 })
settle_phase rising_full current p = fire current p
settle_phase holding current p = animate current falling 0 300 p
settle_phase falling current p = record p { phase = idle }
settle_phase idle current p = p
settle_phase dragging current p = p

-- `settle`
unfoldable pub settle : ℕ → Pull → Pull
settle current p = settle_phase p.phase current p

abbrev pub is_armed : ℕ → Pull → Bool
is_armed current p = not (p.armed_until == 0) && ltb current p.armed_until

-- The part of `tb_pull_press` after its first guard.
unfoldable pub press_free : ℕ → Pull → Pull
press_free current p =
    let up = (full - p.level) * 120 / full in
    let half_up = if leb half p.level then 1 else (half - p.level) * 150 / half in
    if is_armed current p
    then animate current rising_full full (if ltb 0 up then up else 1) p
    else animate current rising_half half half_up (record p { armed_until = add32 current 450 })

unfoldable pub press_phase : Phase → ℕ → Pull → Pull
press_phase rising_full current p = p
press_phase holding current p = p
press_phase dragging current p = p
press_phase idle current p = press_free current p
press_phase rising_half current p = press_free current p
press_phase waiting current p = press_free current p
press_phase falling current p = press_free current p

-- `tb_pull_press`
unfoldable pub press : ℕ → Pull → Pull
press current p = press_phase p.phase current p

-- The part of `tb_pull_drag` after its guard.
unfoldable pub drag_free : ℕ → Pull → Pull
drag_free level p = called changed (record (called cancel p) {
  phase = dragging;
  armed_until = 0;
  level = if ltb full level then full else level;
})

unfoldable pub drag_phase : Phase → ℕ → Pull → Pull
drag_phase rising_full level p = p
drag_phase holding level p = p
drag_phase idle level p = drag_free level p
drag_phase rising_half level p = drag_free level p
drag_phase waiting level p = drag_free level p
drag_phase falling level p = drag_free level p
drag_phase dragging level p = drag_free level p

-- `tb_pull_drag`
unfoldable pub drag : ℕ → Pull → Pull
drag level p = drag_phase p.phase level p

unfoldable pub release_phase : Phase → ℕ → Pull → Pull
release_phase dragging current p = called changed (
    if leb full p.level
    then fire current p
    else animate current falling 0 (p.level * 250 / full + 1) p)
release_phase _ current p = p

-- `tb_pull_release`
unfoldable pub release : ℕ → Pull → Pull
release current p = release_phase p.phase current p

-- `tb_pull_tick` while the level moves
unfoldable pub tick_moving : ℕ → Pull → Pull
tick_moving current p =
    let elapsed = sub32 current p.started in
    let p' = record p { level = eased p elapsed } in
    called changed (if leb p.duration elapsed then settle current p' else called (schedule 33) p')

unfoldable pub tick_phase : Phase → ℕ → Pull → Pull
tick_phase idle current p = p
tick_phase dragging current p = p
tick_phase waiting current p = called changed (
    if leb p.armed_until current
    then settle current p
    else called (schedule (p.armed_until - current)) p)
tick_phase rising_half current p = tick_moving current p
tick_phase rising_full current p = tick_moving current p
tick_phase holding current p = tick_moving current p
tick_phase falling current p = tick_moving current p

-- `tb_pull_tick`
unfoldable pub tick : ℕ → Pull → Pull
tick current p = tick_phase p.phase current p

-- `tb_pull_reset`
unfoldable pub reset : Pull → Pull
reset p = record (called cancel p) { phase = idle; level = 0; armed_until = 0 }
