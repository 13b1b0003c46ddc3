-- ===== src/Pull/Levels.antt =====
-- The level of the pull gesture stays within its bounds.
use tele_bezel.Base.{
  List, [], ◌∷◌, if◌then◌else◌, sub32, ℕ, ◌+◌, ◌-◌, ◌*◌, ◌/◌, ◌%◌, ◌^◌, ◌≤◌, ◌<◌, ◌≡◌, refl, Bool,
  true, false, arith, leb, Bool-cases, inl, inr,
}
use native.Mathlib.Nat.{div-le_of_le-mul}
use tele_bezel.Pull.{
  init, reset, Call, changed, called, schedule, Pull, Phase, full, animate, fire, smooth, eased,
  settle, settle_phase, press, press_phase, press_free, drag, drag_phase, drag_free, release,
  release_phase, tick, tick_phase, tick_moving, idle, rising_half, waiting, rising_full, holding,
  falling, dragging,
}

-- The level and the ends of the animation are at most full, and the animation is short enough for
-- its times in thousandths to stay within a `uint32_t`.
pub record IsBounded (p : Pull) : Type 0 where
  pub level_in : p.level ≤ full
  pub from_in : p.from ≤ full
  pub to_in : p.to ≤ full
  pub duration_in : p.duration ≤ 400

smooth_cube : (a b : ℕ) → a * a * (a + 3 * b) ≤ (a + b) * (a + b) * (a + b)
smooth_cube a b = grind arith

-- `smooth` grows from 0 to 1000.
smooth_bound : (progress : ℕ) → progress ≤ 1000 → smooth progress ≤ 1000
unfolding smooth
smooth_bound progress h =
    let rest : ℕ = 1000 - progress in
    let e : progress + rest ≡ 1000 = omega arith in
    let cube : (progress + rest) * (progress + rest) * (progress + rest) ≡ 1000000000 = rw e refl in
    let factor : 3000 - 2 * progress ≡ progress + 3 * rest = omega arith in
    rw factor (omega (arith, smooth_cube progress rest, cube))

part_le : (span s : ℕ) → s ≤ 1000 → span * s / 1000 ≤ span
part_le span s h = let le : span * s ≤ span * 1000 = grind arith in omega (arith, le)

progress_le :
    (elapsed duration : ℕ)
    → elapsed < duration
    → duration ≤ 400
    → elapsed * 1000 % 2 ^ 32 / duration ≤ 1000
progress_le elapsed duration h small =
    let same : elapsed * 1000 % 2 ^ 32 ≡ elapsed * 1000 = omega arith in
    rw same (div-le_of_le-mul duration (omega arith))

eased_bound : (p : Pull) (elapsed : ℕ) → IsBounded p → eased p elapsed ≤ full
unfolding eased
eased_bound p elapsed b = elim (Bool-cases (leb p.duration elapsed)) [
  | inl e ↦ ground (arith, b.to_in)
  | inr e ↦
      let small : elapsed * 1000 % 2 ^ 32 / p.duration ≤ 1000 =
        progress_le elapsed p.duration (ground arith) b.duration_in in
      let s : smooth (elapsed * 1000 % 2 ^ 32 / p.duration) ≤ 1000 = smooth_bound _ small in
      let up = part_le (p.to - p.from) (smooth (elapsed * 1000 % 2 ^ 32 / p.duration)) s in
      ground (arith, up, b.to_in, b.from_in)
]

animate-IsBounded :
    (current : ℕ) (phase : Phase) (to duration : ℕ) (p : Pull)
    → p.level ≤ full
    → to ≤ full
    → duration ≤ 400
    → IsBounded (animate current phase to duration p)
unfolding animate
animate-IsBounded current phase to duration p l t d = omega arith

fire-IsBounded : (current : ℕ) (p : Pull) → IsBounded (fire current p)
unfolding fire animate
fire-IsBounded current p = omega arith

settle_phase-IsBounded :
    (phase : Phase) (current : ℕ) (p : Pull)
    → IsBounded p
    → IsBounded (settle_phase phase current p)
unfolding settle_phase fire animate
settle_phase-IsBounded idle current p b = b
settle_phase-IsBounded dragging current p b = b
settle_phase-IsBounded rising_half current p b = omega arith
settle_phase-IsBounded waiting current p b = omega arith
settle_phase-IsBounded rising_full current p b = omega arith
settle_phase-IsBounded holding current p b = omega arith
settle_phase-IsBounded falling current p b = omega arith

press_free-IsBounded : (current : ℕ) (p : Pull) → IsBounded p → IsBounded (press_free current p)
unfolding press_free animate
press_free-IsBounded current p b = ground (arith, b.level_in)

press_phase-IsBounded :
    (phase : Phase) (current : ℕ) (p : Pull) → IsBounded p → IsBounded (press_phase phase current p)
unfolding press_phase
press_phase-IsBounded idle current p b = press_free-IsBounded current p b
press_phase-IsBounded rising_half current p b = press_free-IsBounded current p b
press_phase-IsBounded waiting current p b = press_free-IsBounded current p b
press_phase-IsBounded rising_full current p b = b
press_phase-IsBounded holding current p b = b
press_phase-IsBounded falling current p b = press_free-IsBounded current p b
press_phase-IsBounded dragging current p b = b

drag_free-IsBounded : (level : ℕ) (p : Pull) → IsBounded p → IsBounded (drag_free level p)
unfolding drag_free
drag_free-IsBounded level p b = ground (arith, b.from_in, b.to_in, b.duration_in)

drag_phase-IsBounded :
    (phase : Phase) (level : ℕ) (p : Pull) → IsBounded p → IsBounded (drag_phase phase level p)
unfolding drag_phase
drag_phase-IsBounded idle level p b = drag_free-IsBounded level p b
drag_phase-IsBounded rising_half level p b = drag_free-IsBounded level p b
drag_phase-IsBounded waiting level p b = drag_free-IsBounded level p b
drag_phase-IsBounded rising_full level p b = b
drag_phase-IsBounded holding level p b = b
drag_phase-IsBounded falling level p b = drag_free-IsBounded level p b
drag_phase-IsBounded dragging level p b = drag_free-IsBounded level p b

release_phase-IsBounded :
    (phase : Phase) (current : ℕ) (p : Pull)
    → IsBounded p
    → IsBounded (release_phase phase current p)
unfolding release_phase fire animate
release_phase-IsBounded idle current p b = b
release_phase-IsBounded rising_half current p b = b
release_phase-IsBounded waiting current p b = b
release_phase-IsBounded rising_full current p b = b
release_phase-IsBounded holding current p b = b
release_phase-IsBounded falling current p b = b
release_phase-IsBounded dragging current p b = ground (arith, b.level_in)

IsBounded-if : (c : Bool) {p q : Pull} → IsBounded p → IsBounded q → IsBounded (if c then p else q)
IsBounded-if true b b' = b
IsBounded-if false b b' = b'

called-IsBounded : (c : Call) (p : Pull) → IsBounded p → IsBounded (called c p)
called-IsBounded c p b = omega (arith, b.level_in, b.from_in, b.to_in, b.duration_in)

tick_moving-IsBounded : (current : ℕ) (p : Pull) → IsBounded p → IsBounded (tick_moving current p)
unfolding tick_moving settle
tick_moving-IsBounded current p b =
    let moved : Pull = record p { level = eased p (sub32 current p.started) } in
    let bounded : IsBounded moved =
      omega (arith, eased_bound p (sub32 current p.started) b, b.from_in, b.to_in, b.duration_in) in
    let kept : IsBounded (
        if leb p.duration (sub32 current p.started)
        then settle_phase moved.phase current moved
        else called (schedule 33) moved) =
      IsBounded-if (leb p.duration (sub32 current p.started))
        (settle_phase-IsBounded moved.phase current moved bounded)
        (omega (arith, bounded.level_in, bounded.from_in, bounded.to_in, bounded.duration_in)) in
    omega (arith, kept.level_in, kept.from_in, kept.to_in, kept.duration_in)

tick_phase-IsBounded :
    (phase : Phase) (current : ℕ) (p : Pull) → IsBounded p → IsBounded (tick_phase phase current p)
unfolding tick_phase settle
tick_phase-IsBounded idle current p b = b
tick_phase-IsBounded rising_half current p b = tick_moving-IsBounded current p b
tick_phase-IsBounded waiting current p b = called-IsBounded changed _ (
    IsBounded-if (leb p.armed_until current) (settle_phase-IsBounded p.phase current p b)
      (called-IsBounded (schedule (p.armed_until - current)) p b))
tick_phase-IsBounded rising_full current p b = tick_moving-IsBounded current p b
tick_phase-IsBounded holding current p b = tick_moving-IsBounded current p b
tick_phase-IsBounded falling current p b = tick_moving-IsBounded current p b
tick_phase-IsBounded dragging current p b = b

-- An operation of the gesture at a time of the clock.
pub data Event : Type 0 where
  pressed released ticked : ℕ → Event
  dragged : ℕ → Event
  cleared : Event

abbrev pub apply : Event → Pull → Pull
apply (pressed current) p = press current p
apply (released current) p = release current p
apply (ticked current) p = tick current p
apply (dragged level) p = drag level p
apply cleared p = reset p

-- The gesture after a list of events, the last one first.
abbrev pub after : List Event → Pull
after [] = init
after (e ∷ es) = apply e (after es)

-- Whatever events the gesture takes, its level and both ends of its animation are at most 1000, the
-- height of a full pull, and an animation takes at most 400 milliseconds.
pub after-IsBounded : (es : List Event) → IsBounded (after es)
unfolding init press drag release tick reset
after-IsBounded [] = omega arith
after-IsBounded (pressed current ∷ es) =
    press_phase-IsBounded (after es).phase current (after es) (after-IsBounded es)
after-IsBounded (released current ∷ es) =
    release_phase-IsBounded (after es).phase current (after es) (after-IsBounded es)
after-IsBounded (ticked current ∷ es) =
    tick_phase-IsBounded (after es).phase current (after es) (after-IsBounded es)
after-IsBounded (dragged level ∷ es) =
    drag_phase-IsBounded (after es).phase level (after es) (after-IsBounded es)
after-IsBounded (cleared ∷ es) =
    let b = after-IsBounded es in omega (arith, b.from_in, b.to_in, b.duration_in)
