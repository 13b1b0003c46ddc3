-- ===== src/Pull/Phases.antt =====
-- The phases of the pull gesture as a state machine: when it triggers, and what follows a phase that
-- has had its time.
use tele_bezel.Base.{ℕ, suc, ◌+◌, ◌≡◌, refl, Bool, true, false, arith, leb, List, [], ◌∷◌, sub32}
use tele_bezel.Pull.{
  Pull, Phase, Call, full, animate, fire, settle, settle_phase, press, press_phase, press_free,
  drag, drag_phase, drag_free, release, release_phase, tick, tick_phase, tick_moving, reset, idle,
  rising_half, waiting, rising_full, holding, falling, dragging, changed, trigger, cancel, schedule,
}
use tele_bezel.Pull.Levels.{Event, pressed, released, ticked, dragged, cleared, apply}

-- How often the refresh has been triggered.
abbrev pub triggers : List Call → ℕ
triggers [] = 0
triggers (trigger ∷ cs) = suc (triggers cs)
triggers (changed ∷ cs) = triggers cs
triggers (cancel ∷ cs) = triggers cs
triggers (schedule n ∷ cs) = triggers cs

-- The events that trigger a refresh: the end of the rise that a second press starts, and the release
-- of a full drag.
abbrev pub fires_at : Phase → Event → Pull → Bool
fires_at rising_full (ticked current) p = leb p.duration (sub32 current p.started)
fires_at dragging (released current) p = leb full p.level
fires_at _ _ p = false

abbrev pub fires : Event → Pull → Bool
fires e p = fires_at p.phase e p

abbrev one : Bool → ℕ
one true = 1
one false = 0

triggers-press_phase :
    (phase : Phase) (current : ℕ) (p : Pull)
    → triggers (press_phase phase current p).log ≡ triggers p.log
unfolding press_phase press_free animate
triggers-press_phase idle current p = ground arith
triggers-press_phase rising_half current p = ground arith
triggers-press_phase waiting current p = ground arith
triggers-press_phase falling current p = ground arith
triggers-press_phase rising_full current p = refl
triggers-press_phase holding current p = refl
triggers-press_phase dragging current p = refl

triggers-tick_phase :
    (current : ℕ) (p : Pull) (phase : Phase)
    → phase ≡ p.phase
    → triggers (tick_phase phase current p).log
      ≡ triggers p.log + one (fires_at phase (ticked current) p)
unfolding tick_phase tick_moving settle settle_phase fire animate
triggers-tick_phase current p idle e = ground arith
triggers-tick_phase current p dragging e = ground arith
triggers-tick_phase current p waiting e = rw (← e) (ground arith)
triggers-tick_phase current p rising_half e = rw (← e) (ground arith)
triggers-tick_phase current p rising_full e = rw (← e) (ground arith)
triggers-tick_phase current p holding e = rw (← e) (ground arith)
triggers-tick_phase current p falling e = rw (← e) (ground arith)

triggers-release_phase :
    (phase : Phase) (current : ℕ) (p : Pull)
    → triggers (release_phase phase current p).log
      ≡ triggers p.log + one (fires_at phase (released current) p)
unfolding release_phase fire animate
triggers-release_phase dragging current p = ground arith
triggers-release_phase idle current p = ground arith
triggers-release_phase waiting current p = ground arith
triggers-release_phase rising_half current p = ground arith
triggers-release_phase rising_full current p = ground arith
triggers-release_phase holding current p = ground arith
triggers-release_phase falling current p = ground arith

triggers-drag_phase :
    (phase : Phase) (level : ℕ) (p : Pull)
    → triggers (drag_phase phase level p).log ≡ triggers p.log
unfolding drag_phase drag_free
triggers-drag_phase rising_full level p = refl
triggers-drag_phase holding level p = refl
triggers-drag_phase idle level p = refl
triggers-drag_phase rising_half level p = refl
triggers-drag_phase waiting level p = refl
triggers-drag_phase falling level p = refl
triggers-drag_phase dragging level p = refl

quiet_press :
    (phase : Phase) (current : ℕ) (p : Pull) → one (fires_at phase (pressed current) p) ≡ 0
quiet_press idle current p = refl
quiet_press rising_half current p = refl
quiet_press waiting current p = refl
quiet_press rising_full current p = refl
quiet_press holding current p = refl
quiet_press falling current p = refl
quiet_press dragging current p = refl

quiet_drag : (phase : Phase) (level : ℕ) (p : Pull) → one (fires_at phase (dragged level) p) ≡ 0
quiet_drag idle level p = refl
quiet_drag rising_half level p = refl
quiet_drag waiting level p = refl
quiet_drag rising_full level p = refl
quiet_drag holding level p = refl
quiet_drag falling level p = refl
quiet_drag dragging level p = refl

quiet_reset : (phase : Phase) (p : Pull) → one (fires_at phase cleared p) ≡ 0
quiet_reset idle p = refl
quiet_reset rising_half p = refl
quiet_reset waiting p = refl
quiet_reset rising_full p = refl
quiet_reset holding p = refl
quiet_reset falling p = refl
quiet_reset dragging p = refl

-- An event triggers the refresh once where it is the tick that ends the rise of a second press or the
-- release of a drag at full level, and never otherwise.
pub triggers-apply :
    (e : Event) (p : Pull) → triggers (apply e p).log ≡ triggers p.log + one (fires e p)
unfolding press release drag tick reset
triggers-apply (pressed current) p =
    omega (arith, triggers-press_phase p.phase current p, quiet_press p.phase current p)
triggers-apply (released current) p = triggers-release_phase p.phase current p
triggers-apply (ticked current) p = triggers-tick_phase current p p.phase refl
triggers-apply (dragged level) p =
    omega (arith, triggers-drag_phase p.phase level p, quiet_drag p.phase level p)
triggers-apply cleared p = omega (arith, quiet_reset p.phase p)

-- How many timers are left until the gesture is at rest.
abbrev pub stages : Phase → ℕ
stages idle = 0
stages dragging = 0
stages falling = 1
stages holding = 2
stages waiting = 2
stages rising_half = 3
stages rising_full = 3

-- The time of the phase is over.
abbrev pub is_due : Phase → ℕ → Pull → Bool
is_due idle current p = false
is_due dragging current p = false
is_due waiting current p = leb p.armed_until current
is_due _ current p = leb p.duration (sub32 current p.started)

stages-tick_phase :
    (current : ℕ) (p : Pull) (phase : Phase)
    → phase ≡ p.phase
    → is_due phase current p ≡ true
    → suc (stages (tick_phase phase current p).phase) ≡ stages phase
unfolding tick_phase tick_moving settle settle_phase fire animate
stages-tick_phase current p idle e due = absurd (ground arith)
stages-tick_phase current p dragging e due = absurd (ground arith)
stages-tick_phase current p waiting e due = rw (← e) (ground arith)
stages-tick_phase current p rising_half e due = rw (← e) (ground arith)
stages-tick_phase current p rising_full e due = rw (← e) (ground arith)
stages-tick_phase current p holding e due = rw (← e) (ground arith)
stages-tick_phase current p falling e due = rw (← e) (ground arith)

-- A tick after the time of a phase brings the gesture one stage nearer to rest: a tap falls back
-- through waiting, a double press through holding.
pub stages-tick :
    (current : ℕ) (p : Pull)
    → is_due p.phase current p ≡ true
    → suc (stages (tick current p).phase) ≡ stages p.phase
unfolding tick
stages-tick current p due = stages-tick_phase current p p.phase refl due
