-- ===== src/Tests/Pull.antt =====
-- Runs of the pull gesture.
use tele_bezel.Base.{suc, ◌≡◌, refl, List, [], ◌∷◌}
use tele_bezel.Pull.{
  Pull, rising_half, init, press, tick, press_phase, press_free, animate, tick_phase, tick_moving,
  settle, settle_phase, fire, eased, smooth,
}
use tele_bezel.Pull.Levels.{IsBounded, Event, pressed, ticked, after, after-IsBounded, apply}
use tele_bezel.Pull.Phases.{triggers, triggers-apply, stages, stages-tick}

-- Two presses 200 milliseconds apart, and the ticks to the top.
abbrev double_press : List Event
double_press = ticked 400 ∷ pressed 250 ∷ ticked 220 ∷ pressed 50 ∷ []

double_press-triggers : triggers (after double_press).log ≡ 1
unfolding init press tick press_phase press_free animate tick_phase tick_moving settle settle_phase
    fire eased smooth
double_press-triggers = refl

after-IsBounded_example : IsBounded (after double_press)
after-IsBounded_example = after-IsBounded double_press

abbrev rising : Pull
rising = record {
  phase = rising_half;
  level = 0;
  from = 0;
  to = 500;
  started = 50;
  duration = 150;
  armed_until = 500;
  log = [];
}

triggers-apply_example : triggers (apply (ticked 300) rising).log ≡ 0
triggers-apply_example = triggers-apply (ticked 300) rising

stages-tick_example : suc (stages (tick 300 rising).phase) ≡ 3
stages-tick_example = stages-tick 300 rising refl
