-- ===== src/PayloadGen/Cursors/Drain.antt =====
-- The cursors of clicks, stepped whenever they are due.
use vpoiskaxroditeley.Prelude.{
  ℕ, zero, suc, ◌≡◌, refl, ap, subst, Bool, true, false, not, ◌&&◌, Option, none, some, List, [],
  ◌∷◌, ◌++◌, ltb, arith, if◌then◌else◌, map,
}
use vpoiskaxroditeley.PayloadGen.Cursors.{
  RawEvent, InputCursor, Draws, kind_press, kind_release, button_left, button_right,
}
use vpoiskaxroditeley.PayloadGen.Cursors.Click
use vpoiskaxroditeley.PayloadGen.Cursors.Click.{
  ClickCursor, ClickPlan, Stage, press_stage, hold_stage, release_stage, done_stage, is_done,
}

unfoldable pub drain : {C : Type 0} → InputCursor C → ℕ → C → List RawEvent × C
drain cursor zero c = ([], c)
drain cursor (suc n) c =
    let (ev, c) = cursor.step (cursor.next_due_us c) c in
    let (evs, c) = drain cursor n c in (elim ev [ none ↦ evs | some e ↦ e ∷ evs ], c)

abbrev pub marks : List RawEvent → List (ℕ × ℕ)
marks evs = map (λ e. (e.kind, e.arg)) evs

not_early : (t : ℕ) → ltb t t ≡ false
not_early t = ground arith

-- What a click does from a cursor on, in so many steps.
abbrev Finishes : ℕ → List (ℕ × ℕ) → ClickCursor → Type 0
Finishes n evs c =
    (marks (drain Click.cursor n c).0 ≡ evs) × (is_done (drain Click.cursor n c).1.stage ≡ true)

-- a stage, with the plan and whether the second click is under way
abbrev Stands : Stage → ClickPlan → Bool → ClickCursor → Type 0
Stands stage plan second c = (c.stage ≡ stage) × (c.plan ≡ plan) × (c.second_pending ≡ second)

abbrev marked : Option RawEvent → List (ℕ × ℕ) → List (ℕ × ℕ)
marked none evs = evs
marked (some e) evs = (e.kind, e.arg) ∷ evs

step-Finishes :
    (n : ℕ) (evs : List (ℕ × ℕ)) (ev : Option RawEvent) (c : ClickCursor)
    → (Click.step c.next_due_us c).0 ≡ ev
    → Finishes n evs (Click.step c.next_due_us c).1
    → Finishes (suc n) (marked ev evs) c
unfolding drain Click.cursor
step-Finishes n evs none c h (es, done) = (rw (drain, h) es, done)
step-Finishes n evs (some e) c h (es, done) =
    (rw (drain, h) (ap (λ l. (e.kind, e.arg) ∷ l) es), done)

module _ (plan : ClickPlan) (second : Bool) (n : ℕ) (evs : List (ℕ × ℕ)) (c : ClickCursor) where
  press_step :
      Stands press_stage plan second c
      → ((c' : ClickCursor) → Stands hold_stage plan second c' → Finishes n evs c')
      → Finishes (suc n) ((kind_press, plan.button) ∷ evs) c
  unfolding Click.step
  press_step (s, p, q) next =
      subst (λ b. Finishes (suc n) ((kind_press, b.button) ∷ evs) c) p
        (step-Finishes n evs (some (Click.event_of kind_press c)) c
          (rw (Click.step, s, not_early c.next_due_us) refl)
          (next (Click.step c.next_due_us c).1
            (rw (Click.step, s, not_early c.next_due_us) (refl, p, q))))

  hold_step :
      Stands hold_stage plan second c
      → ((c' : ClickCursor) → Stands release_stage plan second c' → Finishes n evs c')
      → Finishes (suc n) ((kind_release, plan.button) ∷ evs) c
  unfolding Click.step Click.nudge
  hold_step (s, p, q) next =
      let c' = (Click.step c.next_due_us c).1 in
      let same : c'.plan ≡ plan = rw (Click.step, s, not_early c.next_due_us) p in
      subst (λ (b : ClickPlan). Finishes (suc n) ((kind_release, b.button) ∷ evs) c) same
        (step-Finishes n evs (some (Click.event_of kind_release c')) c
          (rw (Click.step, s, not_early c.next_due_us) refl)
          (next c' (rw (Click.step, s, not_early c.next_due_us) (refl, p, q))))

  again_step :
      Stands release_stage plan second c
      → (plan.is_double && not second) ≡ true
      → ((c' : ClickCursor) → Stands press_stage plan true c' → Finishes n evs c')
      → Finishes (suc n) evs c
  unfolding Click.step
  again_step (s, p, q) again next =
      let a : (c.plan.is_double && not c.second_pending) ≡ true = rw (p, q) again in
      step-Finishes n evs none c (rw (Click.step, s, not_early c.next_due_us, a) refl) (
        next (Click.step c.next_due_us c).1
          (rw (Click.step, s, not_early c.next_due_us, a) (refl, p, refl)))

last_step :
    (plan : ClickPlan) (second : Bool) (c : ClickCursor)
    → Stands release_stage plan second c
    → (plan.is_double && not second) ≡ false
    → Finishes 1 [] c
unfolding Click.step drain
last_step plan second c (s, p, q) last =
    let a : (c.plan.is_double && not c.second_pending) ≡ false = rw (p, q) last in
    step-Finishes 0 [] none c (rw (Click.step, s, not_early c.next_due_us, a) refl)
      (refl, rw (Click.step, s, not_early c.next_due_us, a) refl)

single :
    (plan : ClickPlan) (second : Bool) (c : ClickCursor)
    → Stands press_stage plan second c
    → (plan.is_double && not second) ≡ false
    → Finishes 3 ((kind_press, plan.button) ∷ (kind_release, plan.button) ∷ []) c
single plan second c s last =
    press_step plan second 2 ((kind_release, plan.button) ∷ []) c s
      (λ c' s'. hold_step plan second 1 [] c' s' (λ c'' s''. last_step plan second c'' s'' last))

-- Stepped whenever it is due, a click ends after three steps, or six if it is a double click, having
-- pressed and released its button, or done so twice; whatever the generator gives.
pub drain-Click :
    (right_chance double_chance : Bool) (rng : Draws) (x y now_us : ℕ)
    → let c = Click.new right_chance double_chance rng x y now_us in
      let button = if right_chance then button_right else button_left in
      let pair : List (ℕ × ℕ) = (kind_press, button) ∷ (kind_release, button) ∷ [] in
      let double = not right_chance && double_chance in
      let end = drain Click.cursor (if double then 6 else 3) c in
      (marks end.0 ≡ (if double then pair ++ pair else pair)) × (is_done end.1.stage ≡ true)
unfolding Click.new Click.plan_of
drain-Click true double_chance rng x y now_us =
    single (Click.plan_of true double_chance) false (Click.new true double_chance rng x y now_us)
      (refl, refl, refl) refl
drain-Click false false rng x y now_us =
    single (Click.plan_of false false) false (Click.new false false rng x y now_us)
      (refl, refl, refl) refl
drain-Click false true rng x y now_us =
    let plan = Click.plan_of false true in
    press_step plan false 5 _ (Click.new false true rng x y now_us) (refl, refl, refl)
      λ c s.
        hold_step plan false 4 _ c s
          λ c s. again_step plan false 3 _ c s refl λ c s. single plan true c s refl
