-- ===== src/Virtual/Kinematics/Ground.antt =====
-- Kinematics: on the ground and in the air.
use flightdeck_os.Base.{
  Bool, true, false, not, ◌≡◌, refl, sym, ap, ◌∙◌, Option, none, some, Returns, Returns->>=,
  Returns-if, Ends-eq, Returns-some, true_ne_false, ℕ, ◌<◌, ◌≤◌, inl, ◌⊎◌, if◌then◌else◌, arith,
}
use flightdeck_os.Base.Floats.{Float, Trig}
use flightdeck_os.Virtual.Kinematics.Landing.{Lands, advance-Lands}
use flightdeck_os.Virtual.Kinematics.{
  KinematicLimits, KinematicState, new, clamp, clamp_vs, advance_speed, rotate, target_vs,
  level_off, touch_down, fly, roll, advance_vertical, turn, move, dead_reckon, airborne, advance,
}

module _ {F : Type 0} (fl : Float F) (tr : Trig F) where
  -- What IEEE 754 says of the operations that the model's bounds are made of.
  pub record BoundsInOrder : Type 0 where
    pub literals : (a b : ℕ) → a ≤ b → fl.le (fl.lit a) (fl.lit b) ≡ true
    pub neg_le :
        (a b : F)
        → fl.le (fl.lit 0) a ≡ true
        → fl.le (fl.lit 0) b ≡ true
        → fl.le (fl.neg a) b ≡ true
    pub mul_pos :
        (a b : F)
        → fl.lt (fl.lit 0) a ≡ true
        → fl.lt (fl.lit 0) b ≡ true
        → fl.le (fl.lit 0) (fl.mul a b) ≡ true
    pub le_of_lt : (a b : F) → fl.lt a b ≡ true → fl.le a b ≡ true
    pub irreflexive : fl.lt (fl.lit 0) (fl.lit 0) ≡ false
    pub positive : (a : ℕ) → 0 < a → fl.lt (fl.lit 0) (fl.lit a) ≡ true

  pub record ArePositive (l : KinematicLimits F) : Type 0 where
    pub climb : fl.lt (fl.lit 0) l.max_climb_fpm ≡ true
    pub descent : fl.lt (fl.lit 0) l.max_descent_fpm ≡ true
    pub turns : fl.lt (fl.lit 0) l.max_turn_rate_deg_s ≡ true
    pub accel : fl.lt (fl.lit 0) l.max_accel_kt_s ≡ true
    pub decel : fl.lt (fl.lit 0) l.max_decel_kt_s ≡ true

  -- On the ground exactly when not lifted off, and then at the field's elevation.
  pub record IsGrounded (k : KinematicState F) : Type 0 where
    pub either : k.on_ground ≡ not k.lifted_off
    pub level : (k.altitude_ft ≡ k.ground_elevation_ft) ⊎ (k.on_ground ≡ false)

  pub new-IsGrounded :
      (lat lon ground_elevation_ft : F) (limits : KinematicLimits F)
      → IsGrounded (new fl tr lat lon ground_elevation_ft limits)
  unfolding new
  new-IsGrounded lat lon ground_elevation_ft limits = record { either = refl; level = inl refl }

  rotate-IsGrounded : (k : KinematicState F) → IsGrounded k → IsGrounded (rotate fl tr k)
  unfolding rotate
  rotate-IsGrounded k g = ground (arith, g)

  touch_down-IsGrounded :
      (k : KinematicState F)
      → k.on_ground ≡ false
      → k.lifted_off ≡ true
      → IsGrounded (touch_down fl tr k)
  unfolding touch_down
  touch_down-IsGrounded k a b = ground (arith, a, b)

  level_off_air :
      (prev : F) (k : KinematicState F)
      → ((level_off fl tr prev k).on_ground ≡ k.on_ground)
        × ((level_off fl tr prev k).lifted_off ≡ k.lifted_off)
        × ((level_off fl tr prev k).limits ≡ k.limits)
  unfolding level_off
  level_off_air prev k = (ground arith, ground arith, ground arith)

  touch_down_limits : (k : KinematicState F) → (touch_down fl tr k).limits ≡ k.limits
  unfolding touch_down
  touch_down_limits k = ground arith

  -- Grounded or not as it should be, with limits that no step changes.
  record Keeps (l : KinematicLimits F) (k : KinematicState F) : Type 0 where
    grounded : IsGrounded k
    limits : k.limits ≡ l

  abbrev Any : F → Type 0
  Any x = Unit {0}

  clamp-Returns : (x lo hi : F) → fl.le lo hi ≡ true → Returns Any (clamp fl tr x lo hi)
  unfolding clamp
  clamp-Returns x lo hi h = rw h tt

  module _ (b : BoundsInOrder) (l : KinematicLimits F) (pos : ArePositive l) (dt_s : F)
      (dt : fl.lt (fl.lit 0) dt_s ≡ true) where
    -- The bounds of a rate over the step.
    within_rate :
        (rate : F)
        → fl.lt (fl.lit 0) rate ≡ true
        → fl.le (fl.neg (fl.mul rate dt_s)) (fl.mul rate dt_s) ≡ true
    within_rate rate h = let m = b.mul_pos rate dt_s h dt in b.neg_le _ _ m m

    clamp_vs-Returns :
        (k : KinematicState F) (fpm : F) → k.limits ≡ l → Returns Any (clamp_vs fl tr k fpm)
    unfolding clamp_vs
    clamp_vs-Returns k fpm e = clamp-Returns fpm _ _ (
        ap (λ (m : KinematicLimits F). fl.le (fl.neg m.max_descent_fpm) m.max_climb_fpm) e
        ∙ b.neg_le _ _ (b.le_of_lt _ _ pos.descent) (b.le_of_lt _ _ pos.climb))

    target_vs-Returns :
        (k : KinematicState F) (t : Option F)
        → k.limits ≡ l
        → Returns Any (target_vs fl tr dt_s k t)
    unfolding target_vs
    target_vs-Returns k (some cmd) e = clamp_vs-Returns k cmd e
    target_vs-Returns k none e =
        Returns-if Any (fl.le (fl.abs (fl.sub k.target_altitude_ft k.altitude_ft)) (fl.lit 1))
          (some (fl.lit 0)) _ (λ _. tt) (λ _. clamp_vs-Returns k _ e)

    advance_speed-Keeps :
        (k : KinematicState F) → Keeps l k → Returns (Keeps l) (advance_speed fl tr dt_s k)
    unfolding advance_speed
    advance_speed-Keeps k g =
        Returns->>= Any (Keeps l) (clamp fl tr _ _ _) _ (clamp-Returns _ _ _ rate) (λ d _.
          Returns->>= Any (Keeps l) (clamp fl tr _ _ _) _
            (clamp-Returns _ _ _ (b.literals 0 520 (omega arith)))
            (λ ias _. record {
              grounded = record { either = g.grounded.either; level = g.grounded.level };
              limits = g.limits;
            }))
      where
        up :
            fl.le
              (fl.neg (fl.mul k.limits.max_accel_kt_s dt_s))
              (fl.mul k.limits.max_accel_kt_s dt_s)
            ≡ true
        up =
            within_rate _ (
              ap (λ (m : KinematicLimits F). fl.lt (fl.lit 0) m.max_accel_kt_s) g.limits
              ∙ pos.accel)

        down :
            fl.le
              (fl.neg (fl.mul k.limits.max_decel_kt_s dt_s))
              (fl.mul k.limits.max_decel_kt_s dt_s)
            ≡ true
        down =
            within_rate _ (
              ap (λ (m : KinematicLimits F). fl.lt (fl.lit 0) m.max_decel_kt_s) g.limits
              ∙ pos.decel)

        bound : Bool → F
        bound c =
            if c then fl.mul k.limits.max_accel_kt_s dt_s else fl.mul k.limits.max_decel_kt_s dt_s

        either_way : (c : Bool) → fl.le (fl.neg (bound c)) (bound c) ≡ true
        either_way true = up
        either_way false = down

        rate :
            fl.le
              (fl.neg (bound (fl.le (fl.lit 0) (fl.sub k.target_speed_kt k.ias_kt))))
              (bound (fl.le (fl.lit 0) (fl.sub k.target_speed_kt k.ias_kt)))
            ≡ true
        rate = either_way (fl.le (fl.lit 0) (fl.sub k.target_speed_kt k.ias_kt))

    rotate-Keeps : (k : KinematicState F) → Keeps l k → Keeps l (rotate fl tr k)
    rotate-Keeps k g = record {
      grounded = rotate-IsGrounded k g.grounded;
      limits = unfold rotate in ground (arith, g.limits);
    }

    fly-Keeps :
        (k : KinematicState F)
        → k.on_ground ≡ false
        → k.lifted_off ≡ true
        → k.limits ≡ l
        → Returns (Keeps l) (fly fl tr dt_s k)
    unfolding fly
    fly-Keeps k air off e =
        Returns->>= Any (Keeps l) (target_vs fl tr dt_s k k.target_vertical_speed_fpm) _
          (target_vs-Returns k _ e)
          (λ vs_target _.
            Returns->>= Any (Keeps l) (clamp fl tr _ _ _) _
              (clamp-Returns _ _ _ (within_rate _ (b.positive 1500 (omega arith))))
              (λ change _.
                let climbed = record k {
                  vertical_speed_fpm = fl.add k.vertical_speed_fpm change;
                  altitude_ft =
                      fl.add k.altitude_ft
                        (fl.mul (fl.div (fl.add k.vertical_speed_fpm change) (fl.lit 60)) dt_s);
                } in
                let (same, also, lim) = level_off_air k.altitude_ft climbed in
                let levelled = level_off fl tr k.altitude_ft climbed in
                record {
                  grounded = touch_down-IsGrounded levelled (same ∙ air) (also ∙ off);
                  limits = touch_down_limits levelled ∙ lim ∙ e;
                }))

    advance_vertical-Keeps :
        (k : KinematicState F) → Keeps l k → Returns (Keeps l) (advance_vertical fl tr dt_s k)
    unfolding advance_vertical
    advance_vertical-Keeps k g =
        Returns-if (Keeps l) k.on_ground (some (roll fl tr k)) (fly fl tr dt_s k) (λ y. rolled)
          (λ n. fly-Keeps k n (ground (arith, n, g.grounded.either)) g.limits)
      where
        rolled : Keeps l (roll fl tr k)
        rolled =
            unfold roll in
            record {
              grounded = record { either = g.grounded.either; level = inl refl };
              limits = g.limits;
            }

    turn-Keeps : (k : KinematicState F) → Keeps l k → Returns (Keeps l) (turn fl tr dt_s k)
    unfolding turn
    turn-Keeps k g =
        Returns->>= Any (Keeps l) (clamp fl tr _ _ _) _
          (clamp-Returns _ _ _ (
            within_rate _ (
              ap (λ (m : KinematicLimits F). fl.lt (fl.lit 0) m.max_turn_rate_deg_s) g.limits
              ∙ pos.turns)))
          (λ by _. record {
            grounded = record { either = g.grounded.either; level = g.grounded.level };
            limits = g.limits;
          })

    move-Keeps : (k : KinematicState F) → Keeps l k → Returns (Keeps l) (move fl tr dt_s k)
    unfolding move dead_reckon
    move-Keeps k g =
        Returns->>= Anywhere (Keeps l)
          (dead_reckon fl tr k.latitude_deg k.longitude_deg k.heading_deg
            (fl.div (fl.mul k.groundspeed_kt dt_s) (fl.lit 3600)))
          _
          (Returns->>= Any Anywhere (clamp fl tr _ (fl.neg (fl.lit 90)) (fl.lit 90)) _
            (clamp-Returns _ (fl.neg (fl.lit 90)) (fl.lit 90)
              (b.neg_le _ _ (b.literals 0 90 (omega arith)) (b.literals 0 90 (omega arith))))
            (λ lat _. tt))
          (λ p _. record {
            grounded = record { either = g.grounded.either; level = g.grounded.level };
            limits = g.limits;
          })
      where
        Anywhere : F × F → Type 0
        Anywhere p = Unit {0}

    airborne-Keeps :
        (step : KinematicState F → Option (KinematicState F)) (k : KinematicState F)
        → ((k' : KinematicState F) → Keeps l k' → Returns (Keeps l) (step k'))
        → Keeps l k
        → Returns (Keeps l) (airborne fl tr step k)
    airborne-Keeps step k keep g =
        Returns-if (Keeps l) (not k.on_ground) (step k) (some k) (λ _. keep k g) (λ _. g)

    advance-Keeps : (k : KinematicState F) → Keeps l k → Returns (Keeps l) (advance fl tr dt_s k)
    unfolding advance
    advance-Keeps k g =
        Returns-if (Keeps l) (fl.lt (fl.lit 0) dt_s) _ none
          (λ _.
            Returns->>= (Keeps l) (Keeps l) (advance_speed fl tr dt_s k) _ (advance_speed-Keeps k g)
              (λ faster f.
                Returns->>= (Keeps l) (Keeps l) (advance_vertical fl tr dt_s (rotate fl tr faster))
                  _ (advance_vertical-Keeps (rotate fl tr faster) (rotate-Keeps faster f))
                  (λ vertical v.
                    let still = record vertical { groundspeed_kt = vertical.ias_kt } in
                    Returns->>= (Keeps l) (Keeps l) (airborne fl tr (turn fl tr dt_s) still) _
                      (airborne-Keeps (turn fl tr dt_s) still turn-Keeps (record {
                        grounded = record { either = v.grounded.either; level = v.grounded.level };
                        limits = v.limits;
                      }))
                      (λ turned t. airborne-Keeps (move fl tr dt_s) turned move-Keeps t))))
          (λ n. absurd (true_ne_false (sym dt ∙ n)))

  -- With positive limits and a positive step, no assertion of a step fails, and it leaves the model on
  -- the ground exactly when it has not lifted off, and on the ground at the field's elevation. A step
  -- from the air ends on the ground only in a descent whose altitude is at or below the field, and one
  -- that ends in the air is not descending there.
  pub advance-IsGrounded :
      (k : KinematicState F) (dt_s : F)
      → BoundsInOrder
      → ArePositive k.limits
      → fl.lt (fl.lit 0) dt_s ≡ true
      → IsGrounded k
      → (k' : KinematicState F) × (advance fl tr dt_s k ≡ some k')
        × IsGrounded k'
        × Lands fl tr dt_s k k'
  advance-IsGrounded k dt_s b pos dt g =
      let (k', e, keeps) =
        Returns-some (Keeps k.limits) (advance fl tr dt_s k)
          (advance-Keeps b k.limits pos dt_s dt k (record { grounded = g; limits = refl })) in
      (
        k',
        e,
        keeps.grounded,
        Ends-eq (Lands fl tr dt_s k) (advance-Lands fl tr dt_s b.irreflexive k g.either) e,
      )
