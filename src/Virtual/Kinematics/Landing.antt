-- ===== src/Virtual/Kinematics/Landing.antt =====
-- Kinematics: when a step touches down.
use mathlib.Core.Path.{subst}
use flightdeck_os.Base.{
  true, false, not, ◌&&◌, ◌≡◌, refl, sym, ap, ◌∙◌, Option, none, some, ◌>>=◌, Ends, Ends-if,
  Ends->>=, Ends->>=_all, ◌⊎◌, inl, inr, Bool-cases, true_ne_false, if_true, if_false, arith,
}
use flightdeck_os.Base.Floats.{Float, Trig}
use flightdeck_os.Virtual.Kinematics.{
  KinematicState, clamp, advance_speed, rotate, target_vs, level_off, touch_down, fly, roll,
  advance_vertical, turn, move, dead_reckon, airborne, advance,
}

module _ {F : Type 0} (fl : Float F) (tr : Trig F) (dt_s : F) where
  -- The altitude that a vertical speed leads to in the step.
  abbrev pub reached : KinematicState F → F → F
  reached k vs = fl.add k.altitude_ft (fl.mul (fl.div vs (fl.lit 60)) dt_s)

  -- A step ends on the ground only if it began there, or descends to the field's elevation or below;
  -- and one that ends in the air does not descend at or below that elevation.
  pub record Lands (k k' : KinematicState F) : Type 0 where
    pub landed :
        k'.on_ground ≡ true
        → (k.on_ground ≡ true)
          ⊎ ((fl.lt k'.vertical_speed_fpm (fl.lit 0) ≡ true)
              × (fl.le (reached k k'.vertical_speed_fpm) k.ground_elevation_ft ≡ true))
    pub aloft :
        k'.on_ground ≡ false
        → (fl.le k'.altitude_ft k'.ground_elevation_ft && fl.lt k'.vertical_speed_fpm (fl.lit 0))
          ≡ false

  -- As high above the same field, and as fast up or down.
  record Level (k k' : KinematicState F) : Type 0 where
    altitude : k'.altitude_ft ≡ k.altitude_ft
    field : k'.ground_elevation_ft ≡ k.ground_elevation_ft
    contact : k'.on_ground ≡ k.on_ground
    lifted : k'.lifted_off ≡ k.lifted_off
    vertical : k'.vertical_speed_fpm ≡ k.vertical_speed_fpm

  advance_speed-Level : (k : KinematicState F) → Ends (Level k) (advance_speed fl tr dt_s k)
  unfolding advance_speed
  advance_speed-Level k =
      Ends->>=_all (Level k) (clamp fl tr _ _ _)
        (λ d. clamp fl tr (fl.add k.ias_kt d) (fl.lit 0) (fl.lit 520) >>= faster)
        λ d. Ends->>=_all (Level k) (clamp fl tr _ _ _) faster λ ias. record {
          altitude = refl;
          field = refl;
          contact = refl;
          lifted = refl;
          vertical = refl;
        }
    where
      faster : F → Option (KinematicState F)
      faster ias = some (record k { ias_kt = ias })

  turn-Level : (k : KinematicState F) → Ends (Level k) (turn fl tr dt_s k)
  unfolding turn
  turn-Level k =
      Ends->>=_all (Level k) (clamp fl tr _ _ _)
        (λ by.
          some (record k { heading_deg = tr.rem_euclid (fl.add k.heading_deg by) (fl.lit 360) }))
        λ by. record {
          altitude = refl;
          field = refl;
          contact = refl;
          lifted = refl;
          vertical = refl;
        }

  move-Level : (k : KinematicState F) → Ends (Level k) (move fl tr dt_s k)
  unfolding move
  move-Level k =
      Ends->>=_all (Level k) (dead_reckon fl tr _ _ _ _)
        (λ (p : F × F). some (record k { latitude_deg = p.0; longitude_deg = p.1 }))
        λ p. record {
          altitude = refl;
          field = refl;
          contact = refl;
          lifted = refl;
          vertical = refl;
        }

  module _ (zero_lem : fl.lt (fl.lit 0) (fl.lit 0) ≡ false) where
    touch_down-Lands :
        (k climbed : KinematicState F)
        → climbed.on_ground ≡ false
        → climbed.altitude_ft ≡ reached k climbed.vertical_speed_fpm
        → climbed.ground_elevation_ft ≡ k.ground_elevation_ft
        → Lands k (touch_down fl tr (level_off fl tr k.altitude_ft climbed))
    unfolding touch_down level_off
    touch_down-Lands k climbed air high field = record {
      landed = λ e. ground (arith, e, air, high, field, zero_lem);
      aloft = λ e. ground (arith, e, air);
    }

    fly-Lands : (k : KinematicState F) → k.on_ground ≡ false → Ends (Lands k) (fly fl tr dt_s k)
    unfolding fly
    fly-Lands k air =
        Ends->>=_all (Lands k) (target_vs fl tr dt_s k k.target_vertical_speed_fpm)
          (λ vs_target. rate vs_target >>= after)
          λ vs_target.
            Ends->>=_all (Lands k) (rate vs_target) after
              λ change. touch_down-Lands k (climbed change) air refl refl
      where
        rate : F → Option F
        rate vs_target =
            clamp fl tr (fl.sub vs_target k.vertical_speed_fpm) (fl.neg (fl.mul (fl.lit 1500) dt_s))
              (fl.mul (fl.lit 1500) dt_s)

        climbed : F → KinematicState F
        climbed change = record k {
          vertical_speed_fpm = fl.add k.vertical_speed_fpm change;
          altitude_ft = reached k (fl.add k.vertical_speed_fpm change);
        }

        after : F → Option (KinematicState F)
        after change = some (touch_down fl tr (level_off fl tr k.altitude_ft (climbed change)))

    advance_vertical-Lands : (k : KinematicState F) → Ends (Lands k) (advance_vertical fl tr dt_s k)
    unfolding advance_vertical
    advance_vertical-Lands k = elim (Bool-cases k.on_ground) [
      | inl y ↦ subst (Ends (Lands k)) (sym (if_true _ _ y)) (rolled y)
      | inr n ↦ subst (Ends (Lands k)) (sym (if_false _ _ n)) (fly-Lands k n)
    ]
      where
        rolled : k.on_ground ≡ true → Lands k (roll fl tr k)
        rolled y =
            unfold roll in
            record { landed = λ e. inl y; aloft = λ e. absurd (true_ne_false (sym y ∙ e)) }

    Lands-of_Level :
        (k r k' : KinematicState F) → (k.on_ground ≡ false → Level k r) → Lands r k' → Lands k k'
    Lands-of_Level k r k' level l = elim (Bool-cases k.on_ground) [
      | inl y ↦ record { landed = λ e. inl y; aloft = l.aloft }
      | inr n ↦
          let v = level n in
          record {
            landed = λ e. ground (arith, l.landed e, v.altitude, v.field, v.contact, n);
            aloft = l.aloft;
          }
    ]

    Lands-Level : (k k' k'' : KinematicState F) → Lands k k' → Level k' k'' → Lands k k''
    Lands-Level k k' k'' l v = record {
      landed = λ e. ground (arith, l.landed, v.contact, v.vertical, e);
      aloft = λ e. ground (arith, l.aloft, v.contact, v.vertical, v.altitude, v.field, e);
    }

    airborne-Lands :
        (step : KinematicState F → Option (KinematicState F)) (k k' : KinematicState F)
        → Ends (Level k') (step k')
        → Lands k k'
        → Ends (Lands k) (airborne fl tr step k')
    airborne-Lands step k k' h l =
        Ends-if (Lands k) (not k'.on_ground) (step k') (some k')
          (Ends-mono (Lands-Level k k') (step k') h) l
      where
        Ends-mono :
            ((x : KinematicState F) → Lands k k' → Level k' x → Lands k x)
            → (o : Option (KinematicState F)) → Ends (Level k') o
            → Ends (Lands k) o
        Ends-mono f none h = tt
        Ends-mono f (some x) h = f x l h

    rotate_lem : (k : KinematicState F) → k.lifted_off ≡ true → rotate fl tr k ≡ k
    unfolding rotate
    rotate_lem k h = if_false _ _ (ap not h)

    rotate-Level :
        (k faster : KinematicState F)
        → k.on_ground ≡ not k.lifted_off
        → Level k faster
        → k.on_ground ≡ false
        → Level k (rotate fl tr faster)
    rotate-Level k faster either f n =
        subst (Level k) (sym (rotate_lem faster (ground (arith, either, f.lifted, n)))) f

    pub advance-Lands :
        (k : KinematicState F)
        → k.on_ground ≡ not k.lifted_off
        → Ends (Lands k) (advance fl tr dt_s k)
    unfolding advance
    advance-Lands k either =
        Ends-if (Lands k) (fl.lt (fl.lit 0) dt_s) _ none
          (Ends->>= (Level k) (Lands k) (advance_speed fl tr dt_s k) _ (advance_speed-Level k)
            λ faster f.
              Ends->>= (Lands (rotate fl tr faster)) (Lands k)
                (advance_vertical fl tr dt_s (rotate fl tr faster)) _
                (advance_vertical-Lands (rotate fl tr faster))
                λ vertical v.
                  let still = record vertical { groundspeed_kt = vertical.ias_kt } in
                  let began =
                    Lands-of_Level k (rotate fl tr faster) still (rotate-Level k faster either f)
                      (record { landed = v.landed; aloft = v.aloft }) in
                  Ends->>= (Lands k) (Lands k) (airborne fl tr (turn fl tr dt_s) still) _
                    (airborne-Lands (turn fl tr dt_s) k still (turn-Level still) began)
                    λ turned t. airborne-Lands (move fl tr dt_s) k turned (move-Level turned) t)
          tt
