-- ===== src/Runtime/Executor/Induction.antt =====
-- crates/fd-runtime/src/executor.rs, `advance`: the rule for facts about its two loops.
use mathlib.Core.Path.{subst}
use flightdeck_os.Base.{
  ℕ, zero, suc, ◌≡◌, inl, inr, false, not, ◌&&◌, some, List, [], ◌∷◌, is_empty, Bool-cases,
  >>=-eq-some, eq_of_some,
}
use flightdeck_os.Core.Actions.{ActionCatalog}
use flightdeck_os.Core.Adapter.{SimulatorAdapter}
use flightdeck_os.Core.Telemetry.{TelemetrySnapshot}
use flightdeck_os.Runtime.Executor.{ActionRecord}
use flightdeck_os.Runtime.Executor.Advance.{Pass, joined, advance_record, pass, rounds}

module _ {F S : Type 0} (ad : SimulatorAdapter F S) (catalog : ActionCatalog F) (deadline : ℕ)
    (snapshot : TelemetrySnapshot F) (R : List (ActionRecord F) → Pass F S → Type 0)
    (none_pending : (s : S)
      → R [] (record { adapter = s; kept = []; completed = []; events = []; progressed = false }))
    (one_more : (rec : ActionRecord F) (recs : List (ActionRecord F)) (s : S) (one rest : Pass F S)
      → advance_record ad catalog deadline snapshot rec s ≡ some one
      → R recs rest
      → R (rec ∷ recs) (joined one rest)) where
  pub pass_induction :
      (recs : List (ActionRecord F)) (s : S) (p : Pass F S)
      → pass ad catalog deadline snapshot recs s ≡ some p
      → R recs p
  unfolding pass
  pass_induction [] s p e = subst (R []) (eq_of_some e) (none_pending s)
  pass_induction (rec ∷ recs) s p e =
      let (one, e₁, e₂) = >>=-eq-some (advance_record ad catalog deadline snapshot rec s) _ e in
      let (rest, e₃, e₄) = >>=-eq-some (pass ad catalog deadline snapshot recs one.adapter) _ e₂ in
      subst (R (rec ∷ recs)) (eq_of_some e₄)
        (one_more rec recs s one rest e₁ (pass_induction recs one.adapter rest e₃))

  module _
      (another_round : (recs : List (ActionRecord F)) (now later : Pass F S)
        → R recs now
        → R now.kept later
        → R recs (record (joined now later) { kept = later.kept })) where
    pub rounds_induction :
        (fuel : ℕ) (recs : List (ActionRecord F)) (s : S) (p : Pass F S)
        → rounds ad catalog deadline snapshot fuel recs s ≡ some p
        → R recs p
    unfolding rounds
    rounds_induction zero recs s p e = cc
    rounds_induction (suc fuel) recs s p e =
        let (now, e₁, e₂) = >>=-eq-some (pass ad catalog deadline snapshot recs s) _ e in
        let first = pass_induction recs s now e₁ in
        elim (Bool-cases (now.progressed && not (is_empty now.kept))) [
          | inr stop ↦ subst (R recs) (eq_of_some (rw stop at e₂)) first
          | inl go ↦
              let (later, e₃, e₄) =
                >>=-eq-some (rounds ad catalog deadline snapshot fuel now.kept now.adapter) _
                  (rw go at e₂) in
              subst (R recs) (eq_of_some e₄) (
                another_round recs now later first
                  (rounds_induction fuel now.kept now.adapter later e₃))
        ]
