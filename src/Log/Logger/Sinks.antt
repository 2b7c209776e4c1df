-- ===== src/Log/Logger/Sinks.antt =====
-- The sinks of a logger of src/log.c.
use libcopper.Base.{
  ℕ, ◌≤◌, ◌<◌, ◌≡◌, refl, ap, arith, inl, inr, true, false, Bool-cases, Option, none, some,
}
use libcopper.Base.{List, [], ◌∷◌, ◌++◌, length, length-append, leb, ◌==◌}
use libcopper.Error.{CprError}
use libcopper.Log.Logger.{CprLogSink, CprLogger, max_sinks, without, log_add_sink, log_remove_sink}

module _ {W : Type 0} where
  -- None of the sinks has this address.
  abbrev pub Missing : ℕ → List (CprLogSink W) → Type 0
  Missing at [] = Unit
  Missing at (sink ∷ sinks) = ((sink.address == at) ≡ false) × Missing at sinks

  without-append :
      (sinks : List (CprLogSink W)) (sink : CprLogSink W)
      → Missing sink.address sinks
      → without sink.address (sinks ++ (sink ∷ [])) ≡ sinks
  without-append [] sink h =
      let same : (sink.address == sink.address) ≡ true = ground arith in rw same refl
  without-append (first ∷ sinks) sink h =
      rw (h.0) (ap (λ t. first ∷ t) (without-append sinks sink h.1))

  -- To a logger of fewer than 8 sinks, of which none has the address of the new one,
  -- cpr_log_add_sink returns true, leaves the error state and the rest of the logger as they were
  -- and puts the sink behind the others, and cpr_log_remove_sink of this address then gives the
  -- logger as it was.
  pub remove-add :
      (logger : CprLogger W) (sink : CprLogSink W) (e : CprError)
      → length logger.sinks < max_sinks
      → Missing sink.address logger.sinks
      → (log_add_sink (some logger) (some sink) e
          ≡ (true, some (record logger { sinks = logger.sinks ++ (sink ∷ []) }), e))
        × (log_remove_sink (log_add_sink (some logger) (some sink) e).1 (some sink.address)
            ≡ some logger)
  unfolding log_add_sink log_remove_sink
  remove-add logger sink e room h =
      let fits : leb max_sinks (length logger.sinks) ≡ false = ground arith in
      let put : List (CprLogSink W) → Option (CprLogger W) =
        λ sinks. some (record logger { sinks = sinks }) in
      rw fits (refl, ap put (without-append logger.sinks sink h))

  without-length : (at : ℕ) (sinks : List (CprLogSink W)) → length (without at sinks) ≤ length sinks
  without-length at [] = omega arith
  without-length at (sink ∷ sinks) = elim (Bool-cases (sink.address == at)) [
    | inl same ↦ rw same (omega arith)
    | inr other ↦ rw other (omega (arith, without-length at sinks))
  ]

  -- A logger has no more sinks than its array has entries.
  abbrev pub Limited : Option (CprLogger W) → Type 0
  Limited none = Unit
  Limited (some logger) = length logger.sinks ≤ max_sinks

  added-Limited :
      (logger : CprLogger W) (sink : CprLogSink W) (e : CprError)
      → length logger.sinks ≤ max_sinks
      → Limited (log_add_sink (some logger) (some sink) e).1
  unfolding log_add_sink
  added-Limited logger sink e h = elim (Bool-cases (leb max_sinks (length logger.sinks))) [
    | inl full ↦ rw full h
    | inr room ↦
        let fewer : length logger.sinks < max_sinks = ground arith in
        rw room (omega (arith, fewer, length-append logger.sinks (sink ∷ [])))
  ]

  -- A logger that has no more than 8 sinks has no more than 8 after cpr_log_add_sink and after
  -- cpr_log_remove_sink, whatever pointers they are given.
  pub sinks-Limited :
      (logger : Option (CprLogger W)) (sink : Option (CprLogSink W)) (at : Option ℕ) (e : CprError)
      → Limited logger
      → Limited (log_add_sink logger sink e).1 × Limited (log_remove_sink logger at)
  unfolding log_add_sink log_remove_sink
  sinks-Limited none sink at e h = (tt, tt)
  sinks-Limited (some logger) none none e h = (h, h)
  sinks-Limited (some logger) none (some a) e h =
      (h, omega (arith, h, without-length a logger.sinks))
  sinks-Limited (some logger) (some sink) none e h = (added-Limited logger sink e h, h)
  sinks-Limited (some logger) (some sink) (some a) e h =
      (added-Limited logger sink e h, omega (arith, h, without-length a logger.sinks))
