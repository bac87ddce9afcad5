-- ===== src/Agent/Tools/Retries.antt =====
-- tools.py: the retries of RuntimeToolExecutor.run.
use aegora.Prelude.{
  ℕ, zero, suc, ◌+◌, ◌≤◌, ◌≡◌, inl, inr, none, some, arith, ap, String, Option-cases, ◌<◌,
}
use aegora.Prelude.Dict.{Dict}
use aegora.Prelude.Result.{Result, ok, err, Result-cases}
use aegora.Agent.Tools.{ToolSpec, ToolLifecycleHooks, tool_error, fire, try_once, attempts}

paired : {A B : Type 0} (p : A × B) {a : A} → p.0 ≡ a → p ≡ (a, p.1)
paired p e = ap (λ a. (a, p.1)) e

-- The attempts from one number up to another all failed, and the hooks on errors returned.
pub data Failed {V J W : Type 0} (hooks : ToolLifecycleHooks J W) (spec : ToolSpec V J W)
    (args : Dict V) : ℕ → ℕ → W → W → Type 0 where
  none_yet : {n : ℕ} {w : W} → Failed hooks spec args n n w w
  again :
      {n m : ℕ} {w tried before later : W} {message : String}
      → try_once hooks spec args n w ≡ (err message, tried)
      → fire hooks.on_error (tool_error spec.name n message) tried ≡ (none, before)
      → Failed hooks spec args (suc n) m before later
      → Failed hooks spec args n m w later

module _ {V J W : Type 0} (hooks : ToolLifecycleHooks J W) (spec : ToolSpec V J W)
    (args : Dict V) where
  -- How a row of attempts ends: by the first that succeeds, by a hook that raises, or when all failed.
  pub data RunEnds (first left : ℕ) (w : W) : Result (J × ℕ) × W → Type 0 where
    succeeded :
        {n : ℕ} {before after : W} {output : J}
        → first ≤ n
        → n < first + left
        → Failed hooks spec args first n w before
        → try_once hooks spec args n before ≡ (ok output, after)
        → RunEnds first left w (ok (output, n), after)
    hook_raised :
        {n : ℕ} {before tried after : W} {message broke : String}
        → first ≤ n
        → n < first + left
        → Failed hooks spec args first n w before
        → try_once hooks spec args n before ≡ (err message, tried)
        → fire hooks.on_error (tool_error spec.name n message) tried ≡ (some broke, after)
        → RunEnds first left w (err broke, after)
    gave_up :
        {last : ℕ} {after : W}
        → last ≡ first + left
        → Failed hooks spec args first last w after
        → RunEnds first left w (err "tool failed", after)

  -- One more failure before it.
  RunEnds-again :
      {first left : ℕ} {w tried before : W} {message : String} {end : Result (J × ℕ) × W}
      → try_once hooks spec args first w ≡ (err message, tried)
      → fire hooks.on_error (tool_error spec.name first message) tried ≡ (none, before)
      → RunEnds (suc first) left before end
      → RunEnds first (suc left) w end
  RunEnds-again t f (succeeded low high failed done) =
      succeeded (omega arith) (omega arith) (again t f failed) done
  RunEnds-again t f (hook_raised low high failed tried broke) =
      hook_raised (omega arith) (omega arith) (again t f failed) tried broke
  RunEnds-again t f (gave_up same failed) = gave_up (omega arith) (again t f failed)

  -- The loop tries the attempts in their order, each after the failure of the one before it, at most
  -- as many as are left, and ends with the first that succeeds, unless a hook on an error raises; it
  -- reports a failure of the tool only when all of them failed.
  pub attempts-RunEnds :
      (left first : ℕ) (w : W) → RunEnds first left w (attempts hooks spec args left first w)
  unfolding attempts
  attempts-RunEnds zero first w = gave_up (omega arith) none_yet
  attempts-RunEnds (suc left) first w =
      let tried = try_once hooks spec args first w in
      elim (Result-cases tried.0) [
        | inl (output, e) ↦
            rw (e, attempts) (succeeded (omega arith) (omega arith) none_yet (paired tried e))
        | inr (message, e) ↦
            let asked = fire hooks.on_error (tool_error spec.name first message) tried.1 in
            let failed = paired tried e in
            rw (e, attempts)
              (elim (Option-cases asked.0) [
                | inl quiet ↦ rw quiet (
                    RunEnds-again failed (paired asked quiet)
                      (attempts-RunEnds left (suc first) asked.1))
                | inr (broke, raised) ↦ rw raised (
                    hook_raised {n = first} (omega arith) (omega arith) none_yet failed
                      (paired asked raised))
              ])
      ]
