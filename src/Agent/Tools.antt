-- ===== src/Agent/Tools.antt =====
-- tools.py: RuntimeToolExecutor, which runs the tools of one round. The handlers and the hooks act on
-- a world `W`. Left out are times and latencies, the waits between attempts, the class of an exception,
-- and what an event says beside the tool, the attempt and the outcome.
pub mod Retries
use aegora.Prelude.{
  ℕ, zero, suc, String, Bool, true, false, Option, none, some, List, [], ◌∷◌, if◌then◌else◌,
}
use aegora.Prelude.Dict
use aegora.Prelude.Dict.{Dict}
use aegora.Prelude.Result.{Result, ok, err}

pub data Event (J : Type 0) : Type 0 where
  tool_before : String → Event J
  tool_after : String → ℕ → J → Event J
  tool_error : String → ℕ → String → Event J

-- What a hook or the hooks do: the message of the exception that was raised, if one was.
abbrev pub Hook : Type 0 → Type 0 → Type 0
Hook J W = Event J → W → Option String × W

pub record ToolLifecycleHooks (J W : Type 0) : Type 0 where
  pub before_call : List (Hook J W)
  pub after_call : List (Hook J W)
  pub on_error : List (Hook J W)

-- `input_schema` gives the test of each required argument; the arguments are a dict of values.
pub record ToolSpec (V J W : Type 0) : Type 0 where
  pub name : String
  pub input_schema : List (String × (V → Bool))
  pub handler : Dict V → W → Result J × W
  pub max_retries : ℕ
  pub read_only : Bool
  pub parallel_safe : Bool

unfoldable pub validate_args : {V : Type 0} → List (String × (V → Bool)) → Dict V → Option String
validate_args [] args = none
validate_args ((key, expected) ∷ schema) args =
    let rest = validate_args schema args in
    elim (Dict.get key args) [
      | none ↦ some "missing required arg"
      | some value ↦ if expected value then rest else some "unexpected type"
    ]

unfoldable pub fire : {J W : Type 0} → List (Hook J W) → Event J → W → Option String × W
fire [] event w = (none, w)
fire (hook ∷ hooks) event w =
    let (raised, after) = hook event w in
    let rest = fire hooks event after in
    elim raised [ none ↦ rest | some message ↦ (some message, after) ]

module _ {V J W : Type 0} where
  unfoldable pub register : ToolSpec V J W → Dict (ToolSpec V J W) → Result (Dict (ToolSpec V J W))
  register spec tools = elim (Dict.get spec.name tools) [
    | none ↦ ok (Dict.put spec.name spec tools)
    | some old ↦ err "tool already registered"
  ]

  unfoldable pub find : String → Dict (ToolSpec V J W) → Result (ToolSpec V J W)
  find name tools = elim (Dict.get name tools) [ none ↦ err "unknown tool" | some spec ↦ ok spec ]

  module _ (hooks : ToolLifecycleHooks J W) (spec : ToolSpec V J W) (args : Dict V) where
    -- The body of the `try`: an exception of a hook after the call counts like one of the handler.
    unfoldable pub try_once : ℕ → W → Result J × W
    try_once attempt w =
        let (said, called) = spec.handler args w in
        elim said [
          | err message ↦ (err message, called)
          | ok output ↦
              let (raised, after) =
                fire hooks.after_call (tool_after spec.name attempt output) called in
              elim raised [ none ↦ (ok output, after) | some message ↦ (err message, after) ]
        ]

    -- The loop, with the number of attempts left and the number of the next one. A hook on an error
    -- that raises ends it.
    unfoldable pub attempts : ℕ → ℕ → W → Result (J × ℕ) × W
    attempts zero attempt w = (err "tool failed", w)
    attempts (suc left) attempt w =
        let (said, tried) = try_once attempt w in
        elim said [
          | ok output ↦ (ok (output, attempt), tried)
          | err message ↦
              let (raised, after) =
                fire hooks.on_error (tool_error spec.name attempt message) tried in
              elim raised [
                | none ↦ attempts left (suc attempt) after
                | some broke ↦ (err broke, after)
              ]
        ]

  unfoldable pub run :
      ToolLifecycleHooks J W → Dict (ToolSpec V J W) → String → Dict V → W → Result (J × ℕ) × W
  run hooks tools name args w = elim (find name tools) [
    | err message ↦ (err message, w)
    | ok spec ↦ elim (validate_args spec.input_schema args) [
      | some message ↦ (err message, w)
      | none ↦
          let (raised, before) = fire hooks.before_call (tool_before name) w in
          elim raised [
            | some message ↦ (err message, before)
            | none ↦ attempts hooks spec args spec.max_retries 1 before
          ]
    ]
  ]
