-- ===== src/State.antt =====
-- The dictionaries of observed values that the admission code reads. The value of `health` is a number
-- where the key is there at all; any other value is a text, a truth value, a number or `None`.
use aaai.Prelude.{
  String, Bool, true, false, not, ◌&&◌, Option, none, some, ◌==◌, if◌then◌else◌, Dict, get,
}
use aaai.Float.{Float, Sampler, lit, ◌≤?◌}

pub data Value (F : Type 0) : Type 0 where
  text : String → Value F
  flag : Bool → Value F
  number : F → Value F
  nothing : Value F

pub record State (F : Type 0) : Type 0 where
  pub entries : Dict (Value F)
  pub health : Option F

module _ {F : Type 0} where
  health_value : Option F → Option (Value F)
  health_value none = none
  health_value (some x) = some (number x)

  -- `state.get(k)`, with `none` where the key is missing
  unfoldable pub read : State F → String → Option (Value F)
  unfolding health_value
  read st k = if k == "health" then health_value st.health else get st.entries k

  -- `v == s` for a text `s`
  unfoldable pub is_text : Value F → String → Bool
  is_text (text t) s = t == s
  is_text _ s = false

module _ {F : Type 0} ⦃o : Float F⦄ where
  -- `bool(v)`
  unfoldable pub truthy : Value F → Bool
  truthy (text s) = not (s == "")
  truthy (flag b) = b
  truthy (number x) = not (x ≤? lit 0 0 && lit 0 0 ≤? x)
  truthy nothing = false

  -- `bool(state.get(k, False))`
  unfoldable pub is_set : State F → String → Bool
  is_set st k = elim (read st k) [ none ↦ false | some v ↦ truthy v ]

module _ {F : Type 0} ⦃s : Sampler F⦄ where
  -- `str(v)`
  unfoldable pub str : Value F → String
  str (text t) = t
  str (flag true) = "True"
  str (flag false) = "False"
  str (number x) = s.show x
  str nothing = "None"
