-- ===== src/Prelude/Environment.antt =====
-- `std::env::var(..).ok()`: a variable that is missing and one that is not Unicode are the same.
use mathlib.Core.Option.{Option, none, some}
use hakuraku.Prelude.Texts.{Text}

abbrev pub Env : Type 0
Env = Text → Option Text

abbrev pub unwrap_or : Text → Option Text → Text
unwrap_or t none = t
unwrap_or t (some s) = s
