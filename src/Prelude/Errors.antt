-- ===== src/Prelude/Errors.antt =====
-- Reading Go errors: their text, without the formatted arguments, and `errors.Is`.
use mathlib.Core.Bool.{Bool, ◌||◌}
use mathlib.Core.List.{◌++◌}
use des_ka_project.Prelude.Strings.{Str, codes, ◌=s◌}
use des_ka_project.Prelude.Exec.{Error, msg, wrap}

abbrev pub error_text : Error → Str
error_text (msg s) = codes s
error_text (wrap s e) = codes s ++ (codes ": " ++ error_text e)

-- The target is an error made once, known by its text.
abbrev pub errors_is : Error → Error → Bool
errors_is (msg s) target = codes s =s error_text target
errors_is (wrap s e) target = error_text (wrap s e) =s error_text target || errors_is e target
