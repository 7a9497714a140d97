-- ===== src/Sepolicy/Examples.antt =====
-- The theorems about native/src/sepolicy/statement.rs at concrete inputs.
use magisk.Prelude.{◌≡◌, refl, inr, true, some, [], ◌∷◌, arith, Bytes, All}
use magisk.Base.Text.{codes, equal, strip_prefix}
use magisk.Sepolicy.Statement.{Call, xperm, exec_statement, allowxperm, permissive}
use magisk.Sepolicy.Statement.Sound.{exec_statement-Sayable}
use magisk.Sepolicy.Statement.Print.{print_call, Sayable, exec_statement-print_call}
use magisk.Sepolicy.Lexer.{keyword, split_once, extract_token, parse_statement}
use magisk.Sepolicy.Lexer.Words.{extract_token-fuel, Plain, display, Shown}
use magisk.Sepolicy.Lexer.Text.{parse_statement-display}

abbrev su : Bytes
su = codes "su"

-- allowxperm su * file ioctl ~{ 16-32 }
abbrev xperm_call : Call
xperm_call = allowxperm (su ∷ []) [] (codes "file" ∷ []) (xperm 16 32 true ∷ [])

exec_statement-print_call_example : exec_statement (print_call xperm_call) ≡ inr xperm_call
exec_statement-print_call_example = exec_statement-print_call xperm_call tt

su-Plain : Plain su
unfolding keyword equal split_once strip_prefix
su-Plain = record {
  visible = omega arith;
  not_empty = cc;
  no_keyword = refl;
  no_lb = refl;
  no_rb = refl;
  no_cm = refl;
  no_hp = refl;
  no_tl = refl;
  no_hx = refl;
}

permissive-Shown : All Shown (print_call (permissive (su ∷ [])))
permissive-Shown = (tt, (su-Plain, tt))

parse_statement-display_example :
    parse_statement (codes "permissive su") ≡ some (inr (permissive (su ∷ [])))
unfolding display
parse_statement-display_example = parse_statement-display (permissive (su ∷ [])) tt permissive-Shown

extract_token-fuel_example : extract_token 4 (codes "a{b}") ≡ extract_token 9 (codes "a{b}")
extract_token-fuel_example = extract_token-fuel 4 9 (codes "a{b}") (omega arith) (omega arith)

exec_statement-Sayable_example : Sayable xperm_call
exec_statement-Sayable_example =
    exec_statement-Sayable (print_call xperm_call) xperm_call
      (exec_statement-print_call xperm_call tt)
