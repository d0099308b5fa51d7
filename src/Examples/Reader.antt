-- ===== src/Examples/Reader.antt =====
-- The theorems about the reader of .l files at concrete inputs.
use lex_cpp.Prelude.{◌≡◌, [], ◌∷◌, some}
use lex_cpp.Chars.{Text}
use lex_cpp.LexFile.{Reader}
use lex_cpp.LexFile.Whole.{parse}
use lex_cpp.LexFile.Total.{parse-some}

-- %%, then the rule a ;
abbrev one_rule : Text
one_rule = b'%' ∷ b'%' ∷ 10 ∷ b'a' ∷ b' ' ∷ b';' ∷ 10 ∷ []

parse-some_example : (r : Reader) × (parse one_rule ≡ some r)
parse-some_example = parse-some one_rule
