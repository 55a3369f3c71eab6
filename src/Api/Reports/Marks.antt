-- ===== src/Api/Reports/Marks.antt =====
-- The angle brackets and the double quotes of a text, and that escapeHTML of internal/api/analysis_handler.go leaves none.
use parser_go.Prelude.{Text, not, ◌≡◌, true, refl, [], ◌∷◌, ◌++◌, all, keep_if, arith}
use parser_go.Api.Names.{escape_html}
use parser_go.Api.Texts.Escaping.{is_plain, escape_html-plain}

-- The bytes of a text that make markup.
abbrev pub markup : Text → Text
markup s = keep_if (λ c. not (is_plain c)) s

pub markup-append : (s t : Text) → markup (s ++ t) ≡ markup s ++ markup t
markup-append [] t = refl
markup-append (c ∷ s) t = ground (arith, markup-append s t)

pub markup-plain : (s : Text) → all is_plain s ≡ true → markup s ≡ []
markup-plain [] h = refl
markup-plain (c ∷ s) h = ground (arith, markup-plain s)

pub markup-escape_html : (s : Text) → markup (escape_html s) ≡ []
markup-escape_html s = markup-plain (escape_html s) (escape_html-plain s)
