-- ===== src/Tests/Texts.antt =====
-- Names, frames and lines at concrete texts.
use pigcloud_cli.Common.{[], ◌∷◌, ◌≡◌, refl, arith, none, codes}
use pigcloud_cli.Formats.Names.{pad_display_name, text, unpad_display_name, unpad-pad_display_name}
use pigcloud_cli.Formats.Frames.{unframe_inner, unframe_index_body, padded, unframe-padded, body}
use pigcloud_cli.Shell.{parse_command_line}
use pigcloud_cli.Shell.Quoting.{bare, double, line_of, parse_command_line-line_of}

unpad-pad_display_name_example :
    unpad_display_name (pad_display_name (codes "report.pdf")) ≡ text (codes "report.pdf")
unpad-pad_display_name_example = unpad-pad_display_name (codes "report.pdf") (omega arith)

unframe-padded_example :
    unframe_index_body (λ b. none) (padded (1 ∷ codes "{}") (0 ∷ 0 ∷ 0 ∷ [])) ≡ body (codes "{}")
unfolding unframe_index_body unframe_inner
unframe-padded_example =
    unframe-padded (λ b. none) 1 (codes "{}") (0 ∷ 0 ∷ 0 ∷ []) refl (omega arith)

parse_command_line-line_of_example :
    parse_command_line (line_of (bare (codes "rm") ∷ double [] ∷ double (codes "my file") ∷ []))
    ≡ codes "rm" ∷ codes "my file" ∷ []
parse_command_line-line_of_example =
    parse_command_line-line_of (bare (codes "rm") ∷ double [] ∷ double (codes "my file") ∷ [])
      ((refl, (refl, tt)), (tt, ((refl, (refl, (refl, (refl, (refl, (refl, (refl, tt))))))), tt)))
