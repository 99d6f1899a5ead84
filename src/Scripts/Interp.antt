-- ===== src/Scripts/Interp.antt =====
-- agent/internal/scripts/interp.go, interp_unix.go and interp_windows.go: the interpreter of a job. `look` is
-- `exec.LookPath`: the path of an executable, or `none`.
use everwas.Base.{◌||◌, Option, none, some, List, [], ◌∷◌, ◌++◌, if◌then◌else◌, ◌⊎◌, inl, inr, ◌==◌}
use everwas.Base.Text.{join_texts, Text, codes, text_eq, trim_space, to_lower}

pub record Interp : Type 0 where
  pub shell : Text
  pub path : Text
  pub args : List Text
  pub ext : Text

-- A row of the table.
pub record Spec : Type 0 where
  pub candidates : List Text
  pub args : List Text
  pub ext : Text

pub data Os : Type 0 where
  unix windows : Os

unfoldable pub argv : Interp → Text → List Text
argv i script_path = (i.path ∷ i.args) ++ script_path ∷ []

abbrev pub default_shell : Os → Text
default_shell unix = codes "bash"
default_shell windows = codes "powershell"

abbrev row : List Text → List Text → Text → Spec
row candidates args ext = record { candidates = candidates; args = args; ext = ext }

abbrev ps_args : List Text
ps_args =
    codes "-NoProfile"
    ∷ codes "-NonInteractive"
    ∷ codes "-ExecutionPolicy"
    ∷ codes "Bypass"
    ∷ codes "-File"
    ∷ []

abbrev pwsh_args : List Text
pwsh_args = codes "-NoProfile" ∷ codes "-NonInteractive" ∷ codes "-File" ∷ []

abbrev pub unix_table : List (Text × Spec)
unix_table =
    (codes "bash", row (codes "bash" ∷ codes "sh" ∷ []) [] (codes ".sh"))
    ∷ (codes "sh", row (codes "sh" ∷ []) [] (codes ".sh"))
    ∷ (codes "zsh", row (codes "zsh" ∷ []) [] (codes ".sh"))
    ∷ (codes "python", row (codes "python3" ∷ codes "python" ∷ []) [] (codes ".py"))
    ∷ (codes "pwsh", row (codes "pwsh" ∷ []) pwsh_args (codes ".ps1"))
    ∷ (codes "powershell", row (codes "pwsh" ∷ codes "powershell" ∷ []) pwsh_args (codes ".ps1"))
    ∷ []

abbrev pub windows_table : List (Text × Spec)
windows_table =
    (
      codes "powershell",
      row (codes "powershell.exe" ∷ codes "pwsh.exe" ∷ []) ps_args (codes ".ps1"),
    )
    ∷ (codes "pwsh", row (codes "pwsh.exe" ∷ codes "powershell.exe" ∷ []) ps_args (codes ".ps1"))
    ∷ (codes "cmd", row (codes "cmd.exe" ∷ []) (codes "/c" ∷ []) (codes ".cmd"))
    ∷ (
      codes "python",
      row (codes "python3.exe" ∷ codes "python.exe" ∷ codes "python3" ∷ codes "python" ∷ []) []
          (codes ".py"),
    )
    ∷ (codes "bash", row (codes "bash.exe" ∷ codes "bash" ∷ []) [] (codes ".sh"))
    ∷ (codes "sh", row (codes "sh.exe" ∷ codes "sh" ∷ []) [] (codes ".sh"))
    ∷ []

abbrev pub interp_table : Os → List (Text × Spec)
interp_table unix = unix_table
interp_table windows = windows_table

unfoldable pub canonical_shell : Os → Text → Text
canonical_shell os shell =
    let s = to_lower (trim_space shell) in
    if text_eq s [] || (text_eq s (codes "auto") || text_eq s (codes "default"))
    then default_shell os
    else if text_eq s (codes "python3") || text_eq s (codes "py")
    then codes "python"
    else if text_eq s (codes "powershell.exe")
    then codes "powershell"
    else if text_eq s (codes "pwsh.exe")
    then codes "pwsh"
    else if text_eq s (codes "cmd.exe") || (text_eq s (codes "bat") || text_eq s (codes "batch"))
    then codes "cmd"
    else s

-- `interpTable()[name]`.
unfoldable pub find_spec : Text → List (Text × Spec) → Option Spec
find_spec name [] = none
find_spec name (r ∷ rows) =
    let rest = find_spec name rows in if text_eq r.0 name then some r.1 else rest

unfoldable pub first_found : (Text → Option Text) → List Text → Option Text
first_found look [] = none
first_found look (c ∷ cs) = elim (look c) [ some path ↦ some path | none ↦ first_found look cs ]

-- `%q` of printable ASCII text.
escape : Text → Text
escape [] = []
escape (c ∷ s) = if c == b'"' || c == b'\\' then b'\\' ∷ c ∷ escape s else c ∷ escape s

unfoldable pub quote : Text → Text
unfolding escape
quote s = b'"' ∷ escape s ++ b'"' ∷ []

unfoldable pub resolve_with : Os → Text → (Text → Option Text) → Text ⊎ Interp
unfolding canonical_shell find_spec first_found quote
resolve_with os shell look =
    let name = canonical_shell os shell in
    elim (find_spec name (interp_table os)) [
      | none ↦ inl (codes "unsupported shell " ++ quote shell)
      | some sp ↦ elim (first_found look sp.candidates) [
        | some path ↦ inr (record { shell = name; path = path; args = sp.args; ext = sp.ext })
        | none ↦ inl (
            codes "no interpreter for "
            ++ quote name
            ++ codes " found in PATH (tried "
            ++ join_texts (codes ", ") sp.candidates
            ++ codes ")")
      ]
    ]
