-- ===== src/Wire/Subjects.antt =====
-- agent/internal/wire/subjects.go: the NATS subjects, from an agent's id and a job's, a session's or a
-- command's name.
pub mod Tokens
use everwas.Base.{◌++◌}
use everwas.Base.Text.{Text, codes}

unfoldable pub heartbeat : Text → Text
heartbeat agent = codes "agents." ++ (agent ++ codes ".heartbeat")

unfoldable pub telemetry : Text → Text
telemetry agent = codes "agents." ++ (agent ++ codes ".telemetry")

unfoldable pub inventory : Text → Text → Text
inventory agent kind = codes "agents." ++ (agent ++ (codes ".inventory." ++ kind))

unfoldable pub job_progress : Text → Text → Text
job_progress agent job =
    codes "agents." ++ (agent ++ (codes ".jobs." ++ (job ++ codes ".progress")))

unfoldable pub job_output : Text → Text → Text
job_output agent job = codes "agents." ++ (agent ++ (codes ".jobs." ++ (job ++ codes ".output")))

unfoldable pub job_result : Text → Text → Text
job_result agent job = codes "agents." ++ (agent ++ (codes ".jobs." ++ (job ++ codes ".result")))

unfoldable pub events : Text → Text
events agent = codes "agents." ++ (agent ++ codes ".events")

unfoldable pub shell_out : Text → Text → Text
shell_out agent session =
    codes "agents." ++ (agent ++ (codes ".shell." ++ (session ++ codes ".out")))

unfoldable pub shell_ctl : Text → Text → Text
shell_ctl agent session =
    codes "agents." ++ (agent ++ (codes ".shell." ++ (session ++ codes ".ctl")))

unfoldable pub jobs_queue : Text → Text
jobs_queue agent = codes "jobs." ++ agent

unfoldable pub cmd : Text → Text → Text
cmd agent op = codes "cmd." ++ (agent ++ (codes "." ++ op))

unfoldable pub cmd_wildcard : Text → Text
cmd_wildcard agent = codes "cmd." ++ (agent ++ codes ".>")

unfoldable pub shell_in : Text → Text → Text
shell_in agent session = codes "agents." ++ (agent ++ (codes ".shell." ++ (session ++ codes ".in")))

unfoldable pub shell_resize : Text → Text → Text
shell_resize agent session =
    codes "agents." ++ (agent ++ (codes ".shell." ++ (session ++ codes ".rsz")))

unfoldable pub inbox_prefix : Text → Text
inbox_prefix agent = codes "_INBOX_" ++ agent
