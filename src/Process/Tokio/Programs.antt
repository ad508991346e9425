-- ===== src/Process/Tokio/Programs.antt =====
-- An operating system for the tests of src/process/tokio.rs and tests/cli.rs: the programs that these
-- start, each doing what its test says of it.
use condrun.Prelude.{
  ℕ, ◌+◌, ◌*◌, String, Bool, true, false, Option, none, some, List, [], ◌∷◌, leb, same,
  if◌then◌else◌,
}
use condrun.Async.{Async, Result, ok, err}
use condrun.Process.{ExitStatus}
use condrun.Process.Tokio.{Os, OsCommand, OsSignal, sigint, sigterm, sigkill}

abbrev secs : ℕ → ℕ
secs n = n * 1_000_000_000

-- A process by the instant and the status of its end, whether SIGTERM ends it, the exit code of its
-- trap on SIGINT, and its session.
pub record Program : Type 0 where
  pub ends : ℕ
  pub status : ExitStatus
  pub heeds : Bool
  pub on_int : Option ℕ
  pub session : ℕ

abbrev ended_by : ℕ → ℕ → Program → Program
ended_by now raw p = record p { ends = now; status = record { raw = raw } }

abbrev signalled : Program → OsSignal → ℕ → Program
signalled p sigkill now = ended_by now 9 p
signalled p sigterm now = if p.heeds then ended_by now 15 p else p
signalled p sigint now = elim p.on_int [
  | none ↦ ended_by now 2 p
  | some exit_code ↦ ended_by now (exit_code * 256) p
]
signalled p _ now = p

abbrev wait_for : Program → ℕ → Async (ExitStatus × Program)
wait_for p now = some (if leb p.ends now then now else p.ends, (p.status, p))

abbrev exits_at : ℕ → ℕ → Program
exits_at ends exit_code = record {
  ends = ends;
  status = record { raw = exit_code * 256 };
  heeds = true;
  on_int = none;
  session = 1;
}

abbrev sleep : String → ℕ → Program
sleep arg now =
    exits_at
      (now
        + secs (
            if same arg "10"
            then 10
            else if same arg "30"
            then 30
            else if same arg "60"
            then 60
            else 999))
      0

abbrev sh : String → ℕ → Program
sh script now =
    if same script "exit 7"
    then exits_at now 7
    else if same script "exit 42"
    then exits_at now 42
    else if same script "trap '' TERM; sleep 999"
    then record (sleep "999" now) { heeds = false }
    else record (sleep "999" now) { on_int = some 130 }

abbrev last_of : List String → String
last_of [] = ""
last_of (a ∷ []) = a
last_of (a ∷ b ∷ rest) = last_of (b ∷ rest)

abbrev program_of : OsCommand → ℕ → Result Program
program_of cmd now =
    if same cmd.program "sleep"
    then ok (sleep (last_of cmd.args) now)
    else if same cmd.program "sh"
    then ok (sh (last_of cmd.args) now)
    else if same cmd.program "echo"
    then ok (exits_at now 0)
    else err "No such file or directory (os error 2)"

-- The session of condrun; `setsid` makes a process the leader of its own, which has its number.
abbrev pub own_session : ℕ
own_session = 1

abbrev child_pid : ℕ
child_pid = 7

abbrev in_session : Bool → Result Program → Result Program
in_session true (ok p) = ok (record p { session = child_pid })
in_session new_session r = r

abbrev started : OsCommand → ℕ → Result Program
started cmd now = in_session cmd.new_session (program_of cmd now)

-- `getsid` of a process.
abbrev pub getsid : Program → ℕ
getsid p = p.session

abbrev pub system : Os
system = record {
  Proc = Program;
  wait = wait_for;
  killpg = λ p sig now. (ok tt, if leb p.ends now then p else signalled p sig now);
  id = λ p. some child_pid;
  start = λ cmd now. some (now, started cmd now);
}
