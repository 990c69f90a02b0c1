-- ===== src/Cli/Output.antt =====
-- The two writers of a `Runner`, either of which may fail, and chains of steps that end at an error.
use microhook.Prelude.{ℕ, Text, bytes, Bool, true, false, List, [], ◌∷◌, ◌++◌, Option, none, some}

-- What was printed, and which of the next writes fail.
pub record Console : Type 0 where
  pub stdout : Text
  pub stderr : Text
  pub faults : List Bool

-- `exit(code)`, or the error of a writer.
pub data CliError : Type 0 where
  exit_code : ℕ → CliError
  write_failed : CliError

abbrev pub Run : Type 0
Run = Console → Option CliError × Console

abbrev pub then_run : Option CliError × Console → Run → Option CliError × Console
then_run (none, c) next = next c
then_run (some e, c) next = (some e, c)

-- The next step is taken where there is no error.
infixl 5 ◌>>◌
abbrev pub ◌>>◌ : Run → Run → Run
◌>>◌ m next c = then_run (m c) next

abbrev pub done : Run
done c = (none, c)

abbrev pub exit : ℕ → Run
exit code c = (some (exit_code code), c)

pub data Writer : Type 0 where
  to_stdout to_stderr : Writer

abbrev pub append : Writer → Text → Console → Console
append to_stdout text c = record c { stdout = c.stdout ++ text }
append to_stderr text c = record c { stderr = c.stderr ++ text }

abbrev pub write_at : List Bool → Writer → Text → Run
write_at [] writer text c = (none, append writer text c)
write_at (true ∷ faults) writer text c = (some write_failed, record c { faults = faults })
write_at (false ∷ faults) writer text c = (none, append writer text (record c { faults = faults }))

-- `writef`, with the text that was formatted.
unfoldable pub write : Writer → Text → Run
write writer text c = write_at c.faults writer text c

unfoldable pub writeln : Writer → Text → Run
unfolding write
writeln writer text = write writer (text ++ bytes "\n")
