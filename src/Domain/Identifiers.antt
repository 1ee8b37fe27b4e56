-- ===== src/Domain/Identifiers.antt =====
-- src/nexusflow/domain/identifiers.py: the checks that the constructors of identifiers make. An
-- identifier is the text that it wraps.
use Prim.Native.String.{String}
use nexusflow.Base.{
  ℕ, zero, suc, Bool, false, not, ◌&&◌, ◌||◌, Result, ok, err, value_error, leb, ◌==◌,
  if◌then◌else◌,
}
use Prim.Native.Char.{code}

-- len(text)
abbrev pub text_length : String → ℕ
text_length String.[] = zero
text_length (String.◌∷◌ c s) = suc (text_length s)

-- c in "\x00\r\n\t"
abbrev is_control : ℕ → Bool
is_control c = c == 0 || c == 13 || c == 10 || c == 9

abbrev has_control : String → Bool
has_control String.[] = false
has_control (String.◌∷◌ c s) = is_control (code c) || has_control s

abbrev pub is_identifier : String → Bool
is_identifier value =
    leb 1 (text_length value) && leb (text_length value) 256 && not (has_control value)

-- TaskDefinitionId(value), and ActivityType(name), which makes the same checks
unfoldable pub task_definition_id : String → Result String
task_definition_id value = if is_identifier value then ok value else err value_error
