-- ===== src/Tests/RespRuns.antt =====
-- internal/resp on two pipelined commands, on option lists and on a connection that fails.
use cachemoney.Base.{ℕ, ◌≤◌, ◌≡◌, refl, ◌↔◌, List, [], ◌∷◌, ◌++◌, none, some, arith, codes, All}
use cachemoney.Base.Int.{pos, negsuc, ◌≤ℤ◌}
use cachemoney.Base.Results.{ok}
use cachemoney.Resp.Decimal.{parse_int, format_uint, max_int, parse_int_canonical}
use cachemoney.Resp.Limits
use cachemoney.Resp.Limits.{resolve_config, resolve_config_positive}
use cachemoney.Resp.Reader.{Reader, new_reader, read_command, closed}
use cachemoney.Resp.Reader.Lines.{with_input}
use cachemoney.Resp.Reader.Commands.{
  FitsBulk, FitsArray, command_frame, send_command, send_bulks, read_command-send_command,
}
use cachemoney.Resp.Reader.Accepted.{Took, read_command_sound}
use cachemoney.Resp.Writer.{Writer, new_writer, write_array_header, write_bulk, write_bytes}
use cachemoney.Resp.Writer.Sticky.{Call, perform_all, Extends, perform_all-Extends}

abbrev set_k_v : List (List ℕ)
set_k_v = codes "SET" ∷ codes "k" ∷ codes "v" ∷ []

abbrev ping : List (List ℕ)
ping = codes "PING" ∷ []

-- The bytes of the two commands, one behind the other.
abbrev ping_bytes : List ℕ
ping_bytes = codes "*1" ++ (13 ∷ 10 ∷ codes "$4") ++ (13 ∷ 10 ∷ codes "PING") ++ (13 ∷ 10 ∷ [])

abbrev pipelined : List ℕ
pipelined =
    codes "*3"
    ++ (13 ∷ 10 ∷ codes "$3")
    ++ (13 ∷ 10 ∷ codes "SET")
    ++ (13 ∷ 10 ∷ codes "$1")
    ++ (13 ∷ 10 ∷ codes "k")
    ++ (13 ∷ 10 ∷ codes "$1")
    ++ (13 ∷ 10 ∷ codes "v")
    ++ (13 ∷ 10 ∷ ping_bytes)

abbrev connection : Reader
connection = new_reader pipelined closed []

sent : connection.input ≡ (send_command set_k_v (new_writer [])).out ++ ping_bytes
unfolding new_reader send_command send_bulks new_writer write_array_header write_bulk write_bytes
    format_uint
sent = refl

read_command-send_command_example :
    read_command connection ≡ ok (set_k_v, with_input connection ping_bytes)
unfolding new_reader resolve_config
read_command-send_command_example =
    read_command-send_command connection set_k_v ping_bytes
      (record { within = omega arith; int = omega arith })
      (
        record { within = omega arith; int = omega arith },
        (
          record { within = omega arith; int = omega arith },
          (record { within = omega arith; int = omega arith }, tt),
        ),
      )
      (omega arith) sent

-- The second command, alone.
abbrev last_command : Reader
last_command = with_input connection ping_bytes

took_ping : read_command last_command ≡ ok (ping, with_input last_command [])
unfolding new_reader resolve_config send_command send_bulks new_writer write_array_header write_bulk
    write_bytes format_uint
took_ping =
    read_command-send_command last_command ping []
      (record { within = omega arith; int = omega arith })
      (record { within = omega arith; int = omega arith }, tt) (omega arith) refl

read_command_sound_example :
    Took last_command (command_frame ping) (with_input last_command [])
    × FitsArray last_command.limits ping
    × All (FitsBulk last_command.limits) ping
read_command_sound_example = read_command_sound last_command took_ping

-- The greatest int64, and the first text past it.
parse_int_canonical_example :
    (parse_int (codes "9223372036854775807") ≡ some 9223372036854775807)
    ↔ (codes "9223372036854775807" ≡ format_uint 9223372036854775807)
      × (9223372036854775807 ≤ max_int)
parse_int_canonical_example = parse_int_canonical (codes "9223372036854775807") 9223372036854775807

parse_int_past : parse_int (codes "9223372036854775808") ≡ none
unfolding parse_int
parse_int_past = refl

abbrev odd_options : List Limits.Option
odd_options = Limits.with_max_bulk_len (negsuc 4) ∷ Limits.with_buffer_size (pos 0) ∷ []

resolve_config_positive_example :
    (pos 1 ≤ℤ (resolve_config odd_options).limits.max_bulk_len)
    × (pos 1 ≤ℤ (resolve_config odd_options).limits.max_multibulk_len)
    × (pos 1 ≤ℤ (resolve_config odd_options).buffer_size)
resolve_config_positive_example = resolve_config_positive odd_options

abbrev some_calls : List Call
some_calls = Call.map_header 1 ∷ Call.bulk (codes "proto") ∷ Call.int (pos 2) ∷ Call.flushed ∷ []

-- A connection whose third write fails after one byte.
abbrev failing : Writer
failing = new_writer (none ∷ none ∷ some (32, 1) ∷ [])

perform_all-Extends_example : Extends failing (perform_all some_calls failing)
perform_all-Extends_example = perform_all-Extends some_calls failing
