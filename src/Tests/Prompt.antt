-- ===== src/Tests/Prompt.antt =====
-- The prompt, the watchdog's signals and its reaction at concrete inputs.
use genomedb.Base.{
  ℕ, ◌≡◌, refl, true, Option, none, some, List, [], ◌∷◌, ◌++◌, Bytes, bytes_eq, ascii, All, arith,
}
use genomedb.Base.Scanner.{after_prefix}
use genomedb.Base.Text.{IsWord, is_space, space_length, fields}
use genomedb.Crypto.Seal.{found}
use genomedb.Client.Watchdog.{Watchdog}
use genomedb.Client.Detection.{linux, other_os, detect_debugger}
use genomedb.Client.Detection.Traced.{label, Other, text_of, detect_debugger-linux}
use genomedb.Client.Immune.{watch}
use genomedb.Client.Immune.Promises.{watch-promised}
use genomedb.Client.SelfHeal.Manifests.{promised}
use genomedb.Mesh.{decimal}
use genomedb.Cli.{Console, reconstructed, command_of}
use genomedb.Cli.Session.{run_lines, run_line, go_on, run_command}
use genomedb.Cli.Session.Recovery.{request_for, run_line-reconstruct}
use genomedb.Cli.Session.Refusals.{is_refusal, run_lines-refused}
use genomedb.Tests.Parameters.{toy_packages}
use genomedb.Tests.Channels.{one_file}
use genomedb.Tests.Sharing.{
  toy_http, toy_json, there, known, held, was_split, manifest_known, gives, from, distinct, two,
}

abbrev calm : Watchdog
calm = record { last_score = 0; confirmed_ticks = 1; start_ppid = 1; cooldown_until = 0 }

abbrev no_key : Bytes → Option Bytes
no_key b = none

abbrev plain_text : Bytes → Bytes
plain_text b = b

abbrev console : Console toy_packages toy_http toy_json one_file
console = record { watchdog = calm; world = there; disk = none }

-- A space that is not of ASCII.
fields_no_break :
    fields (97 ∷ 194 ∷ 160 ∷ 98 ∷ 226 ∷ 128 ∷ 65 ∷ []) ≡ (97 ∷ []) ∷ (98 ∷ 226 ∷ 128 ∷ 65 ∷ []) ∷ []
unfolding fields space_length
fields_no_break = refl

s-IsWord : IsWord (ascii "s")
unfolding is_space space_length
s-IsWord = (refl, tt)

out-IsWord : IsWord (ascii "out")
unfolding is_space space_length
out-IsWord = (refl, (refl, (refl, tt)))

run_line-reconstruct_example :
    (net : ℕ) × (run_line toy_packages toy_http toy_json one_file no_key plain_text
        (request_for (ascii "s") (ascii "out"))
        console
      ≡ go_on (reconstructed (ascii "s") (ascii "out") 1) (record console {
        world = record there { net = net };
        disk = some (ascii "out", 42 ∷ []);
      }))
    × (one_file.read_file (ascii "out") (some (ascii "out", 42 ∷ [])) ≡ found (42 ∷ []))
run_line-reconstruct_example =
    run_line-reconstruct toy_packages toy_http toy_json one_file no_key plain_text (λ net. Unit {0})
      (ascii "s") (ascii "out") (42 ∷ []) known 2 0 1 ((1 ∷ 45 ∷ []) ∷ (2 ∷ 36 ∷ []) ∷ []) held
      console (some (ascii "out", 42 ∷ [])) s-IsWord out-IsWord (omega arith, tt) was_split
      manifest_known tt gives from distinct two refl

abbrev typed : List Bytes
typed = ascii "backup a b" ∷ [] ∷ ascii "restore" ∷ ascii "quit" ∷ ascii "heal-now" ∷ []

refused :
    All
      (λ m. is_refusal m ≡ true)
      (run_lines toy_packages toy_http toy_json one_file no_key plain_text typed console).0
unfolding run_lines run_line fields command_of bytes_eq run_command
refused = (refl, (refl, (refl, tt)))

run_lines-refused_example :
    (run_lines toy_packages toy_http toy_json one_file no_key plain_text typed console).2 ≡ console
run_lines-refused_example =
    run_lines-refused toy_packages toy_http toy_json one_file no_key plain_text typed console
      refused

name_line : Other (ascii "Name:x")
unfolding after_prefix
name_line = (omega arith, omega arith, refl)

detect_debugger-linux_example :
    detect_debugger (
      linux
        (some (text_of (ascii "Name:x" ∷ []) ++ ((label ++ 9 ∷ decimal 7) ++ 10 ∷ ascii "Uid:")))
        plain_text)
    ≡ true
detect_debugger-linux_example =
    detect_debugger-linux (ascii "Name:x" ∷ []) 7 (ascii "Uid:") plain_text (name_line, tt)
      (omega arith)

watch-promised_example :
    promised toy_packages toy_http toy_json
      (ascii "s")
      (watch toy_packages toy_http toy_json other_os 2 100 (calm, there)).1
    ≡ promised toy_packages toy_http toy_json (ascii "s") there
watch-promised_example =
    watch-promised toy_packages toy_http toy_json other_os 2 100 calm there (tt, tt) (ascii "s")
