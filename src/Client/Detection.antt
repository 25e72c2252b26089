-- ===== src/Client/Detection.antt =====
-- The signals that client/watchdog_linux.go, watchdog_darwin.go, watchdog_windows.go,
-- watchdog_unix.go and watchdog_stub.go read off the operating system. What the system answers is
-- the argument.
pub mod Traced
use genomedb.Base.{
  ℕ, ◌+◌, ◌^◌, Bool, true, false, not, ◌||◌, Option, none, some, List, [], ◌∷◌, length, bit_and,
  ◌==◌, if◌then◌else◌, Bytes, ascii,
}
use genomedb.Base.Scanner.{scan_lines, after_prefix}
use genomedb.Base.Text.{fields, ℤ, pos, negsuc, atoi}

-- What the Windows calls give for this process: whether IsDebuggerPresent returns other than 0, its
-- session, if ProcessIdToSessionId succeeds, and what WTSQuerySessionInformationW finds for a session:
-- nothing where it fails or leaves no buffer, else the 16 bits that stand in the buffer.
pub record Win32 : Type 0 where
  pub is_debugger_present : ℕ
  pub process_id : ℕ
  pub process_id_to_session_id : ℕ → Option ℕ
  pub wts_query_session_information : ℕ → Option ℕ

-- /proc/self/status, or none where it cannot be opened; the flags of the process, or none where
-- sysctl fails; the environment, in which a missing variable is empty.
pub data Platform : Type 0 where
  linux : Option Bytes → (Bytes → Bytes) → Platform
  darwin : Option ℕ → (Bytes → Bytes) → Platform
  windows : Win32 → Platform
  other_os : Platform

-- The longest line of a scanner whose buffer is not set.
abbrev pub max_token : ℕ
max_token = 2 ^ 16

abbrev pub is_set : Option ℤ → Bool
is_set none = false
is_set (some (pos n)) = not (n == 0)
is_set (some (negsuc n)) = true

-- What follows the first line that starts with the label.
unfoldable pub tracer_of : List Bytes → Bool
tracer_of (label ∷ pid ∷ []) = is_set (atoi pid)
tracer_of _ = false

unfoldable pub find_tracer : List Bytes → Bool
unfolding tracer_of
find_tracer [] = false
find_tracer (line ∷ lines) = elim (after_prefix (ascii "TracerPid:") line) [
  | none ↦ find_tracer lines
  | some _ ↦ tracer_of (fields line)
]

-- watchdog_linux.go
unfoldable pub linux_debugger : Option Bytes → Bool
unfolding find_tracer
linux_debugger none = false
linux_debugger (some status) = find_tracer (scan_lines max_token [] status)

abbrev pub p_traced : ℕ
p_traced = 0x800

-- watchdog_darwin.go
unfoldable pub darwin_debugger : Option ℕ → Bool
darwin_debugger none = false
darwin_debugger (some p_flag) = not (bit_and p_flag p_traced == 0)

-- watchdog_windows.go
unfoldable pub windows_debugger : Win32 → Bool
windows_debugger w = not (w.is_debugger_present == 0)

-- The file that the build takes for the platform.
unfoldable pub detect_debugger : Platform → Bool
unfolding linux_debugger darwin_debugger windows_debugger
detect_debugger (linux status env) = linux_debugger status
detect_debugger (darwin p_flag env) = darwin_debugger p_flag
detect_debugger (windows w) = windows_debugger w
detect_debugger other_os = false

-- watchdog_unix.go
unfoldable pub in_ssh : (Bytes → Bytes) → Bool
in_ssh env =
    not (length (env (ascii "SSH_CONNECTION")) == 0) || not (length (env (ascii "SSH_TTY")) == 0)

abbrev pub wts_protocol_type_rdp : ℕ
wts_protocol_type_rdp = 2

unfoldable pub in_rdp : Win32 → Bool
in_rdp w = elim (w.process_id_to_session_id w.process_id) [
  | none ↦ false
  | some session_id ↦ elim (w.wts_query_session_information session_id) [
    | none ↦ false
    | some protocol_type ↦ protocol_type == wts_protocol_type_rdp
  ]
]

unfoldable pub detect_remote_session : Platform → Bool
unfolding in_ssh in_rdp
detect_remote_session (linux status env) = in_ssh env
detect_remote_session (darwin p_flag env) = in_ssh env
detect_remote_session (windows w) = in_rdp w
detect_remote_session other_os = false
