-- ===== src/Dashboard/Poll/Machine.antt =====
-- clientrpc.go: what the poller asks the machine through a shell.
use lotus_dashboard.Common.{String, Option, none, some}

-- How a command goes: no pipe, no start, or the first line of its output, if there is one.
pub data Ran : Type 0 where
  no_pipe no_start : Ran
  first_line : Option String → Ran

-- The four functions have one body: the first line, or the empty text.
line_of : Ran → String
line_of no_pipe = ""
line_of no_start = ""
line_of (first_line none) = ""
line_of (first_line (some s)) = s

module _ (shell : String → Ran) where
  unfoldable pub get_gpu : String
  unfolding line_of
  get_gpu = line_of (shell " nvidia-smi -L")

  unfoldable pub get_cpu : String
  unfolding line_of
  get_cpu = line_of (shell "cat /proc/cpuinfo |grep \"processor\"|sort -u|wc -l")

  unfoldable pub get_mem : String
  unfolding line_of
  get_mem = line_of (shell "cat /proc/meminfo |grep \"MemTotal\"")

  unfoldable pub get_token : String
  unfolding line_of
  get_token = line_of (shell "cat ~/.lotus/token")
