-- ===== src/Launcher/Network.antt =====
-- `run/network_util.py`: commands and look-ups that run in threads. The order in which the threads
-- complete is an argument.
pub mod Threads
pub mod Retry
use Prim.Native.String.{String}
use bluefog.Common.{
  ℕ, zero, suc, Bool, true, false, not, ◌&&◌, ◌||◌, ◌==◌, if◌then◌else◌, Option, none, some, List,
  [], ◌∷◌, Result, ok, raise, value_error, system_exit, item, ◌>>=◌, ◌>>◌,
}
use bluefog.Common.Dict.{Dict, assign, values}
use bluefog.Common.Names.{same_name}

-- The loop over `as_completed`. A thread's exception is raised by `future.result()`.
abbrev pub gather : {A B : Type 0} → (A → Result B) → List A → Dict B → List ℕ → Result (Dict B)
gather exec_command args_list results [] = ok results
gather exec_command args_list results (index ∷ completed) = do
  arg ← item args_list index
  result ← exec_command arg
  gather exec_command args_list (assign index result results) completed

-- A pool for no arguments has no worker, which it refuses. `completed` lists the indices of the
-- arguments in the order in which their threads complete.
unfoldable pub execute_function_multithreaded :
    {A B : Type 0} → (A → Result B) → List A → (completed : List ℕ) → Result (Dict B)
execute_function_multithreaded exec_command [] completed = raise value_error
execute_function_multithreaded exec_command (arg ∷ args) completed =
    gather exec_command (arg ∷ args) [] completed

-- `address in addresses`
abbrev pub elem_address : String → List String → Bool
elem_address address [] = false
elem_address address (a ∷ rest) = same_name a address || elem_address address rest

-- `not host_address or host_address not in local_addresses`
abbrev pub is_remote : List String → Option String → Bool
is_remote local_addresses none = true
is_remote local_addresses (some address) =
    same_name address "" || not (elem_address address local_addresses)

-- The loop over `zip(host_addresses, all_host_names)`.
abbrev pub remote_names : List String → List (Option String) → List String → List String
remote_names local_addresses [] names = []
remote_names local_addresses (address ∷ addresses) [] = []
remote_names local_addresses (address ∷ addresses) (name ∷ names) =
    let rest = remote_names local_addresses addresses names in
    if is_remote local_addresses address then name ∷ rest else rest

-- `gethostbyname` answers the address of a host, or none where `socket.gaierror` is raised.
unfoldable pub filter_local_addresses :
    (gethostbyname : String → Option String)
    → (local_addresses : List String) → List String
    → (completed : List ℕ) → Result (List String)
unfolding execute_function_multithreaded
filter_local_addresses gethostbyname local_addresses all_host_names completed = do
  addresses ←
      execute_function_multithreaded (λ host. ok (gethostbyname host)) all_host_names completed
  ok (remote_names local_addresses (values addresses) all_host_names)

-- Whether all of the exit codes are zero.
abbrev pub all_successful : Dict (ℕ × String) → Bool
all_successful [] = true
all_successful ((index, (exit_code, output_msg)) ∷ rest) = exit_code == 0 && all_successful rest

-- `check_all_hosts_ssh_successful` and `scp_transmit_file`, once the commands are made.
unfoldable pub run_on_all_hosts :
    (exec_command : String → Result (ℕ × String))
    → (commands : List String) → (completed : List ℕ) → Result Bool
unfolding execute_function_multithreaded
run_on_all_hosts exec_command commands completed = do
  exit_codes ← execute_function_multithreaded exec_command commands completed
  (if all_successful exit_codes then ok true else raise system_exit)
